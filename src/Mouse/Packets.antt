-- ===== src/Mouse/Packets.antt =====
-- How drivers/input/ps2_mouse.c keeps in step with the packets.
use aerogel.Common.{
  ℕ, ◌-◌, ◌<◌, ◌≡◌, ◌≢◌, refl, Bool, false, ◌==◌, ◌!=◌, if◌then◌else◌, bit_and, arith, ==_ne, subst,
  sym,
}
use aerogel.Common.Int.{pos, negsuc, ◌+ℤ◌, ◌-ℤ◌}
use aerogel.Mouse.{Mouse, delta, apply_packet, mouse_handler}

-- Three bytes from a packet's start, the first with its fixed bit, give one movement and leave the
-- driver at a packet's start.
pub record Moved (b0 b1 b2 : ℕ) (s t : Mouse) : Type 0 where
  pub start : t.pkt_idx ≡ 0
  pub x : t.x ≡ s.x +ℤ delta b1 (bit_and b0 0x10 != 0)
  pub y : t.y ≡ s.y -ℤ delta b2 (bit_and b0 0x20 != 0)
  pub left : t.left ≡ (bit_and b0 0x01 != 0)
  pub right : t.right ≡ (bit_and b0 0x02 != 0)
  pub middle : t.middle ≡ (bit_and b0 0x04 != 0)

at_start :
    (b0 b1 b2 : ℕ) (s : Mouse)
    → (bit_and b0 0x08 == 0) ≡ false
    → let s0 : Mouse = record s { pkt_idx = 0 } in
      Moved b0 b1 b2 s0 (mouse_handler b2 (mouse_handler b1 (mouse_handler b0 s0)))
unfolding mouse_handler apply_packet
at_start b0 b1 b2 s plain =
    rw plain (record { start = refl; x = refl; y = refl; left = refl; right = refl; middle = refl })

-- A whole packet, whose first byte has its fixed bit, moves the position by the two signed deltas,
-- sets the three buttons and leaves the driver at a packet's start.
pub packet_lem :
    (b0 b1 b2 : ℕ) {s : Mouse}
    → s.pkt_idx ≡ 0
    → bit_and b0 0x08 ≢ 0
    → Moved b0 b1 b2 s (mouse_handler b2 (mouse_handler b1 (mouse_handler b0 s)))
packet_lem b0 b1 b2 {s} start fixed =
    subst (λ t. Moved b0 b1 b2 t (mouse_handler b2 (mouse_handler b1 (mouse_handler b0 t))))
      (λ i. record s { pkt_idx = start_path i }) (at_start b0 b1 b2 s (==_ne _ 0 fixed))
  where
    start_path : 0 ≡ s.pkt_idx
    start_path = sym start

-- The signed deltas are the numbers of nine bits in two's complement.
pub delta_lem :
    (byte : ℕ) (sign : Bool)
    → byte < 256
    → delta byte sign ≡ (if sign then negsuc (255 - byte) else pos byte)
unfolding delta
delta_lem byte sign low = ground arith

-- The driver is never further than two bytes into a packet.
pub mouse_handler-lt : (byte : ℕ) (s : Mouse) → s.pkt_idx < 3 → (mouse_handler byte s).pkt_idx < 3
unfolding mouse_handler apply_packet
mouse_handler-lt byte s h = ground arith

-- At a packet's start a byte without the fixed bit is dropped.
pub resync :
    (byte : ℕ) (s : Mouse) → s.pkt_idx ≡ 0 → bit_and byte 0x08 ≡ 0 → mouse_handler byte s ≡ s
unfolding mouse_handler
resync byte s start none_fixed = rw (start, none_fixed)
