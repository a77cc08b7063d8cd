-- ===== src/Mouse.antt =====
-- The mouse driver, drivers/input/ps2_mouse.c: packets of three bytes. The byte that the handler reads
-- from the controller is its argument.
pub mod Packets
use aerogel.Common.{ℕ, ◌+◌, ◌-◌, Bool, true, false, ◌&&◌, ◌==◌, ◌!=◌, ltb, if◌then◌else◌, bit_and}
use aerogel.Common.Array.{Array, update}
use aerogel.Common.Int.{ℤ, pos, sub_ℕ, ◌+ℤ◌, ◌-ℤ◌}

-- `mouse_state_t` with the file's static variables. The position is not bounded here: the C sums are
-- defined while it fits 32 bits.
pub record Mouse : Type 0 where
  pub x : ℤ
  pub y : ℤ
  pub left : Bool
  pub right : Bool
  pub middle : Bool
  pub pkt : Array ℕ
  pub pkt_idx : ℕ

-- `(i32)byte - (sign ? 256 : 0)`
pub delta : ℕ → Bool → ℤ
delta byte sign = sub_ℕ byte (if sign then 256 else 0)

-- the packet in `pkt`, applied to the state
pub apply_packet : Mouse → Mouse
unfolding delta ◌+ℤ◌ ◌-ℤ◌
apply_packet s =
    let b0 = s.pkt 0 in
    record s {
      left = bit_and b0 0x01 != 0;
      right = bit_and b0 0x02 != 0;
      middle = bit_and b0 0x04 != 0;
      x = s.x +ℤ delta (s.pkt 1) (bit_and b0 0x10 != 0);
      y = s.y -ℤ delta (s.pkt 2) (bit_and b0 0x20 != 0);
    }

pub mouse_handler : ℕ → Mouse → Mouse
mouse_handler byte s =
    let s' = record s { pkt = update s.pkt s.pkt_idx byte; pkt_idx = s.pkt_idx + 1 } in
    if (s.pkt_idx == 0) && (bit_and byte 0x08 == 0)
    then s
    else if ltb s'.pkt_idx 3
    then s'
    else apply_packet (record s' { pkt_idx = 0 })
