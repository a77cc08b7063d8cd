-- ===== src/Rtl8139.antt =====
-- The network card, drivers/net/rtl8139.c, over the port answers of `Io`. The card writes received frames to
-- the receive buffer by itself, so what the buffer holds in each round of a poll is arbitrary.
pub mod Ring
mod Tests
use aerogel.Common.{
  ℕ, zero, suc, ◌+◌, ◌-◌, ◌*◌, ◌/◌, ◌%◌, ◌^◌, Bool, true, false, not, ◌&&◌, ◌||◌, ◌==◌, ltb,
  if◌then◌else◌, List, [], ◌∷◌, ◌++◌, Option, none, some,
}
use aerogel.Common.Array.{Array, update, copy}
use aerogel.Io.{Access, out8, out16, out32, Bus, inb, inw, send}

abbrev pub rx_buf_size : ℕ
rx_buf_size = 8192 + 16 + 1500

abbrev pub tx_count : ℕ
tx_count = 4

-- the registers
abbrev pub rtl_txstatus : ℕ
rtl_txstatus = 0x10

abbrev pub rtl_cmd : ℕ
rtl_cmd = 0x37

abbrev pub rtl_capr : ℕ
rtl_capr = 0x38

abbrev pub rtl_isr : ℕ
rtl_isr = 0x3E

-- the file's static variables, less the receive buffer and the function that frames are passed to
pub record Card : Type 0 where
  pub io_base : ℕ
  pub tx_bufs : Array (Array ℕ)
  pub tx_cur : ℕ
  pub rx_ptr : ℕ
  pub present : Bool

-- `false` for -1
pub send_frame : (frame : Array ℕ) (len : ℕ) → Card → Bus → Bool × Card × Bus
send_frame frame len s b = if not s.present || ltb 1500 len then (false, s, b) else (
  true,
  record s {
    tx_bufs = update s.tx_bufs s.tx_cur (copy 0 0 len frame (s.tx_bufs s.tx_cur));
    tx_cur = (s.tx_cur + 1) % tx_count;
  },
  send (out32 (s.io_base + (rtl_txstatus + s.tx_cur * 4) % 2 ^ 8) len) b,
)

-- The length of the frame whose header is at `off`.
abbrev pub frame_length : Array ℕ → ℕ → ℕ
frame_length rx off = (rx (off + 3) * 2 ^ 8 + rx (off + 2)) % 2 ^ 16

abbrev pub next_ptr : (rx_ptr plen : ℕ) → ℕ
next_ptr rx_ptr plen = (rx_ptr + plen + 4 + 3) / 4 * 4 % 2 ^ 16

-- What a poll leaves: the pointer, the frames passed on, each as its place in the buffer and its length, and
-- the bus.
pub record Polled : Type 0 where
  pub rx_ptr : ℕ
  pub frames : List (ℕ × ℕ)
  pub bus : Bus

-- The loop of `rtl8139_poll`, over what the buffer holds in each round: the state after these rounds, or where
-- the loop ends before.
pub poll_loop : (views : List (Array ℕ)) (io_base : ℕ) → Polled → Polled
poll_loop [] io_base s = s
poll_loop (rx ∷ views) io_base s =
    let (cmd, b) = inb s.bus in
    let off = s.rx_ptr % 8192 in
    let plen = frame_length rx off in
    let ptr = next_ptr s.rx_ptr plen in
    let rest = poll_loop views io_base (record {
      rx_ptr = ptr;
      frames = s.frames ++ (off + 4, plen - 4) ∷ [];
      bus = send (out16 (io_base + rtl_capr) ((ptr + 2 ^ 16 - 16) % 2 ^ 16)) b;
    }) in
    if cmd % 2 == 1
    then (record s { bus = b })
    else if ltb plen 4 || ltb 1514 plen
    then (record s { bus = b })
    else rest

-- the part of `rtl8139_poll` behind the read of the interrupt status `isr`
pub poll_status : (views : List (Array ℕ)) (isr : ℕ) → Card → Bus → Polled
unfolding poll_loop
poll_status views isr s b =
    let b1 = send (out16 (s.io_base + rtl_isr) isr) b in
    if isr == 0
    then (record { rx_ptr = s.rx_ptr; frames = []; bus = b })
    else if isr % 2 == 1
    then poll_loop views s.io_base (record { rx_ptr = s.rx_ptr; frames = []; bus = b1 })
    else (record { rx_ptr = s.rx_ptr; frames = []; bus = b1 })

pub poll : (views : List (Array ℕ)) → Card → Bus → Polled
unfolding poll_status
poll views s b =
    let (isr, b1) = inw b in
    if not s.present
    then (record { rx_ptr = s.rx_ptr; frames = []; bus = b })
    else poll_status views isr s b1
