-- ===== src/Rtl8139/Ring.antt =====
-- The frames that `rtl8139_poll` of drivers/net/rtl8139.c passes on.
use aerogel.Common.{
  ℕ, ◌+◌, ◌-◌, ◌%◌, ◌^◌, ◌<◌, ◌≤◌, ◌≡◌, arith, not, ◌||◌, ◌==◌, ltb, Bool-cases, inl, inr, List, [],
  ◌∷◌, ◌++◌, All,
}
use aerogel.Common.Array.{Array}
use aerogel.Io.{out16, Bus, inb, inw, send}
use aerogel.Rtl8139.{
  rx_buf_size, rtl_capr, Card, frame_length, next_ptr, Polled, poll_loop, poll_status, poll,
}

-- The frame, behind its header of 4 bytes, lies in the receive buffer, and no longer than 1510 bytes.
abbrev pub InBuffer : ℕ × ℕ → Type 0
InBuffer (at, len) = (4 ≤ at) × (at + len ≤ rx_buf_size) × (len ≤ 1510)

-- The pointer is one that the card uses, and the frames lie in the buffer.
abbrev pub IsPolled : Polled → Type 0
IsPolled s = (s.rx_ptr % 4 ≡ 0) × (s.rx_ptr < 2 ^ 16) × All InBuffer s.frames

All-append :
    (xs : List (ℕ × ℕ)) (x : ℕ × ℕ) → All InBuffer xs → InBuffer x → All InBuffer (xs ++ x ∷ [])
All-append [] x h hx = (hx, tt)
All-append (y ∷ xs) x h hx = (h.0, All-append xs x h.1 hx)

poll_loop-IsPolled :
    (views : List (Array ℕ)) (io_base : ℕ) (s : Polled)
    → s.rx_ptr % 4 ≡ 0
    → s.rx_ptr < 2 ^ 16
    → All InBuffer s.frames
    → IsPolled (poll_loop views io_base s)
unfolding poll_loop
poll_loop-IsPolled [] io_base s even low frames = (even, low, frames)
poll_loop-IsPolled (rx ∷ views) io_base s even low frames =
    elim (Bool-cases ((inb s.bus).0 % 2 == 1)) [
      | inl over ↦ rw over (even, low, frames)
      | inr more ↦
          rw more
            (elim (Bool-cases (
              ltb (frame_length rx (s.rx_ptr % 8192)) 4
              || ltb 1514 (frame_length rx (s.rx_ptr % 8192)))) [
                | inl bad ↦ rw bad (even, low, frames)
                | inr good ↦ rw good (
                    poll_loop-IsPolled views io_base
                      (record {
                        rx_ptr = next_ptr s.rx_ptr plen;
                        frames = s.frames ++ (s.rx_ptr % 8192 + 4, plen - 4) ∷ [];
                        bus =
                            send
                              (out16 (io_base + rtl_capr)
                                ((next_ptr s.rx_ptr plen + 2 ^ 16 - 16) % 2 ^ 16))
                              (inb s.bus).1;
                      })
                      (omega arith) (omega arith)
                      (All-append s.frames (s.rx_ptr % 8192 + 4, plen - 4) frames
                        (omega arith, ground (arith, good), ground (arith, good))))
              ])
    ]
  where
    plen : ℕ
    plen = frame_length rx (s.rx_ptr % 8192)

-- Whatever the card answers and writes to the buffer, from a pointer that is a multiple of 4 below 2 ^ 16
-- every frame that `rtl8139_poll` passes on lies in the receive buffer and has at most 1510 bytes, and the
-- pointer is again such a multiple after every round.
pub poll-IsPolled :
    (views : List (Array ℕ)) (s : Card) (b : Bus)
    → s.rx_ptr % 4 ≡ 0
    → s.rx_ptr < 2 ^ 16
    → IsPolled (poll views s b)
unfolding poll poll_status
poll-IsPolled views s b even low = elim (Bool-cases (not s.present)) [
  | inl absent ↦ rw absent (even, low, tt)
  | inr present ↦ rw present (elim (Bool-cases ((inw b).0 == 0)) [
    | inl quiet ↦ rw quiet (even, low, tt)
    | inr raised ↦ rw raised (elim (Bool-cases ((inw b).0 % 2 == 1)) [
      | inl received ↦ rw received (poll_loop-IsPolled views s.io_base _ even low tt)
      | inr nothing ↦ rw nothing (even, low, tt)
    ])
  ])
]
