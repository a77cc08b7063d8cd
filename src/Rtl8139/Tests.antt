-- ===== src/Rtl8139/Tests.antt =====
-- A poll that finds a frame of 60 bytes at the end of the ring.
use aerogel.Common.{ℕ, refl, arith, true, [], ◌∷◌, ◌==◌, if◌then◌else◌}
use aerogel.Common.Array.{Array}
use aerogel.Io.{Bus}
use aerogel.Rtl8139.{Card, poll}
use aerogel.Rtl8139.Ring.{IsPolled, poll-IsPolled}

abbrev card : Card
card = record { io_base = 0xC000; tx_bufs = λ _ _. 0; tx_cur = 0; rx_ptr = 8188; present = true }

abbrev view : Array ℕ
view i = if i == 8190 then 64 else 0

-- The status says that a frame is there, then the card that its buffer is not empty, then that it is.
abbrev wires : Bus
wires = record { answers = λ i. if i == 1 then 0 else 1; reads = 0; outs = [] }

poll-IsPolled_example : IsPolled (poll (view ∷ view ∷ []) card wires)
poll-IsPolled_example = poll-IsPolled (view ∷ view ∷ []) card wires refl (omega arith)
