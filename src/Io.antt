-- ===== src/Io.antt =====
-- Port input and output, kernel/include/io.h. The devices are not part of the program: what they
-- answer is a stream of words, one for each read, and a claim is made for every stream.
use aerogel.Common.{ℕ, ◌+◌, ◌%◌, ◌^◌, List, ◌∷◌}
use aerogel.Common.Array.{Array}

-- a write: how many bytes, the port and the value
pub data Access : Type 0 where
  out8 : ℕ → ℕ → Access
  out16 : ℕ → ℕ → Access
  out32 : ℕ → ℕ → Access

-- `reads` counts the reads so far, and `outs` holds the writes, the newest first.
pub record Bus : Type 0 where
  pub answers : Array ℕ
  pub reads : ℕ
  pub outs : List Access

abbrev pub inb : Bus → ℕ × Bus
inb b = (b.answers b.reads % 2 ^ 8, record b { reads = b.reads + 1 })

abbrev pub inw : Bus → ℕ × Bus
inw b = (b.answers b.reads % 2 ^ 16, record b { reads = b.reads + 1 })

-- `outb`, `outw` or `outl`
abbrev pub send : Access → Bus → Bus
send a b = record b { outs = a ∷ b.outs }
