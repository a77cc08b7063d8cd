-- ===== src/Kprintf.antt =====
-- Printing in the kernel, libs/libk/kprintf.c, and kernel/panic.c. The function that prints a text, which
-- `kprintf_set_backend` sets, is an argument; `S` is what it changes. `buf` is what the stack holds at the
-- buffer and behind it.
pub mod Output
use aerogel.Common.{ℕ, List, [], ◌∷◌, Option, none, some}
use aerogel.Libc.{Memory}
use aerogel.Printf.{Arg, vsnprintf}

abbrev pub buf_size : ℕ
buf_size = 1024

-- `kprint_backend`, which is NULL at first
abbrev pub Backend : Type 0 → Type 0
Backend S = Option (Memory → S → S)

-- "\n[KERNEL PANIC] "
abbrev pub panic_text : List ℕ
panic_text =
    0x0A ∷ b'[' ∷ b'K' ∷ b'E' ∷ b'R' ∷ b'N' ∷ b'E' ∷ b'L' ∷ b' ' ∷ b'P' ∷ b'A' ∷ b'N' ∷ b'I' ∷ b'C'
    ∷ b']' ∷ b' ' ∷ []

module _ {S : Type 0} (backend : Backend S) where
  -- `if (kprint_backend) kprint_backend(buf);`
  pub print_buffer : Memory → S → S
  print_buffer m s = elim backend [ none ↦ s | some print ↦ print m s ]

  pub kvprintf : (w : ℕ) → List ℕ → List Arg → (buf : Memory) → S → Option S
  unfolding print_buffer
  kvprintf w fmt args buf s = elim (vsnprintf w buf_size fmt args buf) [
    | none ↦ none
    | some (m, n) ↦ some (print_buffer m s)
  ]

  -- `kprintf` collects its arguments and then does the same.
  pub kprintf : (w : ℕ) → List ℕ → List Arg → (buf : Memory) → S → Option S
  unfolding kvprintf
  kprintf w fmt args buf s = kvprintf w fmt args buf s

  -- what is printed before the machine stops; `buf2` is the stack of the second call
  pub kpanic : (w : ℕ) → List ℕ → List Arg → (buf buf2 : Memory) → S → Option S
  unfolding kprintf
  kpanic w fmt args buf buf2 s = elim (kprintf w panic_text [] buf s) [
    | none ↦ none
    | some t ↦ kvprintf w fmt args buf2 t
  ]
