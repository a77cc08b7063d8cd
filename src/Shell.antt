-- ===== src/Shell.antt =====
-- The line editor and the argument splitter of the shell, userspace/shell/shell.c. The key events that
-- `keyboard_poll` gives, one after the other, are a list; what is echoed is the characters in their order.
pub mod Lines
mod Words
mod Skips
pub mod Args
pub mod Cat
mod Tests
use aerogel.Common.{
  ℕ, zero, suc, ◌+◌, ◌-◌, Bool, true, false, not, ◌&&◌, ◌||◌, ◌==◌, ◌!=◌, ltb, if◌then◌else◌, List,
  [], ◌∷◌, ◌++◌, Option, none, some, length,
}
use aerogel.Common.Array.{Array, update}
use aerogel.Keyboard.{KeyEvent}

abbrev pub cmd_buf : ℕ
cmd_buf = 256

abbrev pub max_args : ℕ
max_args = 16

-- `buf` and `buf_len`, and what is echoed
pub record Line : Type 0 where
  pub buf : Array ℕ
  pub buf_len : ℕ
  pub echo : List ℕ

abbrev pub is_enter : ℕ → Bool
is_enter c = (c == 0x0A) || (c == 0x0D)

-- one round of the loop of `readline` for a key that does not end the line, with a buffer of `size` bytes
pub edit : (size : ℕ) → KeyEvent → Line → Line
edit size e s =
    if not e.pressed
    then s
    else if (e.ascii == 0x08) && ltb 0 s.buf_len
    then record s { buf_len = s.buf_len - 1; echo = s.echo ++ 0x08 ∷ [] }
    else if (e.ascii != 0) && ltb s.buf_len (size - 1)
    then record s {
      buf = update s.buf s.buf_len e.ascii;
      buf_len = s.buf_len + 1;
      echo = s.echo ++ e.ascii ∷ [];
    }
    else s

-- The loop of `readline`: the line and the events that are left, or `none` where no key ends the line.
pub edit_loop : (size : ℕ) → List KeyEvent → Line → Option (Line × List KeyEvent)
unfolding edit
edit_loop size [] s = none
edit_loop size (e ∷ events) s =
    let rest = edit_loop size events (edit size e s) in
    if e.pressed && is_enter e.ascii
    then some (record s { buf = update s.buf s.buf_len 0; echo = s.echo ++ 0x0A ∷ [] }, events)
    else rest

pub readline : List KeyEvent → Line → Option (Line × List KeyEvent)
unfolding edit_loop
readline events s = edit_loop cmd_buf events (record s { buf = λ _. 0; buf_len = 0 })

-- `while (*p == ' ') p++;`
pub skip_spaces : (fuel : ℕ) → Array ℕ → ℕ → Option ℕ
skip_spaces zero m p = none
skip_spaces (suc f) m p = let rest = skip_spaces f m (p + 1) in if m p == b' ' then rest else some p

-- `while (*p && *p != ' ') p++;`
pub skip_word : (fuel : ℕ) → Array ℕ → ℕ → Option ℕ
skip_word zero m p = none
skip_word (suc f) m p =
    let rest = skip_word f m (p + 1) in if (m p != 0) && (m p != b' ') then rest else some p

-- `if (*p) { *p++ = 0; while (*p == ' ') p++; }`
pub end_word : (fuel : ℕ) → Array ℕ → ℕ → Option (Array ℕ × ℕ)
unfolding skip_spaces
end_word f m p = if m p == 0 then some (m, p) else elim (skip_spaces f (update m p 0) (p + 1)) [
  | none ↦ none
  | some q ↦ some (update m p 0, q)
]

-- The loop of `parse_args` with `n` arguments free: the addresses of the arguments and the buffer.
pub args_loop : (fuel n : ℕ) → Array ℕ → ℕ → Option (List ℕ × Array ℕ)
unfolding skip_word end_word
args_loop fuel zero m p = some ([], m)
args_loop fuel (suc n) m p = if m p == 0 then some ([], m) else elim (skip_word fuel m p) [
  | none ↦ none
  | some q ↦ elim (end_word fuel m q) [
    | none ↦ none
    | some (m', p') ↦ elim (args_loop fuel n m' p') [
      | none ↦ none
      | some (args, m2) ↦ some (p ∷ args, m2)
    ]
  ]
]

-- `buf` starts at address 0.
pub parse_args : (fuel : ℕ) → Array ℕ → Option (List ℕ × Array ℕ)
unfolding skip_spaces args_loop
parse_args fuel m = elim (skip_spaces fuel m 0) [
  | none ↦ none
  | some p ↦ args_loop fuel max_args m p
]
