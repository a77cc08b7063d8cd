-- ===== src/Shell/Tests.antt =====
-- The line ` ls  /tmp `, read and split.
use aerogel.Common.{ℕ, ◌≡◌, refl, arith, true, List, [], ◌∷◌, some, take, get_or}
use aerogel.Common.Array.{Array}
use aerogel.Libc.Strings.{IsString}
use aerogel.Keyboard.{KeyEvent}
use aerogel.Shell.{Line, cmd_buf, max_args, readline, parse_args}
use aerogel.Shell.Lines.{Reads, keys, readline-Reads}
use aerogel.Shell.Words.{words}
use aerogel.Shell.Args.{Args, parse_args_lem}

abbrev press : ℕ → KeyEvent
press c = record { scancode = 0; ascii = c; modifiers = 0; pressed = true }

abbrev empty : Line
empty = record { buf = λ _. 0; buf_len = 0; echo = [] }

-- `lx`, backspace, `s`, Enter
abbrev typed : List KeyEvent
typed = press b'l' ∷ press b'x' ∷ press 0x08 ∷ press b's' ∷ press 0x0A ∷ []

readline-Reads_example : Reads cmd_buf (readline typed empty) (keys cmd_buf typed [])
readline-Reads_example = readline-Reads typed empty

typed_lem : keys cmd_buf typed [] ≡ some (b's' ∷ b'l' ∷ [], [])
typed_lem = refl

abbrev line : List ℕ
line = b' ' ∷ b'l' ∷ b's' ∷ b' ' ∷ b' ' ∷ b'/' ∷ b't' ∷ b' ' ∷ []

abbrev text : Array ℕ
text i = get_or line i 0

text-IsString : IsString text 0 line
text-IsString = (
  refl,
  omega arith,
  (
    refl,
    omega arith,
    (
      refl,
      omega arith,
      (
        refl,
        omega arith,
        (refl, omega arith, (refl, omega arith, (refl, omega arith, (refl, omega arith, refl)))),
      ),
    ),
  ),
)

parse_args_lem_example :
    (args : List ℕ) × (m' : Array ℕ) × (parse_args 9 text ≡ some (args, m'))
    × Args m' args (take max_args (words line))
parse_args_lem_example = parse_args_lem 9 text line text-IsString (omega arith)
