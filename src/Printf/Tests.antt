-- ===== src/Printf/Tests.antt =====
-- The formatter at concrete formats.
use aerogel.Common.{ℕ, ◌+◌, ◌<◌, ◌^◌, ◌-◌, ◌≡◌, refl, arith, some, List, [], ◌∷◌}
use aerogel.Common.Int.{pos}
use aerogel.Libc.{Memory, atol}
use aerogel.Printf.{word, digit, digits_rev, vsnprintf}
use aerogel.Printf.Text.{convert_text, render}
use aerogel.Printf.Output.{Printed, vsnprintf_lem}
use aerogel.Printf.RoundTrip.{percent_u, atol-vsnprintf}

-- "%d%%" of -7
abbrev minus_seven : List ℕ
minus_seven = b'%' ∷ b'd' ∷ b'%' ∷ b'%' ∷ []

render-minus_seven :
    render (2 ^ 32) minus_seven (word (2 ^ 32 - 7) ∷ []) ≡ some (b'-' ∷ b'7' ∷ b'%' ∷ [])
unfolding render convert_text digits_rev digit
render-minus_seven = refl

-- A buffer of two bytes takes one character; the terminator goes to index 3.
vsnprintf_lem_example :
    (m' : Memory) × (result : ℕ) × (vsnprintf
        (2 ^ 32)
        2
        minus_seven
        (word (2 ^ 32 - 7) ∷ [])
        (λ _. 1)
      ≡ some (m', result))
    × Printed 2 (b'-' ∷ b'7' ∷ b'%' ∷ []) (λ _. 1) m' result
vsnprintf_lem_example =
    vsnprintf_lem (2 ^ 32) 2 minus_seven (word (2 ^ 32 - 7) ∷ []) (λ _. 1) render-minus_seven

-- A field width is not known to the formatter: `%0` prints `?`, and `2x` follows as it stands.
render_width :
    render (2 ^ 32) (b'%' ∷ b'0' ∷ b'2' ∷ b'x' ∷ []) (word 10 ∷ []) ≡ some (b'?' ∷ b'2' ∷ b'x' ∷ [])
unfolding render convert_text
render_width = refl

atol-vsnprintf_example :
    (m' : Memory) × (n : ℕ) × (vsnprintf (2 ^ 32) 16 percent_u (word 1024 ∷ []) (λ _. 1)
      ≡ some (m', n))
    × (n < 16 → n + 1 < 16 → atol (2 ^ 32) 16 m' 0 ≡ some (pos 1024))
atol-vsnprintf_example =
    atol-vsnprintf (2 ^ 32) 16 1024 16 (λ _. 1) (omega arith) (omega arith) (omega arith)
