-- ===== src/Printf/RoundTrip.antt =====
-- A number printed by `vsnprintf` and read back by `atol`.
use aerogel.Common.{
  ℕ, suc, ◌+◌, ◌^◌, ◌≤◌, ◌<◌, ◌≡◌, ◌≢◌, ap, ◌∙◌, arith, false, Option, none, some, List, [], ◌∷◌,
  length, get_or, append-nil,
}
use aerogel.Common.Int.{pos}
use aerogel.Libc.{Memory, long_max, atol}
use aerogel.Libc.Strings.{IsString}
use aerogel.Libc.Numbers.{atol_lem}
use aerogel.Printf.{Arg, word, with_rest, vsnprintf}
use aerogel.Printf.Text.{uint_text, prefixed, convert_text, render}
use aerogel.Printf.Output.{Printed, vsnprintf_lem}
use aerogel.Printf.Decimal.{value, IsDigits, uint_text_lem}

-- A memory that holds the digits and then a NUL holds them as a string.
IsString-bytes :
    (m : Memory) (p : ℕ) (t : List ℕ)
    → IsDigits t
    → ((i : ℕ) → i < length t → m (p + i) ≡ get_or t i 0)
    → m (p + length t) ≡ 0
    → IsString m p t
IsString-bytes m p [] d bytes end = let e : p + 0 ≡ p = omega arith in rw e at end
IsString-bytes m p (c ∷ t) d bytes end = (
  let e : p + 0 ≡ p = omega arith in rw e at (bytes 0 (omega arith)),
  omega arith,
  IsString-bytes m (p + 1) t d.1
      (λ i h. let e : p + 1 + i ≡ p + suc i = omega arith in rw e (bytes (suc i) (omega arith)))
      (let e : p + 1 + length t ≡ p + suc (length t) = omega arith in rw e end),
)

Printed-IsString :
    (size : ℕ) (t : List ℕ) {m m' : Memory} {r : ℕ}
    → Printed size t m m' r
    → IsDigits t
    → length t < size
    → IsString m' 0 t
Printed-IsString size t p d fits =
    IsString-bytes _ 0 t d (λ i h. ground (arith, p.bytes (0 + i), at i))
      (ground (arith, p.bytes (0 + length t)))
  where
    at : (i : ℕ) → get_or t (0 + i) 0 ≡ get_or t i 0
    at i = let e : 0 + i ≡ i = omega arith in rw e

abbrev pub percent_u : List ℕ
percent_u = b'%' ∷ b'u' ∷ []

render_u :
    (w v : ℕ) (t : List ℕ)
    → uint_text 10 false v ≡ some t
    → render w percent_u (word v ∷ []) ≡ some t
unfolding render convert_text
render_u w v t e = ap last e ∙ ap some (append-nil t)
  where
    last : Option (List ℕ) → Option (List ℕ)
    last text = elim (with_rest {B = List Arg} text []) [
      | none ↦ none
      | some (t, args) ↦ prefixed t (render w [] args)
    ]

digits_nonempty : (t : List ℕ) (v : ℕ) → value 0 t ≡ v → v ≢ 0 → 0 < length t
digits_nonempty [] v e ne = absurd (ne (omega arith))
digits_nonempty (c ∷ t) v e ne = omega arith

-- A positive number that a `long` holds, of 64 bits at most, is printed by `%u`; if the buffer has room for the text and
-- its terminator, `atol` with fuel above the length reads the same number back from the buffer.
pub atol-vsnprintf :
    (w size v f : ℕ) (m : Memory)
    → 0 < v
    → w ≤ 2 ^ 64
    → v ≤ long_max w
    → (m' : Memory) × (n : ℕ) × (vsnprintf w size percent_u (word v ∷ []) m ≡ some (m', n))
      × (n < size → n + 1 < f → atol w f m' 0 ≡ some (pos v))
atol-vsnprintf w size v f m some_v wide fits =
    let (t, text, val, dig) = uint_text_lem v (omega arith) in
    let (m', n, run, p) = vsnprintf_lem w size percent_u (word v ∷ []) m (render_u w v t text) in
    (
      m',
      n,
      run,
      λ room fuel.
          (atol_lem w f m' 0 t dig (omega (arith, p.returns)) (omega (arith, val))
              (digits_nonempty t v val (omega arith))).0
            (Printed-IsString size t p dig (omega (arith, p.returns)))
          ∙ ap (λ k. some (pos k)) val,
    )
