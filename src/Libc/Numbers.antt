-- ===== src/Libc/Numbers.antt =====
-- `atol` of libs/libc/src/stdlib.c reads back the decimal digits of a number.
use aerogel.Common.{ℕ, zero, suc, ◌+◌, ◌-◌, ◌*◌, ◌≤◌, ◌<◌, ◌≡◌, arith, some, List, [], ◌∷◌, length}
use aerogel.Common.Int.{pos}
use aerogel.Libc.{Memory, long_max, digits_loop, skip_blanks, atol_at, atol, negate}
use aerogel.Libc.Strings.{IsString}
use aerogel.Printf.Decimal.{value, IsDigits}

value-le : (acc : ℕ) (s : List ℕ) → acc ≤ value acc s
value-le acc [] = omega arith
value-le acc (c ∷ s) = omega (arith, value-le (acc * 10 + (c - 48)) s)

-- The loop reads all the digits of a number that a `long` holds.
digits_loop_lem :
    (w f : ℕ) (m : Memory) (p acc : ℕ) (s : List ℕ)
    → IsString m p s
    → IsDigits s
    → length s < f
    → value acc s ≤ long_max w
    → digits_loop w f m p acc ≡ some (value acc s)
unfolding digits_loop
digits_loop_lem w zero m p acc s h d lt fits = absurd (omega arith)
digits_loop_lem w (suc f) m p acc [] h d lt fits = ground arith
digits_loop_lem w (suc f) m p acc (c ∷ s) h d lt fits = rw (h.0) (
    ground (
      arith,
      value-le (acc * 10 + (c - 48)) s,
      digits_loop_lem w f m (p + 1) (acc * 10 + (c - 48)) s h.2 d.1 (omega arith) fits,
    ))

-- With fuel above the length `atol` reads a string of digits, at least one, as the number that it
-- stands for, if a `long` holds that number; a minus sign in front negates the result.
pub atol_lem :
    (w f : ℕ) (m : Memory) (p : ℕ) (s : List ℕ)
    → IsDigits s
    → length s + 1 < f
    → value 0 s ≤ long_max w
    → 0 < length s
    → (IsString m p s → atol w f m p ≡ some (pos (value 0 s)))
      × (IsString m p (b'-' ∷ s) → atol w f m p ≡ some (negate (value 0 s)))
unfolding atol atol_at skip_blanks
atol_lem w f m p [] d lt fits some_digits = absurd (omega arith)
atol_lem w zero m p (c ∷ s) d lt fits some_digits = absurd (omega arith)
atol_lem w (suc f) m p (c ∷ s) d lt fits some_digits = (
  λ h. ground (arith, digits_loop_lem w (suc f) m p 0 (c ∷ s) h d (omega arith) fits),
  λ h. ground (arith, digits_loop_lem w (suc f) m (p + 1) 0 (c ∷ s) h.2 d (omega arith) fits),
)
