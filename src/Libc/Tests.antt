-- ===== src/Libc/Tests.antt =====
-- The string functions at concrete memories.
use aerogel.Common.{ℕ, ◌≡◌, refl, arith, List, [], ◌∷◌, inr}
use aerogel.Common.Array.{update}
use aerogel.Libc.{Memory, memmove, strncpy}
use aerogel.Libc.Copy.{memmove_lem}
use aerogel.Libc.Strings.{IsString}
use aerogel.Libc.Padding.{strncpy_lem}

-- "ab" at 10, "ac" at 20 and "" at 30
abbrev memory : Memory
memory = update (update (update (update (λ _. 0) 10 b'a') 11 b'b') 20 b'a') 21 b'c'

abbrev ab_text : List ℕ
ab_text = b'a' ∷ b'b' ∷ []

ab : IsString memory 10 (b'a' ∷ b'b' ∷ [])
ab = (refl, omega arith, (refl, omega arith, refl))

ac : IsString memory 20 (b'a' ∷ b'c' ∷ [])
ac = (refl, omega arith, (refl, omega arith, refl))

memmove_lem_example : memmove memory 11 10 2 12 ≡ b'b'
memmove_lem_example = memmove_lem memory 11 10 2 12

-- Asked for four bytes at 40, the call writes a fifth one, at 44.
strncpy_lem_example : strncpy (update memory 44 7) 40 10 4 44 ≡ 0
strncpy_lem_example =
    strncpy_lem (update memory 44 7) 40 10 4 44 (b'a' ∷ b'b' ∷ [])
      (refl, omega arith, (refl, omega arith, refl)) (inr (omega arith))
