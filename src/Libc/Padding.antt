-- ===== src/Libc/Padding.antt =====
-- `strncpy` of libs/libc/src/string.c: which bytes it writes.
use aerogel.Common.{
  ℕ, zero, suc, ◌+◌, ◌-◌, ◌<◌, ◌≡◌, ◌⊎◌, inl, inr, ◌&&◌, ltb, leb, ◌==◌, if◌then◌else◌, Bool-cases,
  arith, List, [], ◌∷◌, length, get_or, ==_iff,
}
use aerogel.Common.Array.{update}
use aerogel.Libc.{Memory, strncpy}
use aerogel.Libc.Copy.{memset_lem}
use aerogel.Libc.Strings.{IsString, IsString-update}

-- The bytes that `strncpy` writes: `n`, and one more when it pads.
abbrev pub written : ℕ → List ℕ → ℕ
written n s = if ltb (length s) n then n + 1 else n

get_or_later :
    (c : ℕ) (s : List ℕ) (d j : ℕ) → d < j → get_or (c ∷ s) (j - d) 0 ≡ get_or s (j - (d + 1)) 0
get_or_later c s d j h = let e : j - d ≡ suc (j - (d + 1)) = omega arith in rw e

get_or_start : (c : ℕ) (s : List ℕ) (d : ℕ) → get_or (c ∷ s) (d - d) 0 ≡ c
get_or_start c s d = let e : d - d ≡ 0 = omega arith in rw e

-- Where the source lies clear of what is written, `strncpy` writes the characters of the string and
-- then NULs: `n` bytes if the string has at least `n` characters, and `n + 1` bytes if it is shorter.
pub strncpy_lem :
    (m : Memory) (d p n j : ℕ) (s : List ℕ)
    → IsString m p s
    → (d + n < p) ⊎ (p + length s < d)
    → strncpy m d p n j ≡ (if leb d j && ltb j (d + written n s) then get_or s (j - d) 0 else m j)
unfolding strncpy
strncpy_lem m d p zero j s h apart = ground arith
strncpy_lem m d p (suc n) j [] h apart =
    ground (arith, memset_lem (update m d (m p)) (d + 1) 0 (suc n) j)
strncpy_lem m d p (suc n) j (c ∷ s) h apart =
    let m' : Memory = update m d (m p) in
    let ih =
      strncpy_lem m' (d + 1) (p + 1) n j s (IsString-update m (p + 1) d (m p) s h.2 (omega arith))
        (omega arith) in
    elim (Bool-cases (ltb d j)) [
      | inl after ↦ ground (arith, ih, get_or_later c s d j (ground arith))
      | inr before ↦ elim (Bool-cases (d == j)) [
        | inl e ↦ let e' : d ≡ j = (==_iff d j).0 e in ground (arith, ih, at_start e')
        | inr ne ↦ ground (arith, ih)
      ]
    ]
  where
    at_start : d ≡ j → get_or (c ∷ s) (j - d) 0 ≡ c
    at_start e = rw e (get_or_start c s j)
