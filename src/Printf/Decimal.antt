-- ===== src/Printf/Decimal.antt =====
-- The digits that printf.c prints are those of the number.
use native.Mathlib.Nat.{pow-suc}
use aerogel.Common.{
  ℕ, zero, suc, ◌+◌, ◌-◌, ◌*◌, ◌/◌, ◌%◌, ◌^◌, false, ◌==◌, ◌<◌, ◌≤◌, some, List, [], ◌∷◌, ◌++◌, ◌≡◌,
  refl, arith, Bool-cases, inl, inr, All, ==_iff,
}
use aerogel.Printf.{digit, digits_rev}
use aerogel.Printf.Text.{backwards, uint_text}

-- the number that decimal digits stand for, after the digits that `acc` stands for
abbrev pub value : ℕ → List ℕ → ℕ
value acc [] = acc
value acc (c ∷ s) = value (acc * 10 + (c - 48)) s

abbrev pub IsDigits : List ℕ → Type 0
IsDigits s = All (λ c. (48 ≤ c) × (c ≤ 57)) s

value-append : (acc c : ℕ) (s : List ℕ) → value acc (s ++ c ∷ []) ≡ value acc s * 10 + (c - 48)
value-append acc c [] = refl
value-append acc c (x ∷ s) = value-append (acc * 10 + (x - 48)) c s

IsDigits-append : (c : ℕ) (s : List ℕ) → IsDigits s → (48 ≤ c) × (c ≤ 57) → IsDigits (s ++ c ∷ [])
IsDigits-append c [] h d = (d, tt)
IsDigits-append c (x ∷ s) h d = (h.0, IsDigits-append c s h.1 d)

-- What the array of digits holds, if `v` has at most `f` of them.
digits_rev_lem :
    (f v : ℕ)
    → v < 10 ^ f
    → (ds : List ℕ) × (digits_rev f 10 false v ≡ some ds)
      × (value 0 (backwards ds) ≡ v)
      × IsDigits (backwards ds)
unfolding digits_rev
digits_rev_lem zero v h = ([], ground arith, omega arith, tt)
digits_rev_lem (suc f) v h = elim (Bool-cases (v == 0)) [
  | inl e ↦ ([], rw e, omega (arith, (==_iff v 0).0 e), tt)
  | inr e ↦
      let (ds, eq, val, dig) = digits_rev_lem f (v / 10) (omega (arith, pow-suc 10 f)) in
      let is : digit false (v % 10) ≡ 48 + v % 10 = unfold digit in ground arith in
      (
        digit false (v % 10) ∷ ds,
        rw (e, eq),
        omega (arith, value-append 0 (digit false (v % 10)) (backwards ds), val, is),
        IsDigits-append _ (backwards ds) dig (omega (arith, is)),
      )
]

-- Every number that fits 32 digits has a text, which consists of digits and stands for the number.
pub uint_text_lem :
    (v : ℕ)
    → v < 10 ^ 32
    → (t : List ℕ) × (uint_text 10 false v ≡ some t) × (value 0 t ≡ v) × IsDigits t
uint_text_lem v h = elim (Bool-cases (v == 0)) [
  | inl e ↦ (48 ∷ [], rw e, omega (arith, (==_iff v 0).0 e), ((omega arith, omega arith), tt))
  | inr e ↦ let (ds, eq, val, dig) = digits_rev_lem 32 v h in (backwards ds, rw (e, eq), val, dig)
]
