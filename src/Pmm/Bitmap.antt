-- ===== src/Pmm/Bitmap.antt =====
-- What the three bit operations of pmm.c do to a page, and how many pages are in use.
use aerogel.Common.{
  ℕ, zero, suc, ◌+◌, ◌/◌, ◌%◌, ◌≤◌, ◌<◌, ◌≡◌, ◌≢◌, refl, ◌==◌, arith, inl, inr, if◌then◌else◌,
  Bool-cases, ==_iff,
}
use aerogel.Common.Array.{Array}
use aerogel.Common.Bytes.{bit-with_bit, bit-without_bit}
use aerogel.Pmm.{set_page, clear_page, test_page}

-- Every entry of the array is a byte.
abbrev pub IsBytes : Array ℕ → Type 0
IsBytes m = (i : ℕ) → m i < 256

module _ (m : Array ℕ) (h : IsBytes m) (i j : ℕ) where
  pub test-set : test_page (set_page m i) j ≡ (if i == j then 1 else test_page m j)
  unfolding test_page set_page
  test-set =
      ground
        (arith, bit-with_bit (m (i / 8)) (i % 8) (j % 8) (h (i / 8)) (omega arith) (omega arith))

  pub test-clear : test_page (clear_page m i) j ≡ (if i == j then 0 else test_page m j)
  unfolding test_page clear_page
  test-clear =
      ground
        (arith, bit-without_bit (m (i / 8)) (i % 8) (j % 8) (h (i / 8)) (omega arith) (omega arith))

  pub set-IsBytes : set_page m i j < 256
  unfolding set_page
  set-IsBytes =
      ground
        (arith, h j, bit-with_bit (m (i / 8)) (i % 8) 0 (h (i / 8)) (omega arith) (omega arith))

  pub clear-IsBytes : clear_page m i j < 256
  unfolding clear_page
  clear-IsBytes =
      ground
        (arith, h j, bit-without_bit (m (i / 8)) (i % 8) 0 (h (i / 8)) (omega arith) (omega arith))

pub test-lt : (m : Array ℕ) (i : ℕ) → test_page m i < 2
unfolding test_page
test-lt m i = omega arith

-- the pages below `n` whose bit is set
unfoldable pub set_count : Array ℕ → ℕ → ℕ
set_count m zero = 0
set_count m (suc n) = set_count m n + test_page m n

pub set_count-le : (m : Array ℕ) (n : ℕ) → set_count m n ≤ n
unfolding set_count
set_count-le m zero = omega arith
set_count-le m (suc n) = omega (arith, set_count-le m n, test-lt m n)

pub set_count_same :
    (a b : Array ℕ) (n : ℕ)
    → ((j : ℕ) → j < n → test_page b j ≡ test_page a j)
    → set_count b n ≡ set_count a n
unfolding set_count
set_count_same a b zero same = refl
set_count_same a b (suc n) same =
    omega (arith, same n (omega arith), set_count_same a b n (λ j lt. same j (omega arith)))

-- Two bitmaps that differ at page `i` alone have counts that differ by that page.
pub set_count_update :
    (a b : Array ℕ) (i n : ℕ)
    → i < n
    → ((j : ℕ) → i ≢ j → test_page b j ≡ test_page a j)
    → set_count b n + test_page a i ≡ set_count a n + test_page b i
unfolding set_count
set_count_update a b i zero h same = absurd (omega arith)
set_count_update a b i (suc n) h same = elim (Bool-cases (i == n)) [
  | inl e ↦
      let e' : i ≡ n = (==_iff i n).0 e in
      rw e' (omega (arith, set_count_same a b n (λ j lt. same j (omega arith))))
  | inr e ↦ ground (arith, same n, set_count_update a b i n (ground arith) same)
]
