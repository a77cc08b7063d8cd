-- ===== src/Libc/Copy.antt =====
-- `memset`, `memcpy`, `memmove` and `memcmp` of libs/libc/src/string.c.
use aerogel.Common.{
  ℕ, zero, suc, ◌+◌, ◌-◌, ◌%◌, ◌≤◌, ◌<◌, ◌≡◌, refl, ap, ◌⊎◌, inl, inr, ◌&&◌, ltb, leb, ◌!=◌,
  if◌then◌else◌, Bool-cases, arith, ◌↔◌,
}
use aerogel.Common.Array.{update}
use aerogel.Common.Int.{pos}
use aerogel.Libc.{Memory, memset, memcpy, copy_down, memmove, memcmp}

-- `memset` fills exactly the `n` bytes from `p` on.
pub memset_lem :
    (m : Memory) (p c n j : ℕ)
    → memset m p c n j ≡ (if leb p j && ltb j (p + n) then c % 256 else m j)
unfolding memset
memset_lem m p c zero j = ground arith
memset_lem m p c (suc n) j = ground (arith, memset_lem (update m p (c % 256)) (p + 1) c n j)

shift : (s d j : ℕ) → d < j → s + 1 + (j - (d + 1)) ≡ s + (j - d)
shift s d j h = omega arith

top : (d n : ℕ) → d + suc n - 1 ≡ d + n
top d n = omega arith

-- `memcpy` is a copy where the target does not start inside the source.
pub memcpy_lem :
    (m : Memory) (d s n j : ℕ)
    → (d ≤ s) ⊎ (s + n ≤ d)
    → memcpy m d s n j ≡ (if leb d j && ltb j (d + n) then m (s + (j - d)) else m j)
unfolding memcpy
memcpy_lem m d s zero j apart = ground arith
memcpy_lem m d s (suc n) j apart = elim (Bool-cases (ltb d j)) [
  | inl after ↦ ground (
    arith,
    memcpy_lem (update m d (m s)) (d + 1) (s + 1) n j (omega arith),
    ap m (shift s d j (ground arith)),
  )
  | inr before ↦
      ground (arith, memcpy_lem (update m d (m s)) (d + 1) (s + 1) n j (omega arith), at_start)
]
  where
    at_start : d ≡ j → m (s + (j - d)) ≡ m s
    at_start e = ap m (omega arith)

copy_down_lem :
    (m : Memory) (d s n j : ℕ)
    → s ≤ d
    → copy_down m (d + n) (s + n) n j ≡ (if leb d j && ltb j (d + n) then m (s + (j - d)) else m j)
unfolding copy_down
copy_down_lem m d s zero j below = ground arith
copy_down_lem m d s (suc n) j below =
    rw (top d n, top s n)
      (ground (arith, copy_down_lem (update m (d + n) (m (s + n))) d s n j below, at_end))
  where
    at_end : d + n ≡ j → m (s + (j - d)) ≡ m (s + n)
    at_end e = ap m (omega arith)

-- `memmove` moves the bytes that the source held before the call, however the regions overlap, and
-- changes nothing outside the target.
pub memmove_lem :
    (m : Memory) (d s n j : ℕ)
    → memmove m d s n j ≡ (if leb d j && ltb j (d + n) then m (s + (j - d)) else m j)
unfolding memmove
memmove_lem m d s n j = elim (Bool-cases (ltb d s)) [
  | inl e ↦ rw e (memcpy_lem m d s n j (inl (ground arith)))
  | inr e ↦ rw e (copy_down_lem m d s n j (ground arith))
]

-- The regions at `p` and `q` hold the same `n` bytes.
abbrev pub SameBytes : Memory → ℕ → ℕ → ℕ → Type 0
SameBytes m p q n = (i : ℕ) → i < n → m (p + i) ≡ m (q + i)

-- `memcmp` is zero exactly if the two regions hold the same bytes.
pub memcmp_iff : (m : Memory) (p q n : ℕ) → (memcmp m p q n ≡ pos 0) ↔ SameBytes m p q n
unfolding memcmp
memcmp_iff m p q zero = (λ _ i h. absurd (omega arith), λ _. refl)
memcmp_iff m p q (suc n) = elim (Bool-cases (m p != m q)) [
  | inl e ↦ rw e (λ h. absurd (ground arith), λ same. absurd (ground (arith, head same)))
  | inr e ↦ rw e (
    λ h. extend (ground arith) ((memcmp_iff m (p + 1) (q + 1) n).0 h),
    λ same. (memcmp_iff m (p + 1) (q + 1) n).1 (tail same),
  )
]
  where
    head : SameBytes m p q (suc n) → m p ≡ m q
    head same =
        let e : p + 0 ≡ p = omega arith in
        let e' : q + 0 ≡ q = omega arith in rw (e, e') at (same 0 (omega arith))

    tail : SameBytes m p q (suc n) → SameBytes m (p + 1) (q + 1) n
    tail same i h =
        let e : p + 1 + i ≡ p + suc i = omega arith in
        let e' : q + 1 + i ≡ q + suc i = omega arith in rw (e, e') (same (suc i) (omega arith))

    extend : m p ≡ m q → SameBytes m (p + 1) (q + 1) n → SameBytes m p q (suc n)
    extend eq rest zero h =
        let e : p + 0 ≡ p = omega arith in let e' : q + 0 ≡ q = omega arith in rw (e, e') eq
    extend eq rest (suc i) h =
        let e : p + suc i ≡ p + 1 + i = omega arith in
        let e' : q + suc i ≡ q + 1 + i = omega arith in rw (e, e') (rest i (omega arith))
