-- ===== src/Pmm/Alloc.antt =====
-- `pmm_alloc` of kernel/mm/pmm.c: which page it takes, and the allocator's invariant.
use aerogel.Common.{
  ℕ, zero, suc, ◌+◌, ◌-◌, ◌*◌, ◌^◌, ◌≤◌, ◌<◌, ◌≡◌, refl, ◌==◌, arith, ◌⊎◌, inl, inr, if◌then◌else◌,
  false, Bool-cases, ==_iff, ◌&&◌, leb, ltb,
}
use native.Mathlib.Nat.{mod-eq_of_lt}
use aerogel.Pmm.{Pmm, page_size, max_pages, test_page, set_page, take_page, alloc_loop, alloc}
use aerogel.Pmm.Bitmap.{
  IsBytes, test-set, set-IsBytes, test-lt, set_count, set_count-le, set_count_update,
}

-- The bitmap holds bytes, and `used_bytes` counts the pages marked in it.
pub record IsValid (s : Pmm) : Type 0 where
  pub bytes : IsBytes s.bitmap
  pub counted : s.used_bytes ≡ page_size * set_count s.bitmap max_pages

-- 1 if page `q` is in use, 0 if it is free
abbrev pub used : Pmm → ℕ → ℕ
used s q = test_page s.bitmap q

-- Between `s` and `t` exactly the pages from `p` to `p + n` changed, from free to in use.
pub record Takes (s t : Pmm) (p n : ℕ) : Type 0 where
  pub first : 1 ≤ p
  pub last : p + n ≤ max_pages
  pub was_free : (q : ℕ) → p ≤ q → q < p + n → used s q ≡ 0
  pub now : (q : ℕ) → used t q ≡ (if leb p q && ltb q (p + n) then 1 else used s q)
  pub bytes_used : t.used_bytes ≡ s.used_bytes + page_size * n
  pub total : t.total_bytes ≡ s.total_bytes

module _ {s : Pmm} (v : IsValid s) where
  -- The count is bounded by the bitmap, so the 64-bit counter never wraps.
  pub used_bytes-le : s.used_bytes ≤ 2 ^ 31
  used_bytes-le = omega (arith, v.counted, set_count-le s.bitmap max_pages)

  module _ (i : ℕ) (low : i < max_pages) (is_free : used s i ≡ 0) where
    pub set_count-take :
        set_count (set_page s.bitmap i) max_pages ≡ set_count s.bitmap max_pages + 1
    set_count-take = omega (
      arith,
      set_count_update s.bitmap (set_page s.bitmap i) i max_pages low
          (λ j ne. ground (arith, test-set s.bitmap v.bytes i j)),
      test_self,
    )
      where
        test_self : test_page (set_page s.bitmap i) i ≡ 1
        test_self = ground (arith, test-set s.bitmap v.bytes i i)

    pub bytes-take : (take_page i s).used_bytes ≡ s.used_bytes + page_size
    unfolding take_page
    bytes-take = omega (arith, used_bytes-le)

    pub take_page-IsValid : IsValid (take_page i s)
    unfolding take_page
    take_page-IsValid = record {
      bytes = set-IsBytes s.bitmap v.bytes i;
      counted = omega (arith, bytes-take, set_count-take, v.counted, used_bytes-le);
    }

    pub take_page-Takes : 1 ≤ i → Takes s (take_page i s) i 1
    unfolding take_page
    take_page-Takes pos = record {
      first = pos;
      last = omega arith;
      was_free = λ q a b. let e : q ≡ i = omega arith in ground (arith, is_free);
      now = λ q. ground (arith, test-set s.bitmap v.bytes i q);
      bytes_used = omega (arith, bytes-take);
      total = refl;
    }

-- What `pmm_alloc` returns, over the pages from `i` on: the first free one, or 0 when there is none.
abbrev pub AllocResult : ℕ → ℕ → Pmm → ℕ × Pmm → Type 0
AllocResult i end s (addr, t) =
    ((p : ℕ) × (addr ≡ p * page_size)
      × (i ≤ p)
      × Takes s t p 1
      × IsValid t
      × ((q : ℕ) → i ≤ q → q < p → used s q ≡ 1))
    ⊎ ((addr ≡ 0) × (t ≡ s) × ((q : ℕ) → i ≤ q → q < end → used s q ≡ 1))

-- Page `i` is in use, and so are those after it.
used_from :
    (s : Pmm) (i : ℕ)
    → (used s i == 0) ≡ false
    → (q : ℕ) → i ≤ q
    → (i + 1 ≤ q → used s q ≡ 1)
    → used s q ≡ 1
used_from s i e q a next = elim (Bool-cases (i == q)) [
  | inl eq ↦ let e' : i ≡ q = (==_iff i q).0 eq in rw (← e') (ground (arith, test-lt s.bitmap i))
  | inr ne ↦ next (ground arith)
]

module _ (w : ℕ) (wide : 2 ^ 32 ≤ w) {s : Pmm} (v : IsValid s) where
  alloc_loop_lem :
      (n i : ℕ) → 1 ≤ i → i + n ≤ max_pages → AllocResult i (i + n) s (alloc_loop w n i s)
  unfolding alloc_loop
  alloc_loop_lem zero i pos fits = inr (refl, refl, λ q a b. absurd (omega arith))
  alloc_loop_lem (suc n) i pos fits = elim (Bool-cases (used s i == 0)) [
    | inl e ↦ rw e (
        let is_free : used s i ≡ 0 = (==_iff _ 0).0 e in
        let low : i < max_pages = omega arith in
        inl (
          i,
          mod-eq_of_lt {n = i * page_size} {m = w} (omega arith),
          omega arith,
          take_page-Takes v i low is_free pos,
          take_page-IsValid v i low is_free,
          λ q a b. absurd (omega arith),
        ))
    | inr e ↦ rw e (elim (alloc_loop_lem n (i + 1) (omega arith) (omega arith)) [
      | inl (p, addr, above, takes, valid, before) ↦
          inl (p, addr, omega arith, takes, valid, λ q a b. used_from s i e q a (λ c. before q c b))
      | inr (addr, same, full) ↦
          inr (addr, same, λ q a b. used_from s i e q a (λ c. full q c (omega arith)))
    ])
  ]

  -- From a valid state `pmm_alloc` either returns the address of the first free page above page 0
  -- and marks that page alone, or returns 0, changes nothing, and every page above 0 is in use.
  pub alloc_lem : AllocResult 1 max_pages s (alloc w s)
  unfolding alloc
  alloc_lem = alloc_loop_lem (max_pages - 1) 1 (omega arith) (omega arith)

  -- `pmm_alloc` keeps the invariant.
  pub alloc-IsValid : IsValid (alloc w s).1
  alloc-IsValid = elim alloc_lem [
    | inl (p, addr, above, takes, valid, before) ↦ valid
    | inr (addr, same, full) ↦ rw same v
  ]
