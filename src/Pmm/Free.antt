-- ===== src/Pmm/Free.antt =====
-- `pmm_free` of kernel/mm/pmm.c.
use aerogel.Common.{
  ℕ, zero, suc, ◌+◌, ◌-◌, ◌/◌, ◌%◌, ◌^◌, ◌≤◌, ◌<◌, ◌≡◌, ◌≢◌, refl, ap, ◌==◌, arith, ◌⊎◌, inl, inr,
  if◌then◌else◌, Bool-cases, ==_iff, leb,
}
use aerogel.Pmm.{
  Pmm, page_size, max_pages, u64_mod, test_page, clear_page, alloc, free, free_n_loop, free_n,
}
use aerogel.Pmm.Bitmap.{test-clear, clear-IsBytes, test-lt, set_count, set_count_update}
use aerogel.Pmm.Alloc.{IsValid, used, Takes, alloc_lem, used_bytes-le}

-- Between `s` and `t` page `p`, in use before, became free, and nothing else changed.
pub record Frees (s t : Pmm) (p : ℕ) : Type 0 where
  pub last : p < max_pages
  pub was_used : used s p ≡ 1
  pub now : (q : ℕ) → used t q ≡ (if p == q then 0 else used s q)
  pub bytes_used : t.used_bytes + page_size ≡ s.used_bytes
  pub total : t.total_bytes ≡ s.total_bytes
  pub valid : IsValid t

module _ {s : Pmm} (v : IsValid s) (p : ℕ) (low : p < max_pages) (is_used : used s p ≡ 1) where
  set_count-clear : set_count (clear_page s.bitmap p) max_pages + 1 ≡ set_count s.bitmap max_pages
  set_count-clear = omega (
    arith,
    set_count_update s.bitmap (clear_page s.bitmap p) p max_pages low
        (λ j ne. ground (arith, test-clear s.bitmap v.bytes p j)),
    test_self,
  )
    where
      test_self : test_page (clear_page s.bitmap p) p ≡ 0
      test_self = ground (arith, test-clear s.bitmap v.bytes p p)

  cleared : Pmm
  cleared = record s {
    bitmap = clear_page s.bitmap p;
    used_bytes = (s.used_bytes + u64_mod - page_size) % u64_mod;
  }

  bytes-clear : cleared.used_bytes + page_size ≡ s.used_bytes
  unfolding cleared
  bytes-clear = omega (arith, used_bytes-le v, set_count-clear, v.counted)

  cleared-Frees : Frees s cleared p
  unfolding cleared
  cleared-Frees = record {
    last = low;
    was_used = is_used;
    now = λ q. test-clear s.bitmap v.bytes p q;
    bytes_used = bytes-clear;
    total = refl;
    valid = record {
      bytes = clear-IsBytes s.bitmap v.bytes p;
      counted = omega (arith, bytes-clear, set_count-clear, v.counted);
    };
  }

module _ {s : Pmm} (v : IsValid s) (phys : ℕ) where
  -- On an address whose page is below the limit and in use `pmm_free` frees that page alone; on any
  -- other address it changes nothing.
  pub free_lem :
      Frees s (free phys s) (phys / page_size)
      ⊎ ((free phys s ≡ s) × (phys / page_size < max_pages → used s (phys / page_size) ≡ 0))
  unfolding free
  free_lem = elim (Bool-cases (leb max_pages (phys / page_size))) [
    | inl high ↦ rw high (inr (refl, λ low. absurd (ground arith)))
    | inr low ↦ rw low (elim (Bool-cases (used s (phys / page_size) == 0)) [
      | inl e ↦ rw e (inr (refl, λ _. (==_iff _ 0).0 e))
      | inr e ↦ rw e (
          inl (
            unfold cleared in
            cleared-Frees v (phys / page_size) (ground arith)
              (ground (arith, test-lt s.bitmap (phys / page_size)))))
    ])
  ]

  -- `pmm_free` keeps the invariant.
  pub free-IsValid : IsValid (free phys s)
  free-IsValid = elim free_lem [ inl f ↦ f.valid | inr (same, _) ↦ rw same v ]

-- Two states have the same pages in use and the same count of bytes.
pub record SameUse (s t : Pmm) : Type 0 where
  pub pages : (q : ℕ) → used t q ≡ used s q
  pub bytes_used : t.used_bytes ≡ s.used_bytes

free-Takes :
    {s t : Pmm} {p : ℕ}
    → used s p ≡ 0
    → Takes s t p 1
    → IsValid t
    → (addr : ℕ) → addr / page_size ≡ p
    → SameUse s (free addr t)
free-Takes {s} {t} {p} was takes valid addr e = elim (free_lem valid addr) [
  | inl f ↦ record {
    pages = λ q. ground (arith, f.now q, takes.now q, e);
    bytes_used = omega (arith, f.bytes_used, takes.bytes_used);
  }
  | inr (same, unused) ↦
      absurd (omega (arith, unused (omega (arith, takes.last)), ap (used t) e, now_p))
]
  where
    now_p : used t p ≡ 1
    now_p = ground (arith, takes.now p)

-- Freeing the page that `pmm_alloc` has just returned gives back the use that was there before.
pub free-alloc :
    (w : ℕ) {s : Pmm}
    → 2 ^ 32 ≤ w
    → IsValid s
    → (alloc w s).0 ≢ 0
    → SameUse s (free (alloc w s).0 (alloc w s).1)
free-alloc w {s} wide v ne = elim (alloc_lem w wide v) [
  | inl (p, addr, above, takes, valid, before) ↦
      free-Takes (takes.was_free p (omega arith) (omega arith)) takes valid (alloc w s).0
        (omega (arith, addr))
  | inr (addr, same, full) ↦ absurd (ne addr)
]

-- Freeing an address twice is freeing it once.
pub free_twice : {s : Pmm} (phys : ℕ) → IsValid s → free phys (free phys s) ≡ free phys s
free_twice {s} phys v = elim (free_lem (free-IsValid v phys) phys) [
  | inl again ↦ elim (free_lem v phys) [
    | inl f ↦ absurd (ground (arith, again.was_used, f.now (phys / page_size)))
    | inr (same, unused) ↦ rw same same
  ]
  | inr (same, _) ↦ same
]

-- `pmm_free_n` keeps the invariant, whatever it is given.
pub free_n-IsValid : (w phys n : ℕ) {s : Pmm} → IsValid s → IsValid (free_n w phys n s)
unfolding free_n
free_n-IsValid w phys n v = loop n 0 v
  where
    loop : (n i : ℕ) {s : Pmm} → IsValid s → IsValid (free_n_loop w phys n i s)
    loop zero i v = v
    loop (suc n) i v = loop n (i + 1) (free-IsValid v _)
