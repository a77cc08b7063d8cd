-- ===== src/Pmm/Runs.antt =====
-- `pmm_alloc_n` of kernel/mm/pmm.c: runs of pages.
use native.Mathlib.Nat.{mod-eq_of_lt}
use aerogel.Common.{
  ℕ, zero, suc, ◌+◌, ◌-◌, ◌*◌, ◌%◌, ◌^◌, ◌≤◌, ◌<◌, ◌≡◌, ◌≢◌, refl, ◌∙◌, ◌==◌, arith, ◌⊎◌, inl, inr,
  if◌then◌else◌, Bool-cases, ==_iff, ==_ne, leb, false,
}
use aerogel.Pmm.{Pmm, page_size, max_pages, take_page, take_run, alloc_n_loop, alloc_n}
use aerogel.Pmm.Bitmap.{test-lt}
use aerogel.Pmm.Alloc.{IsValid, used, Takes, take_page-IsValid, take_page-Takes}

abbrev AreFree : Pmm → ℕ → ℕ → Type 0
AreFree s p n = (q : ℕ) → p ≤ q → q < p + n → used s q ≡ 0

Takes-append : {s t u : Pmm} {p n : ℕ} → Takes s t p 1 → Takes t u (p + 1) n → Takes s u p (suc n)
Takes-append {s} {t} {u} {p} {n} a b = record {
  first = a.first;
  last = omega (arith, b.last);
  was_free = λ q lo hi. elim (Bool-cases (q == p)) [
    | inl e ↦ let e' : q ≡ p = (==_iff q p).0 e in a.was_free q (omega arith) (omega arith)
    | inr ne ↦ ground (arith, a.now q, b.was_free q (ground arith) (omega arith))
  ];
  now = λ q. ground (arith, a.now q, b.now q);
  bytes_used = omega (arith, a.bytes_used, b.bytes_used);
  total = b.total ∙ a.total;
}

take_run_lem :
    (n j : ℕ) {s : Pmm}
    → IsValid s
    → 1 ≤ j
    → j + n ≤ max_pages
    → AreFree s j n
    → 0 < n
    → IsValid (take_run n j s) × Takes s (take_run n j s) j n
unfolding take_run
take_run_lem zero j v pos fits is_free some_pages = absurd (omega arith)
take_run_lem (suc zero) j {s} v pos fits is_free some_pages =
    let j_free : used s j ≡ 0 = is_free j (omega arith) (omega arith) in
    (take_page-IsValid v j (omega arith) j_free, take_page-Takes v j (omega arith) j_free pos)
take_run_lem (suc (suc n)) j {s} v pos fits is_free some_pages =
    let j_free : used s j ≡ 0 = is_free j (omega arith) (omega arith) in
    let first : Takes s (take_page j s) j 1 = take_page-Takes v j (omega arith) j_free pos in
    let rest =
      take_run_lem (suc n) (j + 1) (take_page-IsValid v j (omega arith) j_free) (omega arith)
        (omega arith)
        (λ q lo hi. ground (arith, first.now q, is_free q (omega arith) (omega arith)))
        (omega arith) in
    (rest.0, Takes-append first rest.1)

-- There is no run of `n` free pages between page 1 and page `end`.
abbrev pub NoRun : Pmm → ℕ → ℕ → Type 0
NoRun s n end = (p : ℕ) → 1 ≤ p → p + n ≤ end → ((q : ℕ) → p ≤ q → q < p + n → used s q ≡ 0) → ⊥

-- What `pmm_alloc_n` returns: a run of free pages, now in use, or 0 when there is none.
abbrev pub RunResult : ℕ → ℕ → Pmm → ℕ × Pmm → Type 0
RunResult want end s (addr, t) =
    ((p : ℕ) × (addr ≡ p * page_size) × Takes s t p want × IsValid t)
    ⊎ ((addr ≡ 0) × (t ≡ s) × NoRun s want end)

-- The loop's invariant at page `i`: the last `run` pages are free, the page before them is not, and
-- no run of the wanted length lies below `i`.
record Scan (s : Pmm) (want i run start : ℕ) : Type 0 where
  short : run < want
  inside : run + 1 ≤ i
  at_start : run ≢ 0 → start + run ≡ i
  is_free : AreFree s (i - run) run
  stopped : 1 < i - run → used s (i - run - 1) ≡ 1
  none_below : NoRun s want i

module _ {s : Pmm} {want i run start : ℕ} (h : Scan s want i run start) where
  NoRun-next : ((p : ℕ) → 1 ≤ p → p + want ≡ i + 1 → AreFree s p want → ⊥) → NoRun s want (i + 1)
  NoRun-next at_end p pos fits free_run = elim (Bool-cases (leb (p + want) i)) [
    | inl e ↦ h.none_below p pos (ground arith) free_run
    | inr e ↦ at_end p pos (ground arith) free_run
  ]

  AreFree-longer : used s i ≡ 0 → AreFree s (i - run) (run + 1)
  AreFree-longer e q lo hi = elim (Bool-cases (q == i)) [
    | inl eq ↦ let e' : q ≡ i = (==_iff q i).0 eq in rw e' e
    | inr ne ↦ h.is_free q lo (omega (arith, h.inside, (λ (p : q ≡ i). ==_ne' q i ne p)))
  ]
    where
      ==_ne' : (a b : ℕ) → (a == b) ≡ false → a ≡ b → ⊥
      ==_ne' a b f p = ground arith

  Scan-longer :
      used s i ≡ 0 → run + 1 ≢ want → Scan s want (i + 1) (run + 1) (if run == 0 then i else start)
  Scan-longer e ne = record {
    short = omega (arith, h.short);
    inside = omega (arith, h.inside);
    at_start = λ _. ground (arith, h.at_start);
    is_free = λ q lo hi. AreFree-longer e q (omega arith) (omega (arith, h.inside));
    stopped = λ lo.
        let e' : i + 1 - (run + 1) - 1 ≡ i - run - 1 = omega arith in
        rw e' (h.stopped (omega arith));
    none_below = NoRun-next (λ p pos end free_run. omega (
      arith,
      h.short,
      h.inside,
      h.stopped (omega (arith, h.short, h.inside)),
      free_run (i - run - 1) (omega (arith, h.short, h.inside)) (omega (arith, h.short, h.inside)),
    ));
  }

  Scan-anew : used s i ≡ 1 → Scan s want (i + 1) 0 start
  Scan-anew e = record {
    short = omega (arith, h.short);
    inside = omega arith;
    at_start = λ ne. absurd (ne refl);
    is_free = λ q lo hi. absurd (omega arith);
    stopped = λ lo. let e' : i + 1 - 0 - 1 ≡ i = omega arith in rw e' e;
    none_below =
        NoRun-next (λ p pos end free_run.
          omega (arith, e, free_run i (omega (arith, h.short)) (omega arith)));
  }

  start-run : (if run == 0 then i else start) + (run + 1) ≡ i + 1
  start-run = ground (arith, h.at_start)

-- The loop ends at a run of the wanted length.
found :
    (w : ℕ) {s : Pmm} {want i run start : ℕ} (end : ℕ)
    → 2 ^ 32 ≤ w
    → IsValid s
    → Scan s want i run start
    → used s i ≡ 0
    → run + 1 ≡ want
    → i < max_pages
    → let p = if run == 0 then i else start in
      RunResult want end s (p * page_size % w, take_run want p s)
found w {s} {want} {i} {run} {start} end wide v h e full low =
    let p : ℕ = if run == 0 then i else start in
    let place : p ≡ i - run = omega (arith, start-run h) in
    let taken =
      take_run_lem want p v (omega (arith, h.inside)) (omega (arith, start-run h))
        (λ q lo hi. AreFree-longer h e q (omega arith) (omega arith)) (omega arith) in
    inl (p, mod-eq_of_lt {n = p * page_size} {m = w} (omega (arith, start-run h)), taken.1, taken.0)

module _ (w : ℕ) (wide : 2 ^ 32 ≤ w) {s : Pmm} (v : IsValid s) (want : ℕ) where
  alloc_n_loop_lem :
      (n i run start : ℕ)
      → i + n ≤ max_pages
      → Scan s want i run start
      → RunResult want (i + n) s (alloc_n_loop w want n i run start s)
  unfolding alloc_n_loop
  alloc_n_loop_lem zero i run start fits h =
      inr (refl, refl, λ p pos end. h.none_below p pos (omega arith))
  alloc_n_loop_lem (suc n) i run start fits h = elim (Bool-cases (used s i == 0)) [
    | inl e ↦ rw e (elim (Bool-cases (run + 1 == want)) [
      | inl full ↦
          rw full
            (found w (i + suc n) wide v h ((==_iff _ 0).0 e) ((==_iff _ want).0 full) (omega arith))
      | inr more ↦ rw more (
          at_end (
            alloc_n_loop_lem n (i + 1) (run + 1) (if run == 0 then i else start) (omega arith)
              (Scan-longer h ((==_iff _ 0).0 e) (ground arith))))
    ])
    | inr e ↦ rw e (
        at_end (
          alloc_n_loop_lem n (i + 1) 0 start (omega arith)
            (Scan-anew h (ground (arith, test-lt s.bitmap i)))))
  ]
    where
      at_end : {r : ℕ × Pmm} → RunResult want (i + 1 + n) s r → RunResult want (i + suc n) s r
      at_end {r} x = let e : i + 1 + n ≡ i + suc n = omega arith in rw e at x

  -- For a nonzero count `pmm_alloc_n` either returns the address of a run of that many free pages
  -- above page 0 and marks those pages alone, or returns 0, changes nothing, and there is no such run.
  pub alloc_n_lem : want ≢ 0 → RunResult want max_pages s (alloc_n w want s)
  unfolding alloc_n
  alloc_n_lem ne = rw (==_ne want 0 ne) (
      alloc_n_loop_lem (max_pages - 1) 1 0 0 (omega arith) (record {
        short = omega arith;
        inside = omega arith;
        at_start = λ c. absurd (c refl);
        is_free = λ q lo hi. absurd (omega arith);
        stopped = λ c. absurd (omega arith);
        none_below = λ p pos fits _. absurd (omega arith);
      }))
