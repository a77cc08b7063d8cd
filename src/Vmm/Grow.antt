-- ===== src/Vmm/Grow.antt =====
-- The new tables of kernel/mm/vmm.c.
use aerogel.Common.{
  ℕ, ◌*◌, ◌/◌, ◌^◌, ◌<◌, ◌≡◌, ◌≢◌, sym, ap, ◌∙◌, subst, arith, true, false, ◌==◌, Bool-cases, inl,
  inr,
}
use aerogel.Common.Array.{update_self, update_ne}
use aerogel.Pmm.{Pmm, page_size}
use aerogel.Pmm.Alloc.{IsValid, used, Takes}
use aerogel.Vmm.{Vmm, is_present, is_large, frame, pd_index, pt_index, add_table, vmm_phys}
use aerogel.Vmm.Entries.{
  look, look_empty, look_absent, vmm_phys-look, new_entry, present-new_entry, large-new_entry,
  page-new_entry,
}
use aerogel.Vmm.Tables.{IsLinked, IsPaged, IsLinked-cases}

-- A new table changes no look-up.
module _ (s : Vmm) (v : IsPaged s) (virt : ℕ) (low : virt < 2 ^ 32)
    (absent : is_present (s.page_dir (pd_index virt)) ≡ false) (p : ℕ) (t : Pmm)
    (takes : Takes s.pmm t p 1) (valid : IsValid t) where
  abbrev grown : Vmm
  grown = add_table (pd_index virt) (p * page_size) (record s { pmm = t })

  page_new : grown.page_dir (pd_index virt) ≡ new_entry (p * page_size)
  unfolding add_table
  page_new = update_self s.page_dir (pd_index virt) (new_entry (p * page_size))

  page_old : (i : ℕ) → i ≢ pd_index virt → grown.page_dir i ≡ s.page_dir i
  unfolding add_table
  page_old i ne =
      update_ne s.page_dir (pd_index virt) i (new_entry (p * page_size)) (λ e. ne (sym e))

  pub add_table-IsLinked : IsLinked grown (pd_index virt)
  add_table-IsLinked =
      (ap is_present page_new ∙ present-new_entry p, ap is_large page_new ∙ large-new_entry p)

  pub page_of_new : grown.page_dir (pd_index virt) / 4096 ≡ p
  page_of_new = ap (λ x. x / 4096) page_new ∙ page-new_entry p

  IsLinked-old : (i : ℕ) → i ≢ pd_index virt → IsLinked grown i → IsLinked s i
  IsLinked-old i ne h = subst (λ e. (is_present e ≡ true) × (is_large e ≡ false)) (page_old i ne) h

  -- No table had the new page.
  page_free : (i : ℕ) → i < 1024 → IsLinked s i → s.page_dir i / 4096 ≢ p
  page_free i h here e =
      let free : used s.pmm p ≡ 0 = takes.was_free p (omega arith) (omega arith) in
      let busy = v.in_use i h here in omega (arith, free, sym (ap (used s.pmm) e) ∙ busy)

  row_new : grown.tables (frame (grown.page_dir (pd_index virt))) ≡ (λ _. 0)
  unfolding add_table
  row_new =
      ap (λ f. grown.tables (f * 4096)) page_of_new ∙ update_self s.tables (p * page_size) (λ _. 0)

  row_old :
      (i : ℕ)
      → i < 1024
      → IsLinked s i
      → grown.tables (frame (s.page_dir i)) ≡ s.tables (frame (s.page_dir i))
  unfolding add_table
  row_old i h here =
      update_ne s.tables (p * page_size) (frame (s.page_dir i)) (λ _. 0)
        (λ e. page_free i h here (omega (arith, e)))

  look_new : (a : ℕ) → pd_index a ≡ pd_index virt → vmm_phys a grown ≡ vmm_phys a s
  look_new a same =
      vmm_phys-look a grown
      ∙ ap (λ i. look (grown.page_dir i) (grown.tables (frame (grown.page_dir i)) (pt_index a)) a)
          same
      ∙ ap (λ row. look (grown.page_dir (pd_index virt)) (row (pt_index a)) a) row_new
      ∙ look_empty (grown.page_dir (pd_index virt)) a add_table-IsLinked
      ∙ sym (
          look_absent (s.page_dir (pd_index virt))
            (s.tables (frame (s.page_dir (pd_index virt))) (pt_index a)) a absent)
      ∙ ap (λ i. look (s.page_dir i) (s.tables (frame (s.page_dir i)) (pt_index a)) a) (sym same)
      ∙ sym (vmm_phys-look a s)

  look_old : (a : ℕ) → a < 2 ^ 32 → pd_index a ≢ pd_index virt → vmm_phys a grown ≡ vmm_phys a s
  look_old a a_low ne =
      vmm_phys-look a grown
      ∙ ap (λ e. look e (grown.tables (frame e) (pt_index a)) a) (page_old (pd_index a) ne)
      ∙ elim (IsLinked-cases s (pd_index a)) [
        | inl here ↦
            ap (λ row. look (s.page_dir (pd_index a)) (row (pt_index a)) a)
              (row_old (pd_index a) (omega arith) here)
        | inr ignored ↦ ignored _ _ a
      ]
      ∙ sym (vmm_phys-look a s)

  pub add_table-look : (a : ℕ) → a < 2 ^ 32 → vmm_phys a grown ≡ vmm_phys a s
  add_table-look a a_low = elim (Bool-cases (pd_index a == pd_index virt)) [
    | inl e ↦ look_new a (ground (arith, e))
    | inr n ↦ look_old a a_low (ground (arith, n))
  ]

  used_still : (q : ℕ) → used s.pmm q ≡ 1 → used t q ≡ 1
  used_still q h = ground (arith, takes.now q, h)

  -- The table of an entry is the new one, or that of another entry.
  page_in_use : (i : ℕ) → i < 1024 → IsLinked grown i → used t (grown.page_dir i / 4096) ≡ 1
  page_in_use i h here = elim (Bool-cases (i == pd_index virt)) [
    | inl e ↦
        let same : i ≡ pd_index virt = ground (arith, e) in
        ap (λ k. used t (grown.page_dir k / 4096)) same
        ∙ ap (used t) page_of_new
        ∙ ground (arith, takes.now p)
    | inr n ↦
        let ne : i ≢ pd_index virt = ground (arith, n) in
        ap (λ e. used t (e / 4096)) (page_old i ne)
        ∙ used_still (s.page_dir i / 4096) (v.in_use i h (IsLinked-old i ne here))
  ]

  new_apart :
      (i : ℕ)
      → i < 1024
      → IsLinked grown i
      → grown.page_dir i / 4096 ≡ grown.page_dir (pd_index virt) / 4096
      → i ≡ pd_index virt
  new_apart i h here e = elim (Bool-cases (i == pd_index virt)) [
    | inl same ↦ ground (arith, same)
    | inr n ↦
        let ne : i ≢ pd_index virt = ground (arith, n) in
        absurd (
          page_free i h (IsLinked-old i ne here)
            (ap (λ x. x / 4096) (sym (page_old i ne)) ∙ e ∙ page_of_new))
  ]

  tables_apart :
      (i j : ℕ)
      → i < 1024
      → j < 1024
      → IsLinked grown i
      → IsLinked grown j
      → grown.page_dir i / 4096 ≡ grown.page_dir j / 4096
      → i ≡ j
  tables_apart i j hi hj ti tj e = elim (Bool-cases (i == pd_index virt)) [
    | inl first ↦
        let same : i ≡ pd_index virt = ground (arith, first) in
        same ∙ sym (new_apart j hj tj (sym e ∙ ap (λ k. grown.page_dir k / 4096) same))
    | inr n ↦ elim (Bool-cases (j == pd_index virt)) [
      | inl second ↦
          let same : j ≡ pd_index virt = ground (arith, second) in
          new_apart i hi ti (e ∙ ap (λ k. grown.page_dir k / 4096) same) ∙ sym same
      | inr n' ↦
          let ne : i ≢ pd_index virt = ground (arith, n) in
          let ne' : j ≢ pd_index virt = ground (arith, n') in
          v.apart i j hi hj (IsLinked-old i ne ti) (IsLinked-old j ne' tj)
            (ap (λ x. x / 4096) (sym (page_old i ne)) ∙ e ∙ ap (λ x. x / 4096) (page_old j ne'))
    ]
  ]

  pub add_table-IsPaged : IsPaged grown
  unfolding add_table
  add_table-IsPaged = record { valid = valid; in_use = page_in_use; apart = tables_apart }
