-- ===== src/Vmm64/Walk.antt =====
-- The look-up in the four levels of tables of arch/x86_64/mm/vmm.c, level by level.
use aerogel.Common.{
  ℕ, ◌+◌, ◌*◌, ◌/◌, ◌%◌, ◌<◌, ◌≤◌, ◌≡◌, ◌≢◌, refl, ap, arith, true, false, not, if◌then◌else◌,
  Bool-cases, ◌⊎◌, inl, inr, bit_or,
}
use aerogel.Common.Array.{Array}
use aerogel.Pmm.Alloc.{IsValid, used}
use aerogel.Vmm64.{
  Vmm, is_present, is_huge, frame, huge_frame, pml4i, pdpti, pdi, pti, table_entry, vmm_phys,
}
use aerogel.Vmm.Entries.{present-new_entry, large-new_entry, page-new_entry}

-- one step: the table that the entry points to
abbrev pub follow : ℕ → (ℕ → ℕ) → ℕ
follow e next = if not (is_present e) then 0 else next (frame e)

abbrev pub look1 : Array (Array ℕ) → (t virt : ℕ) → ℕ
look1 m t virt = follow (m t (pti virt)) (λ page. bit_or page (virt % 4096))

abbrev pub look2 : Array (Array ℕ) → (t virt : ℕ) → ℕ
look2 m t virt =
    let e = m t (pdi virt) in
    if not (is_present e)
    then 0
    else if is_huge e
    then bit_or (huge_frame e) (virt % 0x200000)
    else look1 m (frame e) virt

abbrev pub look3 : Array (Array ℕ) → (t virt : ℕ) → ℕ
look3 m t virt = follow (m t (pdpti virt)) (λ c. look2 m c virt)

abbrev pub look4 : Array (Array ℕ) → (t virt : ℕ) → ℕ
look4 m t virt = follow (m t (pml4i virt)) (λ c. look3 m c virt)

pub vmm_phys-look : (virt : ℕ) (s : Vmm) → vmm_phys virt s ≡ look4 s.tables s.pml4 virt
unfolding vmm_phys
vmm_phys-look virt s = refl

-- The tables form a tree: the level of a table, 0 for no table, and the part of the address that leads to it;
-- each table has a page of its own, which is in use.
pub record IsTree (s : Vmm) : Type 0 where
  pub level : ℕ → ℕ
  pub prefix : ℕ → ℕ
  pub valid : IsValid s.pmm
  pub root : (level s.pml4 ≡ 4) × (prefix s.pml4 ≡ 0)
  pub child :
      (t i : ℕ)
      → 2 ≤ level t
      → i < 512
      → is_present (s.tables t i) ≡ true
      → (level t ≡ 2 → is_huge (s.tables t i) ≡ false)
      → (level (frame (s.tables t i)) + 1 ≡ level t)
        × (prefix (frame (s.tables t i)) ≡ prefix t * 512 + i)
  pub in_use : (t : ℕ) → level t ≢ 0 → (t ≡ t / 4096 * 4096) × (used s.pmm (t / 4096) ≡ 1)

-- Where the tables of a tree differ only in an entry that was not present and now leads to an empty page, no
-- look-up changes.
module _ (s : Vmm) (v : IsTree s) (m : Array (Array ℕ)) (p : ℕ)
    (changed : (t i : ℕ)
      → v.level t ≢ 0
      → (m t i ≡ s.tables t i)
        ⊎ ((is_present (s.tables t i) ≡ false)
            × (m t i ≡ table_entry (p * 4096))
            × (2 ≤ v.level t)))
    (blank : (i : ℕ) → m (p * 4096) i ≡ 0) (virt : ℕ) where
  frame_new : frame (table_entry (p * 4096)) ≡ p * 4096
  frame_new = ap (λ x. x * 4096) (page-new_entry p)

  look1_same : (t : ℕ) → v.level t ≡ 1 → look1 m t virt ≡ look1 s.tables t virt
  look1_same t h = elim (changed t (pti virt) (omega (arith, h))) [
    | inl e ↦ rw e refl
    | inr (absent, new, deep) ↦ absurd (omega (arith, deep, h))
  ]

  look2_same : (t : ℕ) → v.level t ≡ 2 → look2 m t virt ≡ look2 s.tables t virt
  look2_same t h = elim (changed t (pdi virt) (omega (arith, h))) [
    | inl e ↦ rw e (elim (Bool-cases (is_present (s.tables t (pdi virt)))) [
      | inr absent ↦ rw absent refl
      | inl there ↦ elim (Bool-cases (is_huge (s.tables t (pdi virt)))) [
        | inl huge ↦ rw (there, huge) refl
        | inr small ↦
            rw (there, small)
              (look1_same (frame (s.tables t (pdi virt))) (
                omega (
                  arith,
                  v.child t (pdi virt) (omega (arith, h)) (omega arith) there (λ _. small),
                  h,
                )))
      ]
    ])
    | inr (absent, new, deep) ↦
        rw (new, absent, present-new_entry p, large-new_entry p, frame_new, blank (pti virt)) refl
  ]

  look3_same : (t : ℕ) → v.level t ≡ 3 → look3 m t virt ≡ look3 s.tables t virt
  look3_same t h = elim (changed t (pdpti virt) (omega (arith, h))) [
    | inl e ↦ rw e (elim (Bool-cases (is_present (s.tables t (pdpti virt)))) [
      | inr absent ↦ rw absent refl
      | inl there ↦ rw there (
          look2_same (frame (s.tables t (pdpti virt))) (
            omega (
              arith,
              v.child t (pdpti virt) (omega (arith, h)) (omega arith) there
                  (λ two. absurd (omega (arith, two, h))),
              h,
            )))
    ])
    | inr (absent, new, deep) ↦
        rw (new, absent, present-new_entry p, frame_new, blank (pdi virt)) refl
  ]

  pub look4_same : (t : ℕ) → v.level t ≡ 4 → look4 m t virt ≡ look4 s.tables t virt
  look4_same t h = elim (changed t (pml4i virt) (omega (arith, h))) [
    | inl e ↦ rw e (elim (Bool-cases (is_present (s.tables t (pml4i virt)))) [
      | inr absent ↦ rw absent refl
      | inl there ↦ rw there (
          look3_same (frame (s.tables t (pml4i virt))) (
            omega (
              arith,
              v.child t (pml4i virt) (omega (arith, h)) (omega arith) there
                  (λ two. absurd (omega (arith, two, h))),
              h,
            )))
    ])
    | inr (absent, new, deep) ↦
        rw (new, absent, present-new_entry p, frame_new, blank (pdpti virt)) refl
  ]
