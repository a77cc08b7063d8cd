-- ===== src/Vmm/Tables.antt =====
-- The tables of kernel/mm/vmm.c and their pages, and the write of an entry.
use aerogel.Common.{
  ℕ, ◌/◌, ◌^◌, ◌<◌, ◌≡◌, ◌≢◌, refl, sym, ap, ap₂, ◌∙◌, arith, true, false, ◌==◌, if◌then◌else◌,
  Bool-cases, ◌⊎◌, inl, inr,
}
use aerogel.Common.Array.{Array, update, update_self, update_ne}
use aerogel.Pmm.Alloc.{IsValid, used}
use aerogel.Vmm.{Vmm, is_present, is_large, frame, pd_index, pt_index, set_entry, vmm_phys}
use aerogel.Vmm.Entries.{look, vmm_phys-look}

-- Entry `i` of the directory points to a table.
abbrev pub IsLinked : Vmm → ℕ → Type 0
IsLinked s i = (is_present (s.page_dir i) ≡ true) × (is_large (s.page_dir i) ≡ false)

-- The tables have pages of their own, which are in use.
pub record IsPaged (s : Vmm) : Type 0 where
  pub valid : IsValid s.pmm
  pub in_use : (i : ℕ) → i < 1024 → IsLinked s i → used s.pmm (s.page_dir i / 4096) ≡ 1
  pub apart :
      (i j : ℕ)
      → i < 1024
      → j < 1024
      → IsLinked s i
      → IsLinked s j
      → s.page_dir i / 4096 ≡ s.page_dir j / 4096
      → i ≡ j

pub IsLinked-cases :
    (s : Vmm) (i : ℕ)
    → IsLinked s i ⊎ ((t t' virt : ℕ) → look (s.page_dir i) t virt ≡ look (s.page_dir i) t' virt)
IsLinked-cases s i = elim (Bool-cases (is_present (s.page_dir i))) [
  | inl p ↦ elim (Bool-cases (is_large (s.page_dir i))) [
    | inl l ↦ inr (λ t t' virt. rw (p, l) refl)
    | inr l ↦ inl (p, l)
  ]
  | inr p ↦ inr (λ t t' virt. rw p refl)
]

-- Writing an entry of a table changes the look-up on its page alone.
module _ (s : Vmm) (v : IsPaged s) (virt x : ℕ) (low : virt < 2 ^ 32)
    (here : IsLinked s (pd_index virt)) where
  abbrev at : ℕ
  at = s.page_dir (pd_index virt)

  tables_after : Array (Array ℕ)
  tables_after = update s.tables (frame at) (update (s.tables (frame at)) (pt_index virt) x)

  entry_same :
      (a : ℕ)
      → a / 4096 ≡ virt / 4096
      → look
          (s.page_dir (pd_index a))
          (tables_after (frame (s.page_dir (pd_index a))) (pt_index a))
          a
        ≡ look at x a
  unfolding tables_after
  entry_same a e =
      ap₂ (λ i j. look (s.page_dir i) (tables_after (frame (s.page_dir i)) j) a) (omega arith)
        (omega arith)
      ∙ ap (λ row. look at (row (pt_index virt)) a)
          (update_self s.tables (frame at) (update (s.tables (frame at)) (pt_index virt) x))
      ∙ ap (λ t. look at t a) (update_self (s.tables (frame at)) (pt_index virt) x)

  entry_other :
      (a : ℕ)
      → a < 2 ^ 32
      → a / 4096 ≢ virt / 4096
      → IsLinked s (pd_index a)
      → tables_after (frame (s.page_dir (pd_index a))) (pt_index a)
        ≡ s.tables (frame (s.page_dir (pd_index a))) (pt_index a)
  unfolding tables_after
  entry_other a a_low ne t = elim (Bool-cases (pd_index a == pd_index virt)) [
    | inl e ↦
        let same : pd_index a ≡ pd_index virt = ground (arith, e) in
        ap (λ i. tables_after (frame (s.page_dir i)) (pt_index a)) same
        ∙ ap (λ row. row (pt_index a))
            (update_self s.tables (frame at) (update (s.tables (frame at)) (pt_index virt) x))
        ∙ update_ne (s.tables (frame at)) (pt_index virt) (pt_index a) x (omega arith)
        ∙ ap (λ i. s.tables (frame (s.page_dir i)) (pt_index a)) (sym same)
    | inr n ↦
        ap (λ row. row (pt_index a))
          (update_ne s.tables (frame at) (frame (s.page_dir (pd_index a)))
            (update (s.tables (frame at)) (pt_index virt) x)
            (λ f.
              let same =
                v.apart (pd_index a) (pd_index virt) (omega arith) (omega arith) t here
                  (omega (arith, f)) in
              ground (arith, same, n)))
  ]

  pub set_entry-look :
      (a : ℕ)
      → a < 2 ^ 32
      → vmm_phys a (set_entry (frame at) (pt_index virt) x s)
        ≡ (if a / 4096 == virt / 4096 then look at x a else vmm_phys a s)
  unfolding set_entry tables_after
  set_entry-look a a_low =
      vmm_phys-look a (set_entry (frame at) (pt_index virt) x s)
      ∙ elim (Bool-cases (a / 4096 == virt / 4096)) [
        | inl e ↦ rw e (entry_same a (ground (arith, e)))
        | inr e ↦ rw e (elim (IsLinked-cases s (pd_index a)) [
          | inl t ↦
              ap (λ y. look (s.page_dir (pd_index a)) y a)
                (entry_other a a_low (ground (arith, e)) t)
              ∙ sym (vmm_phys-look a s)
          | inr ignored ↦ ignored _ _ a ∙ sym (vmm_phys-look a s)
        ])
      ]

  pub set_entry-IsPaged : IsPaged (set_entry (frame at) (pt_index virt) x s)
  unfolding set_entry
  set_entry-IsPaged = record { valid = v.valid; in_use = v.in_use; apart = v.apart }
