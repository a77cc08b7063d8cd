-- ===== src/Vmm/Entries.antt =====
-- The entries of the page tables of kernel/mm/vmm.c, and one step of the look-up.
use native.Mathlib.Nat.{div-eq_of_lt}
use aerogel.Common.{
  ℕ, ◌+◌, ◌*◌, ◌/◌, ◌%◌, ◌^◌, ◌<◌, ◌≡◌, refl, ap, ap₂, ◌∙◌, arith, true, false, not, if◌then◌else◌,
  bit_or,
}
use aerogel.Common.Bits.{bit_or-div, bit_or_mod_two, bit_or-zero_right, bit_or-disjoint}
use aerogel.Vmm.{Vmm, is_present, is_large, frame, large_frame, pd_index, pt_index, entry, vmm_phys}

-- What `vmm_phys` makes of the entry `e` of the directory and the entry `t` of its table.
abbrev pub look : (e t virt : ℕ) → ℕ
look e t virt =
    if not (is_present e)
    then 0
    else if is_large e
    then bit_or (large_frame e) (virt % 0x400000)
    else if not (is_present t)
    then 0
    else bit_or (frame t) (virt % 4096)

pub vmm_phys-look :
    (virt : ℕ) (s : Vmm)
    → vmm_phys virt s
      ≡ look
          (s.page_dir (pd_index virt))
          (s.tables (frame (s.page_dir (pd_index virt))) (pt_index virt))
          virt
unfolding vmm_phys
vmm_phys-look virt s = refl

pub look_empty : (e a : ℕ) → (is_present e ≡ true) × (is_large e ≡ false) → look e 0 a ≡ 0
look_empty e a h = rw (h.0, h.1) refl

pub look_absent : (e t a : ℕ) → is_present e ≡ false → look e t a ≡ 0
look_absent e t a h = rw h refl

pub frame-or : (a b : ℕ) → b < 4096 → bit_or (frame a) b ≡ frame a + b
frame-or a b h = bit_or-disjoint 12 (a / 4096) b h

module _ (phys flags : ℕ) where
  pub present-entry : is_present (entry phys flags) ≡ true
  present-entry = ground (arith, bit_or_mod_two (bit_or (frame phys) (flags % 4096)) 1)

  pub frame-entry : frame (entry phys flags) ≡ frame phys
  frame-entry =
      ap (λ x. x * 4096)
        (bit_or-div 12 (bit_or (frame phys) (flags % 4096)) 1
          ∙ bit_or-zero_right (bit_or (frame phys) (flags % 4096) / 4096)
          ∙ ap (λ x. x / 4096) (frame-or phys (flags % 4096) (omega arith))
          ∙ omega arith)

  pub look-entry :
      (e virt : ℕ)
      → is_present e ≡ true
      → is_large e ≡ false
      → look e (entry phys flags) virt ≡ frame phys + virt % 4096
  look-entry e virt p l =
      rw (p, l, present-entry)
        (ap (λ x. bit_or x (virt % 4096)) frame-entry ∙ frame-or phys (virt % 4096) (omega arith))

-- the entry that `vmm_map` writes for a new table
abbrev pub new_entry : ℕ → ℕ
new_entry pa = bit_or (bit_or pa 1) 2

module _ (p : ℕ) where
  pub present-new_entry : is_present (new_entry (p * 4096)) ≡ true
  present-new_entry =
      ground (arith, bit_or_mod_two (bit_or (p * 4096) 1) 2, bit_or_mod_two (p * 4096) 1)

  shifted : (k : ℕ) → 2 < 2 ^ k → new_entry (p * 4096) / 2 ^ k ≡ p * 4096 / 2 ^ k
  shifted k h =
      bit_or-div k (bit_or (p * 4096) 1) 2
      ∙ ap₂ bit_or (bit_or-div k (p * 4096) 1) (div-eq_of_lt h)
      ∙ bit_or-zero_right (bit_or (p * 4096 / 2 ^ k) (1 / 2 ^ k))
      ∙ ap (bit_or (p * 4096 / 2 ^ k)) (div-eq_of_lt (omega arith))
      ∙ bit_or-zero_right (p * 4096 / 2 ^ k)

  pub large-new_entry : is_large (new_entry (p * 4096)) ≡ false
  large-new_entry = ground (arith, shifted 7 (omega arith))

  pub page-new_entry : new_entry (p * 4096) / 4096 ≡ p
  page-new_entry = shifted 12 (omega arith) ∙ omega arith
