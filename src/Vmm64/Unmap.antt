-- ===== src/Vmm64/Unmap.antt =====
-- `vmm_unmap` of arch/x86_64/mm/vmm.c.
use aerogel.Common.{
  subst, ℕ, ◌/◌, ◌^◌, ◌<◌, ◌≡◌, refl, sym, ◌∙◌, arith, true, false, not, ◌&&◌, ◌==◌, ==_iff,
  if◌then◌else◌, Bool-cases, inl, inr,
}
use aerogel.Vmm64.{
  Vmm, is_present, is_huge, frame, pml4i, pdpti, pdi, pti, set_entry, vmm_unmap, vmm_phys,
}
use aerogel.Vmm64.Walk.{look4, vmm_phys-look, IsTree}
use aerogel.Vmm64.Write.{set_entry-IsTree, phys_other, phys_here}
use aerogel.Vmm64.Map.{in_huge}

-- After an unmap of the page of `virt`: no look-up on the page gives an address, unless it lies in a 2 MiB page, and
-- no other look-up has changed.
abbrev pub Unmaps : (virt : ℕ) → Vmm → Vmm → Type 0
Unmaps virt s t =
    IsTree t
    × ((a : ℕ)
        → a < 2 ^ 48
        → vmm_phys a t
          ≡ (if (a / 4096 == virt / 4096) && not (in_huge virt s) then 0 else vmm_phys a s))

module _ (virt : ℕ) (low : virt < 2 ^ 48) (s : Vmm) (v : IsTree s) where
  abbrev e4 : ℕ
  e4 = s.tables s.pml4 (pml4i virt)

  abbrev e3 : ℕ
  e3 = s.tables (frame e4) (pdpti virt)

  abbrev e2 : ℕ
  e2 = s.tables (frame e3) (pdi virt)

  -- where nothing is written
  kept :
      ((a : ℕ) → a / 4096 ≡ virt / 4096 → in_huge virt s ≡ false → look4 s.tables s.pml4 a ≡ 0)
      → Unmaps virt s s
  kept gone = (
    v,
    λ a a_low. elim (Bool-cases (a / 4096 == virt / 4096)) [
      | inr apart ↦ rw apart refl
      | inl same ↦ elim (Bool-cases (in_huge virt s)) [
        | inl inside ↦ rw (same, inside) refl
        | inr outside ↦
            rw (same, outside)
              (vmm_phys-look a s ∙ gone a ((==_iff (a / 4096) (virt / 4096)).0 same) outside)
      ]
    ],
  )

  written :
      is_present e4 ≡ true
      → is_present e3 ≡ true
      → is_present e2 ≡ true
      → is_huge e2 ≡ false
      → Unmaps virt s (set_entry (frame e2) (pti virt) 0 s)
  written p4 p3 p2 small =
      let k4 =
        v.child s.pml4 (pml4i virt) (omega (arith, v.root.0)) (omega arith) p4
          (λ two. absurd (omega (arith, two, v.root.0))) in
      let k3 =
        v.child (frame e4) (pdpti virt) (omega (arith, k4.0, v.root.0)) (omega arith) p3
          (λ two. absurd (omega (arith, two, k4.0, v.root.0))) in
      let k2 =
        v.child (frame e3) (pdi virt) (omega (arith, k3.0, k4.0, v.root.0)) (omega arith) p2
          (λ _. small) in
      let leaf : (v.level (frame e2) ≡ 1) × (v.prefix (frame e2) ≡ virt / 2 ^ 21) = (
        omega (arith, k2.0, k3.0, k4.0, v.root.0),
        omega (arith, k2.1, k3.1, k4.1, v.root.1, low),
      ) in
      let outside : in_huge virt s ≡ false = rw (p4, p3, small) refl in
      (
        set_entry-IsTree s v virt (frame e2) 0 low leaf,
        λ a a_low. elim (Bool-cases (a / 4096 == virt / 4096)) [
          | inl same ↦
              rw (same, outside)
                (phys_here s v virt (frame e2) 0 low leaf (frame e4) (frame e3) (p4, refl)
                  (p3, refl) (p2, refl) small
                  (omega (arith, k4.0, v.root.0), omega (arith, k3.0, k4.0, v.root.0)) a
                  ((==_iff (a / 4096) (virt / 4096)).0 same))
          | inr apart ↦
              rw apart (phys_other s v virt (frame e2) 0 low leaf a a_low (ground (arith, apart)))
        ],
      )

  unmap_same :
      (is_present e4 && is_present e3 && is_present e2 && not (is_huge e2)) ≡ false
      → vmm_unmap virt s ≡ s
  unfolding vmm_unmap
  unmap_same h = ground (arith, h)

  unmap_write :
      (is_present e4 && is_present e3 && is_present e2 && not (is_huge e2)) ≡ true
      → vmm_unmap virt s ≡ set_entry (frame e2) (pti virt) 0 s
  unfolding vmm_unmap
  unmap_write h = ground (arith, h)

  no_look :
      (a : ℕ)
      → a / 4096 ≡ virt / 4096
      → (is_present e4 && is_present e3 && is_present e2 && not (is_huge e2)) ≡ false
      → in_huge virt s ≡ false
      → look4 s.tables s.pml4 a ≡ 0
  no_look a same h outside =
      let q4 : pml4i a ≡ pml4i virt = omega (arith, same) in
      let q3 : pdpti a ≡ pdpti virt = omega (arith, same) in
      let q2 : pdi a ≡ pdi virt = omega (arith, same) in
      rw (q4, q3, q2) (ground (arith, h, outside))

  -- Where the tables form a tree `vmm_unmap` keeps it so and takes away the page of an address below 2 ^ 48
  -- alone; a 2 MiB page stays.
  pub vmm_unmap_lem : Unmaps virt s (vmm_unmap virt s)
  vmm_unmap_lem =
      elim (Bool-cases (is_present e4 && is_present e3 && is_present e2 && not (is_huge e2))) [
        | inr stays ↦
            subst (Unmaps virt s) (sym (unmap_same stays))
              (kept (λ a same outside. no_look a same stays outside))
        | inl goes ↦ subst (Unmaps virt s) (sym (unmap_write goes)) (
            written (ground (arith, goes)) (ground (arith, goes)) (ground (arith, goes))
              (ground (arith, goes)))
      ]
