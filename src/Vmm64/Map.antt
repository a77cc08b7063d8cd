-- ===== src/Vmm64/Map.antt =====
-- `vmm_map`, `vmm_unmap` and `vmm_phys` of arch/x86_64/mm/vmm.c together.
use aerogel.Common.{
  ℕ, ◌+◌, ◌/◌, ◌%◌, ◌^◌, ◌<◌, ◌≡◌, ◌≢◌, refl, sym, ap, ◌∙◌, subst, arith, Bool, true, false, not,
  ◌&&◌, ◌==◌, ==_iff, if◌then◌else◌, Bool-cases, inl, inr, Option, none, some, bit_or,
}
use aerogel.Vmm64.{
  Vmm, is_present, is_huge, frame, pml4i, pdpti, pdi, pti, set_entry, get_or_create, Mapped, done,
  null_table, entry, map_page, map_pd, map_pdpt, vmm_map, vmm_phys,
}
use aerogel.Vmm.Entries.{present-entry, frame-entry, frame-or}
use aerogel.Vmm
use aerogel.Vmm64.Walk.{follow, IsTree}
use aerogel.Vmm64.Grow.{Grown, Got, IsFull, get_or_create_lem}
use aerogel.Vmm64.Write.{At, set_entry-IsTree, phys_other, phys_here}

-- The address lies in a 2 MiB page.
abbrev pub in_huge : ℕ → Vmm → Bool
in_huge virt s =
    let e4 = s.tables s.pml4 (pml4i virt) in
    let e3 = s.tables (frame e4) (pdpti virt) in
    is_present e4 && is_present e3 && is_huge (s.tables (frame e3) (pdi virt))

-- The three tables below the first that hold the entry for the address are there.
abbrev pub has_tables : ℕ → Vmm → Bool
has_tables virt s =
    let e4 = s.tables s.pml4 (pml4i virt) in
    let e3 = s.tables (frame e4) (pdpti virt) in
    is_present e4 && is_present e3 && is_present (s.tables (frame e3) (pdi virt))

-- the look-up of the new entry
follow-entry :
    (phys flags x : ℕ)
    → flags < 4096
    → x < 4096
    → follow (entry phys flags) (λ page. bit_or page x) ≡ frame phys + x
follow-entry phys flags x low in_page =
    let masked : flags % 4096 ≡ flags = omega (arith, low) in
    let same : entry phys flags ≡ Vmm.entry phys flags =
      ap (λ f. bit_or (bit_or (frame phys) f) 1) (sym masked) in
    rw (same, present-entry phys flags, frame-entry phys flags) (frame-or phys x in_page)

-- The entry for the address in the page directory, which `vmm_map` has found or made
module _ (s : Vmm) (v : IsTree s) (virt c3 c2 : ℕ) (s1 s2 : Vmm)
    (g1 : Grown s v s.pml4 (pml4i virt) c3 s1) (g2 : Grown s1 g1.tree c3 (pdpti virt) c2 s2)
    (test : ℕ → Bool) (test_zero : test 0 ≡ false) where
  entry_found : test (s2.tables c2 (pdi virt)) ≡ (
      is_present (s.tables s.pml4 (pml4i virt))
      && is_present (s.tables (frame (s.tables s.pml4 (pml4i virt))) (pdpti virt))
      && test (
          s.tables
            (frame (s.tables (frame (s.tables s.pml4 (pml4i virt))) (pdpti virt)))
            (pdi virt)))
  entry_found =
      ap test (g2.below (pdi virt))
      ∙ (elim (Bool-cases (is_present (s.tables s.pml4 (pml4i virt)))) [
        | inr absent ↦ rw (g1.below (pdpti virt), absent) test_zero
        | inl there ↦
            ap
              (λ (u : Vmm). test (
                if is_present (s1.tables c3 (pdpti virt))
                then u.tables (frame (s1.tables c3 (pdpti virt))) (pdi virt)
                else 0))
              (g1.same there)
            ∙ rw (g1.below (pdpti virt), there)
                (elim (Bool-cases
                  (is_present (s.tables (frame (s.tables s.pml4 (pml4i virt))) (pdpti virt)))) [
                    | inl there3 ↦ rw there3 refl
                    | inr absent3 ↦ rw absent3 test_zero
                  ])
      ])

-- After a map of the page of `virt` the tables form a tree; each look-up on the page gives its place in the frame,
-- unless the page lies in a 2 MiB page, and each other look-up gives what it gave. NULL is used as a table only where
-- one of the three tables for the address was missing and no page is free any more; until then no look-up has
-- changed.
abbrev pub Maps : (virt phys : ℕ) → Vmm → Mapped → Type 0
Maps virt phys s (done t) =
    IsTree t
    × ((a : ℕ)
        → a < 2 ^ 48
        → vmm_phys a t ≡ (
            if (a / 4096 == virt / 4096) && not (in_huge virt s)
            then frame phys + a % 4096
            else vmm_phys a s))
Maps virt phys s (null_table t) =
    (has_tables virt s ≡ false) × IsFull t × IsTree t × ((a : ℕ) → vmm_phys a t ≡ vmm_phys a s)

module _ (virt phys flags : ℕ) (low : virt < 2 ^ 48) (fl : flags < 4096) (s : Vmm)
    (v : IsTree s) where
  module _ (c3 c2 : ℕ) (s1 s2 : Vmm) (g1 : Grown s v s.pml4 (pml4i virt) c3 s1)
      (g2 : Grown s1 g1.tree c3 (pdpti virt) c2 s2) where
    level3 : g1.tree.level c3 ≡ 3
    level3 = omega (arith, g1.child.0, v.root.0)

    level2 : g2.tree.level c2 ≡ 2
    level2 = omega (arith, g2.child.0, level3)

    phys12 : (a : ℕ) → vmm_phys a s2 ≡ vmm_phys a s
    phys12 a = g2.phys a ∙ g1.phys a

    module _ (c1 : ℕ) (s3 : Vmm) (g3 : Grown s2 g2.tree c2 (pdi virt) c1 s3)
        (small : in_huge virt s ≡ false) where
      pml4_same : s3.pml4 ≡ s.pml4
      pml4_same = g3.pml4 ∙ g2.pml4 ∙ g1.pml4

      keeps3 : (x : ℕ) → g1.tree.level x ≢ 0 → g3.tree.level x ≡ g1.tree.level x
      keeps3 x h = let k = g2.keeps x h in (g3.keeps x (omega (arith, k.0, h))).0 ∙ k.0

      in4 : At s3.tables s3.pml4 (pml4i virt) c3
      in4 =
          let h : g1.tree.level s.pml4 ≢ 0 =
            omega (arith, (g1.keeps s.pml4 (omega (arith, v.root.0))).0, v.root.0) in
          let e2 = g2.entries s.pml4 (pml4i virt) h g1.here.0 in
          let e3 =
            g3.entries s.pml4 (pml4i virt) (omega (arith, (g2.keeps s.pml4 h).0, h))
              (ap is_present e2 ∙ g1.here.0) in
          subst (λ x. At s3.tables x (pml4i virt) c3) (sym pml4_same)
            (ap is_present (e3 ∙ e2) ∙ g1.here.0, ap frame (e3 ∙ e2) ∙ g1.here.1)

      in3 : At s3.tables c3 (pdpti virt) c2
      in3 =
          let e =
            g3.entries c3 (pdpti virt)
              (omega (arith, (g2.keeps c3 (omega (arith, level3))).0, level3)) g2.here.0 in
          (ap is_present e ∙ g2.here.0, ap frame e ∙ g2.here.1)

      leaf : (g3.tree.level c1 ≡ 1) × (g3.tree.prefix c1 ≡ virt / 2 ^ 21)
      leaf = (
        omega (arith, g3.child.0, level2),
        omega (arith, g3.child.1, g2.child.1, g1.child.1, v.root.1, low),
      )

      mapped_page :
          (a : ℕ)
          → a / 4096 ≡ virt / 4096
          → vmm_phys a (set_entry c1 (pti virt) (entry phys flags) s3) ≡ frame phys + a % 4096
      mapped_page a same =
          phys_here s3 g3.tree virt c1 (entry phys flags) low leaf c3 c2 in4 in3 g3.here
            (g3.small level2)
            (
              keeps3 c3 (omega (arith, level3)) ∙ level3,
              (g3.keeps c2 (omega (arith, level2))).0 ∙ level2,
            )
            a same
          ∙ follow-entry phys flags (a % 4096) fl (omega arith)

      write-Maps : Maps virt phys s (done (set_entry c1 (pti virt) (entry phys flags) s3))
      write-Maps = (
        set_entry-IsTree s3 g3.tree virt c1 (entry phys flags) low leaf,
        λ a a_low. elim (Bool-cases (a / 4096 == virt / 4096)) [
          | inl same ↦ rw (same, small) (mapped_page a ((==_iff (a / 4096) (virt / 4096)).0 same))
          | inr apart ↦ rw apart (
              phys_other s3 g3.tree virt c1 (entry phys flags) low leaf a a_low
                (ground (arith, apart))
              ∙ g3.phys a
              ∙ phys12 a)
        ],
      )

    from_pt :
        (r : Option ℕ × Vmm)
        → Got s2 g2.tree c2 (pdi virt) r
        → in_huge virt s ≡ false
        → Maps virt phys s (map_page virt phys flags r)
    unfolding map_page
    from_pt (none, s3) (e, absent, full) small = (
      sym (entry_found s v virt c3 c2 s1 s2 g1 g2 is_present refl) ∙ absent,
      full,
      subst IsTree (sym e) g2.tree,
      λ a. ap (vmm_phys a) e ∙ phys12 a,
    )
    from_pt (some c1, s3) g3 small = write-Maps c1 s3 g3 small

  in_huge_same :
      (a : ℕ)
      → in_huge virt s ≡ true
      → vmm_phys a s ≡ (
          if (a / 4096 == virt / 4096) && not (in_huge virt s)
          then frame phys + a % 4096
          else vmm_phys a s)
  in_huge_same a e =
      rw e (elim (Bool-cases (a / 4096 == virt / 4096)) [ inl q ↦ rw q refl | inr q ↦ rw q refl ])

  no_directory :
      is_present (
          if is_present (s.tables s.pml4 (pml4i virt))
          then s.tables (frame (s.tables s.pml4 (pml4i virt))) (pdpti virt)
          else 0)
        ≡ false
      → has_tables virt s ≡ false
  no_directory h = elim (Bool-cases (is_present (s.tables s.pml4 (pml4i virt)))) [
    | inr absent ↦ rw absent refl
    | inl there ↦
        let absent : is_present (s.tables (frame (s.tables s.pml4 (pml4i virt))) (pdpti virt))
            ≡ false =
          sym (
            ap
              (λ b.
                is_present
                  (if b then s.tables (frame (s.tables s.pml4 (pml4i virt))) (pdpti virt) else 0))
              there)
          ∙ h in
        rw (there, absent) refl
  ]

  from_pd :
      (c3 : ℕ) (s1 : Vmm) (g1 : Grown s v s.pml4 (pml4i virt) c3 s1) (r : Option ℕ × Vmm)
      → Got s1 g1.tree c3 (pdpti virt) r
      → Maps virt phys s (map_pd virt phys flags r)
  unfolding map_pd
  from_pd c3 s1 g1 (none, s2) (e, absent, full) = (
    no_directory (sym (ap is_present (g1.below (pdpti virt))) ∙ absent),
    full,
    subst IsTree (sym e) g1.tree,
    λ a. ap (vmm_phys a) e ∙ g1.phys a,
  )
  from_pd c3 s1 g1 (some c2, s2) g2 = elim (Bool-cases (is_huge (s2.tables c2 (pdi virt)))) [
    | inl huge ↦
        let inside : in_huge virt s ≡ true =
          sym (entry_found s v virt c3 c2 s1 s2 g1 g2 is_huge refl) ∙ huge in
        rw huge (g2.tree, λ a a_low. phys12 c3 c2 s1 s2 g1 g2 a ∙ in_huge_same a inside)
    | inr small ↦ rw small (
        from_pt c3 c2 s1 s2 g1 g2 (get_or_create c2 (pdi virt) s2)
          (get_or_create_lem s2 g2.tree c2 (pdi virt) (omega (arith, level2 c3 c2 s1 s2 g1 g2))
            (omega arith) (λ _. small))
          (sym (entry_found s v virt c3 c2 s1 s2 g1 g2 is_huge refl) ∙ small))
  ]

  from_pdpt :
      (r : Option ℕ × Vmm)
      → Got s v s.pml4 (pml4i virt) r
      → Maps virt phys s (map_pdpt virt phys flags r)
  unfolding map_pdpt
  from_pdpt (none, s1) (e, absent, full) =
      (rw absent refl, full, subst IsTree (sym e) v, λ a. ap (vmm_phys a) e)
  from_pdpt (some c3, s1) g1 =
      let l : g1.tree.level c3 ≡ 3 = omega (arith, g1.child.0, v.root.0) in
      from_pd c3 s1 g1 (get_or_create c3 (pdpti virt) s1) (
        get_or_create_lem s1 g1.tree c3 (pdpti virt) (omega (arith, l)) (omega arith)
          (λ two. absurd (omega (arith, l, two))))

  -- Where the tables form a tree `vmm_map` keeps it so, for an address below 2 ^ 48 and flags below 4096: the page
  -- is mapped to its frame and no other address changes, whichever tables have to be made. Only where one is
  -- missing and no page is free any more, NULL is used as a table, and until then no look-up has changed.
  pub vmm_map_lem : Maps virt phys s (vmm_map virt phys flags s)
  unfolding vmm_map
  vmm_map_lem = from_pdpt (get_or_create s.pml4 (pml4i virt) s) (
      get_or_create_lem s v s.pml4 (pml4i virt) (omega (arith, v.root.0)) (omega arith)
        (λ two. absurd (omega (arith, two, v.root.0))))
