-- ===== src/Efi/Tables.antt =====
-- What the page tables of arch/x86_64/boot/efi_main.c map.
use aerogel.Common.{
  ℕ, zero, suc, ◌+◌, ◌*◌, ◌/◌, ◌^◌, ◌<◌, ◌≤◌, ◌≡◌, ◌≢◌, refl, sym, ap, ◌∙◌, arith, true, ◌&&◌, ◌==◌,
  ==_iff, ==_ne, ==_self, ltb, leb, if◌then◌else◌, Bool-cases, ◌⊎◌, inl, inr, bit_or,
}
use aerogel.Common.Array.{Array, update}
use aerogel.Common.Bits.{bit_or-div, bit_or_mod_two, bit_or-zero_right}
use aerogel.Vmm64.{is_present, is_huge}
use aerogel.Efi.{
  table_entry, huge_entry, pd_of, fill_pd, fill_gib, fill_loop, clear_loop, build_page_tables,
}

-- The entry of a 2 MiB page is present and huge, and holds the address of the page.
module _ (k : ℕ) where
  abbrev pub e : ℕ
  e = bit_or (bit_or (bit_or (k * 0x200000) 1) 2) 128

  pub huge_present : is_present e ≡ true
  huge_present = ground (
    arith,
    bit_or_mod_two (bit_or (bit_or (k * 0x200000) 1) 2) 128,
    bit_or_mod_two (bit_or (k * 0x200000) 1) 2,
    bit_or_mod_two (k * 0x200000) 1,
  )

  pub huge_bit : is_huge e ≡ true
  huge_bit = ground (
    arith,
    bit_or-div 7 (bit_or (bit_or (k * 0x200000) 1) 2) 128,
    bit_or_mod_two (bit_or (bit_or (k * 0x200000) 1) 2 / 128) 1,
  )

  pub huge_address : e / 0x200000 ≡ k
  huge_address =
      bit_or-div 21 (bit_or (bit_or (k * 0x200000) 1) 2) 128
      ∙ bit_or-zero_right (bit_or (bit_or (k * 0x200000) 1) 2 / 2 ^ 21)
      ∙ bit_or-div 21 (bit_or (k * 0x200000) 1) 2
      ∙ bit_or-zero_right (bit_or (k * 0x200000) 1 / 2 ^ 21)
      ∙ bit_or-div 21 (k * 0x200000) 1
      ∙ bit_or-zero_right (k * 0x200000 / 2 ^ 21)
      ∙ omega arith

fill_pd_lem :
    (n g i : ℕ) (t : Array ℕ) (j : ℕ)
    → fill_pd n g i t j ≡ (if leb i j && ltb j (i + n) then huge_entry g j else t j)
unfolding fill_pd
fill_pd_lem zero g i t j = ground arith
fill_pd_lem (suc n) g i t j =
    fill_pd_lem n g (i + 1) (update t i (huge_entry g i)) j ∙ elim (Bool-cases (i == j)) [
      | inl q ↦ let same : i ≡ j = ground (arith, q) in ground (arith, q, ap (huge_entry g) same)
      | inr q ↦ ground arith
    ]

-- The tables lie on pages of their own.
pub record Apart (pml4 pdpt pd : ℕ) : Type 0 where
  pub pml4_page : pml4 ≡ pml4 / 4096 * 4096
  pub pdpt_page : pdpt ≡ pdpt / 4096 * 4096
  pub pd_page : pd ≡ pd / 4096 * 4096
  pub pml4_pdpt : pml4 ≢ pdpt
  pub pml4_pd : (pml4 < pd) ⊎ (pd + 4 * 4096 ≤ pml4)
  pub pdpt_pd : (pdpt < pd) ⊎ (pd + 4 * 4096 ≤ pdpt)

module _ (pml4 pdpt pd : ℕ) (apart : Apart pml4 pdpt pd) where
  pml4_ne : (g : ℕ) → g < 4 → pd_of pd g ≢ pml4
  pml4_ne g lt q = omega (arith, apart.pml4_pd, q, lt)

  pdpt_ne : (g : ℕ) → g < 4 → pd_of pd g ≢ pdpt
  pdpt_ne g lt q = omega (arith, apart.pdpt_pd, q, lt)

  -- one round
  module _ (g : ℕ) (lt : g < 4) (m : Array (Array ℕ)) where
    gib_pml4 : (j : ℕ) → fill_gib pdpt pd g m pml4 j ≡ m pml4 j
    unfolding fill_gib
    gib_pml4 j =
        rw (==_ne (pd_of pd g) pml4 (pml4_ne g lt), ==_ne pdpt pml4 (λ q. apart.pml4_pdpt (sym q)))
          refl

    gib_pdpt :
        (j : ℕ)
        → fill_gib pdpt pd g m pdpt j ≡ (if g == j then table_entry (pd_of pd g) else m pdpt j)
    unfolding fill_gib
    gib_pdpt j = rw (==_ne (pd_of pd g) pdpt (pdpt_ne g lt), ==_self pdpt) refl

    row : ℕ → Array ℕ
    row k = update m pdpt (update (m pdpt) g (table_entry (pd_of pd g))) (pd_of pd k)

    gib_here : (j : ℕ) → fill_gib pdpt pd g m (pd_of pd g) j ≡ fill_pd 512 g 0 (row g) j
    unfolding fill_gib row
    gib_here j = rw (==_self (pd_of pd g)) refl

    in_table :
        (j : ℕ)
        → j < 512
        → (if leb 0 j && ltb j (0 + 512) then huge_entry g j else row g j) ≡ huge_entry g j
    in_table j h = ground (arith, h)

    gib_pd :
        (k j : ℕ)
        → k < 4
        → j < 512
        → fill_gib pdpt pd g m (pd_of pd k) j
          ≡ (if g == k then huge_entry k j else m (pd_of pd k) j)
    unfolding fill_gib
    gib_pd k j k_lt j_lt = elim (Bool-cases (g == k)) [
      | inl q ↦
          let same : g ≡ k = (==_iff g k).0 q in
          rw q (
            ap (λ x. fill_gib pdpt pd g m (pd_of pd x) j) (sym same)
            ∙ gib_here j
            ∙ fill_pd_lem 512 g 0 (row g) j
            ∙ in_table j j_lt
            ∙ ap (λ x. huge_entry x j) same)
      | inr q ↦
          rw
            (
              q,
              ==_ne (pd_of pd g) (pd_of pd k) (λ h. absurd (ground (arith, q, h))),
              ==_ne pdpt (pd_of pd k) (λ h. pdpt_ne k k_lt (sym h)),
            )
            refl
    ]

  fill_loop_lem :
      (n g : ℕ) (m : Array (Array ℕ))
      → g + n ≤ 4
      → ((j : ℕ) → fill_loop n pdpt pd g m pml4 j ≡ m pml4 j)
        × ((j : ℕ)
            → fill_loop n pdpt pd g m pdpt j
              ≡ (if leb g j && ltb j (g + n) then table_entry (pd_of pd j) else m pdpt j))
        × ((k j : ℕ)
            → k < 4
            → j < 512
            → fill_loop n pdpt pd g m (pd_of pd k) j
              ≡ (if leb g k && ltb k (g + n) then huge_entry k j else m (pd_of pd k) j))
  unfolding fill_loop
  fill_loop_lem zero g m h = (λ j. refl, λ j. ground arith, λ k j kl jl. ground arith)
  fill_loop_lem (suc n) g m h =
      let rest = fill_loop_lem n (g + 1) (fill_gib pdpt pd g m) (omega arith) in
      let lt : g < 4 = omega arith in
      (
        λ j. rest.0 j ∙ gib_pml4 g lt m j,
        λ j. rest.1 j ∙ elim (Bool-cases (g == j)) [
          | inl q ↦
              ground
                (arith, gib_pdpt g lt m j, ap (λ x. table_entry (pd_of pd x)) ((==_iff g j).0 q), q)
          | inr q ↦ ground (arith, gib_pdpt g lt m j, q)
        ],
        λ k j kl jl. rest.2 k j kl jl ∙ ground (arith, gib_pd g lt m k j kl jl),
      )

  clear_loop_lem :
      (n g : ℕ) (m : Array (Array ℕ))
      → g + n ≤ 4
      → (clear_loop n pd g m pml4 ≡ m pml4) × (clear_loop n pd g m pdpt ≡ m pdpt)
  unfolding clear_loop
  clear_loop_lem zero g m h = (refl, refl)
  clear_loop_lem (suc n) g m h =
      let rest = clear_loop_lem n (g + 1) (update m (pd_of pd g) (λ _. 0)) (omega arith) in
      (
        rest.0 ∙ rw (==_ne (pd_of pd g) pml4 (pml4_ne g (omega arith))) refl,
        rest.1 ∙ rw (==_ne (pd_of pd g) pdpt (pdpt_ne g (omega arith))) refl,
      )

  module _ (m : Array (Array ℕ)) where
    abbrev pub built : Array (Array ℕ)
    built = build_page_tables pml4 pdpt pd m

    cleared : Array (Array ℕ)
    cleared = clear_loop 4 pd 0 (update (update m pml4 (λ _. 0)) pdpt (λ _. 0))

    cleared_lem : ((j : ℕ) → cleared pml4 j ≡ 0) × ((j : ℕ) → cleared pdpt j ≡ 0)
    unfolding cleared
    cleared_lem =
        let c = clear_loop_lem 4 0 (update (update m pml4 (λ _. 0)) pdpt (λ _. 0)) (omega arith) in
        (
          λ j.
              ap (λ (r : Array ℕ). r j) c.0
              ∙ rw (==_ne pdpt pml4 (λ q. apart.pml4_pdpt (sym q)), ==_self pml4) refl,
          λ j. ap (λ (r : Array ℕ). r j) c.1 ∙ rw (==_self pdpt) refl,
        )

    before : Array (Array ℕ)
    before = update cleared pml4 (update (cleared pml4) 0 (table_entry pdpt))

    before_pml4 : (j : ℕ) → before pml4 j ≡ (if 0 == j then table_entry pdpt else 0)
    unfolding before
    before_pml4 j =
        rw (==_self pml4) (ap (λ x. if 0 == j then table_entry pdpt else x) (cleared_lem.0 j))

    before_pdpt : (j : ℕ) → before pdpt j ≡ 0
    unfolding before
    before_pdpt j = rw (==_ne pml4 pdpt apart.pml4_pdpt) (cleared_lem.1 j)

    -- The one table of the first level, the four entries of the second, and all of the third
    pub built_lem :
        ((j : ℕ) → built pml4 j ≡ (if 0 == j then table_entry pdpt else 0))
        × ((j : ℕ) → built pdpt j ≡ (if ltb j 4 then table_entry (pd_of pd j) else 0))
        × ((k j : ℕ) → k < 4 → j < 512 → built (pd_of pd k) j ≡ huge_entry k j)
    unfolding build_page_tables cleared before
    built_lem =
        let f = fill_loop_lem 4 0 before (omega arith) in
        (
          λ j. f.0 j ∙ before_pml4 j,
          λ j. f.1 j ∙ ground (arith, before_pdpt j),
          λ k j kl jl. f.2 k j kl jl ∙ ground (arith, kl),
        )
