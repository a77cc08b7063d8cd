-- ===== src/Efi/Identity.antt =====
-- The loader of arch/x86_64/boot/efi_main.c maps the first 4 GiB to themselves.
use aerogel.Common.{
  ℕ, ◌+◌, ◌*◌, ◌/◌, ◌%◌, ◌^◌, ◌<◌, ◌≡◌, refl, sym, ap, ◌∙◌, arith, true, ◌==◌, ltb, if◌then◌else◌,
  Bool-cases, inl, inr,
}
use aerogel.Common.Array.{Array}
use aerogel.Common.Bits.{bit_or-disjoint}
use aerogel.Pmm.{Pmm}
use aerogel.Vmm.Entries.{present-new_entry, page-new_entry}
use aerogel.Vmm64.{is_present, frame, pml4i, pdpti, pdi, vmm_phys}
use aerogel.Vmm64.Walk.{look2, look3, look4, vmm_phys-look}
use aerogel.Efi.{table_entry, huge_entry, pd_of, build_page_tables}
use aerogel.Efi.Tables.{Apart, huge_present, huge_bit, huge_address, built_lem}

table_present : (t : ℕ) → t ≡ t / 4096 * 4096 → is_present (table_entry t) ≡ true
table_present t h = ap (λ x. is_present (table_entry x)) h ∙ present-new_entry (t / 4096)

table_frame : (t : ℕ) → t ≡ t / 4096 * 4096 → frame (table_entry t) ≡ t
table_frame t h =
    ap (λ x. frame (table_entry x)) h ∙ ap (λ x. x * 4096) (page-new_entry (t / 4096)) ∙ sym h

module _ (pml4 pdpt pd : ℕ) (apart : Apart pml4 pdpt pd) (m : Array (Array ℕ)) (a : ℕ)
    (low : a < 2 ^ 48) where
  abbrev tables : Array (Array ℕ)
  tables = build_page_tables pml4 pdpt pd m

  facts :
      ((j : ℕ) → tables pml4 j ≡ (if 0 == j then table_entry pdpt else 0))
      × ((j : ℕ) → tables pdpt j ≡ (if ltb j 4 then table_entry (pd_of pd j) else 0))
      × ((k j : ℕ) → k < 4 → j < 512 → tables (pd_of pd k) j ≡ huge_entry k j)
  facts = built_lem pml4 pdpt pd apart m

  look2_huge :
      (k : ℕ) → k < 4 → look2 tables (pd_of pd k) a ≡ (k * 512 + pdi a) * 0x200000 + a % 0x200000
  look2_huge k lt =
      rw
        (
          facts.2 k (pdi a) lt (omega arith),
          huge_present (k * 512 + pdi a),
          huge_bit (k * 512 + pdi a),
          huge_address (k * 512 + pdi a),
        )
        (bit_or-disjoint 21 (k * 512 + pdi a) (a % 0x200000) (omega arith))

  look3_lem :
      look3 tables pdpt a
      ≡ (if ltb (pdpti a) 4 then (pdpti a * 512 + pdi a) * 0x200000 + a % 0x200000 else 0)
  look3_lem = elim (Bool-cases (ltb (pdpti a) 4)) [
    | inl below ↦
        rw
          (
            facts.1 (pdpti a),
            below,
            table_present (pd_of pd (pdpti a)) (omega (arith, apart.pd_page)),
            table_frame (pd_of pd (pdpti a)) (omega (arith, apart.pd_page)),
          )
          (look2_huge (pdpti a) (ground (arith, below)))
    | inr above ↦ rw (facts.1 (pdpti a), above) refl
  ]

  look4_lem : look4 tables pml4 a ≡ (if 0 == pml4i a then look3 tables pdpt a else 0)
  look4_lem = elim (Bool-cases (0 == pml4i a)) [
    | inl first ↦
        rw
          (
            facts.0 (pml4i a),
            first,
            table_present pdpt apart.pdpt_page,
            table_frame pdpt apart.pdpt_page,
          )
          refl
    | inr later ↦ rw (facts.0 (pml4i a), later) refl
  ]

  -- Where the static tables lie on pages of their own, the page tables that the loader builds map every address below
  -- 4 GiB to itself and no other address below 2 ^ 48.
  pub build_page_tables-identity :
      (pmm : Pmm)
      → vmm_phys a (record { pml4 = pml4; tables = build_page_tables pml4 pdpt pd m; pmm = pmm })
        ≡ (if ltb a (2 ^ 32) then a else 0)
  build_page_tables-identity pmm =
      vmm_phys-look a (record { pml4 = pml4; tables = build_page_tables pml4 pdpt pd m; pmm = pmm })
      ∙ look4_lem
      ∙ whole
    where
      whole : (if 0 == pml4i a then look3 tables pdpt a else 0) ≡ (if ltb a (2 ^ 32) then a else 0)
      whole = ground (arith, look3_lem, low)
