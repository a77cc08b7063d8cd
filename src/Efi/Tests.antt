-- ===== src/Efi/Tests.antt =====
-- Tables on the pages 16, 17 and 18 to 21, and a memory map of three descriptors.
use aerogel.Common.{
  ℕ, ◌≡◌, ◌≤◌, ◌<◌, ◌^◌, arith, not, ◌&&◌, ltb, if◌then◌else◌, inl, List, [], ◌∷◌, length, take,
  All,
}
use aerogel.Pmm.{Pmm, max_pages, init}
use aerogel.Pmm.Alloc.{used}
use aerogel.Pmm.Init.{reserved}
use aerogel.Vmm64.{vmm_phys}
use aerogel.Efi.{Descriptor, build_page_tables, build_e820}
use aerogel.Efi.Tables.{Apart}
use aerogel.Efi.Identity.{build_page_tables-identity}
use aerogel.Efi.MemoryMap.{IsRegion, any_page, init-build_e820}

abbrev nothing : Pmm
nothing = record { bitmap = λ _. 255; total_bytes = 0; used_bytes = 2 ^ 31 }

placed : Apart 0x10000 0x11000 0x12000
placed = record {
  pml4_page = omega arith;
  pdpt_page = omega arith;
  pd_page = omega arith;
  pml4_pdpt = omega arith;
  pml4_pd = inl (omega arith);
  pdpt_pd = inl (omega arith);
}

build_page_tables-identity_example :
    vmm_phys 0x7654321 (record {
      pml4 = 0x10000;
      tables = build_page_tables 0x10000 0x11000 0x12000 (λ _ _. 7);
      pmm = nothing;
    })
    ≡ (if ltb 0x7654321 (2 ^ 32) then 0x7654321 else 0)
build_page_tables-identity_example =
    build_page_tables-identity 0x10000 0x11000 0x12000 placed (λ _ _. 7) 0x7654321 (omega arith)
      nothing

abbrev regions : List Descriptor
regions =
    record { kind = 7; physical_start = 0; number_of_pages = 160 }
    ∷ record { kind = 3; physical_start = 0x100000; number_of_pages = 64 }
    ∷ record { kind = 2; physical_start = 0x200000; number_of_pages = 512 }
    ∷ []

regions_lem : All IsRegion regions
regions_lem = (
  record { at_page = omega arith; ends = omega arith },
  (
    record { at_page = omega arith; ends = omega arith },
    (record { at_page = omega arith; ends = omega arith }, tt),
  ),
)

init-build_e820_example :
    (length (build_e820 regions) ≤ 128)
    × ((q : ℕ)
        → q < max_pages
        → used (init (2 ^ 64) 0x230000 0x220000 (build_e820 regions) nothing) q ≡ (
            if any_page (take 128 regions) q && not (reserved (2 ^ 64) 0x230000 0x220000 q)
            then 0
            else 1))
init-build_e820_example = init-build_e820 0x230000 0x220000 regions nothing regions_lem
