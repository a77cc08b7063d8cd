-- ===== src/Efi/MemoryMap.antt =====
-- The memory map of arch/x86_64/boot/efi_main.c in the page allocator of the kernel, `pmm_init` of kernel/mm/pmm.c.
use aerogel.Common.{
  ℕ, zero, suc, ◌+◌, ◌-◌, ◌*◌, ◌/◌, ◌%◌, ◌^◌, ◌<◌, ◌≤◌, ◌≡◌, refl, ap, ap₂, ◌∙◌, arith, Bool, true,
  false, not, ◌&&◌, ◌||◌, ◌==◌, ltb, leb, if◌then◌else◌, List, [], ◌∷◌, length, take, All, min,
}
use aerogel.Pmm.{Pmm, page_size, page_floor, max_pages, init}
use aerogel.Pmm.Alloc.{used}
use aerogel.Pmm.Init.{covers, any_covers, reserved, init-Initialised}
use aerogel.Efi.{Descriptor, is_usable, e820_entry, e820_loop, build_e820}

-- What the firmware's specification says of a descriptor: it starts at a page and ends below 2 ^ 64.
pub record IsRegion (d : Descriptor) : Type 0 where
  pub at_page : d.physical_start ≡ d.physical_start / 4096 * 4096
  pub ends : d.physical_start + d.number_of_pages * 4096 + 4096 < 2 ^ 64

-- Page `q` is one of a descriptor that may be used.
abbrev pub has_page : Descriptor → ℕ → Bool
has_page d q =
    is_usable d
    && leb (d.physical_start / 4096) q
    && ltb q (d.physical_start / 4096 + d.number_of_pages)

abbrev pub any_page : List Descriptor → ℕ → Bool
any_page [] q = false
any_page (d ∷ map) q = has_page d q || any_page map q

covers-has_page :
    (d : Descriptor) (q : ℕ) → IsRegion d → covers (2 ^ 64) (e820_entry d) q ≡ has_page d q
unfolding e820_entry
covers-has_page d q r =
    let first : page_floor (2 ^ 64) ((d.physical_start + (page_size - 1)) % 2 ^ 64) / page_size
        ≡ d.physical_start / 4096 =
      omega (arith, r.at_page, r.ends) in
    let last : page_floor (2 ^ 64)
            ((d.physical_start + d.number_of_pages * page_size % 2 ^ 64) % 2 ^ 64)
          / page_size
        ≡ d.physical_start / 4096 + d.number_of_pages =
      omega (arith, r.at_page, r.ends) in
    ap₂ (λ x y. ((if is_usable d then 1 else 2) == 1) && leb x q && ltb q y) first last
    ∙ ap
        (λ b.
          b
          && leb (d.physical_start / 4096) q
          && ltb q (d.physical_start / 4096 + d.number_of_pages))
        (kind (is_usable d))
  where
    kind : (b : Bool) → ((if b then 1 else 2) == 1) ≡ b
    kind true = refl
    kind false = refl

e820_loop-covers :
    (n : ℕ) (map : List Descriptor) (q : ℕ)
    → All IsRegion map
    → any_covers (2 ^ 64) (e820_loop n map) q ≡ any_page (take n map) q
unfolding e820_loop
e820_loop-covers zero map q h = refl
e820_loop-covers (suc n) [] q h = refl
e820_loop-covers (suc n) (d ∷ map) q h =
    ap₂ (λ x y. x || y) (covers-has_page d q h.0) (e820_loop-covers n map q h.1)

length-e820_loop : (n : ℕ) (map : List Descriptor) → length (e820_loop n map) ≡ min n (length map)
unfolding e820_loop
length-e820_loop zero map = omega arith
length-e820_loop (suc n) [] = omega arith
length-e820_loop (suc n) (d ∷ map) = omega (arith, length-e820_loop n map)

-- The map has at most 128 entries. After `pmm_init` with it a page of the bitmap is free exactly if it lies in one of
-- the first 128 descriptors and that one is conventional memory or the loader's, and the kernel does not keep the
-- page back.
pub init-build_e820 :
    (bss_end bitmap_at : ℕ) (map : List Descriptor) (s : Pmm)
    → All IsRegion map
    → (length (build_e820 map) ≤ 128)
      × ((q : ℕ)
          → q < max_pages
          → used (init (2 ^ 64) bss_end bitmap_at (build_e820 map) s) q ≡ (
              if any_page (take 128 map) q && not (reserved (2 ^ 64) bss_end bitmap_at q)
              then 0
              else 1))
unfolding build_e820
init-build_e820 bss_end bitmap_at map s h = (
  omega (arith, length-e820_loop 128 map),
  λ q low.
      (init-Initialised (2 ^ 64) bss_end bitmap_at (e820_loop 128 map) s).pages q low
      ∙ ap (λ b. if b && not (reserved (2 ^ 64) bss_end bitmap_at q) then 0 else 1)
          (e820_loop-covers 128 map q h),
)
