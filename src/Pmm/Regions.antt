-- ===== src/Pmm/Regions.antt =====
-- `pmm_init` of kernel/mm/pmm.c, stated over the addresses of the memory map and of the linker.
use aerogel.Common.{
  ℕ, ◌+◌, ◌-◌, ◌*◌, ◌/◌, ◌%◌, ◌≤◌, ◌<◌, ◌≡◌, refl, ap, ap₂, ◌∙◌, arith, inl, inr, Bool, Bool-cases,
  false, not, ◌&&◌, ◌||◌, ◌==◌, ==_iff, mod-eq_of_lt, leb, ltb, if◌then◌else◌, List, [], ◌∷◌, All,
}
use aerogel.Pmm.{E820Entry, e820_type_usable, Pmm, page_size, max_pages, u64_mod, page_floor, init}
use aerogel.Pmm.Alloc.{IsValid, used}
use aerogel.Pmm.Init.{covers, any_covers, mark_end, reserved, init-Initialised}

-- The bytes of page `q` lie in the memory that the entry says is usable.
abbrev pub has_page : E820Entry → ℕ → Bool
has_page e q =
    (e.kind == e820_type_usable)
    && (leb e.base (q * page_size) && leb ((q + 1) * page_size) (e.base + e.size))

abbrev pub any_page : List E820Entry → ℕ → Bool
any_page [] q = false
any_page (e ∷ map) q = has_page e q || any_page map q

-- Page `q` has a byte of the first megabyte, of the kernel, or of the bitmap.
abbrev pub kept : (bss_end bitmap_at q : ℕ) → Bool
kept bss_end bitmap_at q =
    ltb (q * page_size) 0x100000
    || (leb 0x10000 (q * page_size) && ltb (q * page_size) bss_end)
    || (ltb bitmap_at ((q + 1) * page_size) && ltb (q * page_size) (bitmap_at + max_pages / 8))

-- The usable memory ends at least a page below `w`, so that its addresses fit in a `uptr`.
abbrev pub IsInReach : ℕ → E820Entry → Type 0
IsInReach w e = e.kind ≡ e820_type_usable → e.base + e.size + page_size ≤ w

floor_small : (w a : ℕ) → a < w → page_floor w a ≡ a / page_size * page_size
floor_small w a h = mod-eq_of_lt (omega (arith, h)) ∙ omega arith

floor_sum : (w a : ℕ) → a < w → w ≤ u64_mod → page_floor w (a % u64_mod) / page_size ≡ a / page_size
floor_sum w a h wide =
    ap (λ x. page_floor w x / page_size) (mod-eq_of_lt (omega (arith, h, wide)))
    ∙ ap (λ x. x / page_size) (floor_small w a h)
    ∙ omega arith

covers-has_page :
    (w : ℕ) (e : E820Entry) (q : ℕ) → w ≤ u64_mod → IsInReach w e → covers w e q ≡ has_page e q
covers-has_page w e q wide reach = elim (Bool-cases (e.kind == e820_type_usable)) [
  | inr other ↦ rw other refl
  | inl usable ↦
      let fits = reach ((==_iff e.kind e820_type_usable).0 usable) in
      rw usable (
        ap₂ (λ x y. leb x q && ltb q y)
          (floor_sum w (e.base + (page_size - 1)) (omega (arith, fits)) wide)
          (floor_sum w (e.base + e.size) (omega (arith, fits)) wide)
        ∙ ground arith)
]

any_covers-any_page :
    (w : ℕ) (map : List E820Entry) (q : ℕ)
    → w ≤ u64_mod
    → All (IsInReach w) map
    → any_covers w map q ≡ any_page map q
any_covers-any_page w [] q wide h = refl
any_covers-any_page w (e ∷ map) q wide h =
    ap₂ ◌||◌ (covers-has_page w e q wide h.0) (any_covers-any_page w map q wide h.1)

mark_end_small :
    (w end : ℕ) → end + page_size ≤ w → mark_end w end ≡ (end + (page_size - 1)) / page_size
mark_end_small w end h =
    ap (λ x. page_floor w x / page_size) (mod-eq_of_lt (omega (arith, h)))
    ∙ ap (λ x. x / page_size) (floor_small w (end + (page_size - 1)) (omega (arith, h)))
    ∙ omega arith

-- The end of what is marked is rounded up before the call and in it.
mark_end_twice :
    (w end : ℕ)
    → end + 2 * page_size ≤ w
    → mark_end w (page_floor w ((end + (page_size - 1)) % w)) ≡ (end + (page_size - 1)) / page_size
mark_end_twice w end h =
    ap (λ x. mark_end w (page_floor w x)) (mod-eq_of_lt (omega (arith, h)))
    ∙ ap (mark_end w) (floor_small w (end + (page_size - 1)) (omega (arith, h)))
    ∙ mark_end_small w ((end + (page_size - 1)) / page_size * page_size) (omega (arith, h))
    ∙ omega arith

reserved-kept :
    (w bss_end bitmap_at q : ℕ)
    → 0x101000 ≤ w
    → bss_end + 2 * page_size ≤ w
    → bitmap_at + max_pages / 8 + 2 * page_size ≤ w
    → reserved w bss_end bitmap_at q ≡ kept bss_end bitmap_at q
reserved-kept w bss_end bitmap_at q low kernel bitmap =
    ap₂
      (λ x y.
        (leb 0 q && ltb q x)
        || (leb 16 q && ltb q y)
        || (leb (bitmap_at / page_size) q
            && ltb q (
                mark_end w
                  (page_floor w (((bitmap_at + max_pages / 8) % w + (page_size - 1)) % w)))))
      (mark_end_small w 0x100000 low) (mark_end_twice w bss_end kernel)
    ∙ ap
        (λ z.
          (leb 0 q && ltb q 256)
          || (leb 16 q && ltb q ((bss_end + (page_size - 1)) / page_size))
          || (leb (bitmap_at / page_size) q && ltb q z))
        (ap (λ x. mark_end w (page_floor w ((x + (page_size - 1)) % w)))
            (mod-eq_of_lt (omega (arith, bitmap)))
          ∙ mark_end_twice w (bitmap_at + max_pages / 8) bitmap)
    ∙ ground arith

-- What `pmm_init` leaves: a valid state, in which a page is free exactly if its bytes lie in usable memory of the
-- map and none of them is kept back.
pub record Initialised (bss_end bitmap_at : ℕ) (map : List E820Entry) (t : Pmm) : Type 0 where
  pub valid : IsValid t
  pub pages :
      (q : ℕ)
      → q < max_pages
      → used t q ≡ (if any_page map q && not (kept bss_end bitmap_at q) then 0 else 1)

-- Where the usable memory of the map ends at least a page, and the kernel and the bitmap at least two pages, below
-- `w`, the number of addresses that a `uptr` has, the state after `pmm_init` is valid, whatever was there before, and a
-- page of the bitmap is free exactly if its bytes lie in one usable region and none of them is in the first megabyte,
-- the kernel or the bitmap.
pub init_lem :
    (w bss_end bitmap_at : ℕ) (map : List E820Entry) (s : Pmm)
    → 0x101000 ≤ w
    → w ≤ u64_mod
    → bss_end + 2 * page_size ≤ w
    → bitmap_at + max_pages / 8 + 2 * page_size ≤ w
    → All (IsInReach w) map
    → Initialised bss_end bitmap_at map (init w bss_end bitmap_at map s)
init_lem w bss_end bitmap_at map s low wide kernel bitmap reach =
    let r = init-Initialised w bss_end bitmap_at map s in
    record {
      valid = r.valid;
      pages = λ q h.
          r.pages q h
          ∙ ap₂ (λ a b. if a && not b then 0 else 1) (any_covers-any_page w map q wide reach)
              (reserved-kept w bss_end bitmap_at q low kernel bitmap);
    }
