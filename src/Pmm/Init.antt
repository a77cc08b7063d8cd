-- ===== src/Pmm/Init.antt =====
-- `pmm_init` of kernel/mm/pmm.c: which pages are free after it, and the figures that it leaves.
use aerogel.Common.{
  ℕ, zero, suc, ◌+◌, ◌-◌, ◌*◌, ◌/◌, ◌%◌, ◌^◌, ◌≤◌, ◌<◌, ◌≡◌, refl, ◌∙◌, ◌==◌, ◌!=◌, arith, inl, inr,
  if◌then◌else◌, Bool, Bool-cases, ==_iff, ◌&&◌, leb, ltb, true, false, not, ◌||◌, List, [], ◌∷◌,
  min, ◌↔◌,
}
use aerogel.Common.Array.{Array}
use aerogel.Common.Bytes.{every_below, every_below-true}
use aerogel.Pmm.{
  E820Entry, e820_type_usable, Pmm, page_size, max_pages, u64_mod, test_page, clear_page,
  page_floor, mark_page, mark_loop, mark_used, clear_loop, add_region, add_regions, count_loop,
  init, available,
}
use aerogel.Pmm.Bitmap.{
  IsBytes, test-set, set-IsBytes, test-clear, clear-IsBytes, test-lt, set_count, set_count-le,
}
use aerogel.Pmm.Alloc.{IsValid, used}

-- Page `q` is one of the `n` pages from `p` on.
abbrev within : ℕ → ℕ → ℕ → Bool
within p n q = leb p q && ltb q (p + n)

clear_loop_lem :
    (n p : ℕ) (m : Array ℕ)
    → IsBytes m
    → IsBytes (clear_loop n p m)
      × ((q : ℕ) → test_page (clear_loop n p m) q ≡ (if within p n q then 0 else test_page m q))
unfolding clear_loop
clear_loop_lem zero p m h = (h, λ q. ground arith)
clear_loop_lem (suc n) p m h =
    let rest = clear_loop_lem n (p + 1) (clear_page m p) (clear-IsBytes m h p) in
    (rest.0, λ q. ground (arith, rest.1 q, test-clear m h p q))

mark_page_lem :
    (p : ℕ) (s : Pmm)
    → IsBytes s.bitmap
    → IsBytes (mark_page p s).bitmap
      × ((q : ℕ) → used (mark_page p s) q ≡ (if p == q then 1 else used s q))
      × ((mark_page p s).total_bytes ≡ s.total_bytes)
unfolding mark_page
mark_page_lem p s h = elim (Bool-cases (used s p == 0)) [
  | inl e ↦ rw e (set-IsBytes s.bitmap h p, test-set s.bitmap h p, refl)
  | inr e ↦ rw e (
    h,
    λ q. elim (Bool-cases (p == q)) [
      | inl eq ↦ rw eq (used_one p q ((==_iff p q).0 eq) e)
      | inr ne ↦ rw ne
    ],
    refl,
  )
]
  where
    used_one : (p q : ℕ) → p ≡ q → (used s p == 0) ≡ false → used s q ≡ 1
    used_one p q e f = rw (← e) (ground (arith, test-lt s.bitmap p))

mark_loop_lem :
    (n p : ℕ) (s : Pmm)
    → IsBytes s.bitmap
    → IsBytes (mark_loop n p s).bitmap
      × ((q : ℕ) → used (mark_loop n p s) q ≡ (if within p n q then 1 else used s q))
      × ((mark_loop n p s).total_bytes ≡ s.total_bytes)
unfolding mark_loop
mark_loop_lem zero p s h = (h, λ q. ground arith, refl)
mark_loop_lem (suc n) p s h =
    let here = mark_page_lem p s h in
    let rest = mark_loop_lem n (p + 1) (mark_page p s) here.0 in
    (rest.0, λ q. ground (arith, here.1 q, rest.1 q), rest.2 ∙ here.2)

-- the page after the last one that `pmm_mark_used` marks
abbrev pub mark_end : ℕ → ℕ → ℕ
mark_end w end = page_floor w ((end + (page_size - 1)) % w) / page_size

-- Page `q` lies in the pages that `pmm_mark_used(start, end)` marks.
abbrev pub marked : ℕ → ℕ → ℕ → ℕ → Bool
marked w start end q = leb (start / page_size) q && ltb q (mark_end w end)

-- `pmm_mark_used` marks exactly the pages from that of `start` up to `end`, rounded up.
pub mark_used_lem :
    (w start end : ℕ) (s : Pmm)
    → IsBytes s.bitmap
    → IsBytes (mark_used w start end s).bitmap
      × ((q : ℕ)
          → q < max_pages
          → used (mark_used w start end s) q ≡ (if marked w start end q then 1 else used s q))
      × ((mark_used w start end s).total_bytes ≡ s.total_bytes)
unfolding mark_used
mark_used_lem w start end s h =
    let p : ℕ = start / page_size in
    let loop = mark_loop_lem (min (mark_end w end) max_pages - p) p s h in
    (loop.0, λ q low. in_marks q (mark_end w end) p _ _ low (loop.1 q), loop.2)
  where
    in_marks :
        (q e p u v : ℕ)
        → q < max_pages
        → u ≡ (if within p (min e max_pages - p) q then 1 else v)
        → u ≡ (if leb p q && ltb q e then 1 else v)
    in_marks q e p u v low h = ground arith

-- Page `q` lies in the usable region that the entry describes.
abbrev pub covers : ℕ → E820Entry → ℕ → Bool
covers w e q =
    (e.kind == e820_type_usable)
    && leb (page_floor w ((e.base + (page_size - 1)) % u64_mod) / page_size) q
    && ltb q (page_floor w ((e.base + e.size) % u64_mod) / page_size)

abbrev pub any_covers : ℕ → List E820Entry → ℕ → Bool
any_covers w [] q = false
any_covers w (e ∷ map) q = covers w e q || any_covers w map q

add_region_lem :
    (w : ℕ) (e : E820Entry) (s : Pmm)
    → IsBytes s.bitmap
    → IsBytes (add_region w e s).bitmap
      × ((q : ℕ)
          → q < max_pages
          → used (add_region w e s) q ≡ (if covers w e q then 0 else used s q))
unfolding add_region
add_region_lem w e s h = elim (Bool-cases (e.kind != e820_type_usable || leb end start)) [
  | inl skip ↦ rw skip (h, λ q low. skipped q e.kind start end _ skip)
  | inr use_it ↦ rw use_it (
      let loop = clear_loop_lem (min (end / page_size) max_pages - p) p s.bitmap h in
      (loop.0, λ q low. cleared q e.kind start end _ _ low use_it (loop.1 q)))
]
  where
    start : ℕ
    start = page_floor w ((e.base + (page_size - 1)) % u64_mod)

    end : ℕ
    end = page_floor w ((e.base + e.size) % u64_mod)

    p : ℕ
    p = start / page_size

    skipped :
        (q k a b v : ℕ)
        → (k != e820_type_usable || leb b a) ≡ true
        → v ≡ (
            if (k == e820_type_usable) && leb (a / page_size) q && ltb q (b / page_size)
            then 0
            else v)
    skipped q k a b v h = ground arith

    cleared :
        (q k a b u v : ℕ)
        → q < max_pages
        → (k != e820_type_usable || leb b a) ≡ false
        → u ≡ (
            if within (a / page_size) (min (b / page_size) max_pages - a / page_size) q
            then 0
            else v)
        → u ≡ (
            if (k == e820_type_usable) && leb (a / page_size) q && ltb q (b / page_size)
            then 0
            else v)
    cleared q k a b u v low h g = ground arith

add_regions_lem :
    (w : ℕ) (map : List E820Entry) (s : Pmm)
    → IsBytes s.bitmap
    → IsBytes (add_regions w map s).bitmap
      × ((q : ℕ)
          → q < max_pages
          → used (add_regions w map s) q ≡ (if any_covers w map q then 0 else used s q))
unfolding add_regions
add_regions_lem w [] s h = (h, λ q low. refl)
add_regions_lem w (e ∷ map) s h =
    let here = add_region_lem w e s h in
    let rest = add_regions_lem w map (add_region w e s) here.0 in
    (
      rest.0,
      λ q low. combine (covers w e q) (any_covers w map q) _ _ _ (here.1 q low) (rest.1 q low),
    )
  where
    combine :
        (a b : Bool) (t u v : ℕ)
        → t ≡ (if a then 0 else v)
        → u ≡ (if b then 0 else t)
        → u ≡ (if a || b then 0 else v)
    combine a b t u v p q = ground arith

-- The recount adds a page's bytes for each page in use; it cannot wrap.
count_loop_lem :
    (m : Array ℕ) (n i acc : ℕ)
    → acc ≡ page_size * set_count m i
    → i + n ≤ max_pages
    → count_loop m n i acc ≡ page_size * set_count m (i + n)
unfolding count_loop
count_loop_lem m zero i acc e fits = let e' : i + 0 ≡ i = omega arith in rw e' e
count_loop_lem m (suc n) i acc e fits =
    let e' : i + suc n ≡ i + 1 + n = omega arith in
    rw e' (
      count_loop_lem m n (i + 1) (if test_page m i == 0 then acc else (acc + page_size) % u64_mod)
        next (omega arith))
  where
    count-suc : set_count m (i + 1) ≡ set_count m i + test_page m i
    count-suc = let e' : i + 1 ≡ suc i = omega arith in rw e' (unfold set_count in refl)

    next :
        (if test_page m i == 0 then acc else (acc + page_size) % u64_mod)
        ≡ page_size * set_count m (i + 1)
    next = ground (arith, count-suc, test-lt m i, set_count-le m i)

count_all : (m : Array ℕ) → count_loop m max_pages 0 0 ≡ page_size * set_count m max_pages
count_all m = count_loop_lem m max_pages 0 0 (unfold set_count in refl) (omega arith)

-- Page `q` is one of those that `pmm_init` keeps back: the first megabyte, the pages up to the end
-- of the kernel, and those of the bitmap.
abbrev pub reserved : (w bss_end bitmap_at q : ℕ) → Bool
reserved w bss_end bitmap_at q =
    marked w 0 0x100000 q
    || marked w 0x10000 (page_floor w ((bss_end + (page_size - 1)) % w)) q
    || marked w bitmap_at (page_floor w (((bitmap_at + max_pages / 8) % w + (page_size - 1)) % w)) q

-- What `pmm_init` leaves: a valid state, whatever was there before, in which a page is free exactly
-- if a usable region of the memory map covers it and it is not kept back.
pub record Initialised (w bss_end bitmap_at : ℕ) (map : List E820Entry) (t : Pmm) : Type 0 where
  pub valid : IsValid t
  pub pages :
      (q : ℕ)
      → q < max_pages
      → used t q ≡ (if any_covers w map q && not (reserved w bss_end bitmap_at q) then 0 else 1)

ones_table : every_below 8 (λ k. 255 / 2 ^ k % 2 == 1) ≡ true
unfolding every_below
ones_table = refl

pub all_used : (q : ℕ) → test_page (λ _. 255) q ≡ 1
unfolding test_page
all_used q =
    (==_iff _ 1).0 (every_below-true 8 (λ k. 255 / 2 ^ k % 2 == 1) (q % 8) ones_table (omega arith))

-- After `pmm_init` the state is valid, and a page of the bitmap is free exactly if a usable region
-- covers it and it is not kept back.
pub init-Initialised :
    (w bss_end bitmap_at : ℕ) (map : List E820Entry) (s : Pmm)
    → Initialised w bss_end bitmap_at map (init w bss_end bitmap_at map s)
unfolding init
init-Initialised w bss_end bitmap_at map s =
    let s0 : Pmm = record s { bitmap = λ _. 255 } in
    let r1 = add_regions_lem w map s0 (λ _. omega arith) in
    let s1 : Pmm = add_regions w map s0 in
    let r2 = mark_used_lem w 0 0x100000 s1 r1.0 in
    let s2 : Pmm = mark_used w 0 0x100000 s1 in
    let kernel_end : ℕ = page_floor w ((bss_end + (page_size - 1)) % w) in
    let r3 = mark_used_lem w 0x10000 kernel_end s2 r2.0 in
    let s3 : Pmm = mark_used w 0x10000 kernel_end s2 in
    let bm_end : ℕ = page_floor w (((bitmap_at + max_pages / 8) % w + (page_size - 1)) % w) in
    let r4 = mark_used_lem w bitmap_at bm_end s3 r3.0 in
    record {
      valid = record { bytes = r4.0; counted = count_all _ };
      pages = λ q low.
          combine _ _ _ _ _ _ _ _ (all_used q) (r1.1 q low) (r2.1 q low) (r3.1 q low) (r4.1 q low);
    }
  where
    combine :
        (c a b d : Bool) (u0 u1 u2 u3 : ℕ) {u4 : ℕ}
        → u0 ≡ 1
        → u1 ≡ (if c then 0 else u0)
        → u2 ≡ (if a then 1 else u1)
        → u3 ≡ (if b then 1 else u2)
        → u4 ≡ (if d then 1 else u3)
        → u4 ≡ (if c && not (a || b || d) then 0 else 1)
    combine c a b d u0 u1 u2 u3 p0 p1 p2 p3 p4 = ground arith

-- the pages below the limit that are free
abbrev pub free_pages : Pmm → ℕ
free_pages s = max_pages - set_count s.bitmap max_pages

-- In a valid state `pmm_available` is the size of the free pages exactly if `total_bytes` is the
-- size of all the pages that the bitmap has: it subtracts the reserved pages from a total that does
-- not hold them.
pub available_iff :
    {s : Pmm}
    → IsValid s
    → s.total_bytes < u64_mod
    → (available s ≡ page_size * free_pages s) ↔ (s.total_bytes ≡ page_size * max_pages)
unfolding available
available_iff {s} v small = (
  λ e. omega (arith, v.counted, set_count-le s.bitmap max_pages),
  λ e. omega (arith, v.counted, set_count-le s.bitmap max_pages),
)
