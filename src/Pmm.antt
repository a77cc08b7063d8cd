-- ===== src/Pmm.antt =====
-- The physical page allocator, kernel/mm/pmm.c: a bitmap with one bit for each of 512 Ki pages.
-- `w` is the number of values of `uptr`: 2 ^ 32 on x86, 2 ^ 64 on x86_64.
mod Bitmap
pub mod Alloc
pub mod Runs
pub mod Free
pub mod Init
pub mod Regions
pub mod Tests
use aerogel.Common.{
  ℕ, zero, suc, ◌+◌, ◌-◌, ◌*◌, ◌/◌, ◌%◌, ◌^◌, ◌<◌, min, ◌≡◌, List, [], ◌∷◌, Bool, ◌==◌, leb, ltb,
  ◌||◌, ◌!=◌, if◌then◌else◌,
}
use aerogel.Common.Array.{Array, update}
use aerogel.Common.Bytes.{bit, with_bit, without_bit}

abbrev pub page_size : ℕ
page_size = 4096

abbrev pub max_pages : ℕ
max_pages = 524288

abbrev pub u64_mod : ℕ
u64_mod = 2 ^ 64

-- `e820_entry_t`, less the field `acpi`, which nothing reads
pub record E820Entry : Type 0 where
  pub base : ℕ
  pub size : ℕ
  pub kind : ℕ

abbrev pub e820_type_usable : ℕ
e820_type_usable = 1

-- The file's static variables. The array is read and written below `max_pages / 8` only.
pub record Pmm : Type 0 where
  pub bitmap : Array ℕ
  pub total_bytes : ℕ
  pub used_bytes : ℕ

-- `idx >> 3` is `idx / 8`, and `idx & 7` is `idx % 8`.
pub set_page : Array ℕ → ℕ → Array ℕ
set_page m idx = update m (idx / 8) (with_bit (m (idx / 8)) (idx % 8))

pub clear_page : Array ℕ → ℕ → Array ℕ
clear_page m idx = update m (idx / 8) (without_bit (m (idx / 8)) (idx % 8))

pub test_page : Array ℕ → ℕ → ℕ
test_page m idx = bit (m (idx / 8)) (idx % 8)

-- `a & ~(PAGE_SIZE - 1)`, where the mask is as wide as `uptr`
abbrev pub page_floor : ℕ → ℕ → ℕ
page_floor w a = (a - a % page_size) % w

-- `set_page(i); used_bytes += PAGE_SIZE;`
pub take_page : ℕ → Pmm → Pmm
take_page i s = record s {
  bitmap = set_page s.bitmap i;
  used_bytes = (s.used_bytes + page_size) % u64_mod;
}

-- one round of `pmm_mark_used`
pub mark_page : ℕ → Pmm → Pmm
unfolding take_page
mark_page p s = if test_page s.bitmap p == 0 then take_page p s else s

-- the loop of `pmm_mark_used`, by the rounds left
pub mark_loop : ℕ → ℕ → Pmm → Pmm
unfolding mark_page
mark_loop zero p s = s
mark_loop (suc n) p s = mark_loop n (p + 1) (mark_page p s)

pub mark_used : ℕ → ℕ → ℕ → Pmm → Pmm
mark_used w start end s =
    let p = start / page_size in
    let p_end = page_floor w ((end + (page_size - 1)) % w) / page_size in
    mark_loop (min p_end max_pages - p) p s

-- `clear_page` for each page of a usable region
pub clear_loop : ℕ → ℕ → Array ℕ → Array ℕ
clear_loop zero p m = m
clear_loop (suc n) p m = clear_loop n (p + 1) (clear_page m p)

-- one round of the loop over the memory map
pub add_region : ℕ → E820Entry → Pmm → Pmm
unfolding clear_loop
add_region w e s =
    let start = page_floor w ((e.base + (page_size - 1)) % u64_mod) in
    let end = page_floor w ((e.base + e.size) % u64_mod) in
    if e.kind != e820_type_usable || leb end start then s else record s {
      bitmap =
          clear_loop (min (end / page_size) max_pages - start / page_size) (start / page_size)
            s.bitmap;
      total_bytes = (s.total_bytes + (end - start)) % u64_mod;
    }

pub add_regions : ℕ → List E820Entry → Pmm → Pmm
unfolding add_region
add_regions w [] s = s
add_regions w (e ∷ map) s = add_regions w map (add_region w e s)

-- the recount at the end of `pmm_init`, over `n` pages from `i`
pub count_loop : Array ℕ → ℕ → ℕ → ℕ → ℕ
count_loop m zero i acc = acc
count_loop m (suc n) i acc =
    count_loop m n (i + 1) (if test_page m i == 0 then acc else (acc + page_size) % u64_mod)

-- `bss_end` and `bitmap_at` are addresses that the linker fixes. The line printed is left out.
pub init : ℕ → (bss_end bitmap_at : ℕ) → List E820Entry → Pmm → Pmm
init w bss_end bitmap_at map s =
    let s1 = add_regions w map (record s { bitmap = λ _. 255 }) in
    let s2 = mark_used w 0 0x100000 s1 in
    let kernel_end = page_floor w ((bss_end + (page_size - 1)) % w) in
    let s3 = mark_used w 0x10000 kernel_end s2 in
    let bm_end = page_floor w (((bitmap_at + max_pages / 8) % w + (page_size - 1)) % w) in
    let s4 = mark_used w bitmap_at bm_end s3 in
    record s4 { used_bytes = count_loop s4.bitmap max_pages 0 0 }

-- the scan of `pmm_alloc`, by the rounds left
pub alloc_loop : ℕ → ℕ → ℕ → Pmm → ℕ × Pmm
alloc_loop w zero i s = (0, s)
alloc_loop w (suc n) i s =
    let rest = alloc_loop w n (i + 1) s in
    if test_page s.bitmap i == 0 then (i * page_size % w, take_page i s) else rest

pub alloc : ℕ → Pmm → ℕ × Pmm
alloc w s = alloc_loop w (max_pages - 1) 1 s

-- `for (j = start; j < start + n; j++)`
pub take_run : ℕ → ℕ → Pmm → Pmm
take_run zero j s = s
take_run (suc n) j s = take_run n (j + 1) (take_page j s)

-- the scan of `pmm_alloc_n` for `want` pages, by the rounds left
pub alloc_n_loop : (w want : ℕ) → ℕ → (i run start : ℕ) → Pmm → ℕ × Pmm
alloc_n_loop w want zero i run start s = (0, s)
alloc_n_loop w want (suc n) i run start s =
    let start' = if run == 0 then i else start in
    let longer = alloc_n_loop w want n (i + 1) (run + 1) start' s in
    let anew = alloc_n_loop w want n (i + 1) 0 start s in
    if test_page s.bitmap i == 0
    then (if run + 1 == want then (start' * page_size % w, take_run want start' s) else longer)
    else anew

pub alloc_n : ℕ → ℕ → Pmm → ℕ × Pmm
alloc_n w want s = if want == 0 then (0, s) else alloc_n_loop w want (max_pages - 1) 1 0 0 s

pub free : ℕ → Pmm → Pmm
free phys s =
    let idx = phys / page_size in
    if leb max_pages idx || test_page s.bitmap idx == 0 then s else record s {
      bitmap = clear_page s.bitmap idx;
      used_bytes = (s.used_bytes + u64_mod - page_size) % u64_mod;
    }

-- `i << PAGE_SHIFT` is computed in 32 bits.
pub free_n_loop : (w phys : ℕ) → ℕ → ℕ → Pmm → Pmm
free_n_loop w phys zero i s = s
free_n_loop w phys (suc n) i s =
    free_n_loop w phys n (i + 1) (free ((phys + i * page_size % 2 ^ 32) % w) s)

pub free_n : (w phys n : ℕ) → Pmm → Pmm
unfolding free_n_loop
free_n w phys n s = free_n_loop w phys n 0 s

pub available : Pmm → ℕ
available s = (s.total_bytes + u64_mod - s.used_bytes) % u64_mod
