-- ===== src/Pmm/Tests.antt =====
-- The allocator of kernel/mm/pmm.c at concrete states.
use aerogel.Common.{ℕ, zero, suc, ◌*◌, ◌^◌, ◌<◌, ◌≡◌, ◌≢◌, refl, arith, ◌⊎◌, ◌↔◌, List, [], ◌∷◌}
use aerogel.Pmm.{
  E820Entry, Pmm, page_size, max_pages, test_page, set_page, clear_page, take_page, alloc_loop,
  alloc, alloc_n, free, free_n, init, available,
}
use aerogel.Pmm.Bitmap.{set_count}
use aerogel.Pmm.Alloc.{IsValid, used, AllocResult, alloc_lem, alloc-IsValid}
use aerogel.Pmm.Runs.{RunResult, alloc_n_lem}
use aerogel.Pmm.Free.{Frees, free_lem, free-IsValid, free_twice, free_n-IsValid}
use aerogel.Pmm.Init.{free_pages, available_iff, all_used}
use aerogel.Pmm.Regions.{Initialised, init_lem}

abbrev pub full : Pmm
full = record { bitmap = λ _. 255; total_bytes = 2 ^ 31; used_bytes = 2 ^ 31 }

set_count-full : (n : ℕ) → set_count (λ _. 255) n ≡ n
unfolding set_count
set_count-full zero = refl
set_count-full (suc n) = omega (arith, set_count-full n, all_used n)

pub full-IsValid : IsValid full
full-IsValid = record {
  bytes = λ _. omega arith;
  counted = omega (arith, set_count-full max_pages);
}

-- Pages 5 and 6 are free, and no other.
abbrev pub holed : Pmm
holed = free 0x5000 (free 0x6fff full)

pub holed-IsValid : IsValid holed
holed-IsValid = free-IsValid (free-IsValid full-IsValid 0x6fff) 0x5000

pub page_two-used : used holed 2 ≡ 1
unfolding free test_page set_page clear_page
page_two-used = refl

alloc-holed : (alloc (2 ^ 32) holed).0 ≡ 0x5000
unfolding alloc alloc_loop free test_page set_page clear_page take_page
alloc-holed = refl

alloc-ne-zero : (alloc (2 ^ 32) holed).0 ≢ 0
alloc-ne-zero e = absurd (omega (arith, alloc-holed))

alloc_lem_example : AllocResult 1 max_pages holed (alloc (2 ^ 32) holed)
alloc_lem_example = alloc_lem (2 ^ 32) (omega arith) holed-IsValid

alloc-IsValid_example : IsValid (alloc (2 ^ 32) holed).1
alloc-IsValid_example = alloc-IsValid (2 ^ 32) (omega arith) holed-IsValid

alloc_n_lem_example : RunResult 2 max_pages holed (alloc_n (2 ^ 32) 2 holed)
alloc_n_lem_example = alloc_n_lem (2 ^ 32) (omega arith) holed-IsValid 2 (λ e. absurd (omega arith))

free_lem_example :
    Frees holed (free 0x7000 holed) 7
    ⊎ ((free 0x7000 holed ≡ holed) × (7 < max_pages → used holed 7 ≡ 0))
free_lem_example = free_lem holed-IsValid 0x7000

free_twice_example : free 0x7000 (free 0x7000 holed) ≡ free 0x7000 holed
free_twice_example = free_twice 0x7000 holed-IsValid

free_n-IsValid_example : IsValid (free_n (2 ^ 32) 0x7000 3 holed)
free_n-IsValid_example = free_n-IsValid (2 ^ 32) 0x7000 3 holed-IsValid

-- 128 MiB of memory from the first megabyte on
abbrev map_128 : List E820Entry
map_128 =
    record { base = 0; size = 0x9fc00; kind = 1 }
    ∷ record { base = 0x100000; size = 0x7f00000; kind = 1 }
    ∷ record { base = 0xfffc0000; size = 0x40000; kind = 2 }
    ∷ []

init_lem_example :
    Initialised 0x120000 0x110000 map_128 (init (2 ^ 32) 0x120000 0x110000 map_128 full)
init_lem_example =
    init_lem (2 ^ 32) 0x120000 0x110000 map_128 full (omega arith) (omega arith) (omega arith)
      (omega arith) ((λ _. omega arith), ((λ _. omega arith), ((λ e. omega (arith, e)), tt)))

available_iff_example :
    (available full ≡ page_size * free_pages full) ↔ (full.total_bytes ≡ page_size * max_pages)
available_iff_example = available_iff full-IsValid (omega arith)
