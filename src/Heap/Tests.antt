-- ===== src/Heap/Tests.antt =====
-- The heap of kernel/kmain.c on x86, 8 MiB from 4 MiB on, made by `heap_init`.
use aerogel.Common.{ℕ, ◌↔◌, ◌+◌, ◌%◌, ◌-◌, ◌^◌, ◌≡◌, refl, arith, true, false, List, [], ◌∷◌}
use aerogel.Heap.{
  Heap, done, panic, double_free, heap_init, find_free, cut, split, take, take_found, kmalloc,
  kfree, set_prev, set_used,
}
use aerogel.Heap.Tiles.{Cell, span}
use aerogel.Heap.Alloc.{IsHeap, AllocCases, kmalloc-AllocCases}
use aerogel.Heap.Free.{released, kfree-IsHeap, kfree-double_free_iff}
use aerogel.Heap.Cells.{Undone, kfree-kmalloc}

abbrev header_size : ℕ
header_size = 20

abbrev heap_start : ℕ
heap_start = 0x400000

abbrev heap_end : ℕ
heap_end = 0xC00000

abbrev off : Heap
off = record {
  blocks = λ _. record { magic = 0; size = 0; used = false; next = 0; prev = 0 };
  heap_head = 0;
  heap_used = 0;
}

abbrev fresh : Heap
fresh = heap_init header_size (2 ^ 32) heap_start 0x800000 off

abbrev one_cell : List Cell
one_cell = record { size = 0x800000 - header_size; used = false } ∷ []

fresh-IsHeap : IsHeap header_size heap_start heap_end one_cell fresh
unfolding heap_init
fresh-IsHeap = record {
  head = refl;
  tiles = (refl, 0, refl, (refl, refl));
  not_null = omega arith;
  small = omega arith;
}

kmalloc-AllocCases_example :
    AllocCases header_size
      (2 ^ 32)
      heap_start
      heap_end
      104
      one_cell
      fresh
      (kmalloc header_size (2 ^ 32) 2 100 fresh)
kmalloc-AllocCases_example =
    kmalloc-AllocCases header_size (2 ^ 32) (omega arith) (omega arith) heap_start heap_end 2 100
      one_cell fresh fresh-IsHeap (omega arith) (omega arith) (omega arith)

abbrev first : ℕ × Heap
first = take header_size (2 ^ 32) heap_start 104 fresh

first_lem : kmalloc header_size (2 ^ 32) 2 100 fresh ≡ done first
unfolding kmalloc find_free take_found heap_init
first_lem = refl

kfree-kmalloc_example :
    Undone header_size (2 ^ 32) heap_start heap_end 104 2 first.0 one_cell fresh first.1
kfree-kmalloc_example =
    kfree-kmalloc header_size (2 ^ 32) (omega arith) (omega arith) heap_start heap_end 100 2 first.0
      one_cell fresh first.1 fresh-IsHeap tt (omega arith) (omega arith) (omega arith) first_lem

kfree-double_free_iff_example :
    (kfree header_size (2 ^ 32) 5 (heap_start + span header_size [] + header_size) fresh
      ≡ panic double_free)
    ↔ (false ≡ false)
kfree-double_free_iff_example =
    kfree-double_free_iff header_size (2 ^ 32) (omega arith) (omega arith) heap_start heap_end []
      (record { size = 0x800000 - header_size; used = false }) [] fresh fresh-IsHeap 5 (omega arith)

abbrev used_cell : Cell
used_cell = record { size = 104; used = true }

abbrev rest_cell : Cell
rest_cell = record { size = 0x800000 - header_size - 104 - header_size; used = false }

first-IsHeap : IsHeap header_size heap_start heap_end (used_cell ∷ rest_cell ∷ []) first.1
unfolding heap_init take split cut set_prev set_used
first-IsHeap = record {
  head = refl;
  tiles = (refl, heap_start + header_size + 104, refl, (refl, 0, refl, (refl, refl)));
  not_null = omega arith;
  small = omega arith;
}

kfree-IsHeap_example :
    (s' : Heap) × (kfree header_size
        (2 ^ 32)
        2
        (heap_start + span header_size [] + header_size)
        first.1
      ≡ done s')
    × IsHeap header_size heap_start heap_end (released header_size [] used_cell (rest_cell ∷ [])) s'
    × (s'.heap_used ≡ (first.1.heap_used + 2 ^ 32 - 104) % 2 ^ 32)
kfree-IsHeap_example =
    kfree-IsHeap header_size (2 ^ 32) (omega arith) (omega arith) heap_start heap_end [] used_cell
      (rest_cell ∷ []) first.1 first-IsHeap 2 refl (omega arith)
