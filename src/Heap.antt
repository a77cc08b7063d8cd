-- ===== src/Heap.antt =====
-- The kernel heap, kernel/mm/heap.c: a list of blocks, each a header before its bytes. A header is kept
-- at its address; `hdr` is `sizeof(block_hdr_t)`, 20 bytes on x86 and 32 on x86_64, and `w` is the number
-- of values of `size_t`. The bytes that the blocks hold are a memory of their own.
pub mod Tiles
mod Search
mod Split
pub mod Alloc
mod Merge
mod Joins
pub mod Free
pub mod Cells
mod Tests
use aerogel.Common.{
  ℕ, zero, suc, ◌+◌, ◌-◌, ◌*◌, ◌/◌, ◌%◌, ◌^◌, Bool, true, false, not, ◌&&◌, ◌||◌, ◌==◌, ◌!=◌, ltb,
  leb, if◌then◌else◌, Option, none, some,
}
use aerogel.Common.Array.{Array, update}
use aerogel.Libc.{Memory, memset, memcpy}

abbrev pub heap_magic : ℕ
heap_magic = 0xAE0CA001

abbrev pub min_split : ℕ
min_split = 32

-- `block_hdr_t`
pub record Block : Type 0 where
  pub magic : ℕ
  pub size : ℕ
  pub used : Bool
  pub next : ℕ
  pub prev : ℕ

pub record Heap : Type 0 where
  pub blocks : Array Block
  pub heap_head : ℕ
  pub heap_used : ℕ

-- The calls of `kpanic`
pub data Panic : Type 0 where
  out_of_memory : Panic
  corrupt : Panic
  double_free : Panic

-- A result, a panic, or a loop that has used up its fuel.
pub data Outcome (A : Type 0) : Type 0 where
  done : A → Outcome A
  panic : Panic → Outcome A
  running : Outcome A

abbrev pub and_then : {A B : Type 0} → Outcome A → (A → Outcome B) → Outcome B
and_then (done a) f = f a
and_then (panic p) f = panic p
and_then running f = running

-- `if (b) b->prev = v;`
pub set_prev : (b v : ℕ) → Array Block → Array Block
set_prev b v m = if b == 0 then m else update m b (record (m b) { prev = v })

pub set_used : (b : ℕ) → Bool → Array Block → Array Block
set_used b v m = update m b (record (m b) { used = v })

-- The loop of `find_free` from `b` on; 0 is NULL.
pub find_free : (fuel b size : ℕ) → Array Block → Option ℕ
find_free zero b size m = none
find_free (suc f) b size m =
    let rest = find_free f (m b).next size m in
    if b == 0 then some 0 else if not (m b).used && leb size (m b).size then some b else rest

module _ (hdr w : ℕ) where
  -- `ALIGN_UP(size, 8)`
  abbrev pub align8 : ℕ → ℕ
  align8 size = (size + 7) % w / 8 * 8

  pub heap_init : (start size : ℕ) → Heap → Heap
  heap_init start size s = record {
    blocks = update s.blocks start (record {
      magic = heap_magic;
      size = (size + w - hdr) % w % 2 ^ 32;
      used = false;
      next = 0;
      prev = 0;
    });
    heap_head = start;
    heap_used = 0;
  }

  -- the new block behind `b`
  pub cut : (b size : ℕ) → Array Block → Array Block
  unfolding set_prev
  cut b size m =
      let nb = b + hdr + size in
      let m1 = update m nb (record {
        magic = heap_magic;
        size = ((m b).size - size - hdr) % 2 ^ 32;
        used = false;
        next = (m b).next;
        prev = b;
      }) in
      let m2 = set_prev (m1 b).next nb m1 in
      update m2 b (record (m2 b) { next = nb; size = size % 2 ^ 32 })

  pub split : (b size : ℕ) → Array Block → Array Block
  unfolding cut
  split b size m = if ltb (m b).size ((size + hdr + min_split) % w) then m else cut b size m

  -- one round of the loop of `coalesce`
  pub join_next : ℕ → Array Block → Array Block
  unfolding set_prev
  join_next b m =
      let n = (m b).next in
      let m1 =
        update m b
          (record (m b) { size = ((m b).size + hdr + (m n).size) % 2 ^ 32; next = (m n).next }) in
      set_prev (m1 b).next b m1

  pub join_nexts : (fuel b : ℕ) → Array Block → Option (Array Block)
  unfolding join_next
  join_nexts zero b m = none
  join_nexts (suc f) b m =
      let rest = join_nexts f b (join_next b m) in
      if ((m b).next != 0) && not (m (m b).next).used then rest else some m

  -- the end of `coalesce`
  pub join_prev : ℕ → Array Block → Array Block
  unfolding set_prev
  join_prev b m =
      let p = (m b).prev in
      let m1 =
        update m p
          (record (m p) { size = ((m p).size + hdr + (m b).size) % 2 ^ 32; next = (m b).next }) in
      if (p != 0) && not (m p).used then set_prev (m1 b).next (m1 b).prev m1 else m

  pub coalesce : (fuel b : ℕ) → Array Block → Option (Array Block)
  unfolding join_nexts join_prev
  coalesce fuel b m = elim (join_nexts fuel b m) [ none ↦ none | some m' ↦ some (join_prev b m') ]

  -- `kmalloc` once `find_free` has found the block `b`, for a size that is aligned
  pub take : (b size : ℕ) → Heap → ℕ × Heap
  unfolding split set_used
  take b size s = (
    b + hdr,
    record s {
      blocks = set_used b true (split b size s.blocks);
      heap_used = (s.heap_used + size) % w;
    },
  )

  -- the rest of `kmalloc`, where `b` is what `find_free` found
  pub take_found : (found : Option ℕ) (size : ℕ) → Heap → Outcome (ℕ × Heap)
  unfolding take
  take_found none size s = running
  take_found (some b) size s = if b == 0 then panic out_of_memory else done (take b size s)

  pub kmalloc : (fuel size : ℕ) → Heap → Outcome (ℕ × Heap)
  unfolding find_free take_found
  kmalloc fuel size s =
      if size == 0
      then done (0, s)
      else take_found (find_free fuel s.heap_head (align8 size) s.blocks) (align8 size) s

  -- the end of `kfree` for a block of `size` bytes
  pub give_back : (size : ℕ) → Option (Array Block) → Heap → Outcome Heap
  give_back size none s = running
  give_back size (some m) s =
      done (record s { blocks = m; heap_used = (s.heap_used + w - size) % w })

  -- `kfree` of the block `b`
  pub free_block : (fuel b : ℕ) → Heap → Outcome Heap
  unfolding coalesce set_used give_back
  free_block fuel b s =
      if (s.blocks b).magic != heap_magic
      then panic corrupt
      else if not (s.blocks b).used
      then panic double_free
      else give_back (s.blocks b).size (coalesce fuel b (set_used b false s.blocks)) s

  pub kfree : (fuel ptr : ℕ) → Heap → Outcome Heap
  unfolding free_block
  kfree fuel ptr s = if ptr == 0 then done s else free_block fuel ((ptr + w - hdr) % w) s

  pub kcalloc : (fuel n size : ℕ) → Memory → Heap → Outcome (ℕ × Memory × Heap)
  unfolding kmalloc
  kcalloc fuel n size bytes s =
      and_then (kmalloc fuel (n * size % w) s)
        λ r. done (r.0, if r.0 == 0 then bytes else memset bytes r.0 0 (n * size % w), r.1)

  pub krealloc : (fuel ptr size : ℕ) → Memory → Heap → Outcome (ℕ × Memory × Heap)
  unfolding kmalloc kfree
  krealloc fuel ptr size bytes s =
      let b = (ptr + w - hdr) % w in
      if ptr == 0
      then and_then (kmalloc fuel size s) (λ r. done (r.0, bytes, r.1))
      else if size == 0
      then and_then (kfree fuel ptr s) (λ s'. done (0, bytes, s'))
      else if (s.blocks b).magic != heap_magic
      then panic corrupt
      else if leb size (s.blocks b).size
      then done (ptr, bytes, s)
      else and_then (kmalloc fuel size s) (λ r.
        and_then (kfree fuel ptr r.1)
          (λ s'. done (r.0, memcpy bytes r.0 ptr (r.1.blocks b).size, s')))
