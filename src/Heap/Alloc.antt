-- ===== src/Heap/Alloc.antt =====
-- What `kmalloc` of kernel/mm/heap.c does to the cells of the heap.
use aerogel.Common.{
  ℕ, ◌+◌, ◌*◌, ◌/◌, ◌%◌, ◌^◌, ◌<◌, ◌≤◌, ◌≡◌, ◌≢◌, refl, sym, ap, subst, arith, true, false, ==_ne,
  mod-eq_of_lt, List, ◌∷◌, ◌++◌, length, All, Option,
}
use aerogel.Heap.{
  Heap, Outcome, done, panic, out_of_memory, min_split, align8, set_used, find_free, split, take,
  take_found, kmalloc,
}
use aerogel.Heap.Tiles.{Cell, span, Tiles, Run, Run-end, Run-frame, join}
use aerogel.Heap.Search.{fits, Search, missing, found, find_free-Search}
use aerogel.Heap.Split.{carve, split-Tiles, split-before}

-- The blocks fill the memory from `start` to `end`, which 32 bits reach, with the cells `cs`.
pub record IsHeap (hdr start end : ℕ) (cs : List Cell) (s : Heap) : Type 0 where
  pub head : s.heap_head ≡ start
  pub tiles : Tiles hdr s.blocks 0 start start cs end
  pub not_null : 0 < start
  pub small : end + hdr + min_split < 2 ^ 32

-- An allocation of `n` bytes carves them from the first cell `c` that fits.
pub record Allocated (hdr w start end n : ℕ) (cs : List Cell) (s : Heap) (ptr : ℕ) (s' : Heap)
    : Type 0 where
  pub before : List Cell
  pub cell : Cell
  pub behind : List Cell
  pub parts : cs ≡ before ++ cell ∷ behind
  pub none_before : All (λ d. fits n d ≡ false) before
  pub fit : fits n cell ≡ true
  pub place : ptr ≡ start + span hdr before + hdr
  pub heap : IsHeap hdr start end (before ++ (carve hdr n cell ++ behind)) s'
  pub counted : s'.heap_used ≡ (s.heap_used + n) % w

-- The cases of an allocation of `n` bytes, after rounding up.
pub data AllocCases (hdr w start end n : ℕ) (cs : List Cell) (s : Heap)
    : Outcome (ℕ × Heap) → Type 0 where
  full : All (λ d. fits n d ≡ false) cs → AllocCases hdr w start end n cs s (panic out_of_memory)
  got :
      (ptr : ℕ) (s' : Heap)
      → Allocated hdr w start end n cs s ptr s'
      → AllocCases hdr w start end n cs s (done (ptr, s'))

-- the next multiple of 8
abbrev pub round8 : ℕ → ℕ
round8 n = (n + 7) / 8 * 8

align8-round8 : (hdr w size : ℕ) → size + 7 < w → align8 hdr w size ≡ round8 size
align8-round8 hdr w size room = ap (λ x. x / 8 * 8) (mod-eq_of_lt room)

module _ (hdr w : ℕ) (pos : 0 < hdr) (wide : 2 ^ 32 ≤ w) (start end : ℕ) where
  take-Allocated :
      (n b p : ℕ) (s : Heap) (cs pre : List Cell) (c : Cell) (post : List Cell)
      → IsHeap hdr start end cs s
      → cs ≡ pre ++ c ∷ post
      → All (λ d. fits n d ≡ false) pre
      → fits n c ≡ true
      → Run hdr s.blocks 0 start start pre p b b
      → Tiles hdr s.blocks p b b (c ∷ post) end
      → Allocated hdr w start end n cs s (take hdr w b n s).0 (take hdr w b n s).1
  unfolding take
  take-Allocated n b p s cs pre c post v parts none_before fit before after = record {
    before = pre;
    cell = c;
    behind = post;
    parts = parts;
    none_before = none_before;
    fit = fit;
    place = omega (arith, Run-end hdr s.blocks 0 start start pre p b b before);
    heap = record {
      head = v.head;
      tiles =
          join hdr (set_used b true (split hdr w b n s.blocks)) 0 start start pre p b b
            (carve hdr n c ++ post) end
            (Run-frame hdr s.blocks (set_used b true (split hdr w b n s.blocks)) 0 start start pre p
              b b pos
              (λ k h h'.
                split-before hdr w pos n s.blocks p b c post end b_pos enough v.small wide after k
                  (omega (arith, v.not_null)) h')
              before)
            (split-Tiles hdr w pos n s.blocks p b c post end b_pos enough v.small wide after);
      not_null = v.not_null;
      small = v.small;
    };
    counted = refl;
  }
    where
      b_pos : 0 < b
      b_pos = omega (arith, v.not_null, Run-end hdr s.blocks 0 start start pre p b b before)

      enough : n ≤ c.size
      enough = ground (arith, fit)

  take_found-AllocCases :
      (n : ℕ) (cs : List Cell) (s : Heap) (r : Option ℕ)
      → IsHeap hdr start end cs s
      → Search hdr n s.blocks 0 start start cs end r
      → AllocCases hdr w start end n cs s (take_found hdr w r n s)
  unfolding take_found
  take_found-AllocCases n cs s r v (missing null none_fits) = rw null (full none_fits)
  take_found-AllocCases n cs s r v (found b p pre c post there parts none_before fit before after) =
      rw (there, ==_ne b 0 b_not_null)
        (got (take hdr w b n s).0 (take hdr w b n s).1
          (take-Allocated n b p s cs pre c post v parts none_before fit before after))
    where
      b_not_null : b ≢ 0
      b_not_null = omega (arith, v.not_null, Run-end hdr s.blocks 0 start start pre p b b before)

  -- The size as the code rounds it, which can wrap
  kmalloc-aligned :
      (fuel size : ℕ) (cs : List Cell) (s : Heap)
      → IsHeap hdr start end cs s
      → 0 < size
      → length cs < fuel
      → AllocCases hdr w start end (align8 hdr w size) cs s (kmalloc hdr w fuel size s)
  unfolding kmalloc
  kmalloc-aligned fuel size cs s v size_pos enough = rw (==_ne size 0 (omega arith)) (
      take_found-AllocCases (align8 hdr w size) cs s
        (find_free fuel s.heap_head (align8 hdr w size) s.blocks) v
        (subst
          (λ h.
            Search hdr (align8 hdr w size) s.blocks 0 start start cs end
              (find_free fuel h (align8 hdr w size) s.blocks))
          (sym v.head)
          (find_free-Search hdr (align8 hdr w size) s.blocks fuel 0 start start cs end v.not_null
            v.tiles enough)))

  -- `kmalloc` of at least one byte, of a size that can be rounded up to a multiple of 8, ends: it takes the first
  -- block that is free and has room for the rounded size, cut to it where the rest can hold a block, or panics
  -- exactly if there is none.
  pub kmalloc-AllocCases :
      (fuel size : ℕ) (cs : List Cell) (s : Heap)
      → IsHeap hdr start end cs s
      → 0 < size
      → size + 7 < w
      → length cs < fuel
      → AllocCases hdr w start end (round8 size) cs s (kmalloc hdr w fuel size s)
  kmalloc-AllocCases fuel size cs s v size_pos room enough =
      subst (λ n. AllocCases hdr w start end n cs s (kmalloc hdr w fuel size s))
        (align8-round8 hdr w size room) (kmalloc-aligned fuel size cs s v size_pos enough)
