-- ===== src/Heap/Cells.antt =====
-- Allocating and freeing in turn, for kernel/mm/heap.c.
use aerogel.Common.{
  ℕ, ◌+◌, ◌-◌, ◌%◌, ◌^◌, ◌<◌, ◌≤◌, ◌≡◌, refl, sym, ap, ◌∙◌, subst, arith, Bool, true, false, ltb,
  if◌then◌else◌, inl, inr, List, [], ◌∷◌, ◌++◌, length, length-append, ◌⊎◌,
}
use aerogel.Heap.{Heap, Outcome, done, min_split, kmalloc, kfree}
use aerogel.Heap.Tiles.{Cell, span}
use aerogel.Heap.Merge.{absorb, merge_last}
use aerogel.Heap.Alloc.{IsHeap, Allocated, AllocCases, full, got, round8, kmalloc-AllocCases}
use aerogel.Heap.Free.{released, kfree-IsHeap}

-- No two cells next to each other are free.
abbrev pub IsCoalesced : List Cell → Type 0
IsCoalesced [] = Unit
IsCoalesced (c ∷ []) = Unit
IsCoalesced (c ∷ d ∷ cs) = ((c.used ≡ true) ⊎ (d.used ≡ true)) × IsCoalesced (d ∷ cs)

abbrev free_cell : ℕ → Cell
free_cell size = record { size = size; used = false }

absorb-free :
    (hdr size : ℕ) (post : List Cell)
    → IsCoalesced (free_cell size ∷ post)
    → absorb hdr (free_cell size) post ≡ (free_cell size, post)
absorb-free hdr size [] h = refl
absorb-free hdr size (d ∷ post) (inl absent, h) = ground (arith, absent)
absorb-free hdr size (d ∷ post) (inr used, h) = rw used

merge_last-free :
    (hdr size : ℕ) (pre post : List Cell)
    → IsCoalesced (pre ++ free_cell size ∷ post)
    → merge_last hdr pre (free_cell size) post ≡ pre ++ free_cell size ∷ post
merge_last-free hdr size [] post h = refl
merge_last-free hdr size (d ∷ []) post (inl used, h) = rw used
merge_last-free hdr size (d ∷ []) post (inr absent, h) = ground (arith, absent)
merge_last-free hdr size (d ∷ e ∷ pre) post h =
    ap (λ l. d ∷ l) (merge_last-free hdr size (e ∷ pre) post h.1)

IsCoalesced-behind : (pre cs : List Cell) → IsCoalesced (pre ++ cs) → IsCoalesced cs
IsCoalesced-behind [] cs h = h
IsCoalesced-behind (c ∷ []) [] h = tt
IsCoalesced-behind (c ∷ []) (d ∷ cs) h = h.1
IsCoalesced-behind (c ∷ d ∷ pre) cs h = IsCoalesced-behind (d ∷ pre) cs h.1

-- Releasing a free cell that stands alone changes nothing.
released-free :
    (hdr size : ℕ) (pre post : List Cell) (u : Bool)
    → IsCoalesced (pre ++ free_cell size ∷ post)
    → released hdr pre (record { size = size; used = u }) post ≡ pre ++ free_cell size ∷ post
released-free hdr size pre post u h =
    ap (λ a. merge_last hdr pre a.0 a.1)
      (absorb-free hdr size post (IsCoalesced-behind pre (free_cell size ∷ post) h))
    ∙ merge_last-free hdr size pre post h

-- the bytes that freeing subtracts from `heap_used` after an allocation of `n` bytes from `c`
abbrev pub taken_size : (hdr n : ℕ) → Cell → ℕ
taken_size hdr n c = if ltb c.size (n + hdr + min_split) then c.size else n

-- An allocation of `n` bytes from a cell that is freed again.
pub record Undone (hdr w start end n fuel ptr : ℕ) (cs : List Cell) (s s1 : Heap) : Type 0 where
  pub taken : Allocated hdr w start end n cs s ptr s1
  pub after : Heap
  pub frees : kfree hdr w fuel ptr s1 ≡ done after
  pub heap : IsHeap hdr start end cs after
  pub counted : after.heap_used ≡ ((s.heap_used + n) % w + w - taken_size hdr n taken.cell) % w

module _ (hdr w : ℕ) (pos : 0 < hdr) (wide : 2 ^ 32 ≤ w) (start end n fuel : ℕ) where
  module _ (before behind : List Cell) (size : ℕ) (s1 : Heap) (enough : n ≤ size)
      (fuel_enough : 1 + length behind < fuel)
      (coalesced : IsCoalesced (before ++ free_cell size ∷ behind)) where
    abbrev Back : (freed : ℕ) → Type 0
    Back freed =
        (s2 : Heap) × (kfree hdr w fuel (start + span hdr before + hdr) s1 ≡ done s2)
        × IsHeap hdr start end (before ++ free_cell size ∷ behind) s2
        × (s2.heap_used ≡ (s1.heap_used + w - freed) % w)

    free_carved :
        (t : Bool)
        → ltb size (n + hdr + min_split) ≡ t
        → IsHeap hdr start end
            (before
              ++ ((if t
                    then record { size = size; used = true } ∷ []
                    else record { size = n; used = true }
                      ∷ record { size = size - n - hdr; used = false }
                      ∷ [])
                  ++ behind))
            s1
        → Back (if t then size else n)
    free_carved true e v =
        restore
          (kfree-IsHeap hdr w pos wide start end before whole behind s1 v fuel refl (omega arith))
      where
        whole : Cell
        whole = record { size = size; used = true }

        restore :
            (s2 : Heap) × (kfree hdr w fuel (start + span hdr before + hdr) s1 ≡ done s2)
              × IsHeap hdr start end (released hdr before whole behind) s2
              × (s2.heap_used ≡ (s1.heap_used + w - size) % w)
            → Back size
        restore (s2, frees, v2, counted) = (
          s2,
          frees,
          subst (λ l. IsHeap hdr start end l s2)
              (released-free hdr size before behind true coalesced) v2,
          counted,
        )
    free_carved false e v = restore (
        kfree-IsHeap hdr w pos wide start end before part_used (rest ∷ behind) s1 v fuel refl
          (omega arith))
      where
        part_used : Cell
        part_used = record { size = n; used = true }

        rest : Cell
        rest = record { size = size - n - hdr; used = false }

        whole_again : n + hdr + (size - n - hdr) ≡ size
        whole_again = ground (arith, e)

        restore :
            (s2 : Heap) × (kfree hdr w fuel (start + span hdr before + hdr) s1 ≡ done s2)
              × IsHeap hdr start end (released hdr before part_used (rest ∷ behind)) s2
              × (s2.heap_used ≡ (s1.heap_used + w - n) % w)
            → Back n
        restore (s2, frees, v2, counted) = (
          s2,
          frees,
          subst (λ l. IsHeap hdr start end l s2)
              (ap (λ x. released hdr before (record { size = x; used = true }) behind) whole_again
                ∙ released-free hdr size before behind true coalesced)
              v2,
          counted,
        )

  free-Allocated :
      (ptr : ℕ) (cs : List Cell) (s s1 : Heap)
      → Allocated hdr w start end n cs s ptr s1
      → IsCoalesced cs
      → length cs < fuel
      → Undone hdr w start end n fuel ptr cs s s1
  free-Allocated ptr cs s s1 a coalesced enough = finish (
      free_carved a.before a.behind a.cell.size s1 (ground (arith, a.fit)) fuel_enough
        (subst IsCoalesced whole coalesced) (ltb a.cell.size (n + hdr + min_split)) refl a.heap)
    where
      whole : cs ≡ a.before ++ free_cell a.cell.size ∷ a.behind
      whole =
          a.parts
          ∙ ap (λ u. a.before ++ record { size = a.cell.size; used = u } ∷ a.behind)
              (ground (arith, a.fit))

      fuel_enough : 1 + length a.behind < fuel
      fuel_enough =
          omega (arith, enough, ap length a.parts, length-append a.before (a.cell ∷ a.behind))

      finish :
          Back a.before a.behind a.cell.size s1
            (ground (arith, a.fit))
            fuel_enough
            (subst IsCoalesced whole coalesced)
            (taken_size hdr n a.cell)
          → Undone hdr w start end n fuel ptr cs s s1
      finish (s2, frees, v2, counted) = record {
        taken = a;
        after = s2;
        frees = ap (λ x. kfree hdr w fuel x s1) a.place ∙ frees;
        heap = subst (λ l. IsHeap hdr start end l s2) (sym whole) v2;
        counted = counted ∙ ap (λ x. (x + w - taken_size hdr n a.cell) % w) a.counted;
      }

-- An allocation that has a result is one of a cell.
done-Allocated :
    (hdr w start end n : ℕ) (cs : List Cell) (s : Heap) (o : Outcome (ℕ × Heap)) (ptr : ℕ)
    (s1 : Heap)
    → AllocCases hdr w start end n cs s o
    → o ≡ done (ptr, s1)
    → Allocated hdr w start end n cs s ptr s1
done-Allocated hdr w start end n cs s o ptr s1 (full none_fits) e = cc
done-Allocated hdr w start end n cs s o ptr s1 (got ptr' s1' a) e =
    subst (λ r. Allocated hdr w start end n cs s (value r).0 (value r).1) e a
  where
    value : Outcome (ℕ × Heap) → ℕ × Heap
    value (done r) = r
    value o = (ptr, s1)

-- On a heap where no two neighbours are free, freeing what `kmalloc` returned gives the cells back as
-- they were, where the size can be rounded up. The byte count goes up by the size asked for, rounded up, and down
-- by that of the block, which is the whole cell that was taken where it was not cut.
pub kfree-kmalloc :
    (hdr w : ℕ)
    → 0 < hdr
    → 2 ^ 32 ≤ w
    → (start end size fuel ptr : ℕ) (cs : List Cell) (s s1 : Heap) → IsHeap hdr start end cs s
    → IsCoalesced cs
    → 0 < size
    → size + 7 < w
    → length cs < fuel
    → kmalloc hdr w fuel size s ≡ done (ptr, s1)
    → Undone hdr w start end (round8 size) fuel ptr cs s s1
kfree-kmalloc hdr w pos wide start end size fuel ptr cs s s1 v coalesced size_pos room enough e =
    free-Allocated hdr w pos wide start end (round8 size) fuel ptr cs s s1
      (done-Allocated hdr w start end (round8 size) cs s (kmalloc hdr w fuel size s) ptr s1
        (kmalloc-AllocCases hdr w pos wide start end fuel size cs s v size_pos room enough) e)
      coalesced enough
