-- ===== src/Heap/Joins.antt =====
-- What the end of `coalesce` of kernel/mm/heap.c does to the cells of the heap.
use aerogel.Common.{
  ℕ, ◌+◌, ◌^◌, ◌<◌, ◌≡◌, refl, sym, ap, ◌∙◌, subst, arith, Bool, true, false, not, ◌&&◌, ◌!=◌,
  if◌then◌else◌, List, [], ◌∷◌,
}
use aerogel.Common.Array.{Array}
use aerogel.Heap.{Block, join_prev}
use aerogel.Heap.Tiles.{Cell, header, Tiles, Run, join}
use aerogel.Heap.Merge.{fuse, merge_last, absorbed, absorbed-Tiles, absorbed-other, join_prev-eq}

pub join_prev-none :
    (hdr w b : ℕ) (m : Array Block) (p : ℕ)
    → (m b).prev ≡ p
    → ((p != 0) && not (m p).used) ≡ false
    → join_prev hdr w b m ≡ m
unfolding join_prev
join_prev-none hdr w b m p e test = rw (e, test)

module _ (hdr w : ℕ) (pos : 0 < hdr) (m : Array Block) (p b : ℕ) (c : Cell) (cs : List Cell)
    (end : ℕ) (small : end < 2 ^ 32) (tiles : Tiles hdr m p b b (c ∷ cs) end) where
  -- The end of `coalesce` joins the block with the one before it, if that one is free.
  pub join_prev-Tiles :
      (p0 q at : ℕ) (d : Cell) (pre : List Cell)
      → 0 < at
      → Run hdr m p0 q at (d ∷ pre) p b b
      → Tiles hdr (join_prev hdr w b m) p0 q at (merge_last hdr (d ∷ pre) c cs) end
        × ((k : ℕ) → 0 < k → k < at → join_prev hdr w b m k ≡ m k)
  join_prev-Tiles p0 q at d [] at_pos (e, next, block, (same, to, place)) = choose d.used refl
    where
      prev_b : (m b).prev ≡ p
      prev_b = ap (λ x. x.prev) tiles.2

      p_used : (m p).used ≡ d.used
      p_used = ap (λ x. (m x).used) (sym same) ∙ ap (λ x. x.used) block

      at_block : m at ≡ header d b p0
      at_block = block ∙ ap (λ x. header d x p0) to

      b_block : m b ≡ header c tiles.1 at
      b_block = tiles.2 ∙ ap (λ x. header c tiles.1 x) (sym same)

      choose :
          (u : Bool)
          → d.used ≡ u
          → Tiles hdr
              (join_prev hdr w b m)
              p0
              q
              at
              (if u then d ∷ c ∷ cs else fuse hdr d c ∷ cs)
              end
            × ((k : ℕ) → 0 < k → k < at → join_prev hdr w b m k ≡ m k)
      choose true u =
          subst (λ x. Tiles hdr x p0 q at (d ∷ c ∷ cs) end × ((k : ℕ) → 0 < k → k < at → x k ≡ m k))
            (sym (join_prev-none hdr w b m p prev_b (rw (p_used ∙ u) (ground arith))))
            (
              join hdr m p0 q at (d ∷ []) p b b (c ∷ cs) end (e, next, block, (same, to, place))
                  tiles,
              λ k k_pos h. refl,
            )
      choose false u =
          subst
            (λ x.
              Tiles hdr x p0 q at (fuse hdr d c ∷ cs) end × ((k : ℕ) → 0 < k → k < at → x k ≡ m k))
            (sym (
              join_prev-eq hdr w pos m b at (prev_b ∙ sym same) (omega arith) (omega arith)
                (ap (λ x. x.used) block ∙ u)))
            (
              subst (λ x. Tiles hdr (absorbed hdr w pos m at b) p0 x at (fuse hdr d c ∷ cs) end)
                  (sym e)
                  (absorbed-Tiles hdr w pos m p0 at b tiles.1 end d c cs at_pos small at_block
                    (omega arith) b_block tiles.3),
              λ k k_pos h.
                  absorbed-other hdr w pos m p0 at b tiles.1 end d c cs at_pos small at_block
                    (omega arith) b_block tiles.3 k k_pos (omega arith) (omega arith),
            )
  join_prev-Tiles p0 q at d (d' ∷ pre) at_pos (e, next, block, r) =
      add (join_prev-Tiles at next (at + hdr + d.size) d' pre (omega arith) r)
    where
      add :
          Tiles hdr
              (join_prev hdr w b m)
              at
              next
              (at + hdr + d.size)
              (merge_last hdr (d' ∷ pre) c cs)
              end
            × ((k : ℕ) → 0 < k → k < at + hdr + d.size → join_prev hdr w b m k ≡ m k)
          → Tiles hdr (join_prev hdr w b m) p0 q at (d ∷ merge_last hdr (d' ∷ pre) c cs) end
            × ((k : ℕ) → 0 < k → k < at → join_prev hdr w b m k ≡ m k)
      add (t, before) = (
        (e, next, before at at_pos (omega arith) ∙ block, t),
        λ k k_pos h. before k k_pos (omega arith),
      )
