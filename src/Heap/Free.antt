-- ===== src/Heap/Free.antt =====
-- What `kfree` of kernel/mm/heap.c does to the cells of the heap.
use native.Mathlib.Nat.{mod-eq_of_lt, add-mod_right}
use aerogel.Common.{
  ℕ, ◌+◌, ◌-◌, ◌%◌, ◌^◌, ◌<◌, ◌≤◌, ◌≡◌, refl, sym, ap, ◌∙◌, subst, arith, true, false, not, ◌!=◌,
  if◌then◌else◌, ◌↔◌, ◌≢◌, Bool-cases, inl, inr, ==_ne, List, [], ◌∷◌, ◌++◌, length, none, some,
}
use aerogel.Common.Array.{Array}
use aerogel.Heap.{
  Block, Heap, done, panic, double_free, corrupt, heap_magic, set_used, join_nexts, join_prev,
  coalesce, give_back, free_block, kfree,
}
use aerogel.Heap.Tiles.{Cell, header, span, Tiles, Tiles-end, Run, Run-end, Run-frame, join, part}
use aerogel.Heap.Split.{Tiles-set_used, set_used-other}
use aerogel.Heap.Merge.{absorb, merge_last, Joined, join_nexts-Joined}
use aerogel.Heap.Alloc.{IsHeap}
use aerogel.Heap.Joins.{join_prev-none, join_prev-Tiles}

-- `free_block` looks at the header only.
free_block-free :
    (hdr w fuel b : ℕ) (s : Heap) (c : Cell) (next p : ℕ)
    → s.blocks b ≡ header c next p
    → c.used ≡ false
    → free_block hdr w fuel b s ≡ panic double_free
unfolding free_block
free_block-free hdr w fuel b s c next p e free = rw (e, free)

free_block-used :
    (hdr w fuel b : ℕ) (s : Heap) (c : Cell) (next p : ℕ)
    → s.blocks b ≡ header c next p
    → c.used ≡ true
    → free_block hdr w fuel b s
      ≡ give_back hdr w c.size (coalesce hdr w fuel b (set_used b false s.blocks)) s
unfolding free_block
free_block-used hdr w fuel b s c next p e used =
    ap
      (λ x.
        if x.magic != heap_magic
        then panic corrupt
        else if not x.used
        then panic double_free
        else give_back hdr w x.size (coalesce hdr w fuel b (set_used b false s.blocks)) s)
      e
    ∙ rw used

-- The cells after the cell between `pre` and `post` is freed.
abbrev pub released : ℕ → List Cell → Cell → List Cell → List Cell
released hdr pre c post =
    let a = absorb hdr (record { size = c.size; used = false }) post in merge_last hdr pre a.0 a.1

module _ (hdr w : ℕ) (pos : 0 < hdr) (end : ℕ) (small : end < 2 ^ 32) where
  join_prev-head :
      (m : Array Block) (p b q at : ℕ) (c : Cell) (cs pre : List Cell)
      → 0 < at
      → Run hdr m 0 q at pre p b b
      → Tiles hdr m p b b (c ∷ cs) end
      → Tiles hdr (join_prev hdr w b m) 0 q at (merge_last hdr pre c cs) end
  join_prev-head m p b q at c cs [] at_pos r t =
      subst (λ x. Tiles hdr x 0 q at (c ∷ cs) end)
        (sym (join_prev-none hdr w b m p (ap (λ x. x.prev) t.2) (ground (arith, r.0))))
        (join hdr m 0 q at [] p b b (c ∷ cs) end r t)
  join_prev-head m p b q at c cs (d ∷ pre) at_pos r t =
      (join_prev-Tiles hdr w pos m p b c cs end small t 0 q at d pre at_pos r).0

  coalesce-Tiles :
      (fuel p b q at : ℕ) (c : Cell) (post pre : List Cell) (m : Array Block)
      → 0 < at
      → Run hdr m 0 q at pre p b b
      → Tiles hdr m p b b (c ∷ post) end
      → length post < fuel
      → (m' : Array Block) × (coalesce hdr w fuel b m ≡ some m')
        × Tiles hdr m' 0 q at (merge_last hdr pre (absorb hdr c post).0 (absorb hdr c post).1) end
  unfolding coalesce
  coalesce-Tiles fuel p b q at c post pre m at_pos r t enough =
      finish (join_nexts-Joined hdr w pos fuel p b c post end m b_pos small t enough)
    where
      b_pos : 0 < b
      b_pos = omega (arith, at_pos, Run-end hdr m 0 q at pre p b b r)

      finish :
          Joined hdr m p b (absorb hdr c post) end (join_nexts hdr w fuel b m)
          → (m' : Array Block) × ((elim (join_nexts hdr w fuel b m) [
            | none ↦ none
            | some m1 ↦ some (join_prev hdr w b m1)
          ])
              ≡ some m')
            × Tiles hdr m' 0 q at
                (merge_last hdr pre (absorb hdr c post).0 (absorb hdr c post).1)
                end
      finish (m1, e, t1, before) = (
        join_prev hdr w b m1,
        ap (λ o. elim o [ none ↦ none | some m2 ↦ some (join_prev hdr w b m2) ]) e,
        join_prev-head m1 p b q at (absorb hdr c post).0 (absorb hdr c post).1 pre at_pos
            (Run-frame hdr m m1 0 q at pre p b b pos (λ k h h'. before k (omega (arith, at_pos)) h')
              r)
            t1,
      )

module _ (hdr w : ℕ) (pos : 0 < hdr) (wide : 2 ^ 32 ≤ w) (start end : ℕ) (pre : List Cell)
    (c : Cell) (post : List Cell) (s : Heap) (v : IsHeap hdr start end (pre ++ c ∷ post) s) where
  parted :
      (p' : ℕ) × (q' : ℕ) × Run hdr s.blocks 0 start start pre p' q' (start + span hdr pre)
      × Tiles hdr s.blocks p' q' (start + span hdr pre) (c ∷ post) end
  parted = part hdr s.blocks 0 start start pre (c ∷ post) end v.tiles

  the_block : s.blocks (start + span hdr pre) ≡ header c parted.3.1 parted.0
  the_block = parted.3.2

  block_of_ptr : (start + span hdr pre + hdr + w - hdr) % w ≡ start + span hdr pre
  block_of_ptr =
      ap (λ x. x % w) less
      ∙ add-mod_right (start + span hdr pre) w
      ∙ mod-eq_of_lt {n = start + span hdr pre} {m = w} below
    where
      less : start + span hdr pre + hdr + w - hdr ≡ start + span hdr pre + w
      less = omega arith

      below : start + span hdr pre < w
      below = omega (
        arith,
        wide,
        v.small,
        Tiles-end hdr s.blocks parted.0 parted.1 (start + span hdr pre) (c ∷ post) end parted.3,
      )

  -- the call of `free_block` that the call of `kfree` comes to
  kfree-free_block :
      (fuel : ℕ)
      → kfree hdr w fuel (start + span hdr pre + hdr) s
        ≡ free_block hdr w fuel (start + span hdr pre) s
  unfolding kfree
  kfree-free_block fuel =
      rw (==_ne (start + span hdr pre + hdr) 0 (omega (arith, v.not_null)))
        (ap (λ b. free_block hdr w fuel b s) block_of_ptr)

  before_free :
      Run hdr
        (set_used (start + span hdr pre) false s.blocks)
        0
        start
        start
        pre
        parted.0
        (start + span hdr pre)
        (start + span hdr pre)
  before_free =
      Run-frame hdr s.blocks (set_used (start + span hdr pre) false s.blocks) 0 start start pre
        parted.0 (start + span hdr pre) (start + span hdr pre) pos
        (λ k h h'. set_used-other (start + span hdr pre) k false s.blocks (omega arith))
        (subst (λ q. Run hdr s.blocks 0 start start pre parted.0 q (start + span hdr pre))
          parted.3.0 parted.2)

  here_free :
      Tiles hdr
        (set_used (start + span hdr pre) false s.blocks)
        parted.0
        (start + span hdr pre)
        (start + span hdr pre)
        (record { size = c.size; used = false } ∷ post)
        end
  here_free =
      Tiles-set_used hdr w pos false s.blocks parted.0 (start + span hdr pre) c post end
        (refl, parted.3.1, parted.3.2, parted.3.3)

  -- Freeing a free cell panics.
  pub kfree-double_free :
      (fuel : ℕ)
      → c.used ≡ false
      → kfree hdr w fuel (start + span hdr pre + hdr) s ≡ panic double_free
  kfree-double_free fuel free = kfree-free_block fuel ∙ refused
    where
      refused : free_block hdr w fuel (start + span hdr pre) s ≡ panic double_free
      refused =
          free_block-free hdr w fuel (start + span hdr pre) s c parted.3.1 parted.0 the_block free

  -- Freeing the bytes of a used cell frees that cell, and joins it with the free cells on both sides.
  pub kfree-IsHeap :
      (fuel : ℕ)
      → c.used ≡ true
      → length post < fuel
      → (s' : Heap) × (kfree hdr w fuel (start + span hdr pre + hdr) s ≡ done s')
        × IsHeap hdr start end (released hdr pre c post) s'
        × (s'.heap_used ≡ (s.heap_used + w - c.size) % w)
  unfolding give_back
  kfree-IsHeap fuel used enough = finish (
      coalesce-Tiles hdr w pos end (omega (arith, v.small)) fuel parted.0 (start + span hdr pre)
        start start (record { size = c.size; used = false }) post pre
        (set_used (start + span hdr pre) false s.blocks) v.not_null before_free here_free enough)
    where
      finish :
          (m' : Array Block) × (coalesce hdr w fuel
                (start + span hdr pre)
                (set_used (start + span hdr pre) false s.blocks)
              ≡ some m')
            × Tiles hdr m' 0 start start (released hdr pre c post) end
          → (s' : Heap) × (kfree hdr w fuel (start + span hdr pre + hdr) s ≡ done s')
            × IsHeap hdr start end (released hdr pre c post) s'
            × (s'.heap_used ≡ (s.heap_used + w - c.size) % w)
      finish (m', e, t) = (
        record s { blocks = m'; heap_used = (s.heap_used + w - c.size) % w },
        kfree-free_block fuel
            ∙ free_block-used hdr w fuel (start + span hdr pre) s c parted.3.1 parted.0 the_block
                used
            ∙ ap (λ o. give_back hdr w c.size o s) e,
        record { head = v.head; tiles = t; not_null = v.not_null; small = v.small },
        refl,
      )

  -- With more fuel than there are blocks behind it, `kfree` of a block of the heap panics exactly if the block is
  -- free already.
  pub kfree-double_free_iff :
      (fuel : ℕ)
      → length post < fuel
      → (kfree hdr w fuel (start + span hdr pre + hdr) s ≡ panic double_free) ↔ (c.used ≡ false)
  kfree-double_free_iff fuel enough = elim (Bool-cases c.used) [
    | inl used ↦
        let (s', frees, heap, counted) = kfree-IsHeap fuel used enough in
        (
          (λ refused. absurd (done-ne-panic s' (sym frees ∙ refused))),
          λ free. absurd (true-ne-false (sym used ∙ free)),
        )
    | inr free ↦ ((λ refused. free), λ e. kfree-double_free fuel e)
  ]
    where
      done-ne-panic : (s' : Heap) → done s' ≢ panic double_free
      done-ne-panic s' e = cc

      true-ne-false : true ≢ false
      true-ne-false e = cc
