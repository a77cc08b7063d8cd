-- ===== src/Heap/Tiles.antt =====
-- What the blocks of kernel/mm/heap.c stand for: cells, each with a size and whether it is used, that
-- fill the heap from its start to its end without a gap.
use aerogel.Common.{
  ℕ, ◌+◌, ◌<◌, ◌≤◌, ◌≡◌, ◌≢◌, refl, sym, ap, subst, ◌∙◌, arith, Bool, List, [], ◌∷◌, ◌++◌, ◌⊎◌, inl,
  inr, ◌==◌, ==_ne, Bool-cases,
}
use aerogel.Common.Array.{Array, update_self, update_ne}
use aerogel.Heap.{Block, heap_magic, set_prev}

pub record Cell : Type 0 where
  pub size : ℕ
  pub used : Bool

-- the header of a cell
abbrev pub header : Cell → (next prev : ℕ) → Block
header c next prev = record {
  magic = heap_magic;
  size = c.size;
  used = c.used;
  next = next;
  prev = prev;
}

pub set_prev-other : (q v k : ℕ) (m : Array Block) → q ≢ k → set_prev q v m k ≡ m k
unfolding set_prev
set_prev-other q v k m h = elim (Bool-cases (q == 0)) [
  | inl e ↦ rw e
  | inr e ↦ rw e (update_ne m q k (record (m q) { prev = v }) h)
]

pub set_prev_self :
    (b v : ℕ) (m : Array Block) → b ≢ 0 → set_prev b v m b ≡ record (m b) { prev = v }
unfolding set_prev
set_prev_self b v m h = rw (==_ne b 0 h) (update_self m b (record (m b) { prev = v }))

module _ (hdr : ℕ) where
  -- the number of bytes that cells take
  abbrev pub span : List Cell → ℕ
  span [] = 0
  span (c ∷ cs) = hdr + c.size + span cs

  -- The blocks from the address `at` on are those of the cells and end at `end`. The pointer to the
  -- first of them is `q`, and the block before it is `p`.
  abbrev pub Tiles : Array Block → (p q at : ℕ) → List Cell → (end : ℕ) → Type 0
  Tiles m p q at [] end = (q ≡ 0) × (at ≡ end)
  Tiles m p q at (c ∷ cs) end =
      (q ≡ at) × (next : ℕ) × (m at ≡ header c next p) × Tiles m at next (at + hdr + c.size) cs end

  -- The same for cells that others follow: `p'`, `q'` and `at'` are those of the next cell.
  abbrev pub Run : Array Block → (p q at : ℕ) → List Cell → (p' q' at' : ℕ) → Type 0
  Run m p q at [] p' q' at' = (p ≡ p') × (q ≡ q') × (at ≡ at')
  Run m p q at (c ∷ cs) p' q' at' =
      (q ≡ at)
      × (next : ℕ) × (m at ≡ header c next p)
      × Run m at next (at + hdr + c.size) cs p' q' at'

  pub Tiles-end :
      (m : Array Block) (p q at : ℕ) (cs : List Cell) (end : ℕ)
      → Tiles m p q at cs end
      → at + span cs ≡ end
  Tiles-end m p q at [] end t = omega (arith, t.1)
  Tiles-end m p q at (c ∷ cs) end (e, next, b, t) =
      omega (arith, Tiles-end m at next (at + hdr + c.size) cs end t)

  pub Run-end :
      (m : Array Block) (p q at : ℕ) (cs : List Cell) (p' q' at' : ℕ)
      → Run m p q at cs p' q' at'
      → at + span cs ≡ at'
  Run-end m p q at [] p' q' at' t = omega (arith, t.2)
  Run-end m p q at (c ∷ cs) p' q' at' (e, next, b, t) =
      omega (arith, Run-end m at next (at + hdr + c.size) cs p' q' at' t)

  -- Blocks that agree from `at` on have the same cells there.
  pub Tiles-frame :
      (m m' : Array Block) (p q at : ℕ) (cs : List Cell) (end : ℕ)
      → ((k : ℕ) → at ≤ k → m' k ≡ m k)
      → Tiles m p q at cs end
      → Tiles m' p q at cs end
  Tiles-frame m m' p q at [] end same t = t
  Tiles-frame m m' p q at (c ∷ cs) end same (e, next, b, t) = (
    e,
    next,
    same at (omega arith) ∙ b,
    Tiles-frame m m' at next (at + hdr + c.size) cs end (λ k h. same k (omega arith)) t,
  )

  pub Run-frame :
      (m m' : Array Block) (p q at : ℕ) (cs : List Cell) (p' q' at' : ℕ)
      → 0 < hdr
      → ((k : ℕ) → at ≤ k → k < at' → m' k ≡ m k)
      → Run m p q at cs p' q' at'
      → Run m' p q at cs p' q' at'
  Run-frame m m' p q at [] p' q' at' pos same t = t
  Run-frame m m' p q at (c ∷ cs) p' q' at' pos same (e, next, b, t) = (
    e,
    next,
    same at (omega arith) (omega (arith, Run-end m at next (at + hdr + c.size) cs p' q' at' t)) ∙ b,
    Run-frame m m' at next (at + hdr + c.size) cs p' q' at' pos (λ k h h'. same k (omega arith) h')
        t,
  )

  pub join :
      (m : Array Block) (p q at : ℕ) (cs : List Cell) (p' q' at' : ℕ) (ds : List Cell) (end : ℕ)
      → Run m p q at cs p' q' at'
      → Tiles m p' q' at' ds end
      → Tiles m p q at (cs ++ ds) end
  join m p q at [] p' q' at' ds end r t = rw (r.0, r.1, r.2) t
  join m p q at (c ∷ cs) p' q' at' ds end (e, next, b, r) t =
      (e, next, b, join m at next (at + hdr + c.size) cs p' q' at' ds end r t)

  -- where the cells end, or the next one begins
  pub Tiles-next :
      (m : Array Block) (p q at : ℕ) (cs : List Cell) (end : ℕ)
      → Tiles m p q at cs end
      → (q ≡ 0) ⊎ (q ≡ at)
  Tiles-next m p q at [] end t = inl t.0
  Tiles-next m p q at (c ∷ cs) end t = inr t.0

  -- `set_prev` gives the cells another block before them.
  pub Tiles-set_prev :
      (m : Array Block) (p p' q at : ℕ) (cs : List Cell) (end : ℕ)
      → 0 < hdr
      → 0 < at
      → Tiles m p q at cs end
      → Tiles (set_prev q p' m) p' q at cs end
  Tiles-set_prev m p p' q at [] end pos ne t = t
  Tiles-set_prev m p p' q at (c ∷ cs) end pos ne (e, next, b, t) =
      subst (λ x. Tiles (set_prev x p' m) p' x at (c ∷ cs) end) (sym e) (refl, next, there, behind)
    where
      reset : Block → Block
      reset x = record x { prev = p' }

      there : set_prev at p' m at ≡ header c next p'
      there = set_prev_self at p' m (omega arith) ∙ ap reset b

      behind : Tiles (set_prev at p' m) at next (at + hdr + c.size) cs end
      behind =
          Tiles-frame m (set_prev at p' m) at next (at + hdr + c.size) cs end
            (λ k h. set_prev-other at p' k m (omega arith)) t

  pub part :
      (m : Array Block) (p q at : ℕ) (cs ds : List Cell) (end : ℕ)
      → Tiles m p q at (cs ++ ds) end
      → (p' : ℕ) × (q' : ℕ) × Run m p q at cs p' q' (at + span cs)
        × Tiles m p' q' (at + span cs) ds end
  part m p q at [] ds end t = (p, q, (refl, refl, here), subst (λ x. Tiles m p q x ds end) here t)
    where
      here : at ≡ at + 0
      here = omega arith
  part m p q at (c ∷ cs) ds end (e, next, b, t) =
      add (part m at next (at + hdr + c.size) cs ds end t)
    where
      there : at + hdr + c.size + span cs ≡ at + (hdr + c.size + span cs)
      there = omega arith

      add :
          (p' : ℕ) × (q' : ℕ) × Run m at next
              (at + hdr + c.size)
              cs
              p'
              q'
              (at + hdr + c.size + span cs)
            × Tiles m p' q' (at + hdr + c.size + span cs) ds end
          → (p' : ℕ) × (q' : ℕ) × Run m p q at (c ∷ cs) p' q' (at + (hdr + c.size + span cs))
            × Tiles m p' q' (at + (hdr + c.size + span cs)) ds end
      add (p', q', r, t') = (
        p',
        q',
        (e, next, b, subst (λ x. Run m at next (at + hdr + c.size) cs p' q' x) there r),
        subst (λ x. Tiles m p' q' x ds end) there t',
      )
