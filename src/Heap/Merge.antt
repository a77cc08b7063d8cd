-- ===== src/Heap/Merge.antt =====
-- How `coalesce` of kernel/mm/heap.c joins a free block with its neighbours.
use aerogel.Common.{
  ℕ, zero, suc, ◌+◌, ◌%◌, ◌^◌, ◌<◌, ◌≡◌, ◌≢◌, refl, sym, ap, ap₂, ◌∙◌, subst, arith, Bool, true,
  false, not, ◌&&◌, ◌!=◌, if◌then◌else◌, inl, inr, List, [], ◌∷◌, length, Option, some,
}
use aerogel.Common.Array.{Array, update, update_self, update_ne}
use aerogel.Heap.{Block, set_prev, join_next, join_nexts, join_prev}
use aerogel.Heap.Tiles.{
  Cell, header, Tiles, Tiles-end, Tiles-frame, Tiles-next, Tiles-set_prev, set_prev-other,
}

-- two cells as one, which is used if the first is
abbrev pub fuse : ℕ → Cell → Cell → Cell
fuse hdr c d = record { size = c.size + hdr + d.size; used = c.used }

-- A cell with the free cells behind it, and the others.
abbrev pub absorb : ℕ → Cell → List Cell → Cell × List Cell
absorb hdr c [] = (c, [])
absorb hdr c (d ∷ ds) = if d.used then (c, d ∷ ds) else absorb hdr (fuse hdr c d) ds

-- A cell behind others, joined with the last of them if that one is free.
abbrev pub merge_last : ℕ → List Cell → Cell → List Cell → List Cell
merge_last hdr [] c cs = c ∷ cs
merge_last hdr (d ∷ []) c cs = if d.used then d ∷ c ∷ cs else fuse hdr d c ∷ cs
merge_last hdr (d ∷ e ∷ pre) c cs = d ∷ merge_last hdr (e ∷ pre) c cs

module _ (hdr w : ℕ) (pos : 0 < hdr) (m : Array Block) where
  -- the block at `b` takes in the one at `n` behind it
  pub grown : (b n : ℕ) → Block
  grown b n = record (m b) { size = ((m b).size + hdr + (m n).size) % 2 ^ 32; next = (m n).next }

  abbrev pub absorbed : (b n : ℕ) → Array Block
  absorbed b n = set_prev (update m b (grown b n) b).next b (update m b (grown b n))

  module _ (p b n n2 end : ℕ) (c d : Cell) (ds : List Cell) (b_pos : 0 < b) (small : end < 2 ^ 32)
      (block : m b ≡ header c n p) (there : n ≡ b + hdr + c.size) (block' : m n ≡ header d n2 b)
      (t : Tiles hdr m n n2 (n + hdr + d.size) ds end) where
    grown-header : update m b (grown b n) b ≡ header (fuse hdr c d) n2 p
    unfolding grown
    grown-header =
        update_self m b (grown b n)
        ∙ ap (λ x. both x (m n)) block
        ∙ ap (λ y. both (header c n p) y) block'
        ∙ ap with_size (omega (arith, Tiles-end hdr m n n2 (n + hdr + d.size) ds end t))
      where
        both : Block → Block → Block
        both x y = record x { size = (x.size + hdr + y.size) % 2 ^ 32; next = y.next }

        with_size : ℕ → Block
        with_size size = header (record { size = size; used = c.used }) n2 p

    grown-away : (k : ℕ) → 0 < k → k < n + hdr + d.size → (update m b (grown b n) b).next ≢ k
    grown-away k k_pos h e = elim (Tiles-next hdr m n n2 (n + hdr + d.size) ds end t) [
      | inl null ↦ omega (arith, null, ap (λ x. x.next) grown-header, e)
      | inr at ↦ omega (arith, at, ap (λ x. x.next) grown-header, e)
    ]

    pub absorbed-other : (k : ℕ) → 0 < k → k ≢ b → k < n + hdr + d.size → absorbed b n k ≡ m k
    absorbed-other k k_pos ne h =
        set_prev-other (update m b (grown b n) b).next b k (update m b (grown b n))
          (grown-away k k_pos h)
        ∙ update_ne m b k (grown b n) (λ e. ne (sym e))

    absorbed-b : absorbed b n b ≡ header (fuse hdr c d) n2 p
    absorbed-b =
        set_prev-other (update m b (grown b n) b).next b b (update m b (grown b n))
          (grown-away b b_pos (omega arith))
        ∙ grown-header

    pub absorbed-Tiles : Tiles hdr (absorbed b n) p b b (fuse hdr c d ∷ ds) end
    absorbed-Tiles = (
      refl,
      n2,
      absorbed-b,
      subst
          (λ x.
            Tiles hdr (set_prev x b (update m b (grown b n))) b n2
              (b + hdr + (c.size + hdr + d.size)) ds end)
          (sym (ap (λ x. x.next) grown-header))
          (Tiles-set_prev hdr (update m b (grown b n)) n b n2 (b + hdr + (c.size + hdr + d.size)) ds
            end pos (omega arith)
            (Tiles-frame hdr m (update m b (grown b n)) n n2 (b + hdr + (c.size + hdr + d.size)) ds
              end (λ k h. update_ne m b k (grown b n) (omega arith))
              (subst (λ at. Tiles hdr m n n2 at ds end) (omega arith) t))),
    )

  join_next-eq : (b n : ℕ) → (m b).next ≡ n → join_next hdr w b m ≡ absorbed b n
  unfolding join_next grown
  join_next-eq b n e = ap (λ x. absorbed b x) e

  pub join_prev-eq :
      (b p : ℕ)
      → (m b).prev ≡ p
      → p ≢ 0
      → p ≢ b
      → (m p).used ≡ false
      → join_prev hdr w b m ≡ absorbed p b
  unfolding join_prev grown
  join_prev-eq b p e null apart free =
      ap
        (λ x.
          if (x != 0) && not (m x).used
          then set_prev (update m x (grown x b) b).next (update m x (grown x b) b).prev
              (update m x (grown x b))
          else m)
        e
      ∙ ap (λ t. if t then set_prev (joined b).next (joined b).prev joined else m) test
      ∙ ap₂ (λ n v. set_prev n v joined) next_kept (ap (λ x. x.prev) b_kept ∙ e)
    where
      joined : Array Block
      joined = update m p (grown p b)

      test : ((p != 0) && not (m p).used) ≡ true
      test = rw free (ground (arith, null))

      b_kept : joined b ≡ m b
      b_kept = update_ne m p b (grown p b) apart

      next_kept : (joined b).next ≡ (joined p).next
      next_kept = ap (λ x. x.next) b_kept ∙ ap (λ x. x.next) (sym (update_self m p (grown p b)))

-- The loop has ended with the cells `a` from `b` on, and the blocks before `b` as they were.
abbrev pub Joined :
    (hdr : ℕ)
    → Array Block
    → (p b : ℕ) → Cell × List Cell
    → (end : ℕ) → Option (Array Block)
    → Type 0
Joined hdr m p b a end r =
    (m' : Array Block) × (r ≡ some m')
    × Tiles hdr m' p b b (a.0 ∷ a.1) end
    × ((k : ℕ) → 0 < k → k < b → m' k ≡ m k)

module _ (hdr w : ℕ) (pos : 0 < hdr) where
  join_next-Tiles :
      (p b : ℕ) (c d : Cell) (ds : List Cell) (end : ℕ) (m : Array Block)
      → 0 < b
      → end < 2 ^ 32
      → Tiles hdr m p b b (c ∷ d ∷ ds) end
      → Tiles hdr (join_next hdr w b m) p b b (fuse hdr c d ∷ ds) end
        × ((k : ℕ) → 0 < k → k < b → join_next hdr w b m k ≡ m k)
  join_next-Tiles p b c d ds end m b_pos small (e, n, block, (e', n2, block', t)) =
      subst (λ x. Tiles hdr x p b b (fuse hdr c d ∷ ds) end × ((k : ℕ) → 0 < k → k < b → x k ≡ m k))
        (sym (join_next-eq hdr w pos m b n (ap (λ x. x.next) block)))
        (
          absorbed-Tiles hdr w pos m p b n n2 end c d ds b_pos small block e' at_n t',
          λ k k_pos h.
              absorbed-other hdr w pos m p b n n2 end c d ds b_pos small block e' at_n t' k k_pos
                (omega arith) (omega arith),
        )
    where
      at_n : m n ≡ header d n2 b
      at_n = subst (λ x. m x ≡ header d n2 b) (sym e') block'

      t' : Tiles hdr m n n2 (n + hdr + d.size) ds end
      t' = subst (λ x. Tiles hdr m x n2 (x + hdr + d.size) ds end) (sym e') t

  -- The loop of `coalesce` joins a block with the free blocks behind it.
  pub join_nexts-Joined :
      (f p b : ℕ) (c : Cell) (post : List Cell) (end : ℕ) (m : Array Block)
      → 0 < b
      → end < 2 ^ 32
      → Tiles hdr m p b b (c ∷ post) end
      → length post < f
      → Joined hdr m p b (absorb hdr c post) end (join_nexts hdr w f b m)
  unfolding join_nexts
  join_nexts-Joined zero p b c post end m b_pos small t h = absurd (omega arith)
  join_nexts-Joined (suc f) p b c [] end m b_pos small (e, next, block, t) h =
      rw (block, t.0)
        (m, refl, (refl, 0, block ∙ ap (λ x. header c x p) t.0, (refl, t.1)), λ k k_pos lt. refl)
  join_nexts-Joined (suc f) p b c (d ∷ ds) end m b_pos small t h =
      subst
        (λ x.
          Joined hdr m p b (absorb hdr c (d ∷ ds)) end
            (if x then join_nexts hdr w f b (join_next hdr w b m) else some m))
        (sym test)
        (choose d.used t (
          join_nexts-Joined f p b (fuse hdr c d) ds end (join_next hdr w b m) b_pos small
            (join_next-Tiles p b c d ds end m b_pos small t).0 (omega arith)))
    where
      test : (((m b).next != 0) && not (m (m b).next).used) ≡ not d.used
      test =
          ap (λ x. (x.next != 0) && not (m x.next).used) t.2
          ∙ ap (λ y. (t.1 != 0) && not y.used) (ap m t.3.0 ∙ t.3.2)
          ∙ ground (arith, t.3.0)

      choose :
          (u : Bool)
          → Tiles hdr m p b b (c ∷ d ∷ ds) end
          → Joined hdr
              (join_next hdr w b m)
              p
              b
              (absorb hdr (fuse hdr c d) ds)
              end
              (join_nexts hdr w f b (join_next hdr w b m))
          → Joined hdr m p b
              (if u then (c, d ∷ ds) else absorb hdr (fuse hdr c d) ds)
              end
              (if not u then join_nexts hdr w f b (join_next hdr w b m) else some m)
      choose true tiles later = (m, refl, tiles, λ k k_pos lt. refl)
      choose false tiles (m', e, tiles', before) = (
        m',
        e,
        tiles',
        λ k k_pos lt.
            before k k_pos lt ∙ (join_next-Tiles p b c d ds end m b_pos small tiles).1 k k_pos lt,
      )
