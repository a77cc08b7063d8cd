-- ===== src/Heap/Split.antt =====
-- Taking a block, and splitting it when it is much larger than needed, for kernel/mm/heap.c.
use native.Mathlib.Nat.{mod-eq_of_lt}
use aerogel.Common.{
  ℕ, ◌+◌, ◌-◌, ◌%◌, ◌^◌, ◌<◌, ◌≤◌, ◌≡◌, ◌≢◌, refl, sym, ap, ◌∙◌, subst, arith, Bool, true, false,
  ltb, if◌then◌else◌, inl, inr, List, [], ◌∷◌, ◌++◌, ◌⊎◌,
}
use aerogel.Common.Array.{Array, update, update_self, update_ne}
use aerogel.Heap.{Block, heap_magic, min_split, set_prev, set_used, cut, split}
use aerogel.Heap.Tiles.{
  Cell, header, Tiles, Tiles-end, Tiles-frame, Tiles-next, Tiles-set_prev, set_prev-other,
}

-- The cells that a cell is carved into to give `size` bytes.
abbrev pub carve : (hdr size : ℕ) → Cell → List Cell
carve hdr size c =
    if ltb c.size (size + hdr + min_split)
    then record { size = c.size; used = true } ∷ []
    else record { size = size; used = true }
      ∷ record { size = c.size - size - hdr; used = false }
      ∷ []

pub set_used-other : (b k : ℕ) (v : Bool) (m : Array Block) → b ≢ k → set_used b v m k ≡ m k
unfolding set_used
set_used-other b k v m h = update_ne m b k (record (m b) { used = v }) h

set_used_self :
    (b : ℕ) (v : Bool) (m : Array Block) (c : Cell) (next p : ℕ)
    → m b ≡ header c next p
    → set_used b v m b ≡ header (record { size = c.size; used = v }) next p
unfolding set_used
set_used_self b v m c next p e = update_self m b (record (m b) { used = v }) ∙ ap mark e
  where
    mark : Block → Block
    mark x = record x { used = v }

module _ (hdr w : ℕ) (pos : 0 < hdr) where
  pub Tiles-set_used :
      (v : Bool) (m : Array Block) (p b : ℕ) (c : Cell) (cs : List Cell) (end : ℕ)
      → Tiles hdr m p b b (c ∷ cs) end
      → Tiles hdr (set_used b v m) p b b (record { size = c.size; used = v } ∷ cs) end
  Tiles-set_used v m p b c cs end (e, next, block, t) = (
    refl,
    next,
    set_used_self b v m c next p block,
    Tiles-frame hdr m (set_used b v m) b next (b + hdr + c.size) cs end
        (λ k h. set_used-other b k v m (omega arith)) t,
  )

  module _ (size : ℕ) (m : Array Block) (p b : ℕ) (c : Cell) (post : List Cell) (end next : ℕ)
      (b_pos : 0 < b) (room : size + hdr + min_split ≤ c.size) (block : m b ≡ header c next p)
      (t : Tiles hdr m b next (b + hdr + c.size) post end) (small : end < 2 ^ 32) where
    abbrev nb : ℕ
    nb = b + hdr + size

    abbrev new_block : Block
    new_block = record {
      magic = heap_magic;
      size = ((m b).size - size - hdr) % 2 ^ 32;
      used = false;
      next = (m b).next;
      prev = b;
    }

    abbrev m1 : Array Block
    m1 = update m nb new_block

    abbrev m2 : Array Block
    m2 = set_prev (m1 b).next nb m1

    m1-b : m1 b ≡ header c next p
    m1-b = update_ne m nb b new_block (omega arith) ∙ block

    next-place : (next ≡ 0) ⊎ (next ≡ b + hdr + c.size)
    next-place = Tiles-next hdr m b next (b + hdr + c.size) post end t

    next-away : (k : ℕ) → 0 < k → k < b + hdr + c.size → (m1 b).next ≢ k
    next-away k h h' e = elim next-place [
      | inl null ↦ omega (arith, null, ap (λ x. x.next) m1-b, e)
      | inr there ↦ omega (arith, there, ap (λ x. x.next) m1-b, e)
    ]

    m2-b : m2 b ≡ header c next p
    m2-b = set_prev-other (m1 b).next nb b m1 (next-away b b_pos (omega arith)) ∙ m1-b

    m2-nb : m2 nb ≡ header (record { size = c.size - size - hdr; used = false }) next b
    m2-nb =
        set_prev-other (m1 b).next nb nb m1 (next-away nb (omega arith) (omega arith))
        ∙ update_self m nb new_block
        ∙ ap (λ x. made x) block
        ∙ ap (λ n. with_size n)
            (omega (arith, Tiles-end hdr m b next (b + hdr + c.size) post end t))
      where
        made : Block → Block
        made x = record {
          magic = heap_magic;
          size = (x.size - size - hdr) % 2 ^ 32;
          used = false;
          next = x.next;
          prev = b;
        }

        with_size : ℕ → Block
        with_size n = header (record { size = n; used = false }) next b

    behind : Tiles hdr m2 nb next (b + hdr + c.size) post end
    behind =
        subst (λ x. Tiles hdr (set_prev x nb m1) nb next (b + hdr + c.size) post end)
          (sym (ap (λ x. x.next) m1-b))
          (Tiles-set_prev hdr m1 b nb next (b + hdr + c.size) post end pos (omega arith) (
            Tiles-frame hdr m m1 b next (b + hdr + c.size) post end
              (λ k h. update_ne m nb k new_block (omega arith)) t))

    shrunk : Block → Block
    shrunk x = record x { next = nb; size = size % 2 ^ 32 }

    m3 : Array Block
    m3 = update m2 b (shrunk (m2 b))

    m3-b : m3 b ≡ header (record { size = size; used = c.used }) nb p
    unfolding m3 shrunk
    m3-b =
        update_self m2 b (shrunk (m2 b))
        ∙ ap shrunk m2-b
        ∙ ap with_size (omega (arith, Tiles-end hdr m b next (b + hdr + c.size) post end t))
      where
        with_size : ℕ → Block
        with_size n = header (record { size = n; used = c.used }) nb p

    m3-other : (k : ℕ) → b ≢ k → m3 k ≡ m2 k
    unfolding m3
    m3-other k h = update_ne m2 b k (shrunk (m2 b)) h

    pub cut-Tiles :
        Tiles hdr
          (set_used b true (cut hdr w b size m))
          p
          b
          b
          (record { size = size; used = true }
            ∷ record { size = c.size - size - hdr; used = false }
            ∷ post)
          end
    unfolding cut m3 shrunk
    cut-Tiles =
        Tiles-set_used true m3 p b (record { size = size; used = c.used })
          (record { size = c.size - size - hdr; used = false } ∷ post) end
          (
            refl,
            nb,
            m3-b,
            (
              refl,
              next,
              m3-other nb (omega arith) ∙ m2-nb,
              subst (λ at. Tiles hdr m3 nb next at post end) place
                  (Tiles-frame hdr m2 m3 nb next (b + hdr + c.size) post end
                    (λ k h. m3-other k (omega arith)) behind),
            ),
          )
      where
        place : b + hdr + c.size ≡ nb + hdr + (c.size - size - hdr)
        place = omega arith

    pub cut-before : (k : ℕ) → 0 < k → k < b → set_used b true (cut hdr w b size m) k ≡ m k
    unfolding cut m3 shrunk
    cut-before k k_pos h =
        set_used-other b k true m3 (omega arith)
        ∙ m3-other k (omega arith)
        ∙ set_prev-other (m1 b).next nb k m1 (next-away k k_pos (omega arith))
        ∙ update_ne m nb k new_block (omega arith)

  module _ (size : ℕ) (m : Array Block) (p b : ℕ) (c : Cell) (post : List Cell) (end : ℕ)
      (b_pos : 0 < b) (fit : size ≤ c.size) (small : end + hdr + min_split < 2 ^ 32)
      (wide : 2 ^ 32 ≤ w) (tiles : Tiles hdr m p b b (c ∷ post) end) where
    abbrev tight : Bool
    tight = ltb c.size (size + hdr + min_split)

    split-eq : split hdr w b size m ≡ (if tight then m else cut hdr w b size m)
    unfolding split
    split-eq = ap (λ t. if t then m else cut hdr w b size m) same_test
      where
        same_test : ltb (m b).size ((size + hdr + min_split) % w) ≡ tight
        same_test =
            ap (λ x. ltb x.size ((size + hdr + min_split) % w)) tiles.2
            ∙ ap (ltb c.size) (
                mod-eq_of_lt {n = size + hdr + min_split} {m = w}
                  (omega (arith, Tiles-end hdr m p b b (c ∷ post) end tiles)))

    -- A block that is taken is carved, and the blocks before it are as they were.
    pub split-Tiles :
        Tiles hdr (set_used b true (split hdr w b size m)) p b b (carve hdr size c ++ post) end
    split-Tiles =
        subst (λ x. Tiles hdr (set_used b true x) p b b (carve hdr size c ++ post) end)
          (sym split-eq) (choose tight refl)
      where
        choose :
            (t : Bool)
            → tight ≡ t
            → Tiles hdr
                (set_used b true (if t then m else cut hdr w b size m))
                p
                b
                b
                ((if t
                    then record { size = c.size; used = true } ∷ []
                    else record { size = size; used = true }
                      ∷ record { size = c.size - size - hdr; used = false }
                      ∷ [])
                  ++ post)
                end
        choose true e = Tiles-set_used true m p b c post end tiles
        choose false e =
            cut-Tiles size m p b c post end tiles.1 b_pos (ground (arith, e)) tiles.2 tiles.3
              (omega (arith, small))

    pub split-before : (k : ℕ) → 0 < k → k < b → set_used b true (split hdr w b size m) k ≡ m k
    split-before k k_pos h =
        subst (λ x. set_used b true x k ≡ m k) (sym split-eq) (choose tight refl)
      where
        choose :
            (t : Bool) → tight ≡ t → set_used b true (if t then m else cut hdr w b size m) k ≡ m k
        choose true e = set_used-other b k true m (omega arith)
        choose false e =
            cut-before size m p b c post end tiles.1 b_pos (ground (arith, e)) tiles.2 tiles.3
              (omega (arith, small)) k k_pos h
