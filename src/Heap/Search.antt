-- ===== src/Heap/Search.antt =====
-- The first free block that is large enough, for kernel/mm/heap.c.
use aerogel.Common.{
  ℕ, zero, suc, ◌+◌, ◌<◌, ◌≡◌, refl, sym, ap, subst, arith, Bool, true, false, not, ◌&&◌, leb,
  if◌then◌else◌, ==_ne, Bool-cases, inl, inr, List, [], ◌∷◌, ◌++◌, length, All, Option, some,
}
use aerogel.Common.Array.{Array}
use aerogel.Heap.{Block, find_free}
use aerogel.Heap.Tiles.{Cell, header, Tiles, Run}

-- whether a cell can hold `size` bytes
abbrev pub fits : ℕ → Cell → Bool
fits size c = not c.used && leb size c.size

-- What `find_free` finds: NULL when no cell fits, and the first cell that fits otherwise.
pub data Search (hdr size : ℕ) (m : Array Block) (p q at : ℕ) (cs : List Cell) (end : ℕ)
    (r : Option ℕ) : Type 0 where
  missing : r ≡ some 0 → All (λ c. fits size c ≡ false) cs → Search hdr size m p q at cs end r
  found :
      (b p' : ℕ) (pre : List Cell) (c : Cell) (post : List Cell)
      → r ≡ some b
      → cs ≡ pre ++ c ∷ post
      → All (λ d. fits size d ≡ false) pre
      → fits size c ≡ true
      → Run hdr m p q at pre p' b b
      → Tiles hdr m p' b b (c ∷ post) end
      → Search hdr size m p q at cs end r

module _ (hdr size : ℕ) (m : Array Block) where
  Search-skip :
      (p at next : ℕ) (c : Cell) (cs : List Cell) (end : ℕ) (r : Option ℕ)
      → m at ≡ header c next p
      → fits size c ≡ false
      → Search hdr size m at next (at + hdr + c.size) cs end r
      → Search hdr size m p at at (c ∷ cs) end r
  Search-skip p at next c cs end r e no_fit (missing null none_fits) =
      missing null (no_fit, none_fits)
  Search-skip p at next c cs end r e no_fit
        (found b p' pre d post there parts none_before fit before after) =
      found b p' (c ∷ pre) d post there (ap (λ l. c ∷ l) parts) (no_fit, none_before) fit
        (refl, next, e, before) after

  Search-choose :
      (p at next : ℕ) (c : Cell) (cs : List Cell) (end : ℕ) (r : Option ℕ)
      → m at ≡ header c next p
      → Tiles hdr m at next (at + hdr + c.size) cs end
      → Search hdr size m at next (at + hdr + c.size) cs end r
      → Search hdr size m p at at (c ∷ cs) end (if fits size c then some at else r)
  Search-choose p at next c cs end r e t later = elim (Bool-cases (fits size c)) [
    | inl fit ↦ rw fit (found at p [] c cs refl refl tt fit (refl, refl, refl) (refl, next, e, t))
    | inr no_fit ↦ rw no_fit (Search-skip p at next c cs end r e no_fit later)
  ]

  -- With more fuel than there are blocks the search ends.
  pub find_free-Search :
      (f p q at : ℕ) (cs : List Cell) (end : ℕ)
      → 0 < at
      → Tiles hdr m p q at cs end
      → length cs < f
      → Search hdr size m p q at cs end (find_free f q size m)
  unfolding find_free
  find_free-Search zero p q at cs end pos t h = absurd (omega arith)
  find_free-Search (suc f) p q at [] end pos t h =
      subst (λ x. Search hdr size m p x at [] end (find_free (suc f) x size m)) (sym t.0)
        (missing refl tt)
  find_free-Search (suc f) p q at (c ∷ cs) end pos (e, next, b, t) h =
      subst (λ x. Search hdr size m p x at (c ∷ cs) end (find_free (suc f) x size m)) (sym e)
        (rw (==_ne at 0 (omega arith), b)
          (Search-choose p at next c cs end (find_free f next size m) b t
            (find_free-Search f at next (at + hdr + c.size) cs end (omega arith) t (omega arith))))
