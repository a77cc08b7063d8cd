-- ===== src/Sched/Rings.antt =====
-- Doubly linked rings, as the run queue of kernel/sched/sched.c is one.
use aerogel.Common.{ℕ, ◌≡◌, ◌≢◌, sym, ap, ◌∙◌, subst, List, [], ◌∷◌, ◌++◌, All}
use aerogel.Common.Array.{Array}

pub All-map : {P Q : ℕ → Type 0} (xs : List ℕ) → ((k : ℕ) → P k → Q k) → All P xs → All Q xs
All-map [] f h = tt
All-map (x ∷ xs) f h = (f x h.0, All-map xs f h.1)

pub All-map₂ :
    {P Q R : ℕ → Type 0} (xs : List ℕ)
    → ((k : ℕ) → P k → Q k → R k)
    → All P xs
    → All Q xs
    → All R xs
All-map₂ [] f h h' = tt
All-map₂ (x ∷ xs) f h h' = (f x h.0 h'.0, All-map₂ xs f h.1 h'.1)

abbrev pub Absent : ℕ → List ℕ → Type 0
Absent t xs = All (λ k. k ≢ t) xs

abbrev pub Distinct : List ℕ → Type 0
Distinct [] = Unit
Distinct (x ∷ xs) = Absent x xs × Distinct xs

-- The links lead from `a` through `xs` to `b`, and back.
abbrev pub Link : (next prev : Array ℕ) → ℕ → ℕ → Type 0
Link next prev a b = (next a ≡ b) × (prev b ≡ a)

abbrev pub Segment : (next prev : Array ℕ) → ℕ → List ℕ → ℕ → Type 0
Segment next prev a [] b = Link next prev a b
Segment next prev a (x ∷ xs) b = Link next prev a x × Segment next prev x xs b

module _ (next prev : Array ℕ) where
  -- What holds along a segment holds of the place before its end.
  pub last-All :
      (P : ℕ → Type 0) (a : ℕ) (xs : List ℕ) (b : ℕ)
      → Segment next prev a xs b
      → P a
      → All P xs
      → P (prev b)
  last-All P a [] b l h hs = subst P (sym l.1) h
  last-All P a (x ∷ xs) b l h hs = last-All P x xs b l.1 hs.0 hs.1

  pub join :
      (a : ℕ) (xs : List ℕ) (c : ℕ) (ys : List ℕ) (b : ℕ)
      → Segment next prev a xs c
      → Segment next prev c ys b
      → Segment next prev a (xs ++ c ∷ ys) b
  join a [] c ys b l l' = (l, l')
  join a (x ∷ xs) c ys b l l' = (l.0, join x xs c ys b l.1 l')

  pub split :
      (a : ℕ) (xs : List ℕ) (c : ℕ) (ys : List ℕ) (b : ℕ)
      → Segment next prev a (xs ++ c ∷ ys) b
      → Segment next prev a xs c × Segment next prev c ys b
  split a [] c ys b l = l
  split a (x ∷ xs) c ys b l = let rest = split x xs c ys b l.1 in ((l.0, rest.0), rest.1)

  -- Links that agree along a segment have it too.
  pub keep :
      (next' prev' : Array ℕ) (a : ℕ) (xs : List ℕ) (b : ℕ)
      → Segment next prev a xs b
      → All (λ k. next' k ≡ next k) (a ∷ xs)
      → All (λ k. prev' k ≡ prev k) xs
      → prev' b ≡ prev b
      → Segment next' prev' a xs b
  keep next' prev' a [] b l hn hp e = (hn.0 ∙ l.0, e ∙ l.1)
  keep next' prev' a (x ∷ xs) b l hn hp e =
      ((hn.0 ∙ l.0.0, hp.0 ∙ l.0.1), keep next' prev' x xs b l.1 hn.1 hp.1 e)

  -- To lead a segment to another end it is enough to change its last link.
  pub retarget :
      (next' prev' : Array ℕ) (a : ℕ) (xs : List ℕ) (b c : ℕ)
      → Segment next prev a xs b
      → Distinct (a ∷ xs)
      → All (λ k. k ≢ prev b → next' k ≡ next k) (a ∷ xs)
      → All (λ k. prev' k ≡ prev k) xs
      → next' (prev b) ≡ c
      → prev' c ≡ prev b
      → Segment next' prev' a xs c
  retarget next' prev' a [] b c l d hn hp en ep = (ap next' (sym l.1) ∙ en, ep ∙ l.1)
  retarget next' prev' a (x ∷ xs) b c l d hn hp en ep = (
    (hn.0 (λ e. other (sym e)) ∙ l.0.0, hp.0 ∙ l.0.1),
    retarget next' prev' x xs b c l.1 d.1 hn.1 hp.1 en ep,
  )
    where
      other : prev b ≢ a
      other = last-All (λ k. k ≢ a) x xs b l.1 d.0.0 d.0.1

pub Absent-append : (t : ℕ) (xs : List ℕ) (u : ℕ) → Absent t xs → u ≢ t → Absent t (xs ++ u ∷ [])
Absent-append t [] u h h' = (h', tt)
Absent-append t (x ∷ xs) u h h' = (h.0, Absent-append t xs u h.1 h')

pub Distinct-append : (xs : List ℕ) (t : ℕ) → Distinct xs → Absent t xs → Distinct (xs ++ t ∷ [])
Distinct-append [] t d h = (tt, tt)
Distinct-append (x ∷ xs) t d h =
    (Absent-append x xs t d.0 (λ e. h.0 (sym e)), Distinct-append xs t d.1 h.1)
