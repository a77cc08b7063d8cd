-- ===== src/Sched/Queue.antt =====
-- The run queue of kernel/sched/sched.c is a queue: its ring represents a list of threads.
use aerogel.Common.{
  ℕ, ◌≡◌, ◌≢◌, refl, sym, ap, ◌∙◌, arith, List, [], ◌∷◌, ◌++◌, false, ◌==◌, ==_ne, ==_self,
  Bool-cases, inl, inr,
}
use aerogel.Common.Array.{Array, update, update_self, update_ne}
use aerogel.Sched.{Sched, enqueue, dequeue_next, unlink, unlink_only, remove}
use aerogel.Sched.Rings.{
  All-map, All-map₂, Absent, Distinct, Segment, last-All, join, retarget, Absent-append,
  Distinct-append,
}

abbrev pub first : List ℕ → ℕ
first [] = 0
first (x ∷ xs) = x

abbrev pub rest : List ℕ → List ℕ
rest [] = []
rest (x ∷ xs) = xs

abbrev pub Ring : (next prev : Array ℕ) → List ℕ → Type 0
Ring next prev [] = Unit
Ring next prev (x ∷ xs) = Segment next prev x xs x

-- The ring holds the threads of `q` in this order, and a thread outside it has no link.
pub record IsQueue (q : List ℕ) (s : Sched) : Type 0 where
  pub head : s.run_queue_head ≡ first q
  pub ring : Ring s.next s.prev q
  pub distinct : Distinct q
  pub not_null : Absent 0 q
  pub outside : (k : ℕ) → Absent k q → s.next k ≡ 0

Absent-parts : (k : ℕ) (xs : List ℕ) (t : ℕ) → Absent k (xs ++ t ∷ []) → Absent k xs × (t ≢ k)
Absent-parts k [] t h = (tt, h.0)
Absent-parts k (x ∷ xs) t h = let r = Absent-parts k xs t h.1 in ((h.0, r.0), r.1)

-- `enqueue` appends a thread that is not on the queue.
pub enqueue-IsQueue :
    (t : ℕ) (q : List ℕ) (s : Sched)
    → IsQueue q s
    → t ≢ 0
    → Absent t q
    → IsQueue (q ++ t ∷ []) (enqueue t s)
unfolding enqueue
enqueue-IsQueue t [] s v t_not_null absent = rw (v.head) (record {
  head = refl;
  ring = (update_self s.next t t, update_self s.prev t t);
  distinct = (tt, tt);
  not_null = (t_not_null, tt);
  outside = λ k h. update_ne s.next t k t h.0 ∙ v.outside k tt;
})
enqueue-IsQueue t (x ∷ xs) s v t_not_null absent =
    rw (v.head, ==_ne x 0 v.not_null.0)
      (record {
        head = refl;
        ring = join next' prev' x xs t [] x before (to_x, from_x);
        distinct = Distinct-append (x ∷ xs) t v.distinct absent;
        not_null = Absent-append 0 (x ∷ xs) t v.not_null t_not_null;
        outside = λ k h. outside' k (Absent-parts k (x ∷ xs) t h);
      })
  where
    prev1 : Array ℕ
    prev1 = update s.prev t (s.prev x)

    last : prev1 x ≡ s.prev x
    last = update_ne s.prev t x (s.prev x) (λ e. absent.0 (sym e))

    next' : Array ℕ
    next' = update (update s.next t x) (prev1 x) t

    prev' : Array ℕ
    prev' = update prev1 x t

    last_not_t : s.prev x ≢ t
    last_not_t = last-All s.next s.prev (λ k. k ≢ t) x xs x v.ring absent.0 absent.1

    to_x : next' t ≡ x
    to_x =
        update_ne (update s.next t x) (prev1 x) t t (λ e. last_not_t (sym last ∙ e))
        ∙ update_self s.next t x

    from_x : prev' x ≡ t
    from_x = update_self prev1 x t

    outside' : (k : ℕ) → Absent k (x ∷ xs) × (t ≢ k) → next' k ≡ 0
    outside' k h =
        update_ne (update s.next t x) (prev1 x) k t
          (λ e. last-All s.next s.prev (λ j. j ≢ k) x xs x v.ring h.0.0 h.0.1 (sym last ∙ e))
        ∙ update_ne s.next t k x h.1
        ∙ v.outside k h.0

    next_kept : (k : ℕ) → k ≢ t → k ≢ s.prev x → next' k ≡ s.next k
    next_kept k not_t not_last =
        update_ne (update s.next t x) (prev1 x) k t (λ e. not_last (sym e ∙ last))
        ∙ update_ne s.next t k x (λ e. not_t (sym e))

    prev_kept : (k : ℕ) → k ≢ x → k ≢ t → prev' k ≡ s.prev k
    prev_kept k not_x not_t =
        update_ne prev1 x k t (λ e. not_x (sym e))
        ∙ update_ne s.prev t k (s.prev x) (λ e. not_t (sym e))

    before : Segment next' prev' x xs t
    before =
        retarget s.next s.prev next' prev' x xs x t v.ring v.distinct
          (All-map (x ∷ xs) next_kept absent) (All-map₂ xs prev_kept v.distinct.0 absent.1)
          (ap next' (sym last) ∙ update_self (update s.next t x) (prev1 x) t)
          (update_ne prev1 x t t absent.0 ∙ update_self s.prev t (s.prev x))

-- The first thread leaves the ring.
unlink-IsQueue :
    (t z : ℕ) (zs : List ℕ) (s : Sched)
    → IsQueue (t ∷ z ∷ zs) s
    → IsQueue (z ∷ zs) (unlink t (s.next t) s)
unfolding unlink
unlink-IsQueue t z zs s v = record {
  head = v.ring.0.0;
  ring =
      retarget s.next s.prev next' prev' z zs t z v.ring.1 v.distinct.1
        (All-map (z ∷ zs) next_kept v.distinct.0)
        (All-map₂ zs prev_kept v.distinct.1.0 v.distinct.0.1)
        (update_ne next1 t (s.prev t) 0 (λ e. last_not_t (sym e))
          ∙ update_self s.next (s.prev t) (s.next t)
          ∙ v.ring.0.0)
        (update_ne prev1 t z 0 (λ e. v.distinct.0.0 (sym e))
          ∙ ap prev1 (sym next1_t)
          ∙ update_self s.prev (next1 t) (s.prev t));
  distinct = v.distinct.1;
  not_null = v.not_null.1;
  outside = λ k h. elim (Bool-cases (t == k)) [
    | inl e ↦ rw e
    | inr e ↦ rw e (
        update_ne s.next (s.prev t) k (s.next t)
          (last-All s.next s.prev (λ j. j ≢ k) z zs t v.ring.1 h.0 h.1)
        ∙ v.outside k (ground (arith, e), h))
  ];
}
  where
    next1 : Array ℕ
    next1 = update s.next (s.prev t) (s.next t)

    prev1 : Array ℕ
    prev1 = update s.prev (next1 t) (s.prev t)

    next' : Array ℕ
    next' = update next1 t 0

    prev' : Array ℕ
    prev' = update prev1 t 0

    last_not_t : s.prev t ≢ t
    last_not_t = last-All s.next s.prev (λ k. k ≢ t) z zs t v.ring.1 v.distinct.0.0 v.distinct.0.1

    next1_t : next1 t ≡ z
    next1_t = update_ne s.next (s.prev t) t (s.next t) last_not_t ∙ v.ring.0.0

    next_kept : (k : ℕ) → k ≢ t → k ≢ s.prev t → next' k ≡ s.next k
    next_kept k not_t not_last =
        update_ne next1 t k 0 (λ e. not_t (sym e))
        ∙ update_ne s.next (s.prev t) k (s.next t) (λ e. not_last (sym e))

    prev_kept : (k : ℕ) → k ≢ z → k ≢ t → prev' k ≡ s.prev k
    prev_kept k not_z not_t =
        update_ne prev1 t k 0 (λ e. not_t (sym e))
        ∙ update_ne s.prev (next1 t) k (s.prev t) (λ e. not_z (sym e ∙ next1_t))

unlink_only-IsQueue : (t : ℕ) (s : Sched) → IsQueue (t ∷ []) s → IsQueue [] (unlink_only t s)
unfolding unlink_only
unlink_only-IsQueue t s v = record {
  head = refl;
  ring = tt;
  distinct = tt;
  not_null = tt;
  outside = λ k h. elim (Bool-cases (t == k)) [
    | inl e ↦ rw e
    | inr e ↦ rw e (v.outside k (ground (arith, e), tt))
  ];
}

-- `dequeue_next` takes the first thread, or returns NULL when there is none.
pub dequeue-IsQueue :
    (q : List ℕ) (s : Sched)
    → IsQueue q s
    → ((dequeue_next s).0 ≡ first q) × IsQueue (rest q) (dequeue_next s).1
unfolding dequeue_next
dequeue-IsQueue [] s v =
    rw v.head
      (refl, record { head = refl; ring = tt; distinct = tt; not_null = tt; outside = v.outside })
dequeue-IsQueue (t ∷ []) s v =
    rw (v.head, ==_ne t 0 v.not_null.0, v.ring.0, ==_self t) (refl, unlink_only-IsQueue t s v)
dequeue-IsQueue (t ∷ z ∷ zs) s v =
    rw (v.head, ==_ne t 0 v.not_null.0, different) (refl, unlink-IsQueue t z zs s v)
  where
    different : (s.next t == t) ≡ false
    different = ==_ne (s.next t) t (λ e. v.distinct.0.0 (sym v.ring.0.0 ∙ e))

-- A thread that is not on the queue is not removed from it.
pub remove-Absent : (t : ℕ) (q : List ℕ) (s : Sched) → IsQueue q s → Absent t q → remove t s ≡ s
unfolding remove
remove-Absent t q s v absent = rw (v.outside t absent)
