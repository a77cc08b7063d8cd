-- ===== src/Sched/Waking.antt =====
-- Which threads `sched_tick` of kernel/sched/sched.c wakes.
use aerogel.Common.{
  ℕ, zero, suc, ◌<◌, ◌≡◌, ◌≢◌, refl, sym, ap, ◌∙◌, subst, arith, List, [], ◌∷◌, length, All, ◌&&◌,
  leb, if◌then◌else◌, ==_ne, ==_self, Bool-cases, inl, inr, Option, some,
}
use aerogel.Common.Array.{Array, update_self, update_ne}
use aerogel.Sched.{
  Sched, ThreadState, ready, is_sleeping, wake_one, wake_loop, wake_queue, spend, tick,
}
use aerogel.Sched.Rings.{All-map₂, Absent, Distinct, Segment}
use aerogel.Sched.Queue.{first, IsQueue}

-- the state that a thread on the queue has after a tick
abbrev pub woken : ℕ → ThreadState → ℕ → ThreadState
woken now st due = if is_sleeping st && leb due now then ready else st

wake_one_other : (now t k : ℕ) (s : Sched) → t ≢ k → (wake_one now t s).state k ≡ s.state k
unfolding wake_one
wake_one_other now t k s h =
    elim (Bool-cases (is_sleeping (s.state t) && leb (s.wake_tick t) now)) [
      | inl e ↦ rw e (update_ne s.state t k ready h)
      | inr e ↦ rw e
    ]

wake_one_self :
    (now t : ℕ) (s : Sched) → (wake_one now t s).state t ≡ woken now (s.state t) (s.wake_tick t)
unfolding wake_one
wake_one_self now t s = elim (Bool-cases (is_sleeping (s.state t) && leb (s.wake_tick t) now)) [
  | inl e ↦ rw e (update_self s.state t ready)
  | inr e ↦ rw e
]

-- After the loop over the threads `q` only their states have changed.
pub record IsWoken (now : ℕ) (q : List ℕ) (s : Sched) (state : Array ThreadState) : Type 0 where
  pub inside : All (λ k. state k ≡ woken now (s.state k) (s.wake_tick k)) q
  pub outside : (k : ℕ) → Absent k q → state k ≡ s.state k

-- The loop ends, and only states have changed.
abbrev pub LoopResult : (now : ℕ) → List ℕ → Option Sched → Sched → Type 0
LoopResult now q result s =
    (state : Array ThreadState) × (result ≡ some (record s { state = state }))
    × IsWoken now q s state

-- one round before the others
wake_one-IsWoken :
    (now a : ℕ) (q : List ℕ) (s : Sched) (result : Option Sched)
    → Absent a q
    → LoopResult now q result (wake_one now a s)
    → LoopResult now (a ∷ q) result s
unfolding wake_one
wake_one-IsWoken now a q s result absent (state, e, w) = (
  state,
  e,
  record {
    inside = (w.outside a absent ∙ wake_one_self now a s, All-map₂ q later absent w.inside);
    outside = λ k h. w.outside k h.1 ∙ wake_one_other now a k s h.0;
  },
)
  where
    later :
        (k : ℕ)
        → k ≢ a
        → state k ≡ woken now ((wake_one now a s).state k) (s.wake_tick k)
        → state k ≡ woken now (s.state k) (s.wake_tick k)
    later k not_a e' =
        e'
        ∙ ap (λ st. woken now st (s.wake_tick k))
            (wake_one_other now a k s (λ e''. not_a (sym e'')))

wake_loop_lem :
    (f now start a : ℕ) (xs : List ℕ) (s : Sched)
    → Segment s.next s.prev a xs start
    → Distinct (a ∷ xs)
    → Absent 0 xs
    → Absent start xs
    → start ≢ 0
    → length xs < f
    → LoopResult now (a ∷ xs) (wake_loop f now start a s) s
unfolding wake_loop wake_one
wake_loop_lem zero now start a xs s l d z n nz h = absurd (omega arith)
wake_loop_lem (suc f) now start a [] s l d z n nz h =
    rw (l.0, ==_ne start 0 nz, ==_self start)
      (
        (wake_one now a s).state,
        refl,
        record {
          inside = (wake_one_self now a s, tt);
          outside = λ k absent. wake_one_other now a k s absent.0;
        },
      )
wake_loop_lem (suc f) now start a (y ∷ ys) s l d z n nz h =
    rw (l.0.0, ==_ne y 0 z.0, ==_ne y start n.0)
      (wake_one-IsWoken now a (y ∷ ys) s (wake_loop f now start y (wake_one now a s)) d.0
        (wake_loop_lem f now start y ys (wake_one now a s) l.1 d.1 z.1 n.1 nz (omega arith)))

wake_queue_lem :
    (f now : ℕ) (q : List ℕ) (s : Sched)
    → IsQueue q s
    → length q < f
    → LoopResult now q (wake_queue f now (first q) s) s
unfolding wake_queue
wake_queue_lem f now [] s v h = (s.state, refl, record { inside = tt; outside = λ k h. refl })
wake_queue_lem f now (x ∷ xs) s v h = rw (==_ne x 0 v.not_null.0) (
    wake_loop_lem f now x x xs s v.ring v.distinct v.not_null.1 v.distinct.0 v.not_null.0
      (omega arith))

spend-IsQueue : (q : List ℕ) (s : Sched) → IsQueue q s → IsQueue q (spend s)
unfolding spend
spend-IsQueue q s v = record {
  head = v.head;
  ring = v.ring;
  distinct = v.distinct;
  not_null = v.not_null;
  outside = v.outside;
}

-- With fuel above the length of the queue a tick ends. It wakes exactly the sleeping threads on the
-- queue whose time has come, and no thread that is not on the queue.
pub tick_lem :
    (f now : ℕ) (q : List ℕ) (s : Sched)
    → IsQueue q s
    → length q < f
    → s.current_thread ≢ 0
    → LoopResult now q (tick f now s) (spend s)
unfolding tick spend
tick_lem f now q s v h not_null = rw (==_ne s.current_thread 0 not_null) (
    subst (λ head. LoopResult now q (wake_queue f now head (spend s)) (spend s)) (sym v.head)
      (wake_queue_lem f now q (spend s) (spend-IsQueue q s v) h))
