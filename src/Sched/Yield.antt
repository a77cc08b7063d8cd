-- ===== src/Sched/Yield.antt =====
-- What `sched_yield`, `sched_sleep` and `sched_tick` of kernel/sched/sched.c do to the queue.
use aerogel.Common.{
  ℕ, ◌+◌, ◌/◌, ◌%◌, ◌^◌, ◌≡◌, ◌≢◌, refl, subst, List, [], ◌∷◌, ◌++◌, ◌==◌, if◌then◌else◌, ==_ne,
  Bool-cases, inl, inr,
}
use aerogel.Common.Array.{update, update_self}
use aerogel.Sched.{
  Sched, ThreadState, running, sleeping, is_running, dequeue_next, unlink, unlink_only, requeue,
  run, yield_cpu, sleep,
}
use aerogel.Sched.Rings.{Absent}
use aerogel.Sched.Queue.{IsQueue, enqueue-IsQueue, dequeue-IsQueue, remove-Absent}

-- Dequeuing touches no state and no field but the queue's.
dequeue-state : (s : Sched) → (dequeue_next s).1.state ≡ s.state
unfolding dequeue_next unlink unlink_only
dequeue-state s = elim (Bool-cases (s.run_queue_head == 0)) [
  | inl e ↦ rw e
  | inr e ↦ rw e (elim (Bool-cases (s.next s.run_queue_head == s.run_queue_head)) [
    | inl e' ↦ rw e'
    | inr e' ↦ rw e'
  ])
]

run-IsQueue : (cur t : ℕ) (q : List ℕ) (s : Sched) → IsQueue q s → IsQueue q (run cur t s)
unfolding run
run-IsQueue cur t q s v = record {
  head = v.head;
  ring = v.ring;
  distinct = v.distinct;
  not_null = v.not_null;
  outside = v.outside;
}

-- The queue of threads that wait after a yield of the thread `c` with the state `st`.
abbrev pub after_yield : (c : ℕ) → ThreadState → List ℕ → List ℕ
after_yield c st q = if is_running st then q ++ c ∷ [] else q

requeue-IsQueue :
    (c : ℕ) (q : List ℕ) (s : Sched)
    → IsQueue q s
    → c ≢ 0
    → Absent c q
    → IsQueue (after_yield c (s.state c) q) (requeue c s)
unfolding requeue
requeue-IsQueue c q s v not_null absent = elim (Bool-cases (is_running (s.state c))) [
  | inl e ↦ rw e (enqueue-IsQueue c q s v not_null absent)
  | inr e ↦ rw e v
]

-- What a yield leads to: `x` runs, and `q` waits.
pub record Runs (x : ℕ) (q : List ℕ) (s : Sched) : Type 0 where
  pub current : s.current_thread ≡ x
  pub state : s.state x ≡ running
  pub quantum : s.quantum_remaining x ≡ 10
  pub queue : IsQueue q s

run-Runs : (c x : ℕ) (q : List ℕ) (s : Sched) → IsQueue q s → Runs x q (run c x s)
unfolding run
run-Runs c x q s v = record {
  current = refl;
  state = update_self s.state x running;
  quantum = update_self (update s.quantum_remaining c 10) x 10;
  queue = run-IsQueue c x q s v;
}

-- `sched_yield` gives the processor to the first thread of the queue, and the thread that ran goes to
-- the end of the queue if it is still running, and nowhere if it is not.
pub yield_cpu-Runs :
    (x : ℕ) (xs : List ℕ) (s : Sched)
    → IsQueue (x ∷ xs) s
    → s.current_thread ≢ 0
    → Absent s.current_thread (x ∷ xs)
    → Runs x (after_yield s.current_thread (s.state s.current_thread) xs) (yield_cpu s)
unfolding yield_cpu
yield_cpu-Runs x xs s v not_null absent =
    rw (taken.0, ==_ne x 0 v.not_null.0) (run-Runs c x _ (requeue c (dequeue_next s).1) queued)
  where
    c : ℕ
    c = s.current_thread

    taken : ((dequeue_next s).0 ≡ x) × IsQueue xs (dequeue_next s).1
    taken = dequeue-IsQueue (x ∷ xs) s v

    queued : IsQueue (after_yield c (s.state c) xs) (requeue c (dequeue_next s).1)
    queued =
        subst (λ st. IsQueue (after_yield c (st c) xs) (requeue c (dequeue_next s).1))
          (dequeue-state s) (requeue-IsQueue c xs (dequeue_next s).1 taken.1 not_null absent.1)

-- The thread that ran sleeps, and is on no queue: the first thread of the queue runs.
pub sleep-Runs :
    (ticks ms x : ℕ) (xs : List ℕ) (s : Sched)
    → IsQueue (x ∷ xs) s
    → s.current_thread ≢ 0
    → Absent s.current_thread (x ∷ xs)
    → Runs x xs (sleep ticks ms s)
unfolding sleep
sleep-Runs ticks ms x xs s v not_null absent = rw (remove-Absent c (x ∷ xs) s1 v1 absent) (
    subst (λ st. Runs x (after_yield c st xs) (yield_cpu s1)) (update_self s.state c sleeping)
      (yield_cpu-Runs x xs s1 v1 not_null absent))
  where
    c : ℕ
    c = s.current_thread

    s1 : Sched
    s1 = record s {
      state = update s.state c sleeping;
      wake_tick = update s.wake_tick c ((ticks + ms / 10) % 2 ^ 64);
    }

    v1 : IsQueue (x ∷ xs) s1
    v1 = record {
      head = v.head;
      ring = v.ring;
      distinct = v.distinct;
      not_null = v.not_null;
      outside = v.outside;
    }
