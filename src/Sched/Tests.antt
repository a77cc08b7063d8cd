-- ===== src/Sched/Tests.antt =====
-- Three threads, made by the code's own operations: the idle thread 1 runs, and 2 and 3 are made ready.
use aerogel.Common.{◌≡◌, refl, arith, [], ◌∷◌, false}
use aerogel.Sched.{Sched, ready, enqueue, dequeue_next, tick, spend, yield_cpu}
use aerogel.Sched.Queue.{IsQueue, enqueue-IsQueue, dequeue-IsQueue}
use aerogel.Sched.Yield.{Runs, after_yield, yield_cpu-Runs}
use aerogel.Sched.Waking.{LoopResult, tick_lem}

abbrev off : Sched
off = record {
  id = λ _. 0;
  state = λ _. ready;
  wake_tick = λ _. 0;
  quantum_remaining = λ _. 0;
  next = λ _. 0;
  prev = λ _. 0;
  run_queue_head = 0;
  need_resched = false;
  current_thread = 1;
  next_id = 0;
  nthreads = 0;
}

off-IsQueue : IsQueue [] off
off-IsQueue = record { head = refl; ring = tt; distinct = tt; not_null = tt; outside = λ k h. refl }

abbrev two : Sched
two = enqueue 3 (enqueue 2 off)

one-IsQueue : IsQueue (2 ∷ []) (enqueue 2 off)
one-IsQueue = enqueue-IsQueue 2 [] off off-IsQueue (omega arith) tt

two-IsQueue : IsQueue (2 ∷ 3 ∷ []) two
two-IsQueue = enqueue-IsQueue 3 (2 ∷ []) (enqueue 2 off) one-IsQueue (omega arith) (omega arith, tt)

enqueue-IsQueue_example : IsQueue (2 ∷ 3 ∷ 4 ∷ []) (enqueue 4 two)
enqueue-IsQueue_example =
    enqueue-IsQueue 4 (2 ∷ 3 ∷ []) two two-IsQueue (omega arith) (omega arith, (omega arith, tt))

dequeue-IsQueue_example : ((dequeue_next two).0 ≡ 2) × IsQueue (3 ∷ []) (dequeue_next two).1
dequeue-IsQueue_example = dequeue-IsQueue (2 ∷ 3 ∷ []) two two-IsQueue

yield_cpu-Runs_example : Runs 2 (after_yield 1 (two.state 1) (3 ∷ [])) (yield_cpu two)
unfolding enqueue
yield_cpu-Runs_example =
    yield_cpu-Runs 2 (3 ∷ []) two two-IsQueue (omega arith) (omega arith, (omega arith, tt))

tick_lem_example : LoopResult 5 (2 ∷ 3 ∷ []) (tick 3 5 two) (spend two)
unfolding enqueue
tick_lem_example = tick_lem 3 5 (2 ∷ 3 ∷ []) two two-IsQueue (omega arith) (omega arith)
