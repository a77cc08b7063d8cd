-- ===== src/Sched.antt =====
-- The scheduler and its threads, kernel/sched/sched.c and thread.c. A thread is its address, NULL is 0,
-- and each field of `thread_t` is an array over the addresses: the name, the stack and the saved stack
-- pointer are left out. The switch of the stacks is assembly: `sched_yield` ends where it calls it.
pub mod Rings
pub mod Queue
pub mod Yield
pub mod Waking
mod Tests
use aerogel.Common.{
  ℕ, zero, suc, ◌+◌, ◌-◌, ◌/◌, ◌%◌, ◌^◌, Bool, true, false, not, ◌&&◌, ◌||◌, ◌==◌, ltb, leb,
  if◌then◌else◌, Option, none, some,
}
use aerogel.Common.Array.{Array, update}

-- `thread_state_t`
pub data ThreadState : Type 0 where
  ready : ThreadState
  running : ThreadState
  blocked : ThreadState
  sleeping : ThreadState
  zombie : ThreadState

pub record Sched : Type 0 where
  pub id : Array ℕ
  pub state : Array ThreadState
  pub wake_tick : Array ℕ
  pub quantum_remaining : Array ℕ
  pub next : Array ℕ
  pub prev : Array ℕ
  pub run_queue_head : ℕ
  pub need_resched : Bool
  pub current_thread : ℕ
  pub next_id : ℕ
  pub nthreads : ℕ

abbrev pub sched_quantum_ticks : ℕ
sched_quantum_ticks = 10

abbrev pub is_running : ThreadState → Bool
is_running running = true
is_running _ = false

abbrev pub is_sleeping : ThreadState → Bool
is_sleeping sleeping = true
is_sleeping _ = false

abbrev pub is_blocked : ThreadState → Bool
is_blocked blocked = true
is_blocked _ = false

pub enqueue : ℕ → Sched → Sched
enqueue t s =
    let state' = update s.state t ready in
    if s.run_queue_head == 0
    then record s {
      state = state';
      run_queue_head = t;
      prev = update s.prev t t;
      next = update s.next t t;
    }
    else (let prev1 = update s.prev t (s.prev s.run_queue_head) in
        let next1 = update s.next t s.run_queue_head in
        record s {
          state = state';
          next = update next1 (prev1 s.run_queue_head) t;
          prev = update prev1 s.run_queue_head t;
        })

-- `t` out of its ring, and its links cleared; the head is set to `head'`
pub unlink : (t head' : ℕ) → Sched → Sched
unlink t head' s =
    let next1 = update s.next (s.prev t) (s.next t) in
    let prev1 = update s.prev (next1 t) (s.prev t) in
    record s { run_queue_head = head'; next = update next1 t 0; prev = update prev1 t 0 }

-- `t` alone in its ring
pub unlink_only : ℕ → Sched → Sched
unlink_only t s = record s {
  run_queue_head = 0;
  next = update s.next t 0;
  prev = update s.prev t 0;
}

-- the thread, or NULL
pub dequeue_next : Sched → ℕ × Sched
unfolding unlink unlink_only
dequeue_next s =
    let t = s.run_queue_head in
    if t == 0
    then (0, s)
    else if s.next t == t
    then (t, unlink_only t s)
    else (t, unlink t (s.next t) s)

pub remove : ℕ → Sched → Sched
unfolding unlink unlink_only
remove t s =
    if s.next t == 0
    then s
    else if s.next t == t
    then unlink_only t s
    else unlink t (if s.run_queue_head == t then s.next t else s.run_queue_head) s

-- one round of the loop of `sched_tick`
pub wake_one : (now t : ℕ) → Sched → Sched
wake_one now t s = record s {
  state =
      if is_sleeping (s.state t) && leb (s.wake_tick t) now
      then update s.state t ready
      else s.state;
}

-- That loop over the ring, `t` first; `none` when the fuel is used up.
pub wake_loop : (fuel now start t : ℕ) → Sched → Option Sched
unfolding wake_one
wake_loop zero now start t s = none
wake_loop (suc f) now start t s =
    let s1 = wake_one now t s in
    let t' = s1.next t in
    let rest = wake_loop f now start t' s1 in if (t' == 0) || (t' == start) then some s1 else rest

-- the quantum of the running thread
pub spend : Sched → Sched
spend s =
    let cur = s.current_thread in
    let left = s.quantum_remaining cur - 1 in
    record s {
      quantum_remaining = update s.quantum_remaining cur left;
      need_resched = if left == 0 then true else s.need_resched;
    }

-- the rest of `sched_tick`, from the head of the queue
pub wake_queue : (fuel now head : ℕ) → Sched → Option Sched
unfolding wake_loop
wake_queue fuel now head s = if head == 0 then some s else wake_loop fuel now head head s

pub tick : (fuel now : ℕ) → Sched → Option Sched
unfolding wake_queue spend
tick fuel now s =
    if s.current_thread == 0 then some s else wake_queue fuel now (spend s).run_queue_head (spend s)

-- the running thread back to the queue
pub requeue : ℕ → Sched → Sched
unfolding enqueue
requeue cur s = if is_running (s.state cur) then enqueue cur s else s

-- the thread `t` starts to run in place of `cur`
pub run : (cur t : ℕ) → Sched → Sched
run cur t s = record s {
  quantum_remaining =
      update (update s.quantum_remaining cur sched_quantum_ticks) t sched_quantum_ticks;
  state = update s.state t running;
  need_resched = false;
  current_thread = t;
}

pub yield_cpu : Sched → Sched
unfolding dequeue_next requeue run
yield_cpu s =
    let cur = s.current_thread in
    let (t, s1) = dequeue_next s in
    if t == 0 then record s1 { need_resched = false } else run cur t (requeue cur s1)

-- `ticks` is what `pit_ticks` returns
pub sleep : (ticks ms : ℕ) → Sched → Sched
unfolding remove yield_cpu
sleep ticks ms s =
    let cur = s.current_thread in
    yield_cpu (
      remove cur (record s {
        state = update s.state cur sleeping;
        wake_tick = update s.wake_tick cur ((ticks + ms / 10) % 2 ^ 64);
      }))

pub wake : ℕ → Sched → Sched
unfolding enqueue
wake t s = if is_sleeping (s.state t) || is_blocked (s.state t) then enqueue t s else s

-- The block at `t` that `kmalloc` returns, cleared and filled.
pub thread_create : ℕ → Sched → Sched
thread_create t s = record s {
  id = update s.id t s.next_id;
  state = update s.state t ready;
  wake_tick = update s.wake_tick t 0;
  quantum_remaining = update s.quantum_remaining t sched_quantum_ticks;
  next = update s.next t 0;
  prev = update s.prev t 0;
  next_id = (s.next_id + 1) % 2 ^ 32;
  nthreads = (s.nthreads + 1) % 2 ^ 32;
}

pub thread_exit : Sched → Sched
unfolding yield_cpu
thread_exit s = yield_cpu (record s {
  state = update s.state s.current_thread zombie;
  nthreads = (s.nthreads + 2 ^ 32 - 1) % 2 ^ 32;
})

-- `idle` is the address of `idle_tcb`
pub init_idle : ℕ → Sched → Sched
init_idle idle s = record s {
  id = update s.id idle s.next_id;
  state = update s.state idle running;
  wake_tick = update s.wake_tick idle 0;
  quantum_remaining = update s.quantum_remaining idle sched_quantum_ticks;
  next = update s.next idle 0;
  prev = update s.prev idle 0;
  current_thread = idle;
  next_id = (s.next_id + 1) % 2 ^ 32;
  nthreads = (s.nthreads + 1) % 2 ^ 32;
}

pub init : ℕ → Sched → Sched
unfolding init_idle
init idle s = init_idle idle (record s { run_queue_head = 0 })
