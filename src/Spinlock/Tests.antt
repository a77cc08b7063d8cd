-- ===== src/Spinlock/Tests.antt =====
-- Two threads: one takes the lock, and the other waits for it.
use aerogel.Common.{ℕ, ◌<◌, ◌≡◌, ◌≢◌, ◌↔◌, refl, arith}
use aerogel.Common.Array.{update}
use aerogel.Spinlock.{
  acquire_round, spinning, holding, System, call, spin, pick, init, Reach, here, next,
}
use aerogel.Spinlock.Exclusion.{mutual_exclusion}
use aerogel.Spinlock.Progress.{spinning-gets}

abbrev called : System
called = record { locked = 0; pc = update init.pc 0 spinning }

abbrev held : System
held = record { locked = 1; pc = update called.pc 0 holding }

abbrev contended : System
contended = record { locked = 1; pc = update held.pc 1 spinning }

contended-Reach : Reach 2 init contended
unfolding acquire_round
contended-Reach =
    next
      (next (next here (pick 0 (omega arith) refl call))
        (pick 0 (omega arith) refl (spin refl refl)))
      (pick 1 (omega arith) refl call)

mutual_exclusion_example :
    ((i j : ℕ) → contended.pc i ≡ holding → contended.pc j ≡ holding → i ≡ j)
    × ((contended.locked ≢ 0) ↔ ((i : ℕ) × (i < 2) × (contended.pc i ≡ holding)))
mutual_exclusion_example = mutual_exclusion 2 contended contended-Reach

spinning-gets_example : (t : System) × Reach 2 contended t × (t.pc 1 ≡ holding)
spinning-gets_example = spinning-gets 2 contended 1 contended-Reach (omega arith) refl
