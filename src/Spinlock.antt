-- ===== src/Spinlock.antt =====
-- Spin locks, libs/libk/spinlock.c, and `n` threads that use one lock. An atomic access is one step, and the
-- threads' steps come in any order; a thread releases the lock only while it holds it.
pub mod Exclusion
pub mod Progress
mod Tests
use aerogel.Common.{ℕ, ◌<◌, ◌≡◌, Bool, not, ◌!=◌, if◌then◌else◌}
use aerogel.Common.Array.{Array, update}

-- the value before, as a truth value, and the word afterwards
pub test_and_set : ℕ → Bool × ℕ
test_and_set locked = (locked != 0, 1)

-- one round of the loop of `spinlock_acquire`: whether it goes on, and the lock
unfoldable pub acquire_round : ℕ → Bool × ℕ
unfolding test_and_set
acquire_round locked = test_and_set locked

unfoldable pub spinlock_try_acquire : ℕ → Bool × ℕ
unfolding test_and_set
spinlock_try_acquire locked = let (old, now) = test_and_set locked in (not old, now)

unfoldable pub spinlock_release : ℕ → ℕ
spinlock_release locked = 0

-- where a thread stands: outside, in the loop of `spinlock_acquire`, or with the lock
pub data Pc : Type 0 where
  outside : Pc
  spinning : Pc
  holding : Pc

-- the thread after a round of `spinlock_acquire`, and after `spinlock_try_acquire`
abbrev pub after_round : Bool → Pc
after_round goes_on = if goes_on then spinning else holding

abbrev pub after_try : Bool → Pc
after_try got = if got then holding else outside

pub record System : Type 0 where
  pub locked : ℕ
  pub pc : Array Pc

-- what one thread does with the lock
pub data Move (l : ℕ) : Pc → ℕ → Pc → Type 0 where
  call : Move l outside l spinning
  spin :
      {p : Pc} {l' : ℕ}
      → l' ≡ (acquire_round l).1
      → p ≡ after_round (acquire_round l).0
      → Move l spinning l' p
  attempt :
      {p : Pc} {l' : ℕ}
      → l' ≡ (spinlock_try_acquire l).1
      → p ≡ after_try (spinlock_try_acquire l).0
      → Move l outside l' p
  release : {l' : ℕ} → l' ≡ spinlock_release l → Move l holding l' outside

pub data Step (n : ℕ) (s : System) : System → Type 0 where
  pick :
      (i : ℕ) {p q : Pc} {l : ℕ}
      → i < n
      → s.pc i ≡ p
      → Move s.locked p l q
      → Step n s (record { locked = l; pc = update s.pc i q })

-- SPINLOCK_INIT, with every thread outside
abbrev pub init : System
init = record { locked = 0; pc = λ _. outside }

pub data Reach (n : ℕ) (s : System) : System → Type 0 where
  here : Reach n s s
  next : {t u : System} → Reach n s t → Step n t u → Reach n s u
