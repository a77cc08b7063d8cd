-- ===== src/Spinlock/Progress.antt =====
-- A thread that waits for a lock of libs/libk/spinlock.c can get it.
use aerogel.Common.{ℕ, ◌<◌, ◌≡◌, ◌≢◌, refl, sym, ap, ◌∙◌}
use aerogel.Common.Array.{update, update_self, update_ne}
use aerogel.Spinlock.{
  spinlock_release, outside, spinning, holding, System, spin, release, Step, pick, init, Reach,
  here, next,
}
use aerogel.Spinlock.Exclusion.{IsOwned, free, taken, round_free, Reach-IsOwned}

spinning-ne-holding : spinning ≢ holding
spinning-ne-holding e = cc

-- One round with a free lock
takes_free :
    (n : ℕ) (s : System) (i : ℕ)
    → i < n
    → s.pc i ≡ spinning
    → s.locked ≡ 0
    → Step n s (record { locked = 1; pc = update s.pc i holding })
takes_free n s i lt at z = let f = round_free s.locked z in pick i lt at (spin (sym f.1) (sym f.0))

-- From every state that is reached, whichever thread holds the lock, the threads can go on so that a thread in the
-- loop of `spinlock_acquire` gets the lock.
pub spinning-gets :
    (n : ℕ) (s : System) (i : ℕ)
    → Reach n init s
    → i < n
    → s.pc i ≡ spinning
    → (t : System) × Reach n s t × (t.pc i ≡ holding)
unfolding spinlock_release
spinning-gets n s i r lt at = waits (Reach-IsOwned r)
  where
    waits : IsOwned n s → (t : System) × Reach n s t × (t.pc i ≡ holding)
    waits (free z none) = (
      record { locked = 1; pc = update s.pc i holding },
      next here (takes_free n s i lt at z),
      update_self s.pc i holding,
    )
    waits (taken k k_lt one holds only) =
        let ne : k ≢ i = λ e. spinning-ne-holding (sym at ∙ sym (ap s.pc e) ∙ holds) in
        let u : System = record { locked = 0; pc = update s.pc k outside } in
        let still : u.pc i ≡ spinning = update_ne s.pc k i outside ne ∙ at in
        (
          record { locked = 1; pc = update u.pc i holding },
          next (next here (pick k k_lt holds (release refl))) (takes_free n u i lt still refl),
          update_self u.pc i holding,
        )
