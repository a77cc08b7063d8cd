-- ===== src/Spinlock/Exclusion.antt =====
-- At most one thread holds a lock of libs/libk/spinlock.c.
use aerogel.Common.{
  subst, ◌↔◌, ℕ, ◌<◌, ◌≡◌, ◌≢◌, refl, sym, ap, ◌∙◌, arith, ◌==◌, ==_iff, Bool-cases, ◌⊎◌, inl, inr,
  false,
}
use aerogel.Common.Array.{update, update_self, update_ne}
use aerogel.Spinlock.{
  after_round, after_try, acquire_round, spinlock_try_acquire, spinlock_release, Pc, outside,
  spinning, holding, System, call, spin, attempt, release, Step, pick, init, Reach, here, next,
}

-- The lock is free and no thread holds it, or it is taken and exactly one thread does.
pub data IsOwned (n : ℕ) (s : System) : Type 0 where
  free : s.locked ≡ 0 → ((i : ℕ) → s.pc i ≢ holding) → IsOwned n s
  taken :
      (i : ℕ)
      → i < n
      → s.locked ≡ 1
      → s.pc i ≡ holding
      → ((j : ℕ) → s.pc j ≡ holding → j ≡ i)
      → IsOwned n s

outside-ne : outside ≢ holding
outside-ne e = cc

spinning-ne : spinning ≢ holding
spinning-ne e = cc

module _ (n : ℕ) (s : System) (i : ℕ) (lt : i < n) where
  moved : Pc → ℕ → System
  moved q l = record { locked = l; pc = update s.pc i q }

  -- A thread that did not hold the lock and does not hold it now
  stays :
      (q : Pc) (l : ℕ)
      → s.pc i ≢ holding
      → q ≢ holding
      → l ≡ s.locked
      → IsOwned n s
      → IsOwned n (record { locked = l; pc = update s.pc i q })
  stays q l was is same (free z none) =
      free (same ∙ z) (λ j. elim (Bool-cases (i == j)) [ inl e ↦ rw e is | inr e ↦ rw e (none j) ])
  stays q l was is same (taken k k_lt one holds only) =
      let ne : i ≢ k = λ e. was (ap s.pc e ∙ holds) in
      taken k k_lt (same ∙ one) (update_ne s.pc i k q ne ∙ holds) (λ j. elim (Bool-cases (i == j)) [
        | inl e ↦ rw e (λ h. absurd (is h))
        | inr e ↦ rw e (only j)
      ])

  takes : s.locked ≡ 0 → IsOwned n s → IsOwned n (record { locked = 1; pc = update s.pc i holding })
  takes zero (free z none) = taken i lt refl (update_self s.pc i holding) (λ j.
      elim (Bool-cases (i == j)) [
        | inl e ↦ λ h. sym ((==_iff i j).0 e)
        | inr e ↦ rw e (λ h. absurd (none j h))
      ])
  takes zero (taken k k_lt one holds only) = absurd (omega (arith, zero, one))

  gives :
      s.pc i ≡ holding → IsOwned n s → IsOwned n (record { locked = 0; pc = update s.pc i outside })
  gives h (free z none) = absurd (none i h)
  gives h (taken k k_lt one holds only) = free refl (λ j. elim (Bool-cases (i == j)) [
    | inl e ↦ rw e outside-ne
    | inr e ↦ rw e (λ g. absurd (apart e (only i h ∙ sym (only j g))))
  ])
    where
      apart : {j : ℕ} → (i == j) ≡ false → i ≢ j
      apart e f = ground (arith, e, f)

-- what the code does with a free lock and with a taken one
pub round_free :
    (l : ℕ) → l ≡ 0 → (after_round (acquire_round l).0 ≡ holding) × ((acquire_round l).1 ≡ 1)
unfolding acquire_round
round_free l e = rw e (refl, refl)

round_taken :
    (l : ℕ) → l ≡ 1 → (after_round (acquire_round l).0 ≡ spinning) × ((acquire_round l).1 ≡ l)
unfolding acquire_round
round_taken l e = rw e (refl, refl)

try_free :
    (l : ℕ)
    → l ≡ 0
    → (after_try (spinlock_try_acquire l).0 ≡ holding) × ((spinlock_try_acquire l).1 ≡ 1)
unfolding spinlock_try_acquire
try_free l e = rw e (refl, refl)

try_taken :
    (l : ℕ)
    → l ≡ 1
    → (after_try (spinlock_try_acquire l).0 ≡ outside) × ((spinlock_try_acquire l).1 ≡ l)
unfolding spinlock_try_acquire
try_taken l e = rw e (refl, refl)

IsOwned-cases : {n : ℕ} {s : System} → IsOwned n s → (s.locked ≡ 0) ⊎ (s.locked ≡ 1)
IsOwned-cases (free z none) = inl z
IsOwned-cases (taken k k_lt one holds only) = inr one

-- A thread outside or in the loop takes a free lock, or leaves it as it is.
settle :
    (n : ℕ) (s : System) (i : ℕ) (lt : i < n) (q : Pc) (l : ℕ)
    → s.pc i ≢ holding
    → ((q ≡ holding) × (l ≡ 1) × (s.locked ≡ 0)) ⊎ ((q ≢ holding) × (l ≡ s.locked))
    → IsOwned n s
    → IsOwned n (record { locked = l; pc = update s.pc i q })
settle n s i lt q l was (inl (is, one, zero)) own =
    subst (λ (x : Pc). IsOwned n (record { locked = l; pc = update s.pc i x })) (sym is)
      (subst (λ (x : ℕ). IsOwned n (record { locked = x; pc = update s.pc i holding })) (sym one)
        (takes n s i lt zero own))
settle n s i lt q l was (inr (is, same)) own = stays n s i lt q l was is same own

Step-IsOwned : {n : ℕ} {s t : System} → Step n s t → IsOwned n s → IsOwned n t
unfolding spinlock_release
Step-IsOwned {n} {s} (pick i lt at call) own =
    stays n s i lt spinning s.locked (λ h. outside-ne (sym at ∙ h)) spinning-ne refl own
Step-IsOwned {n} {s} (pick i {q = q} {l = l} lt at (spin word now)) own =
    settle n s i lt q l (λ h. spinning-ne (sym at ∙ h))
      (elim (IsOwned-cases own) [
        | inl z ↦ let f = round_free s.locked z in inl (now ∙ f.0, word ∙ f.1, z)
        | inr o ↦
            let f = round_taken s.locked o in
            inr (λ h. spinning-ne (sym (now ∙ f.0) ∙ h), word ∙ f.1)
      ])
      own
Step-IsOwned {n} {s} (pick i {q = q} {l = l} lt at (attempt word now)) own =
    settle n s i lt q l (λ h. outside-ne (sym at ∙ h))
      (elim (IsOwned-cases own) [
        | inl z ↦ let f = try_free s.locked z in inl (now ∙ f.0, word ∙ f.1, z)
        | inr o ↦
            let f = try_taken s.locked o in inr (λ h. outside-ne (sym (now ∙ f.0) ∙ h), word ∙ f.1)
      ])
      own
Step-IsOwned {n} {s} (pick i {l = l} lt at (release word)) own =
    subst (λ (x : ℕ). IsOwned n (record { locked = x; pc = update s.pc i outside })) (sym word)
      (gives n s i lt at own)

pub Reach-IsOwned : {n : ℕ} {s : System} → Reach n init s → IsOwned n s
Reach-IsOwned here = free refl (λ i. outside-ne)
Reach-IsOwned (next r st) = Step-IsOwned st (Reach-IsOwned r)

-- In every state that `n` threads reach, in whichever order they go, at most one of them holds the lock, and the
-- lock is taken exactly if one does.
pub mutual_exclusion :
    (n : ℕ) (s : System)
    → Reach n init s
    → ((i j : ℕ) → s.pc i ≡ holding → s.pc j ≡ holding → i ≡ j)
      × ((s.locked ≢ 0) ↔ ((i : ℕ) × (i < n) × (s.pc i ≡ holding)))
mutual_exclusion n s r = owned (Reach-IsOwned r)
  where
    owned :
        IsOwned n s
        → ((i j : ℕ) → s.pc i ≡ holding → s.pc j ≡ holding → i ≡ j)
          × ((s.locked ≢ 0) ↔ ((i : ℕ) × (i < n) × (s.pc i ≡ holding)))
    owned (free z none) =
        (λ i j h k. absurd (none i h), (λ h. absurd (h z), λ h. absurd (none h.0 h.2)))
    owned (taken k k_lt one holds only) =
        (λ i j h g. only i h ∙ sym (only j g), (λ h. (k, k_lt, holds), λ h. omega (arith, one)))
