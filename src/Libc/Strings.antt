-- ===== src/Libc/Strings.antt =====
-- `strlen`, `strcmp`, `strncmp`, `strchr`, `strcpy` and `strcat` of libs/libc/src/string.c.
use aerogel.Common.{
  ℕ, zero, suc, ◌+◌, ◌<◌, ◌≡◌, ◌≢◌, refl, ap₂, ◌⊎◌, inl, inr, ◌&&◌, ◌==◌, ◌!=◌, if◌then◌else◌,
  Bool-cases, arith, ◌↔◌, Option, none, some, List, [], ◌∷◌, ◌++◌, length, length-append,
}
use aerogel.Common.Array.{update}
use aerogel.Common.Int.{pos}
use aerogel.Libc.{Memory, strlen, strcmp, strncmp, strcpy, strcat, strchr}

-- From `p` on the memory holds the characters `s`, none of them NUL, and then a NUL.
abbrev pub IsString : Memory → ℕ → List ℕ → Type 0
IsString m p [] = m p ≡ 0
IsString m p (c ∷ s) = (m p ≡ c) × (c ≢ 0) × IsString m (p + 1) s

-- With fuel above its length `strlen` returns the length of the string.
pub strlen_lem :
    (f : ℕ) (m : Memory) (p n : ℕ) (s : List ℕ)
    → IsString m p s
    → length s < f
    → strlen f m p n ≡ some (n + length s)
unfolding strlen
strlen_lem zero m p n s h lt = absurd (omega arith)
strlen_lem (suc f) m p n [] h lt = ground arith
strlen_lem (suc f) m p n (c ∷ s) h lt =
    ground (arith, strlen_lem f m (p + 1) (n + 1) s h.2 (omega arith))

-- With fuel above the first string's length `strcmp` returns 0 exactly if the strings are equal.
pub strcmp_iff :
    (f : ℕ) (m : Memory) (a b : ℕ) (s t : List ℕ)
    → IsString m a s
    → IsString m b t
    → length s < f
    → (strcmp f m a b ≡ some (pos 0)) ↔ (s ≡ t)
unfolding strcmp
strcmp_iff zero m a b s t hs ht lt = absurd (omega arith)
strcmp_iff (suc f) m a b [] [] hs ht lt = (λ _. refl, λ _. ground arith)
strcmp_iff (suc f) m a b [] (y ∷ t) hs ht lt = (λ h. absurd (ground arith), λ h. cc)
strcmp_iff (suc f) m a b (x ∷ s) [] hs ht lt = (λ h. absurd (ground arith), λ h. cc)
strcmp_iff (suc f) m a b (x ∷ s) (y ∷ t) hs ht lt =
    let ih = strcmp_iff f m (a + 1) (b + 1) s t hs.2 ht.2 (omega arith) in
    elim (Bool-cases ((m a != 0) && (m a == m b))) [
      | inl e ↦ rw e (λ h. ap₂ ◌∷◌ (ground arith) (ih.0 h), λ h. ih.1 (tails h))
      | inr e ↦ rw e (λ h. absurd (ground arith), λ h. absurd (ground (arith, heads h)))
    ]
  where
    heads : {x y : ℕ} {s t : List ℕ} → x ∷ s ≡ y ∷ t → x ≡ y
    heads h = cc

    tails : {x y : ℕ} {s t : List ℕ} → x ∷ s ≡ y ∷ t → s ≡ t
    tails h = cc

-- `take` of both strings
abbrev pub first : ℕ → List ℕ → List ℕ
first zero s = []
first (suc n) [] = []
first (suc n) (c ∷ s) = c ∷ first n s

-- `strncmp` returns 0 exactly if the strings agree in their first `n` characters.
pub strncmp_iff :
    (m : Memory) (a b n : ℕ) (s t : List ℕ)
    → IsString m a s
    → IsString m b t
    → (strncmp m a b n ≡ pos 0) ↔ (first n s ≡ first n t)
unfolding strncmp
strncmp_iff m a b zero s t hs ht = (λ _. refl, λ _. refl)
strncmp_iff m a b (suc n) [] [] hs ht = (λ _. refl, λ _. ground arith)
strncmp_iff m a b (suc n) [] (y ∷ t) hs ht = (λ h. absurd (ground arith), λ h. cc)
strncmp_iff m a b (suc n) (x ∷ s) [] hs ht = (λ h. absurd (ground arith), λ h. cc)
strncmp_iff m a b (suc n) (x ∷ s) (y ∷ t) hs ht =
    let ih = strncmp_iff m (a + 1) (b + 1) n s t hs.2 ht.2 in
    elim (Bool-cases ((m a != 0) && (m a == m b))) [
      | inl e ↦ rw e (λ h. ap₂ ◌∷◌ (ground arith) (ih.0 h), λ h. ih.1 (tails h))
      | inr e ↦ rw e (λ h. absurd (ground arith), λ h. absurd (ground (arith, heads h)))
    ]
  where
    heads : {x y : ℕ} {s t : List ℕ} → x ∷ s ≡ y ∷ t → x ≡ y
    heads h = cc

    tails : {x y : ℕ} {s t : List ℕ} → x ∷ s ≡ y ∷ t → s ≡ t
    tails h = cc

-- The place of the first `c` in `s`, counted from `p`.
abbrev pub position : ℕ → ℕ → List ℕ → Option ℕ
position p c [] = none
position p c (x ∷ s) = if x == c then some p else position (p + 1) c s

-- With fuel above its length `strchr` returns the address of the first `c` of the string, or NULL if
-- there is none; for NUL it returns the address of the terminator.
pub strchr_lem :
    (f : ℕ) (m : Memory) (p c : ℕ) (s : List ℕ)
    → IsString m p s
    → length s < f
    → strchr f m p c ≡ some (if c == 0 then some (p + length s) else position p c s)
unfolding strchr
strchr_lem zero m p c s h lt = absurd (omega arith)
strchr_lem (suc f) m p c [] h lt = ground arith
strchr_lem (suc f) m p c (x ∷ s) h lt = ground (arith, strchr_lem f m (p + 1) c s h.2 (omega arith))

pub IsString-update :
    (m : Memory) (p a v : ℕ) (s : List ℕ)
    → IsString m p s
    → (a < p) ⊎ (p + length s < a)
    → IsString (update m a v) p s
IsString-update m p a v [] h out = ground arith
IsString-update m p a v (c ∷ s) h out =
    (ground arith, h.1, IsString-update m (p + 1) a v s h.2 (omega arith))

-- The state after a copy of the string `s` to `d`.
pub record Copied (m : Memory) (d : ℕ) (s : List ℕ) (t : Memory) : Type 0 where
  pub copy : IsString t d s
  pub frame : (j : ℕ) → (j < d) ⊎ (d + length s < j) → t j ≡ m j

-- Where the target lies clear of the source `strcpy` copies the string with its terminator and
-- changes nothing else.
pub strcpy_lem :
    (f : ℕ) (m : Memory) (d p : ℕ) (s : List ℕ)
    → IsString m p s
    → (d + length s < p) ⊎ (p + length s < d)
    → length s < f
    → (t : Memory) × (strcpy f m d p ≡ some t) × Copied m d s t
unfolding strcpy
strcpy_lem zero m d p s h apart lt = absurd (omega arith)
strcpy_lem (suc f) m d p [] h apart lt =
    (update m d (m p), ground arith, record { copy = ground arith; frame = λ j out. ground arith })
strcpy_lem (suc f) m d p (c ∷ s) h apart lt =
    let m' : Memory = update m d (m p) in
    let (t, e, r) =
      strcpy_lem f m' (d + 1) (p + 1) s (IsString-update m (p + 1) d (m p) s h.2 (omega arith))
        (omega arith) (omega arith) in
    (
      t,
      ground (arith, e),
      record {
        copy = (ground (arith, r.frame d (inl (omega arith))), h.1, r.copy);
        frame = λ j out. ground (arith, r.frame j (omega arith));
      },
    )

-- Where the source lies clear of all that is written, `strcat` appends the string to the one at the
-- target and changes nothing else.
pub strcat_lem :
    (f : ℕ) (m : Memory) (d p : ℕ) (u s : List ℕ)
    → IsString m d u
    → IsString m p s
    → (d + (length u + length s) < p) ⊎ (p + length s < d)
    → length u + length s < f
    → (t : Memory) × (strcat f m d p ≡ some t) × Copied m d (u ++ s) t
unfolding strcat
strcat_lem zero m d p u s hu hs apart lt = absurd (omega arith)
strcat_lem (suc f) m d p [] s hu hs apart lt =
    let (t, e, r) = strcpy_lem (suc f) m d p s hs (omega arith) (omega arith) in
    (t, ground (arith, e), r)
strcat_lem (suc f) m d p (c ∷ u) s hu hs apart lt =
    let (t, e, r) = strcat_lem f m (d + 1) p u s hu.2 hs (omega arith) (omega arith) in
    (
      t,
      ground (arith, e),
      record {
        copy = (ground (arith, r.frame d (inl (omega arith))), hu.1, r.copy);
        frame = λ j out. r.frame j (omega (arith, length-append u s));
      },
    )
