-- ===== src/Shell/Skips.antt =====
-- The loops over spaces and over a word, of `parse_args` of userspace/shell/shell.c.
use aerogel.Common.{
  ℕ, zero, suc, ◌+◌, ◌<◌, ◌≡◌, refl, sym, ap, ◌∙◌, subst, arith, true, false, ◌&&◌, ◌==◌, ◌!=◌,
  if◌then◌else◌, Bool-cases, inl, inr, List, [], ◌∷◌, Option, some, length,
}
use aerogel.Common.Array.{Array}
use aerogel.Libc.Strings.{IsString}
use aerogel.Shell.{skip_spaces, skip_word}
use aerogel.Shell.Words.{
  drop_spaces, word, behind, drop_space, drop_char, word_space, word_char, behind_space,
  behind_char,
}

skip_spaces_step :
    (f : ℕ) (m : Array ℕ) (p : ℕ)
    → skip_spaces (suc f) m p
      ≡ (let rest = skip_spaces f m (p + 1) in if m p == b' ' then rest else some p)
unfolding skip_spaces
skip_spaces_step f m p = refl

abbrev pub Skipped : (m : Array ℕ) (p : ℕ) (s : List ℕ) → Option ℕ → Type 0
Skipped m p s r =
    (q : ℕ) × (r ≡ some q)
    × (q + length (drop_spaces s) ≡ p + length s)
    × IsString m q (drop_spaces s)

pub skip_spaces_lem :
    (f : ℕ) (m : Array ℕ) (p : ℕ) (s : List ℕ)
    → IsString m p s
    → length s < f
    → Skipped m p s (skip_spaces f m p)
skip_spaces_lem zero m p s h enough = absurd (omega arith)
skip_spaces_lem (suc f) m p [] h enough = (p, skip_spaces_step f m p ∙ rw h refl, refl, h)
skip_spaces_lem (suc f) m p (c ∷ s) h enough = elim (Bool-cases (c == b' ')) [
  | inl e ↦
      let (q, there, place, str) = skip_spaces_lem f m (p + 1) s h.2 (omega arith) in
      (
        q,
        skip_spaces_step f m p ∙ rw (h.0, e) there,
        ap (λ x. q + length x) (drop_space c s e) ∙ omega (arith, place),
        subst (IsString m q) (sym (drop_space c s e)) str,
      )
  | inr e ↦ (
    p,
    skip_spaces_step f m p ∙ rw (h.0, e) refl,
    ap (λ x. p + length x) (drop_char c s e),
    subst (IsString m p) (sym (drop_char c s e)) h,
  )
]

skip_word_step :
    (f : ℕ) (m : Array ℕ) (p : ℕ)
    → skip_word (suc f) m p
      ≡ (let rest = skip_word f m (p + 1) in if (m p != 0) && (m p != b' ') then rest else some p)
unfolding skip_word
skip_word_step f m p = refl

pub skip_word_lem :
    (f : ℕ) (m : Array ℕ) (p : ℕ) (s : List ℕ)
    → IsString m p s
    → length s < f
    → (skip_word f m p ≡ some (p + length (word s)))
      × IsString m (p + length (word s)) (behind s)
      × (length (word s) + length (behind s) ≡ length s)
skip_word_lem zero m p s h enough = absurd (omega arith)
skip_word_lem (suc f) m p [] h enough =
    let here : p ≡ p + 0 = omega arith in
    (skip_word_step f m p ∙ rw h (ap some here), subst (λ x. IsString m x []) here h, refl)
skip_word_lem (suc f) m p (c ∷ s) h enough = elim (Bool-cases (c == b' ')) [
  | inl e ↦
      let test : ((m p != 0) && (m p != b' ')) ≡ false = ground (arith, h.0, e) in
      let here : p ≡ p + length (word (c ∷ s)) = omega (arith, ap length (word_space c s e)) in
      (
        skip_word_step f m p ∙ rw test (ap some here),
        subst (λ x. IsString m x (behind (c ∷ s))) here
            (subst (IsString m p) (sym (behind_space c s e)) h),
        omega (arith, ap length (word_space c s e), ap length (behind_space c s e)),
      )
  | inr e ↦
      let (there, str, total) = skip_word_lem f m (p + 1) s h.2 (omega arith) in
      let test : ((m p != 0) && (m p != b' ')) ≡ true = ground (arith, h.0, h.1, e) in
      let here : p + 1 + length (word s) ≡ p + length (word (c ∷ s)) =
        omega (arith, ap length (word_char c s e)) in
      (
        skip_word_step f m p ∙ rw test there ∙ ap some here,
        subst (λ x. IsString m x (behind (c ∷ s))) here
            (subst (IsString m (p + 1 + length (word s))) (sym (behind_char c s e)) str),
        omega (arith, total, ap length (word_char c s e), ap length (behind_char c s e)),
      )
]
