-- ===== src/Shell/Words.antt =====
-- The arguments of userspace/shell/shell.c are the words of the line.
use aerogel.Common.{
  ℕ, ◌≡◌, refl, sym, ap, ap₂, ◌∙◌, true, false, ◌==◌, if◌then◌else◌, Bool-cases, inl, inr, List, [],
  ◌∷◌,
}

-- The words of a line: the runs of characters that are not spaces.
pub close : List ℕ → List (List ℕ) → List (List ℕ)
close [] ws = ws
close (c ∷ w) ws = (c ∷ w) ∷ ws

-- the word that the line starts with, and the others
pub cut_words : List ℕ → List ℕ × List (List ℕ)
unfolding close
cut_words [] = ([], [])
cut_words (c ∷ s) = let (w, ws) = cut_words s in if c == b' ' then ([], close w ws) else (c ∷ w, ws)

pub words : List ℕ → List (List ℕ)
unfolding cut_words
words s = close (cut_words s).0 (cut_words s).1

abbrev pub drop_spaces : List ℕ → List ℕ
drop_spaces [] = []
drop_spaces (c ∷ s) = if c == b' ' then drop_spaces s else c ∷ s

abbrev pub word : List ℕ → List ℕ
word [] = []
word (c ∷ s) = if c == b' ' then [] else c ∷ word s

abbrev pub behind : List ℕ → List ℕ
behind [] = []
behind (c ∷ s) = if c == b' ' then c ∷ s else behind s

pub words_nil : words [] ≡ []
unfolding words
words_nil = refl

pub drop_space : (c : ℕ) (s : List ℕ) → (c == b' ') ≡ true → drop_spaces (c ∷ s) ≡ drop_spaces s
drop_space c s e = rw e refl

pub drop_char : (c : ℕ) (s : List ℕ) → (c == b' ') ≡ false → drop_spaces (c ∷ s) ≡ c ∷ s
drop_char c s e = rw e refl

pub word_space : (c : ℕ) (s : List ℕ) → (c == b' ') ≡ true → word (c ∷ s) ≡ []
word_space c s e = rw e refl

pub word_char : (c : ℕ) (s : List ℕ) → (c == b' ') ≡ false → word (c ∷ s) ≡ c ∷ word s
word_char c s e = rw e refl

pub behind_space : (c : ℕ) (s : List ℕ) → (c == b' ') ≡ true → behind (c ∷ s) ≡ c ∷ s
behind_space c s e = rw e refl

pub behind_char : (c : ℕ) (s : List ℕ) → (c == b' ') ≡ false → behind (c ∷ s) ≡ behind s
behind_char c s e = rw e refl

cut_space : (c : ℕ) (s : List ℕ) → (c == b' ') ≡ true → cut_words (c ∷ s) ≡ ([], words s)
unfolding words
cut_space c s e = rw e refl

cut_char :
    (c : ℕ) (s : List ℕ)
    → (c == b' ') ≡ false
    → cut_words (c ∷ s) ≡ (c ∷ (cut_words s).0, (cut_words s).1)
unfolding cut_words
cut_char c s e = rw e refl

-- A space before the line makes no difference.
pub words_space : (c : ℕ) (s : List ℕ) → (c == b' ') ≡ true → words (c ∷ s) ≡ words s
unfolding words
words_space c s e = ap (λ x. close x.0 x.1) (cut_space c s e)

pub words-drop : (s : List ℕ) → words (drop_spaces s) ≡ words s
words-drop [] = refl
words-drop (c ∷ s) = elim (Bool-cases (c == b' ')) [
  | inl e ↦ ap words (drop_space c s e) ∙ words-drop s ∙ sym (words_space c s e)
  | inr e ↦ ap words (drop_char c s e)
]

cut_words-word : (s : List ℕ) → cut_words s ≡ (word s, words (behind s))
unfolding words
cut_words-word [] = refl
cut_words-word (c ∷ s) = elim (Bool-cases (c == b' ')) [
  | inl e ↦
      cut_space c s e
      ∙ ap₂ (λ x y. (x, y)) (sym (word_space c s e))
          (sym (words_space c s e) ∙ ap words (sym (behind_space c s e)))
  | inr e ↦
      cut_char c s e
      ∙ ap (λ x. (c ∷ x.0, x.1)) (cut_words-word s)
      ∙ ap₂ (λ x y. (x, words y)) (sym (word_char c s e)) (sym (behind_char c s e))
]

-- A line that does not start with a space starts with its first word.
pub words-word :
    (c : ℕ) (s : List ℕ)
    → (c == b' ') ≡ false
    → words (c ∷ s) ≡ word (c ∷ s) ∷ words (behind (c ∷ s))
unfolding words
words-word c s e =
    ap (λ x. close x.0 x.1)
      (cut_words-word (c ∷ s) ∙ ap (λ x. (x, words (behind (c ∷ s)))) (word_char c s e))
    ∙ ap (λ x. x ∷ words (behind (c ∷ s))) (sym (word_char c s e))
