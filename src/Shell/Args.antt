-- ===== src/Shell/Args.antt =====
-- The arguments that `parse_args` of userspace/shell/shell.c finds are the words of the line.
use aerogel.Common.{
  ℕ, zero, suc, ◌+◌, ◌<◌, ◌≤◌, ◌≡◌, ◌≢◌, refl, sym, ap, ◌∙◌, subst, arith, false, ◌==◌, Bool-cases,
  inl, inr, ◌⊎◌, ==_ne, List, [], ◌∷◌, Option, none, some, length, take,
}
use aerogel.Common.Array.{Array, update, update_self, update_ne}
use aerogel.Libc.Strings.{IsString, IsString-update}
use aerogel.Shell.{max_args, skip_word, end_word, args_loop, parse_args}
use aerogel.Shell.Words.{
  words, words_nil, drop_spaces, word, behind, drop_space, drop_char, word_space, word_char,
  behind_space, behind_char, words-drop, words-word,
}
use aerogel.Shell.Skips.{skip_spaces_lem, skip_word_lem}

-- The arguments point to the strings `ws`, in their order.
abbrev pub Args : Array ℕ → List ℕ → List (List ℕ) → Type 0
Args m [] ws = ws ≡ []
Args m (a ∷ args) ws =
    (w : List ℕ) × (rest : List (List ℕ)) × (ws ≡ w ∷ rest) × IsString m a w × Args m args rest

IsString-frame :
    (m m' : Array ℕ) (p : ℕ) (s : List ℕ)
    → IsString m p s
    → ((j : ℕ) → p ≤ j → m' j ≡ m j)
    → IsString m' p s
IsString-frame m m' p [] h same = same p (omega arith) ∙ h
IsString-frame m m' p (c ∷ s) h same = (
  same p (omega arith) ∙ h.0,
  h.1,
  IsString-frame m m' (p + 1) s h.2 (λ j le. same j (omega arith)),
)

-- With a NUL behind it the word is a string.
IsString-word :
    (m m' : Array ℕ) (p : ℕ) (s : List ℕ)
    → IsString m p s
    → m' (p + length (word s)) ≡ 0
    → ((j : ℕ) → p ≤ j → j < p + length (word s) → m' j ≡ m j)
    → IsString m' p (word s)
IsString-word m m' p [] h ends same = ap m' (omega arith) ∙ ends
IsString-word m m' p (c ∷ s) h ends same = elim (Bool-cases (c == b' ')) [
  | inl e ↦
      let none : length (word (c ∷ s)) ≡ 0 = ap length (word_space c s e) in
      subst (IsString m' p) (sym (word_space c s e)) (ap m' (omega (arith, none)) ∙ ends)
  | inr e ↦
      let more : length (word (c ∷ s)) ≡ suc (length (word s)) = ap length (word_char c s e) in
      subst (IsString m' p) (sym (word_char c s e)) (
        same p (omega arith) (omega (arith, more)) ∙ h.0,
        h.1,
        IsString-word m m' (p + 1) s h.2 (ap m' (omega (arith, more)) ∙ ends)
            (λ j le lt. same j (omega arith) (omega (arith, more))),
      )
]

-- The word ends at a space or at the end of the line.
behind-cases : (s : List ℕ) → (behind s ≡ []) ⊎ ((t : List ℕ) × (behind s ≡ b' ' ∷ t))
behind-cases [] = inl refl
behind-cases (c ∷ s) = elim (Bool-cases (c == b' ')) [
  | inl e ↦
      let space : c ≡ b' ' = ground (arith, e) in
      inr (s, behind_space c s e ∙ ap (λ x. x ∷ s) space)
  | inr e ↦ elim (behind-cases s) [
    | inl ends ↦ inl (behind_char c s e ∙ ends)
    | inr (t, goes) ↦ inr (t, behind_char c s e ∙ goes)
  ]
]

-- The line does not start with a space.
abbrev StartsWord : List ℕ → Type 0
StartsWord [] = Unit
StartsWord (c ∷ s) = (c == b' ') ≡ false

drop_spaces-StartsWord : (s : List ℕ) → StartsWord (drop_spaces s)
drop_spaces-StartsWord [] = tt
drop_spaces-StartsWord (c ∷ s) = elim (Bool-cases (c == b' ')) [
  | inl e ↦ subst StartsWord (sym (drop_space c s e)) (drop_spaces-StartsWord s)
  | inr e ↦ subst StartsWord (sym (drop_char c s e)) e
]

length-drop_spaces : (s : List ℕ) → length (drop_spaces s) ≤ length s
length-drop_spaces [] = omega arith
length-drop_spaces (c ∷ s) = elim (Bool-cases (c == b' ')) [
  | inl e ↦ omega (arith, ap length (drop_space c s e), length-drop_spaces s)
  | inr e ↦ omega (arith, ap length (drop_char c s e))
]

-- What ending a word leaves: a NUL behind it, and the next word or the end of the line.
abbrev Ended : (m : Array ℕ) (q : ℕ) (t : List ℕ) → Option (Array ℕ × ℕ) → Type 0
Ended m q t r =
    (m' : Array ℕ) × (p' : ℕ) × (r ≡ some (m', p'))
    × (m' q ≡ 0)
    × IsString m' p' (drop_spaces t)
    × ((j : ℕ) → j < q → m' j ≡ m j)
    × (q ≤ p')

end_nul : (f : ℕ) (m : Array ℕ) (q : ℕ) → m q ≡ 0 → Ended m q [] (end_word f m q)
unfolding end_word
end_nul f m q null = rw null (m, q, refl, null, null, (λ j lt. refl), omega arith)

end_space :
    (f : ℕ) (m : Array ℕ) (q : ℕ) (t : List ℕ)
    → IsString m q (b' ' ∷ t)
    → length t < f
    → Ended m q (b' ' ∷ t) (end_word f m q)
unfolding end_word
end_space f m q t h enough =
    let (p', there, place, str) =
      skip_spaces_lem f (update m q 0) (q + 1) t
        (IsString-update m (q + 1) q 0 t h.2 (inl (omega arith))) enough in
    (
      update m q 0,
      p',
      rw h.0 (ap (λ o. elim o [ none ↦ none | some x ↦ some (update m q 0, x) ]) there),
      update_self m q 0,
      str,
      (λ j lt. update_ne m q j 0 (omega arith)),
      omega (arith, place, length-drop_spaces t),
    )

end_word_lem :
    (f : ℕ) (m : Array ℕ) (q : ℕ) (t : List ℕ)
    → IsString m q t
    → (t ≡ []) ⊎ ((t' : List ℕ) × (t ≡ b' ' ∷ t'))
    → length t < f
    → Ended m q t (end_word f m q)
end_word_lem f m q t h (inl e) enough =
    subst (λ x. Ended m q x (end_word f m q)) (sym e) (end_nul f m q (subst (IsString m q) e h))
end_word_lem f m q t h (inr (t', e)) enough =
    subst (λ x. Ended m q x (end_word f m q)) (sym e)
      (end_space f m q t' (subst (IsString m q) e h) (omega (arith, enough, ap length e)))

args_loop_step :
    (f n : ℕ) (m : Array ℕ) (p q p' : ℕ) (m' : Array ℕ)
    → m p ≢ 0
    → skip_word f m p ≡ some q
    → end_word f m q ≡ some (m', p')
    → args_loop f (suc n) m p
      ≡ elim (args_loop f n m' p') [ none ↦ none | some (args, m2) ↦ some (p ∷ args, m2) ]
unfolding args_loop
args_loop_step f n m p q p' m' ne e e' = rw (==_ne (m p) 0 ne, e, e') refl

abbrev add_arg : ℕ → Option (List ℕ × Array ℕ) → Option (List ℕ × Array ℕ)
add_arg p o = elim o [ none ↦ none | some (args, m2) ↦ some (p ∷ args, m2) ]

-- The loop finds the words of the line, `n` at most, and writes behind its start only.
abbrev Found : (m : Array ℕ) (p n : ℕ) (s : List ℕ) → Option (List ℕ × Array ℕ) → Type 0
Found m p n s r =
    (args : List ℕ) × (m' : Array ℕ) × (r ≡ some (args, m'))
    × Args m' args (take n (words s))
    × ((j : ℕ) → j ≤ p → m' j ≡ m j)

-- Behind the first word of `c ∷ s` the loop goes on as for a line that starts with the next word.
next_arg :
    (f n : ℕ) (m : Array ℕ) (p c : ℕ) (s : List ℕ)
    → IsString m p (c ∷ s)
    → StartsWord (c ∷ s)
    → length (c ∷ s) < f
    → ((m' : Array ℕ) (p' : ℕ)
        → IsString m' p' (drop_spaces (behind (c ∷ s)))
        → length (drop_spaces (behind (c ∷ s))) < f
        → Found m' p' n (drop_spaces (behind (c ∷ s))) (args_loop f n m' p'))
    → Found m p (suc n) (c ∷ s) (args_loop f (suc n) m p)
next_arg f n m p c s h starts enough go =
    let (there, str, total) = skip_word_lem f m p (c ∷ s) h enough in
    let (m', p', ended, null, str', frame, le) =
      end_word_lem f m (p + length (word (c ∷ s))) (behind (c ∷ s)) str (behind-cases (c ∷ s))
        (omega (arith, total, enough)) in
    let (args, m2, found, are, frame') =
      go m' p' str' (omega (arith, total, enough, length-drop_spaces (behind (c ∷ s)))) in
    let long : 0 < length (word (c ∷ s)) = omega (arith, ap length (word_char c s starts)) in
    (
      p ∷ args,
      m2,
      args_loop_step f n m p (p + length (word (c ∷ s))) p' m' (λ e. h.1 (sym h.0 ∙ e)) there ended
          ∙ ap (add_arg p) found,
      (
        word (c ∷ s),
        take n (words (drop_spaces (behind (c ∷ s)))),
        ap (take (suc n)) (words-word c s starts)
            ∙ ap (λ ws. word (c ∷ s) ∷ take n ws) (sym (words-drop (behind (c ∷ s)))),
        IsString-word m m2 p (c ∷ s) h (frame' (p + length (word (c ∷ s))) le ∙ null)
            (λ j a b. frame' j (omega (arith, b, le)) ∙ frame j b),
        are,
      ),
      λ j a. frame' j (omega (arith, a, le)) ∙ frame j (omega (arith, a, long)),
    )

args_loop_lem :
    (f n : ℕ) (m : Array ℕ) (p : ℕ) (s : List ℕ)
    → IsString m p s
    → StartsWord s
    → length s < f
    → Found m p n s (args_loop f n m p)
unfolding args_loop
args_loop_lem f zero m p s h starts enough = ([], m, refl, refl, λ j lt. refl)
args_loop_lem f (suc n) m p [] h starts enough =
    ([], m, rw h refl, ap (take (suc n)) words_nil, λ j lt. refl)
args_loop_lem f (suc n) m p (c ∷ s) h starts enough =
    next_arg f n m p c s h starts enough (λ m' p' str short.
      args_loop_lem f n m' p' (drop_spaces (behind (c ∷ s))) str
        (drop_spaces-StartsWord (behind (c ∷ s))) short)

-- With fuel above the length of the line `parse_args` ends, and the arguments are the first 16 words of
-- the line, each ended by a NUL.
pub parse_args_lem :
    (f : ℕ) (m : Array ℕ) (s : List ℕ)
    → IsString m 0 s
    → length s < f
    → (args : List ℕ) × (m' : Array ℕ) × (parse_args f m ≡ some (args, m'))
      × Args m' args (take max_args (words s))
unfolding parse_args
parse_args_lem f m s h enough =
    let (p, there, place, str) = skip_spaces_lem f m 0 s h enough in
    let (args, m', found, are, frame) =
      args_loop_lem f max_args m p (drop_spaces s) str (drop_spaces-StartsWord s)
        (omega (arith, enough, length-drop_spaces s)) in
    (
      args,
      m',
      ap (λ o. elim o [ none ↦ none | some q ↦ args_loop f max_args m q ]) there ∙ found,
      subst (λ ws. Args m' args (take max_args ws)) (words-drop s) are,
    )
