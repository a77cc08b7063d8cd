-- ===== src/Printf/Text.antt =====
-- What a format stands for, as a text without a buffer, and that printf.c emits that text.
use aerogel.Common.{
  ℕ, ◌-◌, ◌/◌, ◌%◌, Bool, true, false, ◌==◌, leb, if◌then◌else◌, Option, none, some, List, [], ◌∷◌,
  ◌++◌, ◌≡◌, refl, sym, ap, Bool-cases, inl, inr,
}
use aerogel.Printf.{
  Arg, word, str, Out, emit, emit_str, digits_rev, emit_back, tmp_size, emit_uint, with_word,
  with_str, with_rest, emit_int,
}

-- `tmp` read from its last entry to its first
abbrev pub backwards : List ℕ → List ℕ
backwards [] = []
backwards (c ∷ s) = backwards s ++ c ∷ []

-- the digits of a number
abbrev pub uint_text : ℕ → Bool → ℕ → Option (List ℕ)
uint_text base upper v =
    if v == 0
    then some (b'0' ∷ [])
    else elim (digits_rev tmp_size base upper v) [ none ↦ none | some tmp ↦ some (backwards tmp) ]

abbrev pub prefixed : List ℕ → Option (List ℕ) → Option (List ℕ)
prefixed s none = none
prefixed s (some t) = some (s ++ t)

abbrev pub int_text : ℕ → ℕ → Option (List ℕ)
int_text w v =
    if leb (w / 2) v
    then prefixed (b'-' ∷ []) (uint_text 10 false (w - v))
    else uint_text 10 false v

-- The text of one conversion, and the arguments that it leaves.
unfoldable pub convert_text : (w k : ℕ) → List Arg → Option (List ℕ × List Arg)
convert_text w k args =
    if k == b'c'
    then with_word args (λ v rest. some ((v % 256) ∷ [], rest))
    else if k == b's'
    then with_str args (λ s rest. some (s, rest))
    else if k == b'd'
    then with_word args (λ v rest. with_rest (int_text w v) rest)
    else if k == b'u'
    then with_word args (λ v rest. with_rest (uint_text 10 false v) rest)
    else if k == b'x'
    then with_word args (λ v rest. with_rest (uint_text 16 false v) rest)
    else if k == b'X'
    then with_word args (λ v rest. with_rest (uint_text 16 true v) rest)
    else if k == b'p'
    then with_word args
        (λ v rest. with_rest (prefixed (b'0' ∷ b'x' ∷ []) (uint_text 16 false v)) rest)
    else if k == b'%'
    then some (b'%' ∷ [], args)
    else some (b'?' ∷ [], args)

-- The whole text, or `none` where the format does not fit its arguments or ends in `%`.
unfoldable pub render : ℕ → List ℕ → List Arg → Option (List ℕ)
unfolding convert_text
render w [] args = some []
render w (c ∷ []) args = if c == b'%' then none else some (c ∷ [])
render w (c ∷ k ∷ fmt) args = elim (c == b'%') [
  | true ↦ elim (convert_text w k args) [
    | none ↦ none
    | some (t, args') ↦ prefixed t (render w fmt args')
  ]
  | false ↦ prefixed (c ∷ []) (render w (k ∷ fmt) args)
]

-- emission of a text that may be missing
abbrev pub emit_text : ℕ → Option (List ℕ) → Out → Option Out
emit_text size none o = none
emit_text size (some t) o = some (emit_str size t o)

abbrev pub emit_text_rest : ℕ → Option (List ℕ × List Arg) → Out → Option (Out × List Arg)
emit_text_rest size none o = none
emit_text_rest size (some (t, rest)) o = some (emit_str size t o, rest)

pub emit_str-append :
    (size : ℕ) (s t : List ℕ) (o : Out)
    → emit_str size (s ++ t) o ≡ emit_str size t (emit_str size s o)
unfolding emit_str
emit_str-append size [] t o = refl
emit_str-append size (c ∷ s) t o = emit_str-append size s t (emit size c o)

pub emit_text-prefixed :
    (size : ℕ) (s : List ℕ) (t : Option (List ℕ)) (o : Out)
    → emit_text size (prefixed s t) o ≡ emit_text size t (emit_str size s o)
emit_text-prefixed size s none o = refl
emit_text-prefixed size s (some t) o = ap some (emit_str-append size s t o)

pub emit_one : (size c : ℕ) (o : Out) → emit_str size (c ∷ []) o ≡ emit size c o
unfolding emit_str
emit_one size c o = refl

emit_back_lem :
    (size : ℕ) (s : List ℕ) (o : Out) → emit_back size s o ≡ emit_str size (backwards s) o
emit_back_lem size [] o = unfold emit_back emit_str in refl
emit_back_lem size (c ∷ s) o =
    rw (emit_str-append size (backwards s) (c ∷ []) o, emit_one, ← emit_back_lem size s o)
      (unfold emit_back in refl)

emit_digits :
    (size : ℕ) (o : Out) (d : Option (List ℕ))
    → (elim d [ none ↦ none | some tmp ↦ some (emit_back size tmp o) ])
      ≡ emit_text size (elim d [ none ↦ none | some tmp ↦ some (backwards tmp) ]) o
emit_digits size o none = refl
emit_digits size o (some tmp) = ap some (emit_back_lem size tmp o)

-- `emit_uint` emits the digits of its number.
pub emit_uint_lem :
    (size v base : ℕ) (upper : Bool) (o : Out)
    → emit_uint size v base upper o ≡ emit_text size (uint_text base upper v) o
unfolding emit_uint
emit_uint_lem size v base upper o = elim (Bool-cases (v == 0)) [
  | inl e ↦ rw e (ap some (sym (emit_one size b'0' o)))
  | inr e ↦ rw e (emit_digits size o (digits_rev tmp_size base upper v))
]

pub emit_int_lem : (w size v : ℕ) (o : Out) → emit_int w size v o ≡ emit_text size (int_text w v) o
unfolding emit_int
emit_int_lem w size v o = elim (Bool-cases (leb (w / 2) v)) [
  | inl e ↦ rw e (negative (uint_text 10 false (w - v)) (emit_uint_lem size (w - v) 10 false _))
  | inr e ↦ rw e (emit_uint_lem size v 10 false o)
]
  where
    negative :
        (t : Option (List ℕ)) {r : Option Out}
        → r ≡ emit_text size t (emit size b'-' o)
        → r ≡ emit_text size (prefixed (b'-' ∷ []) t) o
    negative t h = rw (emit_text-prefixed size (b'-' ∷ []) t o, emit_one) h

pub with_word_lem :
    (size : ℕ) (args : List Arg) (o : Out) (f : ℕ → Option Out) (g : ℕ → Option (List ℕ))
    → ((v : ℕ) → f v ≡ emit_text size (g v) o)
    → with_word args (λ v rest. with_rest (f v) rest)
      ≡ emit_text_rest size (with_word args (λ v rest. with_rest (g v) rest)) o
with_word_lem size [] o f g h = refl
with_word_lem size (str s ∷ args) o f g h = refl
with_word_lem size (word v ∷ args) o f g h = rw (h v) (rest (g v))
  where
    rest :
        (t : Option (List ℕ))
        → with_rest (emit_text size t o) args ≡ emit_text_rest size (with_rest t args) o
    rest none = refl
    rest (some t) = refl

pub with_str_lem :
    (size : ℕ) (args : List Arg) (o : Out)
    → with_str args (λ s rest. some (emit_str size s o, rest))
      ≡ emit_text_rest size (with_str args (λ s rest. some (s, rest))) o
with_str_lem size [] o = refl
with_str_lem size (word v ∷ args) o = refl
with_str_lem size (str s ∷ args) o = refl
