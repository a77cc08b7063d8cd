-- ===== src/Printf/Output.antt =====
-- What `vsnprintf` leaves in the buffer and what it returns.
use aerogel.Common.{
  ℕ, suc, ◌+◌, ◌-◌, ◌%◌, Bool, true, false, ◌&&◌, ◌==◌, ltb, leb, if◌then◌else◌, Option, ◌<◌, none,
  some, List, [], ◌∷◌, ◌≡◌, refl, sym, ap, ◌∙◌, arith, Bool-cases, inl, inr, length, get_or, ==_iff,
}
use aerogel.Common.Array.{update}
use aerogel.Libc.{Memory}
use aerogel.Printf.{
  Arg, word, str, Out, emit, emit_str, emit_uint, with_word, convert, format, vsnprintf,
}
use aerogel.Printf.Text.{
  uint_text, prefixed, int_text, convert_text, render, emit_text, emit_text_rest, emit_one,
  emit_uint_lem, emit_int_lem, with_word_lem, with_str_lem, emit_text-prefixed,
}

ladder :
    (size : ℕ) (o : Out) (b : Bool) (x y : Option (List ℕ × List Arg))
    {u v : Option (Out × List Arg)}
    → u ≡ emit_text_rest size x o
    → v ≡ emit_text_rest size y o
    → (if b then u else v) ≡ emit_text_rest size (if b then x else y) o
ladder size o true x y p q = p
ladder size o false x y p q = q

emit_char :
    (size c : ℕ) (o : Out) (args : List Arg)
    → some (emit size c o, args) ≡ emit_text_rest size (some (c ∷ [], args)) o
emit_char size c o args = ap (λ x. some (x, args)) (sym (emit_one size c o))

convert_char :
    (size : ℕ) (args : List Arg) (o : Out)
    → with_word args (λ v rest. some (emit size (v % 256) o, rest))
      ≡ emit_text_rest size (with_word args (λ v rest. some ((v % 256) ∷ [], rest))) o
convert_char size [] o = refl
convert_char size (str s ∷ args) o = refl
convert_char size (word v ∷ args) o = emit_char size (v % 256) o args

emit_pointer :
    (size v : ℕ) (o : Out)
    → emit_uint size v 16 false (emit_str size (b'0' ∷ b'x' ∷ []) o)
      ≡ emit_text size (prefixed (b'0' ∷ b'x' ∷ []) (uint_text 16 false v)) o
emit_pointer size v o =
    emit_uint_lem size v 16 false _
    ∙ sym (emit_text-prefixed size (b'0' ∷ b'x' ∷ []) (uint_text 16 false v) o)

-- Each conversion emits its text and leaves the same arguments.
convert_lem :
    (w size k : ℕ) (args : List Arg) (o : Out)
    → convert w size k args o ≡ emit_text_rest size (convert_text w k args) o
unfolding convert convert_text
convert_lem w size k args o = ladder size o (k == b'c') _ _ (convert_char size args o) (
    ladder size o (k == b's') _ _ (with_str_lem size args o) (
      ladder size o (k == b'd') _ _
        (with_word_lem size args o _ (int_text w) (λ v. emit_int_lem w size v o))
        (ladder size o (k == b'u') _ _
          (with_word_lem size args o _ (uint_text 10 false) (λ v. emit_uint_lem size v 10 false o))
          (ladder size o (k == b'x') _ _
            (with_word_lem size args o _ (uint_text 16 false)
              (λ v. emit_uint_lem size v 16 false o))
            (ladder size o (k == b'X') _ _
              (with_word_lem size args o _ (uint_text 16 true)
                (λ v. emit_uint_lem size v 16 true o))
              (ladder size o (k == b'p') _ _
                (with_word_lem size args o _
                  (λ v. prefixed (b'0' ∷ b'x' ∷ []) (uint_text 16 false v))
                  (λ v. emit_pointer size v o))
                (ladder size o (k == b'%') _ _ (emit_char size b'%' o args)
                  (emit_char size b'?' o args))))))))

-- The formatter emits the text of its format, character by character.
format_lem :
    (w size : ℕ) (fmt : List ℕ) (args : List Arg) (o : Out)
    → format w size fmt args o ≡ emit_text size (render w fmt args) o
unfolding format render
format_lem w size [] args o = unfold emit_str in refl
format_lem w size (c ∷ []) args o = last (c == b'%')
  where
    last :
        (b : Bool)
        → (if b then none else some (emit size c o))
          ≡ emit_text size (if b then none else some (c ∷ [])) o
    last true = refl
    last false = ap some (sym (emit_one size c o))
format_lem w size (c ∷ k ∷ fmt) args o =
    step (c == b'%') (convert w size k args o) (convert_text w k args) (convert_lem w size k args o)
      (λ args' o'. format_lem w size fmt args' o')
      (format_lem w size (k ∷ fmt) args (emit size c o))
  where
    step :
        (b : Bool) (r : Option (Out × List Arg)) (t : Option (List ℕ × List Arg))
        → r ≡ emit_text_rest size t o
        → ((args' : List Arg) (o' : Out)
            → format w size fmt args' o' ≡ emit_text size (render w fmt args') o')
        → format w size (k ∷ fmt) args (emit size c o)
          ≡ emit_text size (render w (k ∷ fmt) args) (emit size c o)
        → (elim b [
          | true ↦ elim r [ none ↦ none | some (o', args') ↦ format w size fmt args' o' ]
          | false ↦ format w size (k ∷ fmt) args (emit size c o)
        ])
          ≡ emit_text size
              (elim b [
                | true ↦ elim t [ none ↦ none | some (t, args') ↦ prefixed t (render w fmt args') ]
                | false ↦ prefixed (c ∷ []) (render w (k ∷ fmt) args)
              ])
              o
    step true r none e ih plain = rw e
    step true r (some (t, args')) e ih plain =
        rw (e, emit_text-prefixed size t (render w fmt args') o) (ih args' (emit_str size t o))
    step false r t e ih plain =
        rw (emit_text-prefixed size (c ∷ []) (render w (k ∷ fmt) args) o, emit_one) plain

get_or_next :
    (c : ℕ) (s : List ℕ) (d j : ℕ) → d < j → get_or (c ∷ s) (j - d) 0 ≡ get_or s (j - (d + 1)) 0
get_or_next c s d j h = let e : j - d ≡ suc (j - (d + 1)) = omega arith in rw e

get_or_here : (c : ℕ) (s : List ℕ) (d j : ℕ) → d ≡ j → get_or (c ∷ s) (j - d) 0 ≡ c
get_or_here c s d j h = let e : j - d ≡ 0 = omega arith in rw e

-- Emitting writes the characters that lie before the last place of the buffer, and counts them all.
emit_str_lem :
    (size : ℕ) (s : List ℕ) (o : Out)
    → ((emit_str size s o).cur ≡ o.cur + length s)
      × ((j : ℕ)
          → (emit_str size s o).buf j ≡ (
              if leb o.cur j && ltb j (o.cur + length s) && ltb (j + 1) size
              then get_or s (j - o.cur) 0
              else o.buf j))
unfolding emit_str emit
emit_str_lem size [] o = (omega arith, λ j. ground arith)
emit_str_lem size (c ∷ s) o =
    let ih = emit_str_lem size s (emit size c o) in
    (
      omega (arith, ih.0),
      λ j. elim (Bool-cases (ltb o.cur j)) [
        | inl after ↦ ground (arith, ih.1 j, get_or_next c s o.cur j (ground arith))
        | inr before ↦ elim (Bool-cases (o.cur == j)) [
          | inl e ↦
              ground (
                arith,
                ih.1 j,
                (==_iff o.cur j).0 e,
                get_or_here c s o.cur j ((==_iff o.cur j).0 e),
              )
          | inr ne ↦ ground (arith, ih.1 j)
        ]
      ],
    )

-- What a call with the text `t` leaves in the buffer and returns.
pub record Printed (size : ℕ) (t : List ℕ) (m m' : Memory) (result : ℕ) : Type 0 where
  pub returns : result ≡ length t
  pub bytes :
      (j : ℕ)
      → m' j ≡ (
          if ltb 0 size && (j == length t)
          then 0
          else if ltb j (length t) && ltb (j + 1) size
          then get_or t j 0
          else m j)

-- Where the format renders to a text, `vsnprintf` returns the length of the text, writes those of its
-- characters that lie before the last place of the buffer, and writes the terminator at the index of
-- the length, also where that lies outside a buffer of nonzero size.
pub vsnprintf_lem :
    (w size : ℕ) (fmt : List ℕ) (args : List Arg) (m : Memory) {t : List ℕ}
    → render w fmt args ≡ some t
    → (m' : Memory) × (result : ℕ) × (vsnprintf w size fmt args m ≡ some (m', result))
      × Printed size t m m' result
unfolding vsnprintf
vsnprintf_lem w size fmt args m {t} e =
    let o : Out = emit_str size t (record { buf = m; cur = 0 }) in
    let out = emit_str_lem size t (record { buf = m; cur = 0 }) in
    (
      if ltb 0 size then update o.buf o.cur 0 else o.buf,
      o.cur,
      rw (ran, vsnprintf),
      record {
        returns = omega (arith, out.0);
        bytes = λ j. ground (arith, out.0, out.1 j, at_zero j);
      },
    )
  where
    ran :
        format w size fmt args (record { buf = m; cur = 0 })
        ≡ some (emit_str size t (record { buf = m; cur = 0 }))
    ran = format_lem w size fmt args _ ∙ ap (λ r. emit_text size r (record { buf = m; cur = 0 })) e

    at_zero : (j : ℕ) → get_or t (j - 0) 0 ≡ get_or t j 0
    at_zero j = let e : j - 0 ≡ j = omega arith in rw e

-- Where the format does not render there is no result.
pub vsnprintf_fails :
    (w size : ℕ) (fmt : List ℕ) (args : List Arg) (m : Memory)
    → render w fmt args ≡ none
    → vsnprintf w size fmt args m ≡ none
unfolding vsnprintf
vsnprintf_fails w size fmt args m e = rw (ran, vsnprintf)
  where
    ran : format w size fmt args (record { buf = m; cur = 0 }) ≡ none
    ran = format_lem w size fmt args _ ∙ ap (λ r. emit_text size r (record { buf = m; cur = 0 })) e
