-- ===== src/Printf.antt =====
-- The formatter of libs/libc/src/printf.c. Addresses are counted from `buf`, and `w` is the number of
-- values of `unsigned long`: 2 ^ 32 on x86, 2 ^ 64 on x86_64.
pub mod Text
pub mod Output
pub mod Decimal
pub mod RoundTrip
mod Tests
use aerogel.Common.{
  ℕ, zero, suc, ◌+◌, ◌-◌, ◌*◌, ◌/◌, ◌%◌, Bool, true, false, ◌||◌, ◌==◌, ltb, leb, if◌then◌else◌,
  Option, none, some, List, [], ◌∷◌,
}
use aerogel.Common.Array.{Array, update}
use aerogel.Libc.{Memory}

-- What `va_arg` reads: a word for the numbers, characters and pointers, or a string.
pub data Arg : Type 0 where
  word : ℕ → Arg
  str : List ℕ → Arg

-- the buffer, and `cur` as an offset in it
pub record Out : Type 0 where
  pub buf : Memory
  pub cur : ℕ

-- `*buf < end`, where `end` is `buf + size - 1`, is `cur + 1 < size`: `buf` is not NULL, so that `end` does not
-- wrap, and not so near to the end of memory that it does there.
pub emit : ℕ → ℕ → Out → Out
emit size c o = record {
  buf = if ltb (o.cur + 1) size then update o.buf o.cur c else o.buf;
  cur = o.cur + 1;
}

pub emit_str : ℕ → List ℕ → Out → Out
emit_str size [] o = o
emit_str size (c ∷ s) o = emit_str size s (emit size c o)

-- `digits[d]`
pub digit : Bool → ℕ → ℕ
digit upper d = if ltb d 10 then 48 + d else if upper then 55 + d else 87 + d

-- The array `tmp`, from its first entry on; `none` if it would take more than `f` entries.
pub digits_rev : ℕ → (base : ℕ) → Bool → ℕ → Option (List ℕ)
unfolding digit
digits_rev zero base upper val = if val == 0 then some [] else none
digits_rev (suc f) base upper val =
    let rest = digits_rev f base upper (val / base) in
    if val == 0
    then some []
    else elim rest [ none ↦ none | some ds ↦ some (digit upper (val % base) ∷ ds) ]

-- `while (len--) emit(buf, end, tmp[len]);`
pub emit_back : ℕ → List ℕ → Out → Out
emit_back size [] o = o
emit_back size (c ∷ s) o = emit size c (emit_back size s o)

abbrev pub tmp_size : ℕ
tmp_size = 32

pub emit_uint : (size val base : ℕ) → Bool → Out → Option Out
emit_uint size val base upper o =
    if val == 0 then some (emit size b'0' o) else elim (digits_rev tmp_size base upper val) [
      | none ↦ none
      | some tmp ↦ some (emit_back size tmp o)
    ]

-- `va_arg` of a word and of a string; `none` if the next argument is no such thing.
abbrev pub with_word {ℓ} : {A : Type ℓ} → List Arg → (ℕ → List Arg → Option A) → Option A
with_word [] k = none
with_word (word v ∷ args) k = k v args
with_word (str s ∷ args) k = none

abbrev pub with_str {ℓ} : {A : Type ℓ} → List Arg → (List ℕ → List Arg → Option A) → Option A
with_str [] k = none
with_str (word v ∷ args) k = none
with_str (str s ∷ args) k = k s args

-- what a step returns beside the arguments that are left
abbrev pub with_rest {ℓ κ} : {A : Type ℓ} {B : Type κ} → Option A → B → Option (A × B)
with_rest none args = none
with_rest (some o) args = some (o, args)

-- `case 'd'`: the sign, and then the magnitude
pub emit_int : (w size v : ℕ) → Out → Option Out
emit_int w size v o =
    if leb (w / 2) v
    then emit_uint size (w - v) 10 false (emit size b'-' o)
    else emit_uint size v 10 false o

-- One conversion, by the character after `%`. `none`: the arguments do not fit the format.
pub convert : (w size k : ℕ) → List Arg → Out → Option (Out × List Arg)
convert w size k args o =
    if k == b'c'
    then with_word args (λ v rest. some (emit size (v % 256) o, rest))
    else if k == b's'
    then with_str args (λ s rest. some (emit_str size s o, rest))
    else if k == b'd'
    then with_word args (λ v rest. with_rest (emit_int w size v o) rest)
    else if k == b'u'
    then with_word args (λ v rest. with_rest (emit_uint size v 10 false o) rest)
    else if k == b'x'
    then with_word args (λ v rest. with_rest (emit_uint size v 16 false o) rest)
    else if k == b'X'
    then with_word args (λ v rest. with_rest (emit_uint size v 16 true o) rest)
    else if k == b'p'
    then with_word args
        (λ v rest. with_rest (emit_uint size v 16 false (emit_str size (b'0' ∷ b'x' ∷ []) o)) rest)
    else if k == b'%'
    then some (emit size b'%' o, args)
    else some (emit size b'?' o, args)

-- The loop over the format, which holds its characters before the NUL. At a `%` in the last place the
-- C code reads past the NUL, and so `none`.
pub format : (w size : ℕ) → List ℕ → List Arg → Out → Option Out
format w size [] args o = some o
format w size (c ∷ []) args o = if c == b'%' then none else some (emit size c o)
format w size (c ∷ k ∷ fmt) args o = elim (c == b'%') [
  | true ↦ elim (convert w size k args o) [
    | none ↦ none
    | some (o', args') ↦ format w size fmt args' o'
  ]
  | false ↦ format w size (k ∷ fmt) args (emit size c o)
]

-- The buffer after the call and the result, before its conversion to `int`.
pub vsnprintf : (w size : ℕ) → List ℕ → List Arg → Memory → Option (Memory × ℕ)
vsnprintf w size fmt args m = elim (format w size fmt args (record { buf = m; cur = 0 })) [
  | none ↦ none
  | some o ↦ some (if ltb 0 size then update o.buf o.cur 0 else o.buf, o.cur)
]
