-- ===== src/Shell/Lines.antt =====
-- The line that `readline` of userspace/shell/shell.c reads.
use aerogel.Common.{
  ◌+◌, ℕ, ◌-◌, ◌<◌, ◌≤◌, ◌≡◌, ◌≢◌, refl, sym, ap, ◌∙◌, subst, arith, not, ◌&&◌, ◌==◌, ◌!=◌, ltb,
  if◌then◌else◌, Bool-cases, inl, inr, List, [], ◌∷◌, ◌++◌, Option, none, some, length,
}
use aerogel.Common.Array.{Array, update, update_self}
use aerogel.Libc.Strings.{IsString}
use aerogel.Keyboard.{KeyEvent}
use aerogel.Shell.{cmd_buf, Line, is_enter, edit, edit_loop, readline}

abbrev pub tail : List ℕ → List ℕ
tail [] = []
tail (c ∷ l) = l

-- The line as a stack of characters, the newest first.
abbrev pub key : (size : ℕ) → KeyEvent → List ℕ → List ℕ
key size e l =
    if not e.pressed
    then l
    else if (e.ascii == 0x08) && ltb 0 (length l)
    then tail l
    else if (e.ascii != 0) && ltb (length l) (size - 1)
    then e.ascii ∷ l
    else l

-- the line at the first key that ends it, and the events behind that key
abbrev pub keys : (size : ℕ) → List KeyEvent → List ℕ → Option (List ℕ × List KeyEvent)
keys size [] l = none
keys size (e ∷ events) l =
    let rest = keys size events (key size e l) in
    if e.pressed && is_enter e.ascii then some (l, events) else rest

-- The buffer holds the stack.
abbrev pub Holds : Array ℕ → List ℕ → Type 0
Holds m [] = Unit
Holds m (c ∷ l) = (m (length l) ≡ c) × (c ≢ 0) × Holds m l

Holds-update :
    (m : Array ℕ) (l : List ℕ) (i v : ℕ) → length l ≤ i → Holds m l → Holds (update m i v) l
Holds-update m [] i v le h = tt
Holds-update m (c ∷ l) i v le h =
    (ground (arith, h.0, le), h.1, Holds-update m l i v (omega arith) h.2)

-- A stack, and the string behind it, in the order in which they were typed
abbrev pub onto : List ℕ → List ℕ → List ℕ
onto [] s = s
onto (c ∷ l) s = onto l (c ∷ s)

Holds-IsString :
    (m : Array ℕ) (l s : List ℕ) → Holds m l → IsString m (length l) s → IsString m 0 (onto l s)
Holds-IsString m [] s h str = str
Holds-IsString m (c ∷ l) s h str =
    Holds-IsString m l (c ∷ s) h.2 (h.0, h.1, subst (λ p. IsString m p s) (omega arith) str)

-- The line and its stack.
abbrev pub Typed : (size : ℕ) → Line → List ℕ → Type 0
Typed size s l = Holds s.buf l × (s.buf_len ≡ length l) × (length l < size)

tail-Typed :
    (size : ℕ) (s : Line) (l : List ℕ) (echo : List ℕ)
    → 0 < length l
    → Typed size s l
    → Typed size (record s { buf_len = s.buf_len - 1; echo = echo }) (tail l)
tail-Typed size s [] echo pos t = absurd (omega arith)
tail-Typed size s (c ∷ l) echo pos (h, n, low) = (h.2, omega arith, omega arith)

edit-Typed :
    (size : ℕ) (e : KeyEvent) (s : Line) (l : List ℕ)
    → Typed size s l
    → Typed size (edit size e s) (key size e l)
unfolding edit
edit-Typed size e s l t = elim (Bool-cases e.pressed) [
  | inr up ↦ rw up t
  | inl down ↦
      rw (down, t.1)
        (elim (Bool-cases ((e.ascii == 0x08) && ltb 0 (length l))) [
          | inl back ↦ rw back (
              subst
                (λ n.
                  Typed size (record s { buf_len = n - 1; echo = s.echo ++ 0x08 ∷ [] }) (tail l))
                t.1 (tail-Typed size s l (s.echo ++ 0x08 ∷ []) (ground (arith, back)) t))
          | inr not_back ↦
              rw not_back (elim (Bool-cases ((e.ascii != 0) && ltb (length l) (size - 1))) [
                | inl typed ↦ rw typed (
                  (
                    update_self s.buf (length l) e.ascii,
                    ground (arith, typed),
                    Holds-update s.buf l (length l) e.ascii (omega arith) t.0,
                  ),
                  omega arith,
                  ground (arith, typed),
                )
                | inr ignored ↦ rw ignored (t.0, refl, t.2)
              ])
        ])
]

-- The line read is the one on the stack, as a string, and the events behind the key that ended it are left.
abbrev pub Reads :
    (size : ℕ) → Option (Line × List KeyEvent) → Option (List ℕ × List KeyEvent) → Type 0
Reads size r none = r ≡ none
Reads size r (some (l, events)) =
    (s : Line) × (r ≡ some (s, events))
    × IsString s.buf 0 (onto l [])
    × (s.buf_len ≡ length l)
    × (length l < size)

pub edit_loop-Reads :
    (size : ℕ) (events : List KeyEvent) (s : Line) (l : List ℕ)
    → Typed size s l
    → Reads size (edit_loop size events s) (keys size events l)
unfolding edit_loop
edit_loop-Reads size [] s l t = refl
edit_loop-Reads size (e ∷ events) s l t = elim (Bool-cases (e.pressed && is_enter e.ascii)) [
  | inl ends ↦ rw ends (
    record s { buf = update s.buf s.buf_len 0; echo = s.echo ++ 0x0A ∷ [] },
    refl,
    Holds-IsString (update s.buf s.buf_len 0) l []
        (Holds-update s.buf l s.buf_len 0 (omega (arith, t.1)) t.0)
        (ap (update s.buf s.buf_len 0) (sym t.1) ∙ update_self s.buf s.buf_len 0),
    t.1,
    t.2,
  )
  | inr goes ↦
      rw goes (edit_loop-Reads size events (edit size e s) (key size e l) (edit-Typed size e s l t))
]

-- `readline` keeps the line as a stack: a key adds its character if there are less than 255, backspace
-- takes the last one off, or adds itself to an empty line, and the line is ended by Enter. It waits for more
-- events exactly as long as no key has ended the line.
pub readline-Reads :
    (events : List KeyEvent) (s : Line) → Reads cmd_buf (readline events s) (keys cmd_buf events [])
unfolding readline
readline-Reads events s =
    edit_loop-Reads cmd_buf events (record s { buf = λ _. 0; buf_len = 0 }) []
      (tt, refl, omega arith)

length-onto_behind : (l s : List ℕ) → length (onto l s) ≡ length l + length s
length-onto_behind [] s = omega arith
length-onto_behind (c ∷ l) s = omega (arith, length-onto_behind l (c ∷ s))

pub length-onto : (l : List ℕ) → length (onto l []) ≡ length l
length-onto l = omega (arith, length-onto_behind l [])
