-- ===== src/Keyboard/Queue.antt =====
-- The ring of key events as a queue of at most 127.
use aerogel.Common.{
  ℕ, zero, suc, ◌+◌, ◌-◌, ◌%◌, ◌<◌, ◌≡◌, ◌≢◌, refl, ap, ap₂, true, false, ◌==◌, ltb, if◌then◌else◌,
  Option, none, some, List, [], ◌∷◌, ◌++◌, arith, Bool-cases, inl, inr, ==_iff, length,
}
use aerogel.Common.Array.{Array, update, update_self, update_ne}
use aerogel.Keyboard.{KeyEvent, Keyboard, key_buf_size, kbuf_push, poll}

-- Both indices lie in the buffer.
pub record IsValid (s : Keyboard) : Type 0 where
  pub head_in : s.khead < key_buf_size
  pub tail_in : s.ktail < key_buf_size

-- the `n` events from index `t` on, going round
abbrev window : Array KeyEvent → ℕ → ℕ → List KeyEvent
window a t zero = []
window a t (suc n) = a t ∷ window a ((t + 1) % key_buf_size) n

abbrev pub count : Keyboard → ℕ
count s = (s.khead + key_buf_size - s.ktail) % key_buf_size

-- the events that wait, the oldest first
abbrev pub contents : Keyboard → List KeyEvent
contents s = window s.kbuf s.ktail (count s)

length-window : (a : Array KeyEvent) (t n : ℕ) → length (window a t n) ≡ n
length-window a t zero = refl
length-window a t (suc n) = ap suc (length-window a ((t + 1) % key_buf_size) n)

pub length-contents : (s : Keyboard) → length (contents s) ≡ count s
length-contents s = length-window s.kbuf s.ktail (count s)

-- Writing behind the last event of a window that is not full appends to it.
window-update :
    (a : Array KeyEvent) (e : KeyEvent) (n t h : ℕ)
    → t < key_buf_size
    → n < key_buf_size
    → h ≡ (t + n) % key_buf_size
    → window (update a h e) t (suc n) ≡ window a t n ++ e ∷ []
window-update a e zero t h ht hn eq =
    let at : h ≡ t = omega (arith, eq) in ap (λ x. x ∷ []) (rw at (update_self a t e))
window-update a e (suc n) t h ht hn eq =
    ap₂ ◌∷◌ (update_ne a h t e (omega (arith, eq))) (
      window-update a e n ((t + 1) % key_buf_size) h (omega arith) (omega arith)
        (omega (arith, eq)))

window-suc :
    (a : Array KeyEvent) (t n : ℕ)
    → n ≢ 0
    → window a t n ≡ a t ∷ window a ((t + 1) % key_buf_size) (n - 1)
window-suc a t zero ne = absurd (ne refl)
window-suc a t (suc n) ne = let e : suc n - 1 ≡ n = omega arith in rw e

-- `kbuf_push` appends its event and says so, unless 127 events wait: then it says so and changes
-- nothing. It keeps the indices in the buffer.
pub push_refines :
    (e : KeyEvent) {s : Keyboard}
    → IsValid s
    → IsValid (kbuf_push e s).0
      × ((kbuf_push e s).1 ≡ ltb (length (contents s)) 127)
      × (contents (kbuf_push e s).0
          ≡ (if ltb (length (contents s)) 127 then contents s ++ e ∷ [] else contents s))
unfolding kbuf_push
push_refines e {s} v =
    rw (length-contents s) (elim (Bool-cases ((s.khead + 1) % key_buf_size == s.ktail)) [
      | inl full ↦
          let more : ltb (count s) 127 ≡ false = ground (arith, v.head_in, v.tail_in) in
          rw (full, more) (v, refl, refl)
      | inr room ↦
          let more : ltb (count s) 127 ≡ true = ground (arith, v.head_in, v.tail_in) in
          rw (room, more)
            (
              record { head_in = omega arith; tail_in = v.tail_in },
              refl,
              grown (ground (arith, v.head_in, v.tail_in)),
            )
    ])
  where
    grown :
        (count s < 127)
        → window
            (update s.kbuf s.khead e)
            s.ktail
            (((s.khead + 1) % key_buf_size + key_buf_size - s.ktail) % key_buf_size)
          ≡ contents s ++ e ∷ []
    grown room =
        let n : ((s.khead + 1) % key_buf_size + key_buf_size - s.ktail) % key_buf_size
            ≡ suc (count s) =
          omega (arith, v.head_in, v.tail_in) in
        rw n (
          window-update s.kbuf e (count s) s.ktail s.khead v.tail_in (omega arith)
            (omega (arith, v.head_in, v.tail_in)))

-- what a queue returns and leaves when it is polled
abbrev pub pop : List KeyEvent → List KeyEvent × Option KeyEvent
pop [] = ([], none)
pop (e ∷ q) = (q, some e)

-- `keyboard_poll` takes the oldest event, or returns nothing and changes nothing when none waits.
pub poll_refines :
    {s : Keyboard}
    → IsValid s
    → IsValid (poll s).0 × ((contents (poll s).0, (poll s).1) ≡ pop (contents s))
unfolding poll
poll_refines {s} v = elim (Bool-cases (s.khead == s.ktail)) [
  | inl e ↦
      let n : count s ≡ 0 = omega (arith, (==_iff s.khead s.ktail).0 e, v.tail_in) in
      rw (e, n) (v, refl)
  | inr ne ↦
      let n : count s ≢ 0 = ground (arith, v.head_in, v.tail_in) in
      rw (ne, window-suc s.kbuf s.ktail (count s) n)
        (
          record { head_in = v.head_in; tail_in = omega arith },
          ap (λ k. (window s.kbuf ((s.ktail + 1) % key_buf_size) k, some (s.kbuf s.ktail)))
              (omega (arith, v.head_in, v.tail_in)),
        )
]
