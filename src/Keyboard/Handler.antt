-- ===== src/Keyboard/Handler.antt =====
-- The interrupt handler of drivers/input/ps2_keyboard.c.
use aerogel.Common.{
  ℕ, ◌≡◌, refl, Bool, true, false, not, ◌==◌, ◌||◌, ltb, if◌then◌else◌, none, some, List, [], ◌∷◌,
  ◌++◌, arith, Bool-cases, Option-cases, inl, inr, length, bit_and, append-nil,
}
use aerogel.Keyboard.{KeyEvent, Keyboard, kbuf_push, switch_key, key_event, kb_handler}
use aerogel.Keyboard.Queue.{IsValid, contents, push_refines}

-- The events that a byte from the controller gives: one for a pressed key that is no modifier, if
-- there is room for it.
abbrev pub typed : ℕ → Keyboard → List KeyEvent
typed sc s =
    if (sc == 0xE0) || not (bit_and sc 0x80 == 0) || not (ltb (length (contents s)) 127)
    then []
    else elim (switch_key (bit_and sc 0x7F) true s.modifiers) [
      | some mods ↦ []
      | none ↦ key_event (bit_and sc 0x7F) s.modifiers ∷ []
    ]

-- The modifiers after a byte.
abbrev pub modifiers_after : ℕ → ℕ → ℕ
modifiers_after sc mods =
    if sc == 0xE0 then mods else elim (switch_key (bit_and sc 0x7F) (bit_and sc 0x80 == 0) mods) [
      | some mods' ↦ mods'
      | none ↦ mods
    ]

-- The state after a byte `sc` in state `s`.
pub record Handled (sc : ℕ) (s t : Keyboard) : Type 0 where
  pub valid : IsValid t
  pub queue : contents t ≡ contents s ++ typed sc s
  pub mods : t.modifiers ≡ modifiers_after sc s.modifiers
  pub prefix : t.extended ≡ (sc == 0xE0)

modifiers-push : (e : KeyEvent) (s : Keyboard) → (kbuf_push e s).0.modifiers ≡ s.modifiers
unfolding kbuf_push
modifiers-push e s = ground arith

extended-push : (e : KeyEvent) (s : Keyboard) → (kbuf_push e s).0.extended ≡ s.extended
unfolding kbuf_push
extended-push e s = ground arith

-- A key that is no modifier, pressed with room or without.
pressed_key :
    (e : KeyEvent) {s : Keyboard}
    → IsValid s
    → contents (kbuf_push e s).0
      ≡ contents s ++ (if not (ltb (length (contents s)) 127) then [] else e ∷ [])
pressed_key e {s} v = elim (Bool-cases (ltb (length (contents s)) 127)) [
  | inl room ↦ rw room (with_test room (push_refines e v).2)
  | inr full ↦ rw (full, append-nil) (with_test full (push_refines e v).2)
]
  where
    with_test :
        {b : Bool} {q : List KeyEvent}
        → ltb (length (contents s)) 127 ≡ b
        → q ≡ (if ltb (length (contents s)) 127 then contents s ++ e ∷ [] else contents s)
        → q ≡ (if b then contents s ++ e ∷ [] else contents s)
    with_test h g = rw h at g

-- Whether a key is a modifier does not depend on whether it is pressed.
switch_key_pressed :
    (code : ℕ) (pressed : Bool) (mods : ℕ)
    → (switch_key code pressed mods ≡ none → switch_key code true mods ≡ none)
      × ((m : ℕ)
          → switch_key code pressed mods ≡ some m
          → (m' : ℕ) × (switch_key code true mods ≡ some m'))
switch_key_pressed code true mods = (λ h. h, λ m h. (m, h))
switch_key_pressed code false mods = (
  none_case,
  λ m h. elim (Option-cases (switch_key code true mods)) [
    | inl e ↦ absurd (both m h e)
    | inr found ↦ found
  ],
)
  where
    none_case : switch_key code false mods ≡ none → switch_key code true mods ≡ none
    none_case h = unfold switch_key in ground arith

    both : (m : ℕ) → switch_key code false mods ≡ some m → switch_key code true mods ≡ none → ⊥
    both m h g = unfold switch_key in ground arith

module _ (sc : ℕ) {s : Keyboard} (v : IsValid s) (plain : (sc == 0xE0) ≡ false) where
  modifier_case :
      (m : ℕ)
      → switch_key (bit_and sc 0x7F) (bit_and sc 0x80 == 0) s.modifiers ≡ some m
      → Handled sc s (kb_handler sc s)
  unfolding kb_handler
  modifier_case m e =
      let (m', e') = (switch_key_pressed (bit_and sc 0x7F) _ s.modifiers).1 m e in
      rw (plain, e)
        (record {
          valid = record { head_in = v.head_in; tail_in = v.tail_in };
          queue =
              rw (plain, e')
                (none_typed (not (bit_and sc 0x80 == 0)) (not (ltb (length (contents s)) 127)));
          mods = rw (plain, e);
          prefix = rw plain;
        })
    where
      none_typed : (a b : Bool) → contents s ≡ contents s ++ (if a || b then [] else [])
      none_typed true b = rw append-nil
      none_typed false true = rw append-nil
      none_typed false false = rw append-nil

  key_case :
      (pressed : Bool)
      → (bit_and sc 0x80 == 0) ≡ pressed
      → switch_key (bit_and sc 0x7F) pressed s.modifiers ≡ none
      → Handled sc s (kb_handler sc s)
  unfolding kb_handler
  key_case true is e =
      let code : ℕ = bit_and sc 0x7F in
      let s' : Keyboard = record s { extended = false } in
      let v' : IsValid s' = record { head_in = v.head_in; tail_in = v.tail_in } in
      rw (plain, is, e, is)
        (record {
          valid = (push_refines (key_event code s.modifiers) v').0;
          queue = rw (plain, is, e) (pressed_key (key_event code s.modifiers) v');
          mods = rw (plain, is, e) (modifiers-push (key_event code s.modifiers) s');
          prefix = rw plain (extended-push (key_event code s.modifiers) s');
        })
  key_case false is e =
      rw (plain, is, e, is)
        (record {
          valid = record { head_in = v.head_in; tail_in = v.tail_in };
          queue = rw (plain, is) (rw append-nil);
          mods = rw (plain, is, e);
          prefix = rw plain;
        })

-- A byte from the controller enqueues the event that it stands for, if any and if there is room,
-- sets the modifiers, and records whether it was the prefix of an extended code.
pub kb_handler_lem : (sc : ℕ) {s : Keyboard} → IsValid s → Handled sc s (kb_handler sc s)
unfolding kb_handler
kb_handler_lem sc {s} v = elim (Bool-cases (sc == 0xE0)) [
  | inl e ↦ rw e (record {
    valid = record { head_in = v.head_in; tail_in = v.tail_in };
    queue = rw e (rw append-nil);
    mods = rw e;
    prefix = rw e;
  })
  | inr e ↦ elim (Option-cases (switch_key (bit_and sc 0x7F) (bit_and sc 0x80 == 0) s.modifiers)) [
    | inl n ↦ key_case sc v e (bit_and sc 0x80 == 0) refl n
    | inr (m, found) ↦ modifier_case sc v e m found
  ]
]
