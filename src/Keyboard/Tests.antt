-- ===== src/Keyboard/Tests.antt =====
-- The keyboard at concrete states.
use aerogel.Common.{◌≡◌, refl, true, false, arith, [], ◌∷◌}
use aerogel.Keyboard.{KeyEvent, Keyboard, kbuf_push, poll, switch_key, key_event, kb_handler}
use aerogel.Keyboard.Queue.{IsValid, contents, pop, push_refines, poll_refines}

abbrev idle : Keyboard
idle = record {
  kbuf = λ _. record { scancode = 0; ascii = 0; modifiers = 0; pressed = false };
  khead = 127;
  ktail = 127;
  modifiers = 0;
  extended = false;
}

idle-IsValid : IsValid idle
idle-IsValid = omega arith

-- Left Shift down, then the key of `a`: the ring goes round from 127.
shift_a : contents (kb_handler 0x1E (kb_handler 0x2A idle)) ≡ key_event 0x1E 1 ∷ []
unfolding kb_handler switch_key kbuf_push key_event
shift_a = refl

abbrev event : KeyEvent
event = record { scancode = 30; ascii = b'a'; modifiers = 0; pressed = true }

push_refines_example :
    IsValid (kbuf_push event idle).0
    × ((kbuf_push event idle).1 ≡ true)
    × (contents (kbuf_push event idle).0 ≡ event ∷ [])
push_refines_example = push_refines event idle-IsValid

poll_refines_example :
    IsValid (poll idle).0 × ((contents (poll idle).0, (poll idle).1) ≡ pop (contents idle))
poll_refines_example = poll_refines idle-IsValid
