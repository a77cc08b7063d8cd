-- ===== src/Keyboard.antt =====
-- The keyboard driver, drivers/input/ps2_keyboard.c: the interrupt handler's state machine and the
-- ring of key events. The byte that the handler reads from the controller is its argument.
pub mod Queue
pub mod Handler
pub mod Caps
mod Tests
use aerogel.Common.{
  ℕ, zero, suc, ◌+◌, ◌-◌, ◌%◌, Bool, true, false, not, ◌&&◌, ◌||◌, ◌==◌, ◌!=◌, leb, if◌then◌else◌,
  Option, none, some, List, [], ◌∷◌, get_or, bit_and, bit_or, bit_xor,
}
use aerogel.Common.Array.{Array, update}

abbrev pub key_buf_size : ℕ
key_buf_size = 128

-- `sc_ascii` and `sc_shift`
abbrev pub sc_ascii : List ℕ
sc_ascii =
    0 ∷ 0x1B ∷ b'1' ∷ b'2' ∷ b'3' ∷ b'4' ∷ b'5' ∷ b'6' ∷ b'7' ∷ b'8' ∷ b'9' ∷ b'0' ∷ b'-' ∷ b'='
    ∷ 0x08 ∷ 0x09 ∷ b'q' ∷ b'w' ∷ b'e' ∷ b'r' ∷ b't' ∷ b'y' ∷ b'u' ∷ b'i' ∷ b'o' ∷ b'p' ∷ b'['
    ∷ b']' ∷ 0x0A ∷ 0 ∷ b'a' ∷ b's' ∷ b'd' ∷ b'f' ∷ b'g' ∷ b'h' ∷ b'j' ∷ b'k' ∷ b'l' ∷ b';' ∷ 0x27
    ∷ b'`' ∷ 0 ∷ 0x5C ∷ b'z' ∷ b'x' ∷ b'c' ∷ b'v' ∷ b'b' ∷ b'n' ∷ b'm' ∷ b',' ∷ b'.' ∷ b'/' ∷ 0
    ∷ b'*' ∷ 0 ∷ b' ' ∷ 0 ∷ 0 ∷ 0 ∷ 0 ∷ 0 ∷ 0 ∷ 0 ∷ 0 ∷ 0 ∷ 0 ∷ 0 ∷ 0 ∷ 0 ∷ 0 ∷ 0 ∷ b'7' ∷ b'8'
    ∷ b'9' ∷ b'-' ∷ b'4' ∷ b'5' ∷ b'6' ∷ b'+' ∷ b'1' ∷ b'2' ∷ b'3' ∷ b'0' ∷ b'.' ∷ 0 ∷ 0 ∷ []

abbrev pub sc_shift : List ℕ
sc_shift =
    0 ∷ 0x1B ∷ b'!' ∷ b'@' ∷ b'#' ∷ b'$' ∷ b'%' ∷ b'^' ∷ b'&' ∷ b'*' ∷ b'(' ∷ b')' ∷ b'_' ∷ b'+'
    ∷ 0x08 ∷ 0x09 ∷ b'Q' ∷ b'W' ∷ b'E' ∷ b'R' ∷ b'T' ∷ b'Y' ∷ b'U' ∷ b'I' ∷ b'O' ∷ b'P' ∷ b'{'
    ∷ b'}' ∷ 0x0A ∷ 0 ∷ b'A' ∷ b'S' ∷ b'D' ∷ b'F' ∷ b'G' ∷ b'H' ∷ b'J' ∷ b'K' ∷ b'L' ∷ b':' ∷ 0x22
    ∷ b'~' ∷ 0 ∷ b'|' ∷ b'Z' ∷ b'X' ∷ b'C' ∷ b'V' ∷ b'B' ∷ b'N' ∷ b'M' ∷ b'<' ∷ b'>' ∷ b'?' ∷ 0
    ∷ b'*' ∷ 0 ∷ b' ' ∷ 0 ∷ 0 ∷ 0 ∷ 0 ∷ 0 ∷ 0 ∷ 0 ∷ 0 ∷ 0 ∷ 0 ∷ 0 ∷ 0 ∷ 0 ∷ 0 ∷ 0 ∷ b'7' ∷ b'8'
    ∷ b'9' ∷ b'-' ∷ b'4' ∷ b'5' ∷ b'6' ∷ b'+' ∷ b'1' ∷ b'2' ∷ b'3' ∷ b'0' ∷ b'.' ∷ 0 ∷ 0 ∷ []

-- An entry of a table. The last 32 entries are 0, as is what the lists do not hold.
abbrev entry : List ℕ → ℕ → ℕ
entry table code = get_or table code 0

abbrev pub key_mod_shift : ℕ
key_mod_shift = 1

abbrev pub key_mod_ctrl : ℕ
key_mod_ctrl = 2

abbrev pub key_mod_alt : ℕ
key_mod_alt = 4

abbrev pub key_mod_caps : ℕ
key_mod_caps = 8

-- `key_event_t`
pub record KeyEvent : Type 0 where
  pub scancode : ℕ
  pub ascii : ℕ
  pub modifiers : ℕ
  pub pressed : Bool

-- the file's static variables
pub record Keyboard : Type 0 where
  pub kbuf : Array KeyEvent
  pub khead : ℕ
  pub ktail : ℕ
  pub modifiers : ℕ
  pub extended : Bool

pub kbuf_push : KeyEvent → Keyboard → Keyboard × Bool
kbuf_push e s =
    let next = (s.khead + 1) % key_buf_size in
    if next == s.ktail
    then (s, false)
    else (record s { kbuf = update s.kbuf s.khead e; khead = next }, true)

pub poll : Keyboard → Keyboard × Option KeyEvent
poll s =
    if s.khead == s.ktail
    then (s, none)
    else (record s { ktail = (s.ktail + 1) % key_buf_size }, some (s.kbuf s.ktail))

-- `modifiers |= m` or `modifiers &= (u8)~m`
abbrev hold : Bool → ℕ → ℕ → ℕ
hold pressed m mods = if pressed then bit_or mods m else bit_and mods (255 - m)

-- The switch over the modifier keys: the new modifiers, or `none` for another key.
pub switch_key : ℕ → Bool → ℕ → Option ℕ
switch_key code pressed mods =
    if (code == 0x2A) || (code == 0x36)
    then some (hold pressed key_mod_shift mods)
    else if code == 0x1D
    then some (hold pressed key_mod_ctrl mods)
    else if code == 0x38
    then some (hold pressed key_mod_alt mods)
    else if code == 0x3A
    then some (if pressed then bit_xor mods key_mod_caps else mods)
    else none

abbrev pub is_lower : ℕ → Bool
is_lower c = leb b'a' c && leb c b'z'

abbrev pub is_upper : ℕ → Bool
is_upper c = leb b'A' c && leb c b'Z'

-- the two statements under Caps Lock, in their order
pub apply_caps : Bool → ℕ → ℕ
apply_caps caps c =
    let c1 = if caps && is_lower c then c - 32 else c in if caps && is_upper c1 then c1 + 32 else c1

-- the character of a key with the given state of Shift and Caps Lock
pub translate : Bool → Bool → ℕ → ℕ
unfolding apply_caps
translate shift caps code =
    apply_caps caps (if shift then entry sc_shift code else entry sc_ascii code)

-- the rest of the handler, for a key that is no modifier
pub key_event : ℕ → ℕ → KeyEvent
unfolding translate
key_event code mods = record {
  scancode = code;
  ascii = translate (bit_and mods key_mod_shift != 0) (bit_and mods key_mod_caps != 0) code;
  modifiers = mods;
  pressed = true;
}

pub kb_handler : ℕ → Keyboard → Keyboard
kb_handler sc s =
    let pressed = bit_and sc 0x80 == 0 in
    let code = bit_and sc 0x7F in
    let s' = record s { extended = false } in
    if sc == 0xE0
    then record s { extended = true }
    else elim (switch_key code pressed s.modifiers) [
      | some mods ↦ record s' { modifiers = mods }
      | none ↦ if not pressed then s' else (kbuf_push (key_event code s.modifiers) s').0
    ]
