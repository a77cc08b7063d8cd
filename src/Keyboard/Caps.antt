-- ===== src/Keyboard/Caps.antt =====
-- What Caps Lock does to the characters of drivers/input/ps2_keyboard.c.
use aerogel.Common.{
  ℕ, ◌<◌, ◌≡◌, refl, Bool, true, false, not, ◌==◌, arith, ==_iff, ◌+◌, if◌then◌else◌,
}
use aerogel.Common.Bytes.{every_below, every_below-true}
use aerogel.Keyboard.{translate, is_upper}

never_upper_table :
    (shift : Bool) → every_below 128 (λ code. not (is_upper (translate shift true code))) ≡ true
unfolding every_below translate
never_upper_table true = refl
never_upper_table false = refl

no_effect_table :
    every_below 128 (λ code. translate false true code == translate false false code) ≡ true
unfolding every_below translate
no_effect_table = refl

lowers_table :
    every_below 128 (λ code. translate true true code == (
      if is_upper (translate true false code)
      then translate true false code + 32
      else translate true false code))
    ≡ true
unfolding every_below translate
lowers_table = refl

-- With Caps Lock on no key gives an upper-case letter: without Shift each key gives what it gives
-- with Caps Lock off, and with Shift the letters are lower case and the other keys as they are.
pub caps_lem :
    (code : ℕ)
    → code < 128
    → (translate false true code ≡ translate false false code)
      × (translate true true code ≡ (
          if is_upper (translate true false code)
          then translate true false code + 32
          else translate true false code))
      × (is_upper (translate false true code) ≡ false)
      × (is_upper (translate true true code) ≡ false)
caps_lem code low = (
  (==_iff _ _).0 (every_below-true 128 _ code no_effect_table low),
  (==_iff _ _).0 (every_below-true 128 _ code lowers_table low),
  not_true _ (every_below-true 128 _ code (never_upper_table false) low),
  not_true _ (every_below-true 128 _ code (never_upper_table true) low),
)
  where
    not_true : (b : Bool) → not b ≡ true → b ≡ false
    not_true b h = ground arith
