-- ===== src/Common/Bits.antt =====
-- The laws of `bit_or` on numbers of any width.
use Prim.Native.Nat.{
  ℕ, zero, suc, ◌+◌, ◌*◌, ◌/◌, ◌%◌, ◌^◌, ◌≤◌, ◌<◌, max, bit_or, bit_or-bitwise, digits,
}
use native.Mathlib.Nat.{div-div-eq-div-mul, div-one, pow-succ', mul_left_comm}
use mathlib.Core.Path.{◌≡◌, refl, sym, ap, ap₂, ◌∙◌}
use native.Mathlib.Omega.{arith}

-- the digits of `bit_or`, with `n` digits to go
abbrev or_digits : ℕ → ℕ → ℕ → ℕ
or_digits n a b = digits (λ x. x) max n a b

or_digits-enough : (n m a b : ℕ) → a ≤ n → a ≤ m → or_digits n a b ≡ or_digits m a b
or_digits-enough zero zero a b h h' = refl
or_digits-enough zero (suc m) zero b h h' = refl
or_digits-enough zero (suc m) (suc a) b h h' = absurd (omega (arith, h))
or_digits-enough (suc n) zero zero b h h' = refl
or_digits-enough (suc n) zero (suc a) b h h' = absurd (omega (arith, h'))
or_digits-enough (suc n) (suc m) zero b h h' = refl
or_digits-enough (suc n) (suc m) (suc a) b h h' =
    ap (λ x. x * 2 + max (suc a % 2) (b % 2))
      (or_digits-enough n m (suc a / 2) (b / 2) (omega arith) (omega arith))

-- `bit_or` goes digit by digit.
bit_or_step : (a b : ℕ) → bit_or a b ≡ bit_or (a / 2) (b / 2) * 2 + max (a % 2) (b % 2)
bit_or_step zero b = bit_or-bitwise zero b ∙ whole
  where
    half : bit_or (0 / 2) (b / 2) ≡ b / 2
    half = bit_or-bitwise zero (b / 2)

    whole : b ≡ bit_or (0 / 2) (b / 2) * 2 + max (0 % 2) (b % 2)
    whole = omega (arith, half)
bit_or_step (suc a) b =
    bit_or-bitwise (suc a) b
    ∙ ap (λ x. x * 2 + max (suc a % 2) (b % 2))
        (or_digits-enough a (suc a / 2) (suc a / 2) (b / 2) (omega arith) (omega arith)
          ∙ sym (bit_or-bitwise (suc a / 2) (b / 2)))

pub bit_or-zero : (b : ℕ) → bit_or zero b ≡ b
bit_or-zero b = bit_or-bitwise zero b

pub bit_or_mod_two : (a b : ℕ) → bit_or a b % 2 ≡ max (a % 2) (b % 2)
bit_or_mod_two a b = omega (arith, bit_or_step a b)

pub bit_or_div_two : (a b : ℕ) → bit_or a b / 2 ≡ bit_or (a / 2) (b / 2)
bit_or_div_two a b = omega (arith, bit_or_step a b)

-- Shifting down shifts both numbers.
pub bit_or-div : (k a b : ℕ) → bit_or a b / 2 ^ k ≡ bit_or (a / 2 ^ k) (b / 2 ^ k)
bit_or-div zero a b = div-one (bit_or a b) ∙ ap₂ bit_or (sym (div-one a)) (sym (div-one b))
bit_or-div (suc k) a b =
    halve (bit_or a b)
    ∙ ap (λ x. x / 2 ^ k) (bit_or_div_two a b)
    ∙ bit_or-div k (a / 2) (b / 2)
    ∙ ap₂ bit_or (sym (halve a)) (sym (halve b))
  where
    halve : (n : ℕ) → n / 2 ^ suc k ≡ n / 2 / 2 ^ k
    halve n = ap (λ p. n / p) (pow-succ' 2 k) ∙ sym (div-div-eq-div-mul n 2 (2 ^ k))

pub bit_or-zero_right : (a : ℕ) → bit_or a zero ≡ a
bit_or-zero_right a = bounded a a (omega arith)
  where
    bounded : (n a : ℕ) → a ≤ n → bit_or a zero ≡ a
    bounded n zero h = bit_or-zero zero
    bounded zero (suc a) h = absurd (omega (arith, h))
    bounded (suc n) (suc a) h =
        omega (arith, bit_or_step (suc a) zero, bounded n (suc a / 2) (omega arith))

-- Of numbers without a digit in common, `bit_or` is the sum.
pub bit_or-disjoint : (k x y : ℕ) → y < 2 ^ k → bit_or (x * 2 ^ k) y ≡ x * 2 ^ k + y
bit_or-disjoint zero x y h =
    ap (bit_or (x * 1)) (omega (arith, h)) ∙ bit_or-zero_right (x * 1) ∙ omega (arith, h)
bit_or-disjoint (suc k) x y h =
    ap (λ n. bit_or n y) double
    ∙ bit_or_step (2 * (x * 2 ^ k)) y
    ∙ ap (λ n. bit_or n (y / 2) * 2 + max (2 * (x * 2 ^ k) % 2) (y % 2)) half
    ∙ ap (λ n. n * 2 + max (2 * (x * 2 ^ k) % 2) (y % 2)) (bit_or-disjoint k x (y / 2) small)
    ∙ omega (arith, double)
  where
    double : x * 2 ^ suc k ≡ 2 * (x * 2 ^ k)
    double = ap (λ p. x * p) (pow-succ' 2 k) ∙ mul_left_comm x 2 (2 ^ k)

    half : 2 * (x * 2 ^ k) / 2 ≡ x * 2 ^ k
    half = omega arith

    small : y / 2 < 2 ^ k
    small = omega (arith, h)

pub bit_or-lt : (k a b : ℕ) → a < 2 ^ k → b < 2 ^ k → bit_or a b < 2 ^ k
bit_or-lt zero a b h h' =
    let none : a ≡ 0 = omega (arith, h) in
    omega (arith, ap (λ x. bit_or x b) none, bit_or-zero b, h')
bit_or-lt (suc k) a b h h' =
    omega
      (arith, bit_or_step a b, bit_or-lt k (a / 2) (b / 2) (omega (arith, h)) (omega (arith, h')))
