-- ===== src/Common/Bytes.antt =====
-- Checking a claim over all bytes by evaluation, and the laws of one bit of a byte.
use Prim.Native.Nat.{ℕ, zero, suc, ◌-◌, ◌/◌, ◌%◌, ◌^◌, ◌<◌, bit_and, bit_or}
use mathlib.Core.Path.{◌≡◌, refl}
use mathlib.Core.Bool.{Bool, true, false, ◌&&◌}
use native.Mathlib.Omega.{arith}
use mathlib.Core.Logic.{inl, inr}
use aerogel.Common.Tests.{◌==◌, ltb, if◌then◌else◌, Bool-cases}

-- whether the test passes for each number below the bound
unfoldable pub every_below : (bound : ℕ) (test : ℕ → Bool) → Bool
every_below zero test = true
every_below (suc k) test = if test k then every_below k test else false

pub every_below-true :
    (bound : ℕ) (test : ℕ → Bool) (i : ℕ)
    → every_below bound test ≡ true
    → i < bound
    → test i ≡ true
unfolding every_below
every_below-true zero test i passed h = absurd (omega (arith, h))
every_below-true (suc k) test i passed h = elim (Bool-cases (test k)) [
  | inl yes_k ↦ ground (arith, every_below-true k test i, passed, yes_k)
  | inr no_k ↦ ground (arith, passed, no_k)
]

-- `(b >> k) & 1`
abbrev pub bit : ℕ → ℕ → ℕ
bit b k = b / 2 ^ k % 2

-- `b | (u8)(1 << k)`
abbrev pub with_bit : ℕ → ℕ → ℕ
with_bit b k = bit_or b (2 ^ k % 256)

-- `b & (u8)~(1 << k)`
abbrev pub without_bit : ℕ → ℕ → ℕ
without_bit b k = bit_and b (255 - 2 ^ k % 256)

-- One row of the tables: all that is claimed of setting and clearing bit `k` of `b`, read at `j`.
abbrev set_row : ℕ → ℕ → ℕ → Bool
set_row b k j = (bit (with_bit b k) j == (if k == j then 1 else bit b j)) && ltb (with_bit b k) 256

abbrev clear_row : ℕ → ℕ → ℕ → Bool
clear_row b k j =
    (bit (without_bit b k) j == (if k == j then 0 else bit b j)) && ltb (without_bit b k) 256

set_table : every_below 256 (λ b. every_below 8 (λ k. every_below 8 (set_row b k))) ≡ true
unfolding every_below
set_table = refl

clear_table : every_below 256 (λ b. every_below 8 (λ k. every_below 8 (clear_row b k))) ≡ true
unfolding every_below
clear_table = refl

from_table :
    (row : ℕ → ℕ → ℕ → Bool) (b k j : ℕ)
    → every_below 256 (λ b. every_below 8 (λ k. every_below 8 (row b k))) ≡ true
    → b < 256
    → k < 8
    → j < 8
    → row b k j ≡ true
from_table row b k j t hb hk hj =
    every_below-true 8 (row b k) j
      (every_below-true 8 (λ k. every_below 8 (row b k)) k
        (every_below-true 256 (λ b. every_below 8 (λ k. every_below 8 (row b k))) b t hb) hk)
      hj

module _ (b k j : ℕ) (hb : b < 256) (hk : k < 8) (hj : j < 8) where
  set_row_holds : set_row b k j ≡ true
  set_row_holds = from_table set_row b k j set_table hb hk hj

  clear_row_holds : clear_row b k j ≡ true
  clear_row_holds = from_table clear_row b k j clear_table hb hk hj

  pub bit-with_bit : (bit (with_bit b k) j ≡ (if k == j then 1 else bit b j)) × (with_bit b k < 256)
  bit-with_bit = ground (arith, set_row_holds)

  pub bit-without_bit :
      (bit (without_bit b k) j ≡ (if k == j then 0 else bit b j)) × (without_bit b k < 256)
  bit-without_bit = ground (arith, clear_row_holds)
