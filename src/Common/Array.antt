-- ===== src/Common/Array.antt =====
-- Memory and fixed arrays as functions of the index.
use Prim.Native.Nat.{ℕ, ◌+◌, ◌-◌}
use mathlib.Core.Path.{◌≡◌}
use mathlib.Core.Logic.{◌≢◌}
use mathlib.Core.Bool.{◌&&◌}
use native.Mathlib.Omega.{arith}
use aerogel.Common.Tests.{◌==◌, leb, ltb, if◌then◌else◌}

abbrev pub Array {ℓ} : Type ℓ → Type ℓ
Array A = ℕ → A

module _ {ℓ} {A : Type ℓ} where
  -- `a[i] = v`
  abbrev pub update : Array A → ℕ → A → Array A
  update a i v j = if i == j then v else a j

  pub update_self : (a : Array A) (i : ℕ) (v : A) → update a i v i ≡ v
  update_self a i v = ground arith

  pub update_ne : (a : Array A) (i j : ℕ) (v : A) → i ≢ j → update a i v j ≡ a j
  update_ne a i j v h = ground arith

-- `memcpy` from one array to another: the bytes of `src` from `from` on, `n` of them, to `to`
abbrev pub copy : (to from n : ℕ) → (src dst : Array ℕ) → Array ℕ
copy to from n src dst i = if leb to i && ltb i (to + n) then src (from + (i - to)) else dst i
