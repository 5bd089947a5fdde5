-- ===== src/Common/Double.antt =====
-- What the programs do with a `double`: conversions from integers, sums, products, quotients and one
-- comparison. The arithmetic itself is that of the machine, and a parameter.
use mathlib.Core.Path.{◌≡◌}
use mathlib.Core.Bool.{Bool, true, false}
use mathlib.Core.Option.{Option, none, some}
use native.Mathlib.Omega.{arith}
use Prim.Native.Nat.{suc}
use cs2520_2021spring.Common.Int.{ℤ, pos, ltb_ℤ, ◌+ℤ◌, ◌*ℤ◌, ◌/ℤ◌}

pub record Double {ℓ} (W : Type ℓ) : Type ℓ where
  pub of_int : ℤ → W
  pub add : W → W → W
  pub mul : W → W → W
  pub div : W → W → W
  pub lt : W → W → Bool

-- The order, with the values that are not NaN: nothing is less than NaN, and NaN is less than nothing.
pub record IsOrdered {ℓ} (W : Type ℓ) ⦃d : Double W⦄ (IsNumber : W → Type 0) : Type ℓ where
  pub lt_irrefl : (x : W) → d.lt x x ≡ false
  pub lt_asym : (x y : W) → d.lt x y ≡ true → d.lt y x ≡ false
  pub le_trans : (x y z : W) → IsNumber y → d.lt y x ≡ false → d.lt z y ≡ false → d.lt z x ≡ false

-- The laws can be met: whole numbers, with `none` for NaN and for a quotient by what is not positive.
abbrev pub Whole : Type 0
Whole = Option ℤ

abbrev whole_lt : Whole → Whole → Bool
whole_lt (some a) (some b) = ltb_ℤ a b
whole_lt _ _ = false

abbrev whole_op : (ℤ → ℤ → ℤ) → Whole → Whole → Whole
whole_op f (some a) (some b) = some (f a b)
whole_op f _ _ = none

abbrev whole_div : Whole → Whole → Whole
whole_div (some a) (some (pos (suc n))) = some (a /ℤ suc n)
whole_div _ _ = none

instance unfoldable pub whole_double : Double Whole
whole_double = record {
  of_int = some;
  add = whole_op ◌+ℤ◌;
  mul = whole_op ◌*ℤ◌;
  div = whole_div;
  lt = whole_lt;
}

abbrev pub IsWhole : Whole → Type 0
IsWhole none = ⊥
IsWhole (some a) = Unit

pub Whole-IsOrdered : IsOrdered Whole IsWhole
unfolding whole_double
Whole-IsOrdered = ground arith
