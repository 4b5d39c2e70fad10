-- ===== src/Base/Digits.antt =====
-- The recursion on binary digits behind the native operations does not depend on its fuel, once the
-- fuel is as large as the first number.
use Prim.Native.Nat.{ℕ, zero, suc, ◌/◌, ◌≤◌, digits}
use mathlib.Core.Path.{◌≡◌, refl, ap, ◌∙◌}
use mathlib.Core.Logic.{◌⊎◌, inl, inr}
use native.Mathlib.Omega.{arith}

at_most_suc : (least most : ℕ) → least ≤ suc most → (suc most ≡ least) ⊎ (least ≤ most)
at_most_suc least most h = grind arith

module _ (base : ℕ → ℕ) (op : ℕ → ℕ → ℕ) where
  spare_round : (fuel x y : ℕ) → x ≤ fuel → digits base op (suc fuel) x y ≡ digits base op fuel x y
  spare_round zero zero y h = refl
  spare_round zero (suc x) y h = absurd (omega arith)
  spare_round (suc fuel) zero y h = refl
  spare_round (suc fuel) (suc x) y h =
      omega (arith, spare_round fuel (suc x / 2) (y / 2) (omega arith))

  pub spare_fuel :
      (most least x y : ℕ)
      → x ≤ least
      → least ≤ most
      → digits base op most x y ≡ digits base op least x y
  spare_fuel zero zero x y h g = refl
  spare_fuel zero (suc least) x y h g = absurd (omega arith)
  spare_fuel (suc most) least x y h g = elim (at_most_suc least most g) [
    | inl same ↦ ap (λ (t : ℕ). digits base op t x y) same
    | inr less ↦ spare_round most x y (omega arith) ∙ spare_fuel most least x y h less
  ]
