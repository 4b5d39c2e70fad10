-- ===== src/Base/Xor/Step.antt =====
-- The native operation by its lowest digit.
use Prim.Native.Nat.{ℕ, zero, suc, ◌+◌, ◌*◌, ◌/◌, ◌%◌, ◌≤◌, differ, bit_xor, bit_xor-bitwise}
use mathlib.Core.Path.{◌≡◌, refl}
use native.Mathlib.Omega.{arith}
use libqbz.Base.Digits.{spare_fuel}

digit : (a b : ℕ) → differ (a % 2) (b % 2) ≡ (a % 2 + b % 2) % 2
digit a b = go (a % 2) (b % 2) (omega arith) (omega arith)
  where
    go : (x y : ℕ) → x ≤ 1 → y ≤ 1 → differ x y ≡ (x + y) % 2
    go zero zero p q = refl
    go zero (suc zero) p q = refl
    go zero (suc (suc y)) p q = absurd (omega arith)
    go (suc zero) zero p q = refl
    go (suc zero) (suc zero) p q = refl
    go (suc zero) (suc (suc y)) p q = absurd (omega arith)
    go (suc (suc x)) y p q = absurd (omega arith)

pub bit_xor_zero_left : (b : ℕ) → bit_xor 0 b ≡ b
bit_xor_zero_left b = bit_xor-bitwise 0 b

pub bit_xor_step : (a b : ℕ) → bit_xor a b ≡ bit_xor (a / 2) (b / 2) * 2 + (a % 2 + b % 2) % 2
bit_xor_step zero b = omega (arith, bit_xor_zero_left b, bit_xor_zero_left (b / 2))
bit_xor_step (suc a) b =
    let half = suc a / 2 in
    omega (
      arith,
      digit (suc a) b,
      spare_fuel (λ t. t) differ a half half (b / 2) (omega arith) (omega arith),
      bit_xor-bitwise half (b / 2),
      bit_xor-bitwise (suc a) b,
    )

zero_right_fuel : (n a : ℕ) → a ≤ n → bit_xor a 0 ≡ a
zero_right_fuel n zero h = refl
zero_right_fuel zero (suc a) h = absurd (omega arith)
zero_right_fuel (suc n) (suc a) h =
    omega (arith, bit_xor_step (suc a) 0, zero_right_fuel n (suc a / 2) (omega arith))

pub bit_xor_zero_right : (a : ℕ) → bit_xor a 0 ≡ a
bit_xor_zero_right a = zero_right_fuel a a (omega arith)

pub xor-div_two : (a b : ℕ) → bit_xor a b / 2 ≡ bit_xor (a / 2) (b / 2)
xor-div_two a b = omega (arith, bit_xor_step a b)

pub xor-mod_two : (a b : ℕ) → bit_xor a b % 2 ≡ (a % 2 + b % 2) % 2
xor-mod_two a b = omega (arith, bit_xor_step a b)

-- Two numbers are equal when their lowest digits and the rest are.
pub xor_digits : {x y : ℕ} → x % 2 ≡ y % 2 → x / 2 ≡ y / 2 → x ≡ y
xor_digits p q = omega arith

pub xor_double : (a b : ℕ) → bit_xor (2 * a) (2 * b) ≡ 2 * bit_xor a b
xor_double a b = ground (arith, bit_xor_step (2 * a) (2 * b))
