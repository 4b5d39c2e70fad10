-- ===== src/Base/Ints.antt =====
-- Integers over the native numbers, for the C variables that may fall below 0.
use Prim.Native.Nat.{ℕ, zero, suc, ◌+◌, ◌-◌, ◌<◌, ◌≤◌}
use mathlib.Core.Path.{◌≡◌, refl}
use mathlib.Core.Bool.{Bool, true, false}
use native.Mathlib.Omega.{arith}
use libqbz.Base.Tests.{leb, if◌then◌else◌}

-- `negsuc n` is -(n + 1)
pub data ℤ : Type 0 where
  pos : ℕ → ℤ
  negsuc : ℕ → ℤ

abbrev pub minus : ℕ → ℕ → ℤ
minus a b = if leb b a then pos (a - b) else negsuc (b - a - 1)

abbrev pub suc_ℤ : ℤ → ℤ
suc_ℤ (pos n) = pos (n + 1)
suc_ℤ (negsuc zero) = pos 0
suc_ℤ (negsuc (suc n)) = negsuc n

abbrev pub double_ℤ : ℤ → ℤ
double_ℤ (pos n) = pos (n + n)
double_ℤ (negsuc n) = negsuc (n + n + 1)

infixl 65 ◌-ℤ◌
abbrev pub ◌-ℤ◌ : ℤ → ℤ → ℤ
pos a -ℤ pos b = minus a b
pos a -ℤ negsuc b = pos (a + b + 1)
negsuc a -ℤ pos b = negsuc (a + b)
negsuc a -ℤ negsuc b = minus b a

abbrev pub leb_ℤ : ℤ → ℤ → Bool
leb_ℤ (pos a) (pos b) = leb a b
leb_ℤ (pos a) (negsuc b) = false
leb_ℤ (negsuc a) (pos b) = true
leb_ℤ (negsuc a) (negsuc b) = leb b a

pub minus_le : (a b : ℕ) → b ≤ a → minus a b ≡ pos (a - b)
minus_le a b h = ground arith

pub suc_ℤ-minus : (a : ℕ) → suc_ℤ (minus a 1) ≡ pos a
suc_ℤ-minus zero = refl
suc_ℤ-minus (suc a) = rw (minus_le (suc a) 1 (omega arith)) (λ i. pos (back a i))
  where
    back : (a : ℕ) → suc a - 1 + 1 ≡ suc a
    back a = omega arith

pub leb_ℤ-minus : (a b : ℕ) → a < b → leb_ℤ (pos a) (minus b 1) ≡ true
leb_ℤ-minus a b h = rw (minus_le b 1 (omega arith)) (ground arith)

pub gt_ℤ-minus : (a b : ℕ) → b ≤ a → leb_ℤ (pos a) (minus b 1) ≡ false
gt_ℤ-minus a zero h = refl
gt_ℤ-minus a (suc b) h = rw (minus_le (suc b) 1 (omega arith)) (ground arith)
