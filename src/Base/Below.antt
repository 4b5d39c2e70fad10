-- ===== src/Base/Below.antt =====
-- A test of every number below a bound, by evaluation.
use Prim.Native.Nat.{ℕ, zero, suc, ◌<◌}
use mathlib.Core.Path.{◌≡◌, sym, ap, ◌∙◌}
use mathlib.Core.Bool.{Bool, true, false}
use libqbz.Base.Tests.{if◌then◌else◌}
use mathlib.Core.Logic.{◌⊎◌, inl, inr}
use native.Mathlib.Omega.{arith}

unfoldable pub all_below : ℕ → (ℕ → Bool) → Bool
all_below zero test = true
all_below (suc bound) test = let below = all_below bound test in if test bound then below else false

last_or_below : (x bound : ℕ) → x < suc bound → (bound ≡ x) ⊎ (x < bound)
last_or_below x bound h = grind arith

if_true : (a b : Bool) → (if a then b else false) ≡ true → (a ≡ true) × (b ≡ true)
if_true a b h = ground arith

pub all_below_sound :
    (x bound : ℕ) (test : ℕ → Bool) → x < bound → all_below bound test ≡ true → test x ≡ true
unfolding all_below
all_below_sound x zero test h all = absurd (omega arith)
all_below_sound x (suc bound) test h all = elim (last_or_below x bound h) [
  | inl last ↦ sym (ap test last) ∙ (if_true _ _ all).0
  | inr less ↦ all_below_sound x bound test less (if_true _ _ all).1
]
