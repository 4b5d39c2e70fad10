-- ===== src/Base/Xor.antt =====
-- Exclusive or at every width: the laws of a group of exponent two, and how it goes under
-- shifts, truncation and disjoint fields.
mod Step
pub use Step.*
use Prim.Native.Nat.{ℕ, zero, suc, ◌+◌, ◌*◌, ◌/◌, ◌%◌, ◌^◌, ◌<◌, bit_xor}
use mathlib.Core.Path.{◌≡◌, refl, sym, ap, ap₂, ◌∙◌}
use mathlib.Core.WellFounded
use native.Mathlib.Nat.{pow-suc, pow-succ', div-div-eq-div-mul, mod-eq-sub-mul-div, mul-div-le}
use native.Mathlib.Nat.{mod-lt, mod-eq_of_lt, one-le-pow}
use native.Mathlib.Omega.{arith}
use libqbz.Base.Order.{lt_wf}

pub zero-xor : (b : ℕ) → bit_xor 0 b ≡ b
zero-xor b = bit_xor_zero_left b

pub xor_comm : (a b : ℕ) → bit_xor a b ≡ bit_xor b a
xor_comm a = WellFounded.induction lt_wf {C = λ n. (b : ℕ) → bit_xor n b ≡ bit_xor b n} a step
  where
    step :
        (n : ℕ)
        → ((m : ℕ) → m < n → (b : ℕ) → bit_xor m b ≡ bit_xor b m)
        → (b : ℕ) → bit_xor n b ≡ bit_xor b n
    step zero ih b = bit_xor_zero_left b ∙ sym (bit_xor_zero_right b)
    step (suc n) ih b = omega (
      arith,
      bit_xor_step (suc n) b,
      bit_xor_step b (suc n),
      ih (suc n / 2) (omega arith) (b / 2),
    )

pub xor-zero : (a : ℕ) → bit_xor a 0 ≡ a
xor-zero a = bit_xor_zero_right a

pub xor_self : (a : ℕ) → bit_xor a a ≡ 0
xor_self a = WellFounded.induction lt_wf {C = λ n. bit_xor n n ≡ 0} a step
  where
    step : (n : ℕ) → ((m : ℕ) → m < n → bit_xor m m ≡ 0) → bit_xor n n ≡ 0
    step zero ih = refl
    step (suc n) ih = omega (arith, bit_xor_step (suc n) (suc n), ih (suc n / 2) (omega arith))

pub xor_assoc : (a b c : ℕ) → bit_xor (bit_xor a b) c ≡ bit_xor a (bit_xor b c)
xor_assoc a =
    WellFounded.induction lt_wf
      {C = λ n. (b c : ℕ) → bit_xor (bit_xor n b) c ≡ bit_xor n (bit_xor b c)} a step
  where
    step :
        (n : ℕ)
        → ((m : ℕ) → m < n → (b c : ℕ) → bit_xor (bit_xor m b) c ≡ bit_xor m (bit_xor b c))
        → (b c : ℕ) → bit_xor (bit_xor n b) c ≡ bit_xor n (bit_xor b c)
    step zero ih b c = ap (λ t. bit_xor t c) (bit_xor_zero_left b) ∙ sym (bit_xor_zero_left _)
    step (suc n) ih b c = xor_digits (omega (arith, low)) (high)
      where
        low : bit_xor (bit_xor (suc n) b) c % 2 ≡ bit_xor (suc n) (bit_xor b c) % 2
        low = omega (
          arith,
          xor-mod_two (bit_xor (suc n) b) c,
          xor-mod_two (suc n) b,
          xor-mod_two (suc n) (bit_xor b c),
          xor-mod_two b c,
        )

        high : bit_xor (bit_xor (suc n) b) c / 2 ≡ bit_xor (suc n) (bit_xor b c) / 2
        high =
            xor-div_two (bit_xor (suc n) b) c
            ∙ ap (λ t. bit_xor t (c / 2)) (xor-div_two (suc n) b)
            ∙ ih (suc n / 2) (omega arith) (b / 2) (c / 2)
            ∙ ap (bit_xor (suc n / 2)) (sym (xor-div_two b c))
            ∙ sym (xor-div_two (suc n) (bit_xor b c))

double_shift : (k x : ℕ) → 2 * (x * 2 ^ k) ≡ x * 2 ^ suc k
double_shift k x = sym (ap (λ (p : ℕ). x * p) (pow-suc 2 k) ∙ omega arith)

shr_suc : (x k : ℕ) → x / 2 ^ suc k ≡ x / 2 / 2 ^ k
shr_suc x k = ap (λ t. x / t) (pow-succ' 2 k) ∙ sym (div-div-eq-div-mul x 2 (2 ^ k))

mod_suc : (x k : ℕ) → x % 2 ^ suc k ≡ x / 2 % 2 ^ k * 2 + x % 2
mod_suc x k = omega (
  arith,
  mod-eq-sub-mul-div x (2 ^ suc k),
  mod-eq-sub-mul-div (x / 2) (2 ^ k),
  mul-div-le (x / 2) (2 ^ k),
  ap (λ (t : ℕ). 2 ^ suc k * t) (shr_suc x k),
  ap (λ (t : ℕ). t * (x / 2 / 2 ^ k)) (pow-succ' 2 k),
)

pub xor-shift : (k a b : ℕ) → bit_xor (a * 2 ^ k) (b * 2 ^ k) ≡ bit_xor a b * 2 ^ k
xor-shift zero a b = ground arith
xor-shift (suc k) a b = ground (
  arith,
  double_shift k a,
  double_shift k b,
  xor_double (a * 2 ^ k) (b * 2 ^ k),
  xor-shift k a b,
  double_shift k (bit_xor a b),
)

pub xor-shr : (k a b : ℕ) → bit_xor a b / 2 ^ k ≡ bit_xor (a / 2 ^ k) (b / 2 ^ k)
xor-shr zero a b = ground arith
xor-shr (suc k) a b =
    rw (shr_suc (bit_xor a b) k, shr_suc a k, shr_suc b k, xor-div_two a b)
      (xor-shr k (a / 2) (b / 2))

pub xor-mod : (k a b : ℕ) → bit_xor a b % 2 ^ k ≡ bit_xor (a % 2 ^ k) (b % 2 ^ k)
xor-mod zero a b = ground (arith, xor-zero 0)
xor-mod (suc k) a b =
    rw (mod_suc (bit_xor a b) k, mod_suc a k, mod_suc b k, xor-div_two a b)
      (ground (
        arith,
        xor-mod k (a / 2) (b / 2),
        xor-mod_two a b,
        bit_xor_step (a / 2 % 2 ^ k * 2 + a % 2) (b / 2 % 2 ^ k * 2 + b % 2),
      ))

pub xor-lt : (k : ℕ) {a b : ℕ} → a < 2 ^ k → b < 2 ^ k → bit_xor a b < 2 ^ k
xor-lt k {a} {b} h g = omega (
  arith,
  xor-mod k a b,
  mod-lt (bit_xor a b) (one-le-pow k 2 (omega arith)),
  ap₂ bit_xor (mod-eq_of_lt h) (mod-eq_of_lt g),
)

-- Disjoint fields add up.
pub xor_fields : (k q r : ℕ) → r < 2 ^ k → bit_xor (q * 2 ^ k) r ≡ q * 2 ^ k + r
xor_fields zero q r h = ground (arith, xor-zero q)
xor_fields (suc k) q r h = ground (
  arith,
  double_shift k q,
  pow-suc 2 k,
  bit_xor_step (2 * (q * 2 ^ k)) r,
  xor_fields k q (r / 2) (omega (arith, pow-suc 2 k)),
)
