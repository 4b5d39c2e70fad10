-- ===== src/Base/Power.antt =====
-- Powers of two.
use Prim.Native.Nat.{ℕ, zero, suc, ◌+◌, ◌*◌, ◌/◌, ◌^◌, ◌<◌}
use mathlib.Core.Path.{◌≡◌, ap, sym, ◌∙◌}
use native.Mathlib.Nat.{pow-succ', one-le-pow, mul_comm, div-div-eq-div-mul}
use native.Mathlib.Omega.{arith}

pub pow-pos : (k : ℕ) → 0 < 2 ^ k
pow-pos k = one-le-pow k 2 (omega arith)

pub pow-add : (m n : ℕ) → 2 ^ (m + n) ≡ 2 ^ m * 2 ^ n
pow-add zero n = ground arith
pow-add (suc m) n =
    let e : suc m + n ≡ suc (m + n) = omega arith in
    rw e
      (omega (arith, pow-succ' 2 (m + n), pow-add m n, ap (λ (t : ℕ). t * 2 ^ n) (pow-succ' 2 m)))

-- A field is found behind a lower one.
pub div_fields : (n a b : ℕ) → b < 2 ^ n → (a * 2 ^ n + b) / 2 ^ n ≡ a
div_fields n a b h = grind arith

pub shr_add : (m n x : ℕ) → x / 2 ^ (m + n) ≡ x / 2 ^ n / 2 ^ m
shr_add m n x =
    ap (λ t. x / t) (pow-add m n ∙ mul_comm (2 ^ m) (2 ^ n))
    ∙ sym (div-div-eq-div-mul x (2 ^ n) (2 ^ m))
