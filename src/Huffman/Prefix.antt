-- ===== src/Huffman/Prefix.antt =====
-- The first digits of a canonical code lie above the codes of their length, and its digits are read
-- one by one.
use mathlib.Core.Path.{subst}
use native.Mathlib.Nat.{le-div_iff_mul-le, pow-suc}
use libqbz.Base.{ℕ, zero, suc, ◌+◌, ◌*◌, ◌/◌, ◌%◌, ◌^◌, ◌≤◌, ◌<◌, ◌≡◌, ap, ◌∙◌, arith}
use libqbz.Base.{List, bit_or}
use libqbz.Base.Or.{or_fields}
use libqbz.Base.Power.{pow-pos, shr_add}
use libqbz.Huffman.Counts.{count, first_code}

-- Codes that are longer by `d + 1` digits.
pub prefix_codes :
    (lens : List ℕ) (least k d : ℕ)
    → (first_code lens least k + count (least + k) lens) * 2 ^ suc d
      ≤ first_code lens least (k + suc d)
prefix_codes lens least k zero =
    (λ (w : (first_code lens least k + count (least + k) lens) * 2 ^ 1
          ≤ (first_code lens least k + count (least + k) lens) * 2).
        subst
          (λ m.
            (first_code lens least k + count (least + k) lens) * 2 ^ 1 ≤ first_code lens least m)
          (one_more k) w)
      (omega arith)
  where
    one_more : (k : ℕ) → suc k ≡ k + 1
    one_more k = omega arith
prefix_codes lens least k (suc d) =
    subst (λ m. top * 2 ^ suc (suc d) ≤ first_code lens least m) (one_more k d)
      (omega (arith, prefix_codes lens least k d, ap (λ (t : ℕ). top * t) (pow-suc 2 (suc d))))
  where
    top : ℕ
    top = first_code lens least k + count (least + k) lens

    one_more : (k d : ℕ) → suc (k + suc d) ≡ k + suc (suc d)
    one_more k d = omega arith

-- What lies above a power, lies above its quotient.
pub le_div : (a c d : ℕ) → a * 2 ^ d ≤ c → a ≤ c / 2 ^ d
le_div a c d h = (le-div_iff_mul-le (pow-pos d)).1 h

-- One digit more of a code.
pub next_digit :
    (c d : ℕ) → c / 2 ^ d < 2 ^ 31 → bit_or (c / 2 ^ suc d * 2 % 2 ^ 32) (c / 2 ^ d % 2) ≡ c / 2 ^ d
next_digit c d h =
    ap (λ t. bit_or t (c / 2 ^ d % 2)) (halved (shr_add 1 d c))
    ∙ or_fields 1 (c / 2 ^ d / 2) (c / 2 ^ d % 2) (omega arith)
    ∙ omega arith
  where
    below_word : (x : ℕ) → x < 2 ^ 31 → x / 2 * 2 % 2 ^ 32 ≡ x / 2 * 2 ^ 1
    below_word x h = omega arith

    halved :
        c / 2 ^ (1 + d) ≡ c / 2 ^ d / 2 ^ 1 → c / 2 ^ suc d * 2 % 2 ^ 32 ≡ c / 2 ^ d / 2 * 2 ^ 1
    halved e =
        (λ t. c / 2 ^ one_more t * 2 % 2 ^ 32)
        ∙ ap (λ t. t * 2 % 2 ^ 32) e
        ∙ below_word (c / 2 ^ d) h
      where
        one_more : suc d ≡ 1 + d
        one_more = omega arith
