-- ===== src/Huffman/Bounds.antt =====
-- The bounds of `vec` in src/huffman.c, an Int32.
use native.Mathlib.Nat.{pow-suc, mul-le-mul, pow-le-pow_right}
use libqbz.Base.{ℕ, zero, suc, ◌+◌, ◌-◌, ◌*◌, ◌≤◌, ◌<◌, ◌^◌, ap, arith, List, length}
use libqbz.Base.{get_or, [], ◌∷◌}
use libqbz.Huffman.{assign_codes}
use libqbz.Huffman.Codes.{assign_codes-canonical}
use libqbz.Huffman.Counts.{count, first_code, rank-lt}
use libqbz.Huffman.Range.{AllWithin, AllWithin-at}

count-le-length : (n : ℕ) (ls : List ℕ) → count n ls ≤ length ls
count-le-length n [] = omega arith
count-le-length n (l ∷ ls) = ground (arith, count-le-length n ls)

first_code-le :
    (lens : List ℕ) (least k : ℕ)
    → first_code lens least k + length lens * 2 ≤ length lens * 2 ^ suc k
first_code-le lens least zero = omega arith
first_code-le lens least (suc k) = omega (
  arith,
  first_code-le lens least k,
  count-le-length (least + k) lens,
  ap (λ (t : ℕ). length lens * t) (pow-suc 2 (suc k)),
)

small_alphabet : (n p : ℕ) → n ≤ 258 → p ≤ 2 ^ 20 → n * p ≤ 258 * 2 ^ 20
small_alphabet n p h k = mul-le-mul h k

-- For at most 258 symbols, with lengths between bounds from 1 to 20, every code that
-- BZ2_hbAssignCodes gives is far from the bounds of an Int32.
pub assign_codes-lt :
    (code : ℕ → ℕ) (lens : List ℕ) (least most i : ℕ)
    → length lens ≤ 258
    → AllWithin least most lens
    → 1 ≤ least
    → most ≤ 20
    → i < length lens
    → assign_codes code lens least most i < 2 ^ 29
assign_codes-lt code lens least most i hn w hl hm h =
    let own = AllWithin-at least most lens i w h in
    let power : 2 ^ suc (get_or lens i 0 - least) ≤ 2 ^ 20 =
      pow-le-pow_right {n = 2} (omega arith) {j = 20} (omega (arith, own)) in
    omega (
      arith,
      assign_codes-canonical code lens least most i h own.0 own.1,
      first_code-le lens least (get_or lens i 0 - least),
      rank-lt lens i h,
      count-le-length (get_or lens i 0) lens,
      small_alphabet (length lens) (2 ^ suc (get_or lens i 0 - least)) hn power,
    )
