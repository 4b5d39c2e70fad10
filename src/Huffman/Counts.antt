-- ===== src/Huffman/Counts.antt =====
-- How many symbols have a length, and the first code of a length.
use libqbz.Base.{ℕ, zero, suc, ◌+◌, ◌-◌, ◌*◌, ◌≤◌, ◌<◌, ◌≡◌, refl, arith}
use libqbz.Base.{List, [], ◌∷◌, ◌==◌, if◌then◌else◌, ltb, length, get_or, take}

-- the symbols of the length `n`
abbrev pub count : ℕ → List ℕ → ℕ
count n [] = 0
count n (l ∷ ls) = if l == n then count n ls + 1 else count n ls

-- the symbols of a length below `n`
abbrev pub shorter : ℕ → List ℕ → ℕ
shorter n [] = 0
shorter n (l ∷ ls) = if ltb l n then shorter n ls + 1 else shorter n ls

-- The symbol's place among those of its length.
abbrev pub rank : List ℕ → ℕ → ℕ
rank lens i = count (get_or lens i 0) (take i lens)

-- The first code of the length `least + k`.
abbrev pub first_code : List ℕ → ℕ → ℕ → ℕ
first_code lens least zero = 0
first_code lens least (suc k) = (first_code lens least k + count (least + k) lens) * 2

-- The code that a symbol of the length `least + k` has.
abbrev pub canonical : List ℕ → ℕ → ℕ → ℕ
canonical lens least i = first_code lens least (get_or lens i 0 - least) + rank lens i

-- All lengths are at least `least`.
abbrev pub AllAtLeast : ℕ → List ℕ → Type 0
AllAtLeast least lens = shorter least lens ≡ 0

pub shorter-suc : (n : ℕ) (ls : List ℕ) → shorter (n + 1) ls ≡ shorter n ls + count n ls
shorter-suc n [] = refl
shorter-suc n (l ∷ ls) = ground (arith, shorter-suc n ls)

pub shorter-zero : (ls : List ℕ) → shorter 0 ls ≡ 0
shorter-zero [] = refl
shorter-zero (l ∷ ls) = ground (arith, shorter-zero ls)

-- A symbol of the length `n` has a place below their number.
pub rank-lt :
    (lens : List ℕ) (i : ℕ)
    → i < length lens
    → count (get_or lens i 0) (take i lens) < count (get_or lens i 0) lens
rank-lt [] i h = absurd (omega arith)
rank-lt (l ∷ ls) zero h = ground arith
rank-lt (l ∷ ls) (suc i) h = ground (arith, rank-lt ls i (omega arith))

-- The codes before a length leave room for the symbols of the lengths before it.
pub shorter-first_code :
    (lens : List ℕ) (least k : ℕ)
    → AllAtLeast least lens
    → shorter (least + k) lens ≤ first_code lens least k
shorter-first_code lens least zero h = rw (zero_right least) (omega (arith, h))
  where
    zero_right : (n : ℕ) → n + 0 ≡ n
    zero_right n = omega arith
shorter-first_code lens least (suc k) h =
    rw (next_length least k)
      (omega (arith, shorter-suc (least + k) lens, shorter-first_code lens least k h))
  where
    next_length : (n k : ℕ) → n + suc k ≡ n + k + 1
    next_length n k = omega arith
