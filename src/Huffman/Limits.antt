-- ===== src/Huffman/Limits.antt =====
-- The tables `base` and `limit` of BZ2_hbCreateDecodeTables.
use libqbz.Base.{ℕ, zero, suc, ◌+◌, ◌-◌, ◌*◌, ◌≤◌, ◌<◌, ◌≡◌, refl, ap₂, ◌∙◌, sym, arith}
use libqbz.Base.{List, [], ◌∷◌, ◌==◌, Bool-cases, inl, inr}
use libqbz.Base.{false, ==_iff, ◌≢◌}
use libqbz.Base.Ints.{ℤ, minus, suc_ℤ, double_ℤ, ◌-ℤ◌}
use libqbz.Huffman.{write, count_loop, sum_loop, limit_loop, base_loop, base_sums, max_code_len}
use libqbz.Huffman.Codes.{write_other, write_self}
use libqbz.Huffman.Counts.{count, shorter, first_code, shorter-suc, shorter-zero}

count_loop_lem :
    (ls : List ℕ) (base : ℕ → ℕ) (k : ℕ) → count_loop ls base (k + 1) ≡ base (k + 1) + count k ls
unfolding count_loop
count_loop_lem [] base k = omega arith
count_loop_lem (l ∷ ls) base k =
    count_loop_lem ls (write base (l + 1) (base (l + 1) + 1)) k ∙ ground arith

count_loop-zero : (ls : List ℕ) (base : ℕ → ℕ) → count_loop ls base 0 ≡ base 0
unfolding count_loop
count_loop-zero [] base = refl
count_loop-zero (l ∷ ls) base =
    count_loop-zero ls (write base (l + 1) (base (l + 1) + 1))
    ∙ write_other base (l + 1) (base (l + 1) + 1) 0 (omega arith)

-- the loop leaves what stands before it
pub sum_before : (rounds i k : ℕ) (base : ℕ → ℕ) → k < i → sum_loop rounds i base k ≡ base k
unfolding sum_loop
sum_before zero i k base h = refl
sum_before (suc rounds) i k base h =
    sum_before rounds (i + 1) k _ (omega arith)
    ∙ write_other base i (base i + base (i - 1)) k (omega arith)

-- with the sums done before `i` and the counts from there on
pub sum_loop_lem :
    (lens : List ℕ) (rounds i k : ℕ) (base : ℕ → ℕ)
    → 0 < i
    → base (i - 1) ≡ shorter (i - 1) lens
    → ((m : ℕ) → i ≤ m → base m ≡ count (m - 1) lens)
    → i ≤ k
    → k < i + rounds
    → sum_loop rounds i base k ≡ shorter k lens
unfolding sum_loop
sum_loop_lem lens zero i k base hi hb hc hk hr = absurd (omega arith)
sum_loop_lem lens (suc rounds) i k base hi hb hc hk hr = elim (Bool-cases (k == i)) [
  | inl e ↦
      sum_before rounds (i + 1) k _ (omega (arith, (==_iff k i).0 e))
      ∙ write_self base i (base i + base (i - 1)) k ((==_iff k i).0 e)
      ∙ summed
      ∙ (λ t. shorter (sym ((==_iff k i).0 e) t) lens)
  | inr e ↦
      sum_loop_lem lens rounds (i + 1) k (write base i (base i + base (i - 1))) (omega arith)
        ((λ t. write base i (base i + base (i - 1)) (back t))
          ∙ write_self base i (base i + base (i - 1)) i refl
          ∙ summed
          ∙ (λ t. shorter (sym back t) lens))
        (λ m hm. write_other base i (base i + base (i - 1)) m (omega arith) ∙ hc m (omega arith))
        (omega (arith, differ k i e)) (omega arith)
]
  where
    summed : base i + base (i - 1) ≡ shorter i lens
    summed =
        ap₂ ◌+◌ (hc i (omega arith)) hb
        ∙ omega (arith, shorter-suc (i - 1) lens)
        ∙ (λ t. shorter (again t) lens)
      where
        again : i - 1 + 1 ≡ i
        again = omega arith

    back : i + 1 - 1 ≡ i
    back = omega arith

    differ : (k i : ℕ) → (k == i) ≡ false → k ≢ i
    differ k i e = ground arith

-- `base` after its sums counts the shorter symbols.
pub base_sums-shorter :
    (lens : List ℕ) (k : ℕ) → k < max_code_len → base_sums lens k ≡ shorter k lens
unfolding base_sums
base_sums-shorter lens zero h =
    sum_before 22 1 0 _ (omega arith) ∙ count_loop-zero lens (λ i. 0) ∙ sym (shorter-zero lens)
base_sums-shorter lens (suc k) h =
    sum_loop_lem lens 22 1 (suc k) (count_loop lens (λ i. 0)) (omega arith)
      (count_loop-zero lens (λ i. 0) ∙ sym (shorter-zero lens)) (λ m hm. counted m hm) (omega arith)
      (omega arith)
  where
    counted : (m : ℕ) → 1 ≤ m → count_loop lens (λ i. 0) m ≡ count (m - 1) lens
    counted zero hm = absurd (omega arith)
    counted (suc m) hm =
        (λ t. count_loop lens (λ i. 0) (plus_one t))
        ∙ count_loop_lem lens (λ i. 0) m
        ∙ omega arith
        ∙ (λ t. count (less_one t) lens)
      where
        plus_one : suc m ≡ m + 1
        plus_one = omega arith

        less_one : m ≡ suc m - 1
        less_one = omega arith

-- the symbols of one length, as the difference of two sums
between :
    (lens : List ℕ) (n : ℕ)
    → n + 1 < max_code_len
    → base_sums lens (n + 1) - base_sums lens n ≡ count n lens
between lens n h = omega (
  arith,
  base_sums-shorter lens (n + 1) h,
  base_sums-shorter lens n (omega arith),
  shorter-suc n lens,
)

limit_before :
    (base : ℕ → ℕ) (rounds i vec k : ℕ) (limit : ℕ → ℤ)
    → k < i
    → limit_loop base rounds i vec limit k ≡ limit k
unfolding limit_loop
limit_before base zero i vec k limit h = refl
limit_before base (suc rounds) i vec k limit h =
    limit_before base rounds (i + 1) _ k _ (omega arith) ∙ ground arith

-- The last code of a length, or one less than its first where no symbol has it.
pub limit_loop-first_code :
    (lens : List ℕ) (least rounds j n k i : ℕ) (limit : ℕ → ℤ)
    → n ≡ least + j
    → i ≡ n + k
    → k < rounds
    → i + 1 < max_code_len
    → limit_loop (base_sums lens) rounds n (first_code lens least j) limit i
      ≡ minus (first_code lens least (j + k) + count i lens) 1
unfolding limit_loop
limit_loop-first_code lens least zero j n k i limit hn hi hk hm = absurd (omega arith)
limit_loop-first_code lens least (suc rounds) j n zero i limit hn hi hk hm =
    limit_before (base_sums lens) rounds (n + 1) _ i _ (omega arith)
    ∙ here (omega arith)
    ∙ (λ t. minus (first_code lens least j + between lens n (omega arith) t) 1)
    ∙ (λ t. minus (first_code lens least (zero_right t) + count (own t) lens) 1)
  where
    more : ℕ
    more = first_code lens least j + (base_sums lens (n + 1) - base_sums lens n)

    here : i ≡ n → write limit n (minus more 1) i ≡ minus more 1
    here e = ground arith

    own : n ≡ i
    own = omega arith

    zero_right : j ≡ j + 0
    zero_right = omega arith
limit_loop-first_code lens least (suc rounds) j n (suc k) i limit hn hi hk hm =
    (λ t.
      limit_loop (base_sums lens) rounds (n + 1) (next t)
        (write limit n
          (minus (first_code lens least j + (base_sums lens (n + 1) - base_sums lens n)) 1))
        i)
    ∙ limit_loop-first_code lens least rounds (suc j) (n + 1) k i _ (omega arith) (omega arith)
        (omega arith) hm
    ∙ (λ t. minus (first_code lens least (onward t) + count i lens) 1)
  where
    next :
        (first_code lens least j + (base_sums lens (n + 1) - base_sums lens n)) * 2
        ≡ (first_code lens least j + count (least + j) lens) * 2
    next =
        (λ t. (first_code lens least j + between lens n (omega arith) t) * 2)
        ∙ (λ t. (first_code lens least j + count (hn t) lens) * 2)

    onward : suc j + k ≡ j + suc k
    onward = omega arith

pub base_before :
    (limit : ℕ → ℤ) (rounds i k : ℕ) (base : ℕ → ℤ)
    → k < i
    → base_loop limit rounds i base k ≡ base k
unfolding base_loop
base_before limit zero i k base h = refl
base_before limit (suc rounds) i k base h =
    base_before limit rounds (i + 1) k _ (omega arith) ∙ ground arith

-- an entry of the loop is made of the limit before it
pub base_loop_lem :
    (limit : ℕ → ℤ) (rounds i k : ℕ) (base : ℕ → ℤ)
    → i ≤ k
    → k < i + rounds
    → base_loop limit rounds i base k ≡ double_ℤ (suc_ℤ (limit (k - 1))) -ℤ base k
unfolding base_loop
base_loop_lem limit zero i k base hk hr = absurd (omega arith)
base_loop_lem limit (suc rounds) i k base hk hr = elim (Bool-cases (k == i)) [
  | inl e ↦
      base_before limit rounds (i + 1) k _ (omega (arith, (==_iff k i).0 e))
      ∙ own ((==_iff k i).0 e)
  | inr e ↦
      base_loop_lem limit rounds (i + 1) k (write base i entry) (omega (arith, differ e))
        (omega arith)
      ∙ (λ t. double_ℤ (suc_ℤ (limit (k - 1))) -ℤ other e t)
]
  where
    entry : ℤ
    entry = double_ℤ (suc_ℤ (limit (i - 1))) -ℤ base i

    own : k ≡ i → write base i entry k ≡ double_ℤ (suc_ℤ (limit (k - 1))) -ℤ base k
    own e = here e ∙ (λ t. double_ℤ (suc_ℤ (limit (sym e t - 1))) -ℤ base (sym e t))
      where
        here : k ≡ i → write base i entry k ≡ entry
        here e = ground arith

    differ : (k == i) ≡ false → k ≢ i
    differ e = ground arith

    other : (k == i) ≡ false → write base i entry k ≡ base k
    other e = rw e refl
