-- ===== src/Huffman.antt =====
-- The codes and the decoding tables of src/huffman.c. An array is the function from an index to the
-- value that stands there; `lens` lists the `alphaSize` code lengths.
use libqbz.Base.{ℕ, zero, suc, ◌+◌, ◌-◌, ◌*◌, List, [], ◌∷◌, ◌==◌, if◌then◌else◌}
pub mod Counts
pub mod Codes
pub mod Perm
pub mod Limits
pub mod Range
pub mod Decode
pub mod Fast
pub mod Prefix
pub mod Fits
pub mod Symbol
pub mod Tabled
pub mod Send
pub mod Body
pub mod Whole
pub mod RoundTrip
pub mod Bounds
mod Tests
use libqbz.Base.Ints.{ℤ, pos, minus, suc_ℤ, double_ℤ, ◌-ℤ◌}

-- `a[i] = v`
abbrev pub write {ℓ} : {A : Type ℓ} → (ℕ → A) → ℕ → A → ℕ → A
write a i v k = if k == i then v else a k

-- an array that is filled, and the variable that moves with it: `vec` of the codes, `pp` of `perm`
pub record Filled : Type 0 where
  pub next : ℕ
  pub array : ℕ → ℕ

-- the inner loop of BZ2_hbAssignCodes, from the symbol `i` on
unfoldable pub assign_row : List ℕ → ℕ → ℕ → Filled → Filled
assign_row [] n i s = s
assign_row (l ∷ ls) n i s =
    assign_row ls n (i + 1)
      (if l == n then record { next = s.next + 1; array = write s.array i s.next } else s)

-- the outer loop, with `rounds` left
unfoldable pub assign_loop : List ℕ → ℕ → ℕ → Filled → Filled
assign_loop lens zero n s = s
assign_loop lens (suc rounds) n s =
    let t = assign_row lens n 0 s in
    assign_loop lens rounds (n + 1) (record t { next = t.next * 2 })

-- BZ2_hbAssignCodes; the bounds of `vec`, an Int32, are in Huffman/Bounds
unfoldable pub assign_codes : (ℕ → ℕ) → List ℕ → ℕ → ℕ → ℕ → ℕ
assign_codes code lens min_len max_len =
    let s = assign_loop lens (max_len + 1 - min_len) min_len (record { next = 0; array = code }) in
    s.array

-- the loop that fills `perm` with the symbols of the length `i`, from the symbol `j` on
unfoldable pub perm_row : List ℕ → ℕ → ℕ → Filled → Filled
perm_row [] i j s = s
perm_row (l ∷ ls) i j s =
    perm_row ls i (j + 1)
      (if l == i then record { next = s.next + 1; array = write s.array s.next j } else s)

unfoldable pub perm_loop : List ℕ → ℕ → ℕ → Filled → Filled
perm_loop lens zero i s = s
perm_loop lens (suc rounds) i s = perm_loop lens rounds (i + 1) (perm_row lens i 0 s)

-- `base[length[i]+1]++`
unfoldable pub count_loop : List ℕ → (ℕ → ℕ) → ℕ → ℕ
count_loop [] base = base
count_loop (l ∷ ls) base = count_loop ls (write base (l + 1) (base (l + 1) + 1))

-- `base[i] += base[i-1]`
unfoldable pub sum_loop : ℕ → ℕ → (ℕ → ℕ) → ℕ → ℕ
sum_loop zero i base = base
sum_loop (suc rounds) i base = sum_loop rounds (i + 1) (write base i (base i + base (i - 1)))

-- the loop of `limit`; the sums in `base` do not fall, so that the subtraction is exact
unfoldable pub limit_loop : (ℕ → ℕ) → ℕ → ℕ → ℕ → (ℕ → ℤ) → ℕ → ℤ
limit_loop base zero i vec limit = limit
limit_loop base (suc rounds) i vec limit =
    let more = vec + (base (i + 1) - base i) in
    limit_loop base rounds (i + 1) (more * 2) (write limit i (minus more 1))

-- the loop that makes `base` what is taken off a code of the length `i`
unfoldable pub base_loop : (ℕ → ℤ) → ℕ → ℕ → (ℕ → ℤ) → ℕ → ℤ
base_loop limit zero i base = base
base_loop limit (suc rounds) i base =
    base_loop limit rounds (i + 1) (write base i (double_ℤ (suc_ℤ (limit (i - 1))) -ℤ base i))

-- BZ_MAX_CODE_LEN
abbrev pub max_code_len : ℕ
max_code_len = 23

pub record Tables : Type 0 where
  pub limit : ℕ → ℤ
  pub base : ℕ → ℤ
  pub perm : ℕ → ℕ

-- `base` after its sums; the entries from BZ_MAX_CODE_LEN on are not of the array
unfoldable pub base_sums : List ℕ → ℕ → ℕ
base_sums lens = sum_loop (max_code_len - 1) 1 (count_loop lens (λ i. 0))

-- BZ2_hbCreateDecodeTables, `perm` being what the array holds before
unfoldable pub create_decode_tables : (ℕ → ℕ) → List ℕ → ℕ → ℕ → Tables
create_decode_tables perm lens min_len max_len =
    let filled =
      perm_loop lens (max_len + 1 - min_len) min_len (record { next = 0; array = perm }) in
    let sums = base_sums lens in
    let limits = limit_loop sums (max_len + 1 - min_len) min_len 0 (λ i. pos 0) in
    record {
      limit = limits;
      base = base_loop limits (max_len - min_len) (min_len + 1) (λ i. pos (sums i));
      perm = filled.array;
    }
