-- ===== src/Cycle.antt =====
-- The inverse of the block sorting in src/decompress.c, and the macros and the function that walk it
-- byte by byte: BZ_GET_FAST, BZ_GET_SMALL, SET_LL, GET_LL and the macros of the randomisation, of
-- src/qbz2_internal.h, and BZ2_indexIntoF, of src/bzlib.c. An array is the function from an index to
-- what stands there; a mask of the lowest digits is written with `%`.
pub mod Table
pub mod Nibbles
pub mod Chain
pub mod Search
mod Tests
use libqbz.Base.{
  ℕ, zero, suc, ◌+◌, ◌-◌, ◌*◌, ◌/◌, ◌%◌, ◌^◌, List, Bool, true, false, ◌&&◌, ◌||◌, not,
}
use libqbz.Base.{Option, some, none, bit_or, bit_xor, leb, ltb, ◌==◌, if◌then◌else◌, get_or}
use libqbz.Huffman.{write, sum_loop}
use libqbz.Unrle.{Run, Sink, Unrle, slow_loop, fast_output}
use Table.{r_nums}

-- the loop of BZ2_indexIntoF; it has 256 entries to search, and its fuel is as much
unfoldable pub index_loop : ℕ → ℕ → (ℕ → ℕ) → ℕ → ℕ → Option ℕ
index_loop zero indx cftab nb na = none
index_loop (suc rounds) indx cftab nb na =
    let mid = (nb + na) / 2 in
    let low = if leb (cftab mid) indx then mid else nb in
    let high = if leb (cftab mid) indx then na else mid in
    let rest = index_loop rounds indx cftab low high in if high - low == 1 then some low else rest

-- BZ2_indexIntoF
unfoldable pub index_into_f : ℕ → (ℕ → ℕ) → Option ℕ
index_into_f indx cftab = index_loop 256 indx cftab 0 256

-- the links of the small mode: 16 digits in `ll16`, and four more, two to a byte, in `ll4`
pub record Links : Type 0 where
  pub ll16 : ℕ → ℕ
  pub ll4 : ℕ → ℕ

-- SET_LL4
unfoldable pub set_ll4 : (ℕ → ℕ) → ℕ → ℕ → ℕ → ℕ
set_ll4 ll4 i n =
    let b = ll4 (i / 2) in
    if i % 2 == 0
    then write ll4 (i / 2) (bit_or (b / 2 ^ 4 % 2 ^ 4 * 2 ^ 4) n)
    else write ll4 (i / 2) (bit_or (n * 2 ^ 4) (b % 2 ^ 4))

-- GET_LL4; the shift by (i << 2) & 4 is by the lowest digit of i, four times
unfoldable pub get_ll4 : (ℕ → ℕ) → ℕ → ℕ
get_ll4 ll4 i = ll4 (i / 2) / 2 ^ (i % 2 * 4) % 2 ^ 4

-- SET_LL
unfoldable pub set_ll : Links → ℕ → ℕ → Links
set_ll ls i n = record { ll16 = write ls.ll16 i (n % 2 ^ 16); ll4 = set_ll4 ls.ll4 i (n / 2 ^ 16) }

-- GET_LL
unfoldable pub get_ll : Links → ℕ → ℕ
get_ll ls i = bit_or (get_ll4 ls.ll4 i * 2 ^ 16) (ls.ll16 i)

-- BZ_GET_FAST and BZ_GET_FAST_C, on `tPos`; `none` is a return of True
unfoldable pub get_fast : ℕ → (ℕ → ℕ) → ℕ → Option (ℕ × ℕ)
get_fast block_size100k tvec t_pos =
    if leb (100000 * block_size100k) t_pos
    then none
    else some (tvec t_pos % 2 ^ 8, tvec t_pos / 2 ^ 8)

-- BZ_GET_SMALL
unfoldable pub get_small : ℕ → (ℕ → ℕ) → Links → ℕ → Option (ℕ × ℕ)
get_small block_size100k cftab ls t_pos =
    if leb (100000 * block_size100k) t_pos
    then none
    else with_byte (index_into_f t_pos cftab) (get_ll ls t_pos)
  where
    with_byte : Option ℕ → ℕ → Option (ℕ × ℕ)
    with_byte none next = none
    with_byte (some cccc) next = some (cccc, next)

-- BZ_RAND_DECLS
pub record Rand : Type 0 where
  pub r_n_to_go : ℕ
  pub r_t_pos : ℕ

-- BZ_RAND_INIT_MASK
abbrev pub first_rand : Rand
first_rand = record { r_n_to_go = 0; r_t_pos = 0 }

-- BZ_RAND_UPD_MASK
unfoldable pub upd_mask : Rand → Rand
upd_mask r =
    if r.r_n_to_go == 0
    then record {
      r_n_to_go = get_or r_nums r.r_t_pos 0 - 1;
      r_t_pos = if r.r_t_pos + 1 == 512 then 0 else r.r_t_pos + 1;
    }
    else record r { r_n_to_go = r.r_n_to_go - 1 }

-- BZ_RAND_MASK
unfoldable pub rand_mask : Rand → ℕ
rand_mask r = if r.r_n_to_go == 1 then 1 else 0

-- a byte of a randomised block: BZ_GET_FAST or BZ_GET_SMALL, BZ_RAND_UPD_MASK, and the mask
unfoldable pub get_random : {S : Type 0} → (S → Option (ℕ × S)) → S × Rand → Option (ℕ × (S × Rand))
get_random {S} get_byte (g, r) = masked (get_byte g)
  where
    masked : Option (ℕ × S) → Option (ℕ × (S × Rand))
    masked none = none
    masked (some (k1, h)) = some (bit_xor k1 (rand_mask (upd_mask r)), (h, upd_mask r))

-- whether a test holds for `i`, `i + 1`, … in as many rounds
unfoldable pub check_loop : (ℕ → Bool) → ℕ → ℕ → Bool
check_loop test zero i = true
check_loop test (suc rounds) i =
    let rest = check_loop test rounds (i + 1) in if test i then rest else false

-- `cftab` out of `unzftab`
unfoldable pub make_cftab : (ℕ → ℕ) → ℕ → ℕ
make_cftab unzftab = sum_loop 256 1 (λ i. if i == 0 then 0 else unzftab (i - 1))

-- the checks of `origPtr`, `unzftab` and `cftab`
unfoldable pub block_ok : ℕ → ℕ → (ℕ → ℕ) → Bool
block_ok orig_ptr nblock unzftab =
    let cftab = make_cftab unzftab in
    not (leb nblock orig_ptr)
    && check_loop (λ i. leb (unzftab i) nblock) 256 0
    && check_loop (λ i. leb (cftab i) nblock) 257 0
    && check_loop (λ i. leb (cftab (i - 1)) (cftab i)) 256 1

-- the loop that puts the links over the bytes of `tt`
unfoldable pub link_loop : ℕ → ℕ → (ℕ → ℕ) → (ℕ → ℕ) → ℕ → ℕ
link_loop zero i cftab tvec = tvec
link_loop (suc rounds) i cftab tvec =
    let uc = tvec i % 2 ^ 8 in
    link_loop rounds (i + 1) (write cftab uc (cftab uc + 1))
      (write tvec (cftab uc) (bit_or (i * 2 ^ 8 % 2 ^ 32) (tvec (cftab uc))))

-- the loop that makes the links of the small mode
unfoldable pub small_loop : ℕ → ℕ → (ℕ → ℕ) → Links → Links
small_loop zero i cftab_copy ls = ls
small_loop (suc rounds) i cftab_copy ls =
    let uc = ls.ll16 i % 2 ^ 8 in
    small_loop rounds (i + 1) (write cftab_copy uc (cftab_copy uc + 1))
      (set_ll ls i (cftab_copy uc))

-- the reversal of the pointers, from `i` with `j` after it; `none` is the end of the fuel
unfoldable pub reverse_loop : ℕ → ℕ → ℕ → ℕ → Links → Option Links
reverse_loop zero orig_ptr i j ls = none
reverse_loop (suc rounds) orig_ptr i j ls =
    let rest = reverse_loop rounds orig_ptr j (get_ll ls j) (set_ll ls j i) in
    if j == orig_ptr then some (set_ll ls j i) else rest

-- The four loops of the output functions, by what their macros read. `rounds` is the fuel.
module _ (save_nblock block_size100k rounds : ℕ) where
  -- unRLE_obuf_to_output_FAST on a randomised block
  unfoldable pub output_fast_random : (ℕ → ℕ) → Run (ℕ × Rand) → Sink → Unrle (ℕ × Rand)
  output_fast_random tvec = slow_loop (get_random (get_fast block_size100k tvec)) save_nblock rounds

  -- and on another one; `addr` is the address of the next byte of output
  unfoldable pub output_fast : (Sink → ℕ) → (ℕ → ℕ) → Run ℕ → Sink → Unrle ℕ
  output_fast addr tvec = fast_output (get_fast block_size100k tvec) save_nblock addr rounds

  -- unRLE_obuf_to_output_SMALL on a randomised block
  unfoldable pub output_small_random : (ℕ → ℕ) → Links → Run (ℕ × Rand) → Sink → Unrle (ℕ × Rand)
  output_small_random cftab ls =
      slow_loop (get_random (get_small block_size100k cftab ls)) save_nblock rounds

  -- and on another one
  unfoldable pub output_small : (ℕ → ℕ) → Links → Run ℕ → Sink → Unrle ℕ
  output_small cftab ls = slow_loop (get_small block_size100k cftab ls) save_nblock rounds
