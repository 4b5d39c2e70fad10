-- ===== src/Huffman/Decode.antt =====
-- GET_MTF_VAL of src/decompress.c: the next symbol of a block, out of the groups of 50 symbols that
-- have a table each. The variables of the macro that a return saves make a cursor.
use libqbz.Base.{ℕ, zero, suc, ◌+◌, ◌-◌, ◌*◌, ◌%◌, ◌^◌, List, bit_or}
use libqbz.Base.{◌==◌, if◌then◌else◌, ltb, leb, get_or, length}
use libqbz.Base.Ints.{ℤ, pos, negsuc, ◌-ℤ◌, leb_ℤ}
use libqbz.Bits.Reader.{Reader, Fetch, got, starved, get_bits}
use libqbz.Huffman.{Tables}

-- `groups_begun` is `groupNo + 1`, since `groupNo` begins with -1. `gMinlen`, `gLimit`, `gPerm` and
-- `gBase` are what stands at `gSel` in the tables.
pub record Cursor : Type 0 where
  pub groups_begun : ℕ
  pub group_pos : ℕ
  pub g_sel : ℕ
  pub zn : ℕ
  pub zvec : ℕ

-- a symbol, a return of BZ_OK at the first or the second label, or a return of BZ_DATA_ERROR
pub data Pulled : Type 0 where
  symbol : ℕ → Cursor → Reader → Pulled
  wait_code : Cursor → Reader → Pulled
  wait_digit : Cursor → Reader → Pulled
  bad_code : Cursor → Reader → Pulled

-- BZ_MAX_ALPHA_SIZE and BZ_G_SIZE
abbrev pub max_alpha_size : ℕ
max_alpha_size = 258

abbrev pub g_size : ℕ
g_size = 50

module _ (tables : ℕ → Tables) (min_lens : ℕ → ℕ) (selector : List ℕ) where
  -- `gPerm[zvec - gBase[zn]]` and the checks before it
  unfoldable pub look_up : ℤ → Cursor → Reader → Pulled
  look_up (pos n) c r =
      if leb max_alpha_size n then bad_code c r else symbol ((tables c.g_sel).perm n) c r
  look_up (negsuc n) c r = bad_code c r

  -- what follows the second GET_BIT
  unfoldable pub on_digit : (Cursor → Reader → Pulled) → Cursor → Fetch → Pulled
  on_digit more c (got zj r) = more (record c { zvec = bit_or (c.zvec * 2 % 2 ^ 32) zj }) r
  on_digit more c (starved r) = wait_digit c r

  -- the loop, of which 21 - `zn` rounds are left
  unfoldable pub code_loop : ℕ → Cursor → Reader → Pulled
  code_loop zero c r = bad_code c r
  code_loop (suc rounds) c r =
      if ltb 20 c.zn
      then bad_code c r
      else if leb_ℤ (pos c.zvec) ((tables c.g_sel).limit c.zn)
      then look_up (pos c.zvec -ℤ (tables c.g_sel).base c.zn) c r
      else on_digit (code_loop rounds) (record c { zn = c.zn + 1 }) (get_bits 1 r)

  -- what follows the first GET_BITS
  unfoldable pub on_code : Cursor → Fetch → Pulled
  on_code c (got v r) = code_loop (21 - c.zn) (record c { zvec = v }) r
  on_code c (starved r) = wait_code c r

  -- the code from the first label on: `groupPos--` is done
  unfoldable pub from_code : Cursor → Reader → Pulled
  from_code c r = on_code c (get_bits c.zn r)

  -- from the second label on
  unfoldable pub from_digit : Cursor → Reader → Pulled
  from_digit c r = on_digit (code_loop (21 - c.zn)) c (get_bits 1 r)

  -- `groupPos--` and `zn = gMinlen`
  abbrev pub step_group : Cursor → Cursor
  step_group c = record c { group_pos = c.group_pos - 1; zn = min_lens c.g_sel }

  -- the next group
  abbrev pub next_group : Cursor → Cursor
  next_group c = record c {
    groups_begun = c.groups_begun + 1;
    group_pos = g_size;
    g_sel = get_or selector c.groups_begun 0;
  }

  -- GET_MTF_VAL; `nSelectors` is the length of `selector`
  unfoldable pub get_mtf_val : Cursor → Reader → Pulled
  get_mtf_val c r =
      if c.group_pos == 0
      then if leb (length selector) c.groups_begun
        then bad_code (record c { groups_begun = c.groups_begun + 1 }) r
        else from_code (step_group (next_group c)) r
      else from_code (step_group c) r
