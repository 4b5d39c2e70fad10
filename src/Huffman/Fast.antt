-- ===== src/Huffman/Fast.antt =====
-- The look-up of a whole code in BZ2_decompress of src/decompress.c: the refill, the table
-- `decode_fast` over a window of 11 digits, and the table `decode_overflow` for longer codes.
pub mod Sound
pub mod Pull
use libqbz.Base.{ℕ, zero, suc, ◌+◌, ◌-◌, ◌/◌, ◌%◌, ◌^◌, List, [], ◌∷◌}
use libqbz.Base.{◌==◌, if◌then◌else◌, leb}
use libqbz.Base.Ints.{ℤ, pos, negsuc}
use libqbz.Bits.Reader.{Reader, refill_word}
use libqbz.Huffman.{Tables}
use libqbz.Huffman.Decode.{Cursor, Pulled, symbol, get_mtf_val}
use libqbz.Unmtf.{Symbols, at_top, in_run, ended, bad_data}

-- BZ_DECODE_TABLE_BITS
abbrev pub table_bits : ℕ
table_bits = 11

-- the refill, on `next_in`
unfoldable pub refill_some : List ℕ → Reader → Reader
refill_some (b0 ∷ b1 ∷ b2 ∷ b3 ∷ rest) r =
    if leb r.bs_live 32 then refill_word r b0 b1 b2 b3 rest else r
refill_some _ r = r

-- the `n` highest of the live digits, left where they are
abbrev pub window : ℕ → Reader → ℕ
window n r = r.bs_buff / 2 ^ (r.bs_live - n) % 2 ^ n

-- an entry that is positive: the length of a code and its symbol
abbrev pub code_length : ℕ → ℕ
code_length entry = entry / 2 ^ 16

abbrev pub symbol_of : ℕ → ℕ
symbol_of entry = entry % 2 ^ 16

-- a negative entry by what is under its sign: the digits more, and where they are looked up
abbrev pub extra_of : ℕ → ℕ
extra_of marker = marker % 16

abbrev pub place_of : ℕ → ℕ → ℕ
place_of marker more = marker / 16 + more

unfoldable pub hit : ℕ → Cursor → Reader → Pulled
hit entry c r =
    symbol (symbol_of entry) (record c { group_pos = c.group_pos - 1 })
      (record r { bs_live = r.bs_live - code_length entry })

module _ (tables : ℕ → Tables) (min_lens : ℕ → ℕ) (selector : List ℕ)
    (fast overflow : ℕ → ℕ → ℤ) where
  -- an entry of `decode_overflow`
  unfoldable pub on_overflow : ℤ → Cursor → Reader → Pulled
  on_overflow (pos (suc e)) c r = hit (suc e) c r
  on_overflow _ c r = get_mtf_val tables min_lens selector c r

  -- an entry of `decode_fast`
  unfoldable pub on_entry : ℤ → Cursor → Reader → Pulled
  on_entry (pos (suc e)) c r = hit (suc e) c r
  on_entry (pos zero) c r = get_mtf_val tables min_lens selector c r
  on_entry (negsuc m) c r =
      if leb (table_bits + extra_of m) r.bs_live
      then on_overflow
          (overflow c.g_sel
            (place_of m (r.bs_buff / 2 ^ (r.bs_live - (table_bits + extra_of m)) % 2 ^ extra_of m)))
          c r
      else get_mtf_val tables min_lens selector c r

  -- where `groupPos > 0`, with the refill done
  unfoldable pub look_fast : Cursor → Reader → Pulled
  look_fast c r =
      if leb table_bits r.bs_live
      then on_entry (fast c.g_sel (window table_bits r)) c r
      else get_mtf_val tables min_lens selector c r

  -- The next symbol: behind an index, by the tables where the group goes on; within a run, and for the
  -- first symbol, by GET_MTF_VAL.
  unfoldable pub pull : Symbols → Cursor → Reader → Pulled
  pull (at_top s) c r =
      if c.group_pos == 0
      then get_mtf_val tables min_lens selector c r
      else look_fast c (refill_some r.next_in r)
  pull (in_run es n s) c r = get_mtf_val tables min_lens selector c r
  pull (ended s) c r = get_mtf_val tables min_lens selector c r
  pull bad_data c r = get_mtf_val tables min_lens selector c r
