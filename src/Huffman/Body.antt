-- ===== src/Huffman/Body.antt =====
-- The loop of BZ2_decompress over the symbols of a block: the next symbol, and what is done with the
-- symbol, until EOB or an error. `fast` and `overflow` are the tables decode_fast and decode_overflow.
use libqbz.Base.{ℕ, zero, suc, List, ◌≡◌}
use libqbz.Bits.Reader.{Reader}
use libqbz.Huffman.{Tables}
use libqbz.Huffman.Decode.{Cursor, Pulled, symbol, wait_code, wait_digit, bad_code}
use libqbz.Huffman.Fast.{pull}
use libqbz.Base.Ints.{ℤ}
use libqbz.Unmtf.{Symbols, at_top, in_run, ended, bad_data, next_symbol}

-- the loop came to its end, or GET_MTF_VAL returned; `spent` is the end of the fuel
pub data Body : Type 0 where
  finished : Symbols → Cursor → Reader → Body
  returned : Symbols → Pulled → Body
  spent : Body

-- groupNo = -1, groupPos = 0
abbrev pub first_cursor : Cursor
first_cursor = record { groups_begun = 0; group_pos = 0; g_sel = 0; zn = 0; zvec = 0 }

module _ (tables : ℕ → Tables) (min_lens : ℕ → ℕ) (selector seqs : List ℕ) (eob max : ℕ)
    (fast overflow : ℕ → ℕ → ℤ) where
  -- what follows a symbol
  unfoldable pub settle : (Symbols → Cursor → Reader → Body) → Symbols → Cursor → Reader → Body
  settle more (at_top s) c r = more (at_top s) c r
  settle more (in_run es n s) c r = more (in_run es n s) c r
  settle more (ended s) c r = finished (ended s) c r
  settle more bad_data c r = finished bad_data c r

  unfoldable pub on_pulled : (Symbols → Cursor → Reader → Body) → Symbols → Pulled → Body
  on_pulled more st (symbol v c r) = settle more (next_symbol seqs eob max st v) c r
  on_pulled more st (wait_code c r) = returned st (wait_code c r)
  on_pulled more st (wait_digit c r) = returned st (wait_digit c r)
  on_pulled more st (bad_code c r) = returned st (bad_code c r)

  unfoldable pub decode_loop : ℕ → Symbols → Cursor → Reader → Body
  decode_loop zero st c r = spent
  decode_loop (suc rounds) st c r =
      on_pulled (decode_loop rounds) st (pull tables min_lens selector fast overflow st c r)

-- The loop came to its end in the state `t`.
abbrev pub Finds : Symbols → Body → Type 0
Finds t (finished s c r) = s ≡ t
Finds t (returned s p) = ⊥
Finds t spent = ⊥

-- The decoder is at a symbol.
abbrev pub AtSymbol : Symbols → Type 0
AtSymbol (at_top s) = Unit
AtSymbol (in_run es n s) = Unit
AtSymbol (ended s) = ⊥
AtSymbol bad_data = ⊥
