-- ===== src/Huffman/Tabled.antt =====
-- The tables of a group, and GET_MTF_VAL on the codes of its symbols.
use libqbz.Base.{ℕ, ◌≤◌, ◌<◌, ◌^◌, List, ◌++◌, get_or}
use libqbz.Base.{◌≡◌, arith, length}
use libqbz.Bits.{bits}
use libqbz.Bits.Reader.{Reader}
use libqbz.Bits.Reader.Laws.{contents, IsValid}
use libqbz.Huffman.{Tables, create_decode_tables}
use libqbz.Huffman.Counts.{canonical}
use libqbz.Huffman.Decode.{Cursor}
use libqbz.Huffman.Decode.{from_code, max_alpha_size}
use libqbz.Huffman.Fits.{create_decode_tables-Fits}
use libqbz.Huffman.Range.{AllWithin, length_range, length_range-AllWithin}
use libqbz.Huffman.Symbol.{Yields, from_code-Yields}

-- the tables that BZ2_decompress builds out of the code lengths of each group
abbrev pub table_of : (ℕ → ℕ → ℕ) → (ℕ → List ℕ) → ℕ → Tables
table_of perm lens g =
    let range = length_range (lens g) in
    create_decode_tables (perm g) (lens g) range.least range.most

abbrev pub min_len_of : (ℕ → List ℕ) → ℕ → ℕ
min_len_of lens g = (length_range (lens g)).least

abbrev pub code_of : (ℕ → List ℕ) → ℕ → ℕ → ℕ
code_of lens g v = canonical (lens g) (min_len_of lens g) v

-- Lengths from 1 to 20 for `alpha` symbols, whose codes fit in them.
abbrev pub Usable : ℕ → List ℕ → Type 0
Usable alpha lens =
    AllWithin 1 20 lens
    × (length lens ≡ alpha)
    × ((v : ℕ) → v < alpha → canonical lens ((length_range lens).least) v < 2 ^ get_or lens v 0)

module _ (perm : ℕ → ℕ → ℕ) (lens : ℕ → List ℕ) (selector : List ℕ) (alpha : ℕ)
    (ok : (g : ℕ) → Usable alpha (lens g)) (ha : alpha ≤ max_alpha_size) where
  pub from_code-reads :
      (v : ℕ) (c : Cursor) (r : Reader) (rest : List ℕ)
      → v < alpha
      → c.zn ≡ min_len_of lens c.g_sel
      → IsValid r
      → contents r ≡ bits (get_or (lens c.g_sel) v 0) (code_of lens c.g_sel v) ++ rest
      → Yields v c rest (from_code (table_of perm lens) (min_len_of lens) selector c r)
  from_code-reads v c r rest h hz k e =
      let u = ok c.g_sel in
      let range = length_range-AllWithin (lens c.g_sel) (u.0) in
      from_code-Yields (table_of perm lens) (min_len_of lens) selector (lens c.g_sel)
        (min_len_of lens c.g_sel) ((length_range (lens c.g_sel)).most) range.0 range.2
        (omega (arith, u.1, ha)) v c r rest (omega (arith, u.1, h))
        (create_decode_tables-Fits (lens c.g_sel) (min_len_of lens c.g_sel)
          ((length_range (lens c.g_sel)).most) range.0 range.2 (perm c.g_sel))
        (u.2 v h) hz k e
