-- ===== src/Huffman/RoundTrip.antt =====
-- What sendMTFValues writes of the symbols of a block, BZ2_decompress reads.
use mathlib.Core.Path.{subst}
use libqbz.Base.{ℕ, zero, suc, ◌*◌, ◌≤◌, ◌<◌, ◌^◌, List, [], ◌∷◌, ◌++◌, get_or, length}
use libqbz.Base.{◌≡◌, refl, ap, ap₂, ◌∙◌, sym, arith}
use libqbz.Bits.{bits}
use libqbz.Bits.Reader.{Reader}
use libqbz.Bits.Reader.Laws as Reading
use libqbz.Bits.Writer.{Writer}
use libqbz.Bits.Writer.Laws as Written
use libqbz.Huffman.{assign_codes}
use libqbz.Huffman.Body.{first_cursor, decode_loop, Finds, AtSymbol}
use libqbz.Huffman.Codes.{assign_codes-canonical}
use libqbz.Huffman.Decode.{max_alpha_size, g_size}
use libqbz.Huffman.Range.{length_range, length_range-AllWithin, AllWithin-at}
use libqbz.Huffman.Send.{coded, AllBelow, send_groups, send_groups-contents}
use libqbz.Base.Ints.{ℤ}
use libqbz.Huffman.Fast.Sound.{Sound}
use libqbz.Huffman.Tabled.{table_of, min_len_of, code_of, Usable}
use libqbz.Huffman.Whole.{Over, decode_loop-Finds}
use libqbz.Unmtf.{Symbols, symbols_loop}

-- the codes that sendMTFValues assigns to the symbols of each group
abbrev pub assigned : (ℕ → ℕ → ℕ) → (ℕ → List ℕ) → ℕ → ℕ → ℕ
assigned code lens g =
    let range = length_range (lens g) in assign_codes (code g) (lens g) range.least range.most

-- only the codes of the symbols that are sent matter
coded-ext :
    (lens : ℕ → List ℕ) (code other : ℕ → ℕ → ℕ) (alpha g left : ℕ) (sels vs : List ℕ)
    → ((h v : ℕ) → v < alpha → code h v ≡ other h v)
    → AllBelow alpha vs
    → coded lens code g left sels vs ≡ coded lens other g left sels vs
coded-ext lens code other alpha g left sels [] same h = refl
coded-ext lens code other alpha g zero [] (v ∷ vs) same h = refl
coded-ext lens code other alpha g zero (s ∷ ss) (v ∷ vs) same h =
    ap₂ ◌++◌ (ap (bits (get_or (lens s) v 0)) (same s v h.0))
      (coded-ext lens code other alpha s 49 ss vs same h.1)
coded-ext lens code other alpha g (suc left) sels (v ∷ vs) same h =
    ap₂ ◌++◌ (ap (bits (get_or (lens g) v 0)) (same g v h.0))
      (coded-ext lens code other alpha g left sels vs same h.1)

assigned_lem :
    (code : ℕ → ℕ → ℕ) (lens : ℕ → List ℕ) (alpha : ℕ)
    → ((g : ℕ) → Usable alpha (lens g))
    → (g v : ℕ) → v < alpha
    → assigned code lens g v ≡ code_of lens g v
assigned_lem code lens alpha ok g v h =
    let range = length_range-AllWithin (lens g) ((ok g).0) in
    let own =
      AllWithin-at (min_len_of lens g) ((length_range (lens g)).most) (lens g) v range.0
        (omega (arith, (ok g).1)) in
    assign_codes-canonical (code g) (lens g) (min_len_of lens g) ((length_range (lens g)).most) v
      (omega (arith, (ok g).1)) (own.0) own.1

-- For at most 258 symbols whose code lengths, from 1 to 20, leave room for their codes in every
-- group, a selector for every 50 symbols sent, and look-up tables decode_fast and decode_overflow of
-- which every entry that stands for a symbol stands where the symbol's code leads (Sound; entries may
-- be missing, up to all of them): where symbols bring the decoder to EOB or to an error, the loop of
-- BZ2_decompress, by those tables and by GET_MTF_VAL with the tables of BZ2_hbCreateDecodeTables,
-- comes to that same end on what sendMTFValues appends to the stream for them by the codes of
-- BZ2_hbAssignCodes.
pub decode_loop-send_groups :
    (code perm : ℕ → ℕ → ℕ) (lens : ℕ → List ℕ) (selector seqs : List ℕ) (alpha eob max : ℕ)
    (fast overflow : ℕ → ℕ → ℤ) (vs : List ℕ) (rounds : ℕ) (st t : Symbols) (s : Writer)
    (r : Reader) (rest : List ℕ)
    → ((g : ℕ) → Usable alpha (lens g))
    → alpha ≤ max_alpha_size
    → Sound lens (code_of lens) alpha fast overflow
    → AtSymbol st
    → symbols_loop seqs eob max st vs ≡ t
    → Over t
    → length vs ≤ rounds
    → length vs ≤ g_size * length selector
    → AllBelow alpha vs
    → Written.IsValid s
    → Written.contents s ≡ []
    → Reading.IsValid r
    → Reading.contents r
      ≡ Written.contents (send_groups lens (assigned code lens) selector vs s) ++ rest
    → Finds t (
        decode_loop
          (table_of perm lens)
          (min_len_of lens)
          selector
          seqs
          eob
          max
          fast
          overflow
          rounds
          st
          first_cursor
          r)
decode_loop-send_groups code perm lens selector seqs alpha eob max fast overflow vs rounds st t s r
      rest ok ha sound a e o hn hs h ks es kr er =
    decode_loop-Finds perm lens selector seqs alpha eob max ok ha fast overflow sound vs rounds st t
      r rest a e o hn hs h kr
      (er
        ∙ ap (λ t. t ++ rest)
            ((send_groups-contents lens (assigned code lens) alpha fit 0 selector vs s h ks).1
              ∙ ap₂ ◌++◌ es (
                  coded-ext lens (assigned code lens) (code_of lens) alpha 0 0 selector vs
                    (assigned_lem code lens alpha ok) h)))
  where
    fit :
        (g v : ℕ)
        → v < alpha
        → (1 ≤ get_or (lens g) v 0)
          × (get_or (lens g) v 0 ≤ 20)
          × (assigned code lens g v < 2 ^ get_or (lens g) v 0)
    fit g v h =
        let own = AllWithin-at 1 20 (lens g) v ((ok g).0) (omega (arith, (ok g).1)) in
        (
          own.0,
          own.1,
          subst (λ x. x < 2 ^ get_or (lens g) v 0) (sym (assigned_lem code lens alpha ok g v h))
              ((ok g).2 v h),
        )
