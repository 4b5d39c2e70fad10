-- ===== src/Huffman/Tests.antt =====
-- Four symbols with codes of one to three digits.
use libqbz.Base.{
  ℕ, ◌≡◌, refl, arith, List, [], ◌∷◌, ◌^◌, ◌<◌, zero, suc, get_or, ltb, if◌then◌else◌, Bool-cases,
  inl, inr,
}
use libqbz.Bits.{bits, byte_bits}
use libqbz.Bits.Reader.{Reader}
use libqbz.Bits.Writer.{Writer, write_bits, need_write, need_loop, put_bits, flush_word, init_write}
use libqbz.Bits.Writer.Whole.{init_write-IsValid}
use libqbz.Huffman.{assign_codes, assign_row, assign_loop}
use libqbz.Huffman.Body.{first_cursor, decode_loop, Finds}
use libqbz.Huffman.Bounds.{assign_codes-lt}
use libqbz.Huffman.Codes.{assign_codes-canonical}
use libqbz.Huffman.Counts.{canonical}
use libqbz.Huffman.Range.{length_range, range_loop}
use libqbz.Huffman.RoundTrip.{decode_loop-send_groups}
use libqbz.Huffman.Send.{send_groups, send_group}
use libqbz.Huffman.Tabled.{table_of, min_len_of, code_of, Usable}
use libqbz.Huffman.Fast.Sound.{Holds, Sound}
use libqbz.Base.Ints.{ℤ, pos}
use mathlib.Core.Path.{subst}
use libqbz.Unmtf.{Symbols, symbols_loop, next_symbol, top_symbol, put_index, run_round, end_run}
use libqbz.Unmtf.{at_top, first_unmtf}

abbrev no_codes : ℕ → ℕ
no_codes k = 0

abbrev four_lens : List ℕ
four_lens = 3 ∷ 1 ∷ 2 ∷ 3 ∷ []

four_codes :
    (assign_codes no_codes four_lens 1 3 0 ≡ 6)
    × (assign_codes no_codes four_lens 1 3 1 ≡ 0)
    × (assign_codes no_codes four_lens 1 3 2 ≡ 2)
    × (assign_codes no_codes four_lens 1 3 3 ≡ 7)
unfolding assign_codes assign_loop assign_row
four_codes = (refl, refl, refl, refl)

assign_codes-canonical_example : assign_codes no_codes four_lens 1 3 2 ≡ canonical four_lens 1 2
assign_codes-canonical_example =
    assign_codes-canonical no_codes four_lens 1 3 2 (omega arith) (omega arith) (omega arith)

code_room :
    (v : ℕ)
    → v < 4
    → canonical four_lens ((length_range four_lens).least) v < 2 ^ get_or four_lens v 0
unfolding length_range range_loop
code_room zero h = omega arith
code_room (suc zero) h = omega arith
code_room (suc (suc zero)) h = omega arith
code_room (suc (suc (suc zero))) h = omega arith
code_room (suc (suc (suc (suc v)))) h = absurd (omega arith)

four_lens-Usable : Usable 4 four_lens
four_lens-Usable = (
  (
    omega arith,
    omega arith,
    (omega arith, omega arith, (omega arith, omega arith, (omega arith, omega arith, tt))),
  ),
  refl,
  code_room,
)

assign_codes-lt_example : assign_codes no_codes four_lens 1 3 3 < 2 ^ 29
assign_codes-lt_example =
    assign_codes-lt no_codes four_lens 1 3 3 (omega arith)
      (
        omega arith,
        omega arith,
        (omega arith, omega arith, (omega arith, omega arith, (omega arith, omega arith, tt))),
      )
      (omega arith) (omega arith) (omega arith)

abbrev blank : Writer
blank = init_write (record { bs_buff = 0; bs_live = 0; zbits = [] })

-- `decode_fast` for the four codes: the symbol 1 by one digit, 2 by two, 0 and 3 by three
abbrev entry_at : ℕ → ℕ
entry_at x =
    if ltb x 1024
    then 65537
    else if ltb x 1536
    then 131074
    else if ltb x 1792
    then 196608
    else 196611

abbrev four_fast : ℕ → ℕ → ℤ
four_fast g x = pos (entry_at x)

abbrev no_overflow : ℕ → ℕ → ℤ
no_overflow g x = pos 0

abbrev HoldsFour : ℕ → ℕ → Type 0
HoldsFour = Holds four_lens (code_of (λ g. four_lens) 0) 4 11

entry_at-Holds : (x : ℕ) → x < 2048 → HoldsFour x (entry_at x)
unfolding length_range range_loop
entry_at-Holds x h = elim (Bool-cases (ltb x 1024)) [
  | inl a ↦ rw a (record {
    known = omega arith;
    own_length = refl;
    within = omega arith;
    fits = omega arith;
    front = ground (arith, a);
  })
  | inr a ↦ elim (Bool-cases (ltb x 1536)) [
    | inl b ↦ rw a (
        rw b (record {
          known = omega arith;
          own_length = refl;
          within = omega arith;
          fits = omega arith;
          front = ground (arith, a, b);
        }))
    | inr b ↦ elim (Bool-cases (ltb x 1792)) [
      | inl c ↦ rw a (
          rw b (
            rw c (record {
              known = omega arith;
              own_length = refl;
              within = omega arith;
              fits = omega arith;
              front = ground (arith, b, c);
            })))
      | inr c ↦ rw a (
          rw b (
            rw c (record {
              known = omega arith;
              own_length = refl;
              within = omega arith;
              fits = omega arith;
              front = ground (arith, c, h);
            })))
    ]
  ]
]

four_fast-Sound : Sound (λ g. four_lens) (code_of (λ g. four_lens)) 4 four_fast no_overflow
four_fast-Sound = record {
  short = λ g x e h q. subst (HoldsFour x) (cc) (entry_at-Holds x (omega arith));
  long = λ g x m e h q. absurd (cc);
}

-- the codes 10, 110 and 111 of the symbols 2, 0 and 3, and three bytes behind them
abbrev coded_byte : Reader
coded_byte = record {
  bs_buff = 0;
  bs_live = 0;
  next_in = 0xb7 ∷ 0 ∷ 0 ∷ 0 ∷ [];
  total_in_lo32 = 0;
  total_in_hi32 = 0;
}

abbrev three_symbols : Symbols
three_symbols = symbols_loop (97 ∷ 98 ∷ []) 3 100000 (at_top first_unmtf) (2 ∷ 0 ∷ 3 ∷ [])

decode_loop-send_groups_example : Finds three_symbols (
    decode_loop
      (table_of (λ g. no_codes) (λ g. four_lens))
      (min_len_of (λ g. four_lens))
      (0 ∷ [])
      (97 ∷ 98 ∷ [])
      3
      100000
      four_fast
      no_overflow
      3
      (at_top first_unmtf)
      first_cursor
      coded_byte)
unfolding symbols_loop next_symbol top_symbol put_index run_round end_run send_groups send_group
    write_bits need_write need_loop put_bits flush_word bits byte_bits init_write assign_codes
    assign_loop assign_row length_range range_loop first_unmtf
decode_loop-send_groups_example =
    decode_loop-send_groups (λ g. no_codes) (λ g. no_codes) (λ g. four_lens) (0 ∷ []) (97 ∷ 98 ∷ [])
      4 3 100000 four_fast no_overflow (2 ∷ 0 ∷ 3 ∷ []) 3 (at_top first_unmtf) three_symbols blank
      coded_byte (byte_bits (0 ∷ 0 ∷ 0 ∷ [])) (λ g. four_lens-Usable) (omega arith) four_fast-Sound
      tt refl (λ x. x) (omega arith) (omega arith) (omega arith, (omega arith, (omega arith, tt)))
      (init_write-IsValid (record { bs_buff = 0; bs_live = 0; zbits = [] })).0 refl (omega arith)
      refl
