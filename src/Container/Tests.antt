-- ===== src/Container/Tests.antt =====
-- The parser on a short input, and on a trailer.
use libqbz.Base.{ℕ, ◌≡◌, refl, arith, List, [], ◌∷◌, ◌++◌, Bool, true, false, none}
use libqbz.Bits.{byte_bits, bits}
use libqbz.Bits.Reader.{Reader}
use libqbz.Bits.Reader.Laws.{contents}
use libqbz.Bits.Writer.{Writer, init_write}
use libqbz.Bits.Writer.Whole.{init_write-IsValid}
use libqbz.Compress.Types.{stream_end}
use libqbz.Container.Trailer.{
  parse-write_trailer, Stops, trailer_digits, magic, byte0, byte1, byte2, byte3,
}
use libqbz.Decompress.Types.{DState, Saved, zero_saved, restore, blkhdr_1, coding_1, idle}
use libqbz.Decompress.Checks.{ExitChecked, switch-ExitChecked}
use libqbz.Decompress.Parse.{parse, switch}

abbrev enough_memory : ℕ → Bool
enough_memory n = true

abbrev opened : DState
opened = record {
  state = coding_1;
  small_decompress = false;
  block_size100k = 0;
  curr_block_no = 0;
  tt = none;
  ll16 = none;
  ll4 = none;
  stored_block_crc = 0;
  stored_combined_crc = 0;
  block_randomised = 0;
  orig_ptr = 0;
  in_use16 = λ k. false;
  in_use = λ k. false;
  seq_to_unseq = [];
  selector_mtf = λ k. 0;
  selector = [];
  len = λ g k. 0;
}

abbrev reading : List ℕ → Reader
reading bs = record { bs_buff = 0; bs_live = 0; next_in = bs; total_in_lo32 = 0; total_in_hi32 = 0 }

-- two tables of three code lengths each are to be read
abbrev two_tables : Saved
unfolding zero_saved
two_tables = record zero_saved { save_n_groups = 2; save_alpha_size = 3 }

-- both tables at once
switch-ExitChecked_example :
    ExitChecked
      (switch enough_memory coding_1 opened (restore two_tables) (reading (0x28 ∷ 0x28 ∷ [])))
unfolding two_tables restore zero_saved
switch-ExitChecked_example =
    switch-ExitChecked enough_memory coding_1 opened (restore two_tables)
      (reading (0x28 ∷ 0x28 ∷ []))
      (omega arith, (omega arith, omega arith), λ g k hg hk. absurd (omega (arith, hg)))

abbrev started : Writer
started = init_write (record { bs_buff = 0; bs_live = 0; zbits = [] })

abbrev added : List ℕ
unfolding bits byte_bits
added = byte_bits (magic (byte3 7 ∷ byte2 7 ∷ byte1 7 ∷ [])) ++ bits 8 (byte0 7)

-- The first four digits are in the buffer; four digits and a byte follow the trailer.
abbrev reading_trailer : Reader
reading_trailer = record {
  bs_buff = 1;
  bs_live = 4;
  next_in = 0x77 ∷ 0x24 ∷ 0x53 ∷ 0x85 ∷ 0x09 ∷ 0 ∷ 0 ∷ 0 ∷ 0 ∷ 0x70 ∷ 0x42 ∷ [];
  total_in_lo32 = 1;
  total_in_hi32 = 0;
}

abbrev behind : List ℕ
unfolding bits
behind = bits 4 0 ++ bits 8 0x42

same_digits : contents reading_trailer ≡ added ++ behind
unfolding added behind bits byte_bits
same_digits = refl

parse-write_trailer_example :
    Stops stream_end
      (record opened { state = idle; stored_combined_crc = 7 })
      zero_saved
      (bits 8 0x42)
      (parse enough_memory (record opened { state = blkhdr_1 }) zero_saved reading_trailer)
unfolding added behind byte_bits bits
parse-write_trailer_example =
    parse-write_trailer started 7 added behind enough_memory opened zero_saved reading_trailer
      (init_write-IsValid _).0 (omega arith)
      (trailer_digits started 7 (init_write-IsValid _).0 (omega arith)) (omega arith) same_digits
