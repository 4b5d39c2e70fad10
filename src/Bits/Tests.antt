-- ===== src/Bits/Tests.antt =====
-- Runs of the bit streams, and their theorems at a few digits.
use libqbz.Base.{◌≡◌, refl, arith, [], ◌∷◌, ◌++◌}
use libqbz.Bits.{bits, byte_bits}
use libqbz.Bits.Writer.{Writer, init_write, write_bits, put_uint32, need_write, need_loop, put_bits}
use libqbz.Bits.Writer.Laws
use libqbz.Bits.Writer.Whole.{write_bits-contents, put_uint32-contents, init_write-IsValid}
use libqbz.Bits.Reader.{Reader, get_bits}
use libqbz.Bits.Reader.Laws as ReadLaws
use libqbz.Bits.RoundTrip.{Returns, get_bits-Returns}

abbrev blank : Writer
blank = init_write (record { bs_buff = 5; bs_live = 3; zbits = [] })

-- two fields of the header
fields_written : (write_bits (write_bits blank 3 6) 5 17).bs_buff ≡ 0xd100_0000_0000_0000
unfolding write_bits need_write need_loop put_bits init_write
fields_written = refl

write_bits-contents_example :
    Laws.IsValid (write_bits blank 15 18002)
    × (Laws.contents (write_bits blank 15 18002) ≡ Laws.contents blank ++ bits 15 18002)
write_bits-contents_example =
    write_bits-contents blank 15 18002 (init_write-IsValid _).0 (omega arith) (omega arith)
      (omega arith)

put_uint32-contents_example :
    Laws.IsValid (put_uint32 blank 0xfc89_1918)
    × (Laws.contents (put_uint32 blank 0xfc89_1918) ≡ Laws.contents blank ++ bits 32 0xfc89_1918)
put_uint32-contents_example =
    put_uint32-contents blank 0xfc89_1918 (init_write-IsValid _).0 (omega arith)

-- the first bytes of a stream
abbrev stream : Reader
stream = record {
  bs_buff = 0;
  bs_live = 0;
  next_in = 0x42 ∷ 0x5a ∷ 0x68 ∷ [];
  total_in_lo32 = 0;
  total_in_hi32 = 0;
}

stream-IsValid : ReadLaws.IsValid stream
stream-IsValid = omega arith

get_bits-Answers_example : ReadLaws.Answers 8 stream (get_bits 8 stream)
get_bits-Answers_example = ReadLaws.get_bits-Answers 8 stream (omega arith) stream-IsValid

get_bits-Returns_example : Returns 0x42 (byte_bits (0x5a ∷ 0x68 ∷ [])) (get_bits 8 stream)
unfolding bits byte_bits
get_bits-Returns_example =
    get_bits-Returns 8 0x42 (byte_bits (0x5a ∷ 0x68 ∷ [])) stream (omega arith) (omega arith)
      stream-IsValid refl
