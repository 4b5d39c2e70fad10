-- ===== src/Bits/Writer.antt =====
-- The bit stream writer of src/compress.c: BZ2_bsInitWrite, bsFinishWrite, bsNEEDW, bsW,
-- bsPutUInt32 and bsPutUChar. `zbits` is the written prefix of the array, so that
-- `zbits[numZ] = b; numZ++` appends, and `numZ` is its length.
pub mod Laws
pub mod Whole
use libqbz.Base.{ℕ, zero, suc, ◌+◌, ◌-◌, ◌*◌, ◌/◌, ◌%◌, ◌^◌, List, [], ◌∷◌, ◌++◌, Bool, true, false}
use libqbz.Base.{bit_or, leb, ltb, if◌then◌else◌}

pub record Writer : Type 0 where
  pub bs_buff : ℕ
  pub bs_live : ℕ
  pub zbits : List ℕ

-- BZ2_bsInitWrite
unfoldable pub init_write : Writer → Writer
init_write s = record s { bs_live = 0; bs_buff = 0 }

-- a cast to UChar
abbrev byte_of : ℕ → ℕ
byte_of x = x % 2 ^ 8

-- the body of the loop of bsFinishWrite; `bsLive` is an `int`, and a negative value ends the loop
-- as 0 does
unfoldable pub finish_byte : Writer → Writer
finish_byte s = record {
  zbits = s.zbits ++ byte_of (s.bs_buff / 2 ^ 56) ∷ [];
  bs_buff = s.bs_buff * 2 ^ 8 % 2 ^ 64;
  bs_live = s.bs_live - 8;
}

unfoldable pub finish_loop : ℕ → Writer → Writer
finish_loop zero s = s
finish_loop (suc fuel) s =
    let rest = finish_loop fuel (finish_byte s) in if ltb 0 s.bs_live then rest else s

-- bsFinishWrite; a round takes at least one digit off while there is one
unfoldable pub finish_write : Writer → Writer
finish_write s = finish_loop s.bs_live s

-- the body of the loop of bsNEEDW
unfoldable pub flush_word : Writer → Writer
flush_word s = record {
  zbits =
      s.zbits
      ++ byte_of (s.bs_buff / 2 ^ 56)
        ∷ byte_of (s.bs_buff / 2 ^ 48)
        ∷ byte_of (s.bs_buff / 2 ^ 40)
        ∷ byte_of (s.bs_buff / 2 ^ 32)
        ∷ [];
  bs_buff = s.bs_buff * 2 ^ 32 % 2 ^ 64;
  bs_live = s.bs_live - 32;
}

unfoldable pub need_loop : ℕ → Writer → Writer
need_loop zero s = s
need_loop (suc fuel) s =
    let rest = need_loop fuel (flush_word s) in if leb 32 s.bs_live then rest else s

-- bsNEEDW
unfoldable pub need_write : Writer → Writer
need_write s = need_loop s.bs_live s

-- what bsW does after bsNEEDW: `bsBuff |= (UInt64)v << (64 - bsLive - n); bsLive += n`. The shift is
-- by less than 64 places where n is not 0.
unfoldable pub put_bits : Writer → ℕ → ℕ → Writer
put_bits s n v = record s {
  bs_buff = bit_or s.bs_buff (v * 2 ^ (64 - s.bs_live - n) % 2 ^ 64);
  bs_live = s.bs_live + n;
}

-- bsW
unfoldable pub write_bits : Writer → ℕ → ℕ → Writer
write_bits s n v = put_bits (need_write s) n v

-- bsPutUInt32
unfoldable pub put_uint32 : Writer → ℕ → Writer
put_uint32 s u =
    let s1 = write_bits s 8 (u / 2 ^ 24 % 2 ^ 8) in
    let s2 = write_bits s1 8 (u / 2 ^ 16 % 2 ^ 8) in
    let s3 = write_bits s2 8 (u / 2 ^ 8 % 2 ^ 8) in write_bits s3 8 (u % 2 ^ 8)

-- bsPutUChar
unfoldable pub put_uchar : Writer → ℕ → Writer
put_uchar s c = write_bits s 8 c
