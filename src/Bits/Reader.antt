-- ===== src/Bits/Reader.antt =====
-- The bit stream reader of src/decompress.c: the macro GET_BITS, with GET_UCHAR and GET_BIT.
-- `next_in` holds the `avail_in` bytes that the stream has left.
pub mod Laws
use libqbz.Base.{ℕ, zero, suc, ◌+◌, ◌-◌, ◌*◌, ◌/◌, ◌%◌, ◌^◌, List, [], ◌∷◌, Bool, true, false}
use libqbz.Base.{bit_or, leb, ltb, ◌==◌, if◌then◌else◌}

pub record Reader : Type 0 where
  pub bs_buff : ℕ
  pub bs_live : ℕ
  pub next_in : List ℕ
  pub total_in_lo32 : ℕ
  pub total_in_hi32 : ℕ

-- `starved` is RETURN(BZ_OK): the input is used up.
pub data Fetch : Type 0 where
  got : ℕ → Reader → Fetch
  starved : Reader → Fetch

-- the `n` highest of the live digits: shift, and mask by (1 << n) - 1, an `int` for n up to 30
unfoldable pub take_bits : ℕ → Reader → Fetch
take_bits n s = got (s.bs_buff / 2 ^ (s.bs_live - n) % 2 ^ n) (record s { bs_live = s.bs_live - n })

-- four bytes at a time, most significant first
unfoldable pub refill_word : Reader → ℕ → ℕ → ℕ → ℕ → List ℕ → Reader
refill_word s b0 b1 b2 b3 rest =
    let lo = (s.total_in_lo32 + 4) % 2 ^ 32 in
    record {
      bs_buff =
          bit_or
            (bit_or (bit_or (bit_or (s.bs_buff * 2 ^ 32 % 2 ^ 64) (b0 * 2 ^ 24)) (b1 * 2 ^ 16))
              (b2 * 2 ^ 8))
            b3;
      bs_live = s.bs_live + 32;
      next_in = rest;
      total_in_lo32 = lo;
      total_in_hi32 =
          if ltb lo s.total_in_lo32 then (s.total_in_hi32 + 1) % 2 ^ 32 else s.total_in_hi32;
    }

-- one byte
unfoldable pub refill_byte : Reader → ℕ → List ℕ → Reader
refill_byte s b rest =
    let lo = (s.total_in_lo32 + 1) % 2 ^ 32 in
    record {
      bs_buff = bit_or (s.bs_buff * 2 ^ 8 % 2 ^ 64) b;
      bs_live = s.bs_live + 8;
      next_in = rest;
      total_in_lo32 = lo;
      total_in_hi32 = if lo == 0 then (s.total_in_hi32 + 1) % 2 ^ 32 else s.total_in_hi32;
    }

-- the loop of GET_BITS; the list is `next_in`, on which the rounds recur
unfoldable pub get_loop : ℕ → List ℕ → Reader → Fetch
get_loop n (b0 ∷ b1 ∷ b2 ∷ b3 ∷ rest) s =
    let word = get_loop n rest (refill_word s b0 b1 b2 b3 rest) in
    let byte = get_loop n (b1 ∷ b2 ∷ b3 ∷ rest) (refill_byte s b0 (b1 ∷ b2 ∷ b3 ∷ rest)) in
    if leb n s.bs_live then take_bits n s else if leb s.bs_live 32 then word else byte
get_loop n (b ∷ rest) s =
    let byte = get_loop n rest (refill_byte s b rest) in
    if leb n s.bs_live then take_bits n s else byte
get_loop n [] s = if leb n s.bs_live then take_bits n s else starved s

-- GET_BITS
unfoldable pub get_bits : ℕ → Reader → Fetch
get_bits n s = get_loop n s.next_in s
