-- ===== src/Crc/Spec.antt =====
-- What a CRC-32 is, bit by bit: the remainder of the message, as a polynomial over two elements,
-- by the generator 0x104c11db7, highest digit first.
use libqbz.Base.{ℕ, zero, suc, ◌*◌, ◌/◌, ◌%◌, ◌^◌, bit_xor, List, [], ◌∷◌}

-- One digit: shift left, and subtract the generator if a digit fell out.
unfoldable pub crc_bit : ℕ → ℕ
crc_bit c = bit_xor (c * 2 % 2 ^ 32) (c / 2 ^ 31 * 0x04c1_1db7)

unfoldable pub rounds : ℕ → ℕ → ℕ
rounds zero c = c
rounds (suc n) c = rounds n (crc_bit c)

unfoldable pub crc_byte : ℕ → ℕ → ℕ
crc_byte c b = rounds 8 (bit_xor c (b * 2 ^ 24))

unfoldable pub crc_bytes : ℕ → List ℕ → ℕ
crc_bytes c [] = c
crc_bytes c (b ∷ bs) = crc_bytes (crc_byte c b) bs
