-- ===== src/Crc.antt =====
-- `BZ2_crc32_update` of src/crctable.c and the CRC macros of src/qbz2_internal.h, in a build without
-- `__PCLMUL__` on a little-endian machine. A `UInt32` is a number below 2 ^ 32.
mod Table
mod Slices
pub mod Spec
pub mod Linear
pub mod Update
pub mod Sliced
pub mod Whole
mod Tests
use libqbz.Base.{ℕ, zero, suc, ◌+◌, ◌-◌, ◌*◌, ◌/◌, ◌%◌, ◌^◌, bit_xor, bit_and, List, [], ◌∷◌}
use libqbz.Base.{get_or, ◌==◌, if◌then◌else◌}
use Table.{crc32_table}
use Slices.{crc32_s8_0, crc32_s8_1, crc32_s8_2, crc32_s8_3}
use Slices.{crc32_s8_4, crc32_s8_5, crc32_s8_6, crc32_s8_7}

-- BZ_INITIALISE_CRC
abbrev pub initial_crc : ℕ
initial_crc = 0xffff_ffff

-- BZ_FINALISE_CRC: the complement of 32 digits
unfoldable pub finalise_crc : ℕ → ℕ
finalise_crc c = 0xffff_ffff - c

-- BZ2_crc32Table[i]
pub table_at : ℕ → ℕ
unfolding crc32_table
table_at i = get_or crc32_table i 0

-- crc32_s8[k]
row : ℕ → List ℕ
unfolding crc32_s8_0 crc32_s8_1 crc32_s8_2 crc32_s8_3 crc32_s8_4 crc32_s8_5 crc32_s8_6 crc32_s8_7
row zero = crc32_s8_0
row (suc zero) = crc32_s8_1
row (suc (suc zero)) = crc32_s8_2
row (suc (suc (suc zero))) = crc32_s8_3
row (suc (suc (suc (suc zero)))) = crc32_s8_4
row (suc (suc (suc (suc (suc zero))))) = crc32_s8_5
row (suc (suc (suc (suc (suc (suc zero)))))) = crc32_s8_6
row (suc (suc (suc (suc (suc (suc (suc k))))))) = crc32_s8_7

-- crc32_s8[k][i]
pub s8 : ℕ → ℕ → ℕ
unfolding row
s8 k i = get_or (row k) i 0

-- BZ_UPDATE_CRC: (crc << 8) ^ table[(crc >> 24) ^ byte], the shift in 32 digits
unfoldable pub update_crc : ℕ → ℕ → ℕ
unfolding table_at
update_crc c b = bit_xor (c * 2 ^ 8 % 2 ^ 32) (table_at (bit_xor (c / 2 ^ 24) b))

-- __builtin_bswap32
pub bswap32 : ℕ → ℕ
bswap32 x =
    x % 2 ^ 8 * 2 ^ 24
    + x / 2 ^ 8 % 2 ^ 8 * 2 ^ 16
    + x / 2 ^ 16 % 2 ^ 8 * 2 ^ 8
    + x / 2 ^ 24 % 2 ^ 8

-- the `memcpy` of four bytes into a `uint32_t`, least significant byte first
pub load32 : ℕ → ℕ → ℕ → ℕ → ℕ
load32 b0 b1 b2 b3 = b0 + b1 * 2 ^ 8 + b2 * 2 ^ 16 + b3 * 2 ^ 24

-- the body of the slicing-by-8 loop, on the two words that it loads
pub slice_step : ℕ → ℕ → ℕ → ℕ
slice_step c w0 w1 =
    let one = bswap32 (bit_xor w0 (bswap32 c)) in
    let two = bswap32 w1 in
    let x7 = s8 7 (one / 2 ^ 24 % 2 ^ 8) in
    let x6 = bit_xor x7 (s8 6 (one / 2 ^ 16 % 2 ^ 8)) in
    let x5 = bit_xor x6 (s8 5 (one / 2 ^ 8 % 2 ^ 8)) in
    let x4 = bit_xor x5 (s8 4 (one % 2 ^ 8)) in
    let x3 = bit_xor x4 (s8 3 (two / 2 ^ 24 % 2 ^ 8)) in
    let x2 = bit_xor x3 (s8 2 (two / 2 ^ 16 % 2 ^ 8)) in
    let x1 = bit_xor x2 (s8 1 (two / 2 ^ 8 % 2 ^ 8)) in bit_xor x1 (s8 0 (two % 2 ^ 8))

-- the loops of BZ2_crc32_update, over the bytes from `p` to `end`: the tail,
pub tail_loop : ℕ → List ℕ → ℕ
tail_loop c [] = c
tail_loop c (b ∷ bs) = tail_loop (update_crc c b) bs

-- the slices, while eight bytes are left,
pub slice_loop : ℕ → List ℕ → ℕ
slice_loop c (b0 ∷ b1 ∷ b2 ∷ b3 ∷ b4 ∷ b5 ∷ b6 ∷ b7 ∷ bs) =
    slice_loop (slice_step c (load32 b0 b1 b2 b3) (load32 b4 b5 b6 b7)) bs
slice_loop c bs = tail_loop c bs

-- and before them the bytes up to a multiple of four of the address `p`.
pub align_loop : ℕ → ℕ → List ℕ → ℕ
align_loop p c [] = slice_loop c []
align_loop p c (b ∷ bs) =
    let rest = align_loop (p + 1) (update_crc c b) bs in
    if bit_and p 3 == 0 then slice_loop c (b ∷ bs) else rest

-- BZ2_crc32_update, with the buffer's address
unfoldable pub crc32_update : ℕ → ℕ → List ℕ → ℕ
unfolding align_loop slice_loop tail_loop slice_step load32 s8 bswap32 update_crc
crc32_update p c buf = align_loop p c buf
