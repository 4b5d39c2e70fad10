-- ===== src/Crc/Linear.antt =====
-- One digit of the division is linear, and so is any number of them; the tables hold its values.
use libqbz.Base.{
  ℕ, zero, suc, ◌+◌, ◌*◌, ◌/◌, ◌%◌, ◌^◌, ◌<◌, bit_xor, true, ◌≡◌, refl, arith, ap, ap₂, sym, ◌∙◌,
}
use libqbz.Base.{◌==◌, ==_iff, all_below, all_below_sound}
use libqbz.Base.Xor.{xor-shr, xor-shift, xor-mod, xor-lt, xor_comm, xor_assoc, xor-zero, zero-xor}
use libqbz.Base.Xor.{xor_self}
use libqbz.Crc.{table_at, s8}
use libqbz.Crc.Spec.{crc_bit, rounds}

pub xor_interchange :
    (a b c d : ℕ) → bit_xor (bit_xor a b) (bit_xor c d) ≡ bit_xor (bit_xor a c) (bit_xor b d)
xor_interchange a b c d =
    xor_assoc a b (bit_xor c d)
    ∙ ap (bit_xor a)
        (sym (xor_assoc b c d) ∙ ap (λ t. bit_xor t d) (xor_comm b c) ∙ xor_assoc c b d)
    ∙ sym (xor_assoc a c (bit_xor b d))

-- Multiplication of a constant by a digit is linear.
digit_times : (p x y : ℕ) → x < 2 → y < 2 → bit_xor x y * p ≡ bit_xor (x * p) (y * p)
digit_times p zero y hx hy =
    ap (λ t. t * p) (zero-xor y) ∙ sym (ap (λ t. bit_xor t (y * p)) zp ∙ zero-xor (y * p))
  where
    zp : 0 * p ≡ 0
    zp = omega arith
digit_times p (suc zero) zero hx hy = ground (arith, xor-zero 1, xor-zero (1 * p))
digit_times p (suc zero) (suc zero) hx hy = ground (arith, xor_self 1, xor_self (1 * p))
digit_times p (suc zero) (suc (suc y)) hx hy = absurd (omega arith)
digit_times p (suc (suc x)) y hx hy = absurd (omega arith)

pub crc_bit-xor :
    (a b : ℕ) → a < 2 ^ 32 → b < 2 ^ 32 → crc_bit (bit_xor a b) ≡ bit_xor (crc_bit a) (crc_bit b)
unfolding crc_bit
crc_bit-xor a b ha hb =
    ap₂ bit_xor low high
    ∙ xor_interchange (a * 2 % 2 ^ 32) (b * 2 % 2 ^ 32) (a / 2 ^ 31 * 0x04c1_1db7)
        (b / 2 ^ 31 * 0x04c1_1db7)
  where
    low : bit_xor a b * 2 % 2 ^ 32 ≡ bit_xor (a * 2 % 2 ^ 32) (b * 2 % 2 ^ 32)
    low = ap (λ t. t % 2 ^ 32) (sym (xor-shift 1 a b)) ∙ xor-mod 32 (a * 2) (b * 2)

    high :
        bit_xor a b / 2 ^ 31 * 0x04c1_1db7
        ≡ bit_xor (a / 2 ^ 31 * 0x04c1_1db7) (b / 2 ^ 31 * 0x04c1_1db7)
    high =
        ap (λ t. t * 0x04c1_1db7) (xor-shr 31 a b)
        ∙ digit_times 0x04c1_1db7 (a / 2 ^ 31) (b / 2 ^ 31) (omega arith) (omega arith)

pub crc_bit-lt : (a : ℕ) → a < 2 ^ 32 → crc_bit a < 2 ^ 32
unfolding crc_bit
crc_bit-lt a h = xor-lt 32 (omega arith) (omega arith)

pub rounds-lt : (n a : ℕ) → a < 2 ^ 32 → rounds n a < 2 ^ 32
unfolding rounds
rounds-lt zero a h = h
rounds-lt (suc n) a h = rounds-lt n (crc_bit a) (crc_bit-lt a h)

pub rounds-xor :
    (n a b : ℕ)
    → a < 2 ^ 32
    → b < 2 ^ 32
    → rounds n (bit_xor a b) ≡ bit_xor (rounds n a) (rounds n b)
unfolding rounds
rounds-xor zero a b ha hb = refl
rounds-xor (suc n) a b ha hb =
    ap (rounds n) (crc_bit-xor a b ha hb)
    ∙ rounds-xor n (crc_bit a) (crc_bit b) (crc_bit-lt a ha) (crc_bit-lt b hb)

pub rounds-add : (m n a : ℕ) → rounds (m + n) a ≡ rounds n (rounds m a)
unfolding rounds
rounds-add zero n a = ground arith
rounds-add (suc m) n a =
    let e : suc m + n ≡ suc (m + n) = omega arith in rw e (rounds-add m n (crc_bit a))

pub rounds-zero : (n : ℕ) → rounds n 0 ≡ 0
unfolding rounds crc_bit
rounds-zero zero = refl
rounds-zero (suc n) = rounds-zero n

-- A byte whose digits do not fall out is only shifted.
pub crc_bit_small : (a : ℕ) → a < 2 ^ 31 → crc_bit a ≡ a * 2
unfolding crc_bit
crc_bit_small a h = ground (arith, xor-zero (a * 2))

pub rounds_small : (a : ℕ) → a < 2 ^ 24 → rounds 8 a ≡ a * 2 ^ 8
unfolding rounds
rounds_small a h = ground (
  arith,
  crc_bit_small a,
  crc_bit_small (a * 2),
  crc_bit_small (a * 2 * 2),
  crc_bit_small (a * 2 * 2 * 2),
  crc_bit_small (a * 2 * 2 * 2 * 2),
  crc_bit_small (a * 2 * 2 * 2 * 2 * 2),
  crc_bit_small (a * 2 * 2 * 2 * 2 * 2 * 2),
  crc_bit_small (a * 2 * 2 * 2 * 2 * 2 * 2 * 2),
)

table_check : all_below 256 (λ x. table_at x == rounds 8 (x * 2 ^ 24)) ≡ true
unfolding all_below table_at rounds crc_bit
table_check = refl

-- Every entry of BZ2_crc32Table is the remainder that its index stands for.
pub table_at_lem : (x : ℕ) → x < 256 → table_at x ≡ rounds 8 (x * 2 ^ 24)
table_at_lem x h = (==_iff _ _).0 (all_below_sound x 256 _ h table_check)

s8_check : all_below 8 (λ k. all_below 256 (λ x. s8 k x == rounds (8 + k * 8) (x * 2 ^ 24))) ≡ true
unfolding all_below s8 rounds crc_bit
s8_check = refl

-- Every entry of the eight tables crc32_s8 is a remainder: entry x of table k that of the byte x, k
-- bytes further on (8 + 8 * k digit steps of the division).
pub s8_lem : (k x : ℕ) → k < 8 → x < 256 → s8 k x ≡ rounds (8 + k * 8) (x * 2 ^ 24)
s8_lem k x hk hx = (==_iff _ _).0 (
    all_below_sound x 256 (λ x. s8 k x == rounds (8 + k * 8) (x * 2 ^ 24)) hx
      (all_below_sound k 8 _ hk s8_check))
