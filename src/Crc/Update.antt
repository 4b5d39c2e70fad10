-- ===== src/Crc/Update.antt =====
-- The table-driven updates compute the division digit by digit, at every address of the buffer.
use libqbz.Base.{ℕ, ◌*◌, ◌/◌, ◌%◌, ◌^◌, ◌<◌, bit_xor, ◌≡◌, arith, ap, sym, ◌∙◌}
use libqbz.Base.{List, [], ◌∷◌}
use libqbz.Base.Xor.{xor-shift, xor-lt, xor_comm, xor_assoc, zero-xor}
use libqbz.Base.Xor.{xor_fields}
use libqbz.Crc.{table_at, update_crc}
use libqbz.Crc.Spec.{rounds, crc_byte}
use libqbz.Crc.Linear.{rounds-xor, rounds-lt, rounds_small, table_at_lem}

-- A list of bytes.
abbrev pub AllBytes : List ℕ → Type 0
AllBytes [] = Unit
AllBytes (b ∷ bs) = (b < 256) × AllBytes bs

top_byte :
    (c b : ℕ) → bit_xor c (b * 2 ^ 24) ≡ bit_xor (bit_xor (c / 2 ^ 24) b * 2 ^ 24) (c % 2 ^ 24)
top_byte c b =
    ap (λ t. bit_xor t (b * 2 ^ 24)) (fields)
    ∙ xor_assoc (c / 2 ^ 24 * 2 ^ 24) (c % 2 ^ 24) (b * 2 ^ 24)
    ∙ ap (bit_xor (c / 2 ^ 24 * 2 ^ 24)) (xor_comm (c % 2 ^ 24) (b * 2 ^ 24))
    ∙ sym (xor_assoc (c / 2 ^ 24 * 2 ^ 24) (b * 2 ^ 24) (c % 2 ^ 24))
    ∙ ap (λ t. bit_xor t (c % 2 ^ 24)) (xor-shift 24 (c / 2 ^ 24) b)
  where
    fields : c ≡ bit_xor (c / 2 ^ 24 * 2 ^ 24) (c % 2 ^ 24)
    fields = omega (arith, xor_fields 24 (c / 2 ^ 24) (c % 2 ^ 24) (omega arith))

-- The digits of the register that meet the next byte can be moved onto that byte.
pub byte_split :
    (d c b : ℕ)
    → d < 2 ^ 32
    → c < 2 ^ 32
    → b < 256
    → crc_byte (bit_xor d c) b ≡ bit_xor (crc_byte d (bit_xor (c / 2 ^ 24) b)) (c * 2 ^ 8 % 2 ^ 32)
unfolding crc_byte
byte_split d c b hd hc hb =
    ap (rounds 8) (
      xor_assoc d c (b * 2 ^ 24)
      ∙ ap (bit_xor d) (top_byte c b)
      ∙ sym (xor_assoc d (bit_xor (c / 2 ^ 24) b * 2 ^ 24) (c % 2 ^ 24)))
    ∙ rounds-xor 8 _ _ (xor-lt 32 hd (omega (arith, small))) (omega arith)
    ∙ ap (bit_xor (rounds 8 (bit_xor d (bit_xor (c / 2 ^ 24) b * 2 ^ 24))))
        (rounds_small (c % 2 ^ 24) (omega arith) ∙ omega arith)
  where
    small : bit_xor (c / 2 ^ 24) b < 2 ^ 8
    small = xor-lt 8 (omega arith) hb

-- For a register of 32 digits and a byte, BZ_UPDATE_CRC, with its look-up in BZ2_crc32Table, is
-- eight steps of the division by the generator.
pub update_crc-crc_byte : (c b : ℕ) → c < 2 ^ 32 → b < 256 → update_crc c b ≡ crc_byte c b
unfolding update_crc
update_crc-crc_byte c b hc hb = sym (
    ap (λ t. crc_byte t b) (sym (zero-xor c))
    ∙ byte_split 0 c b (omega arith) hc hb
    ∙ xor_comm (crc_byte 0 (bit_xor (c / 2 ^ 24) b)) (c * 2 ^ 8 % 2 ^ 32)
    ∙ ap (bit_xor (c * 2 ^ 8 % 2 ^ 32)) entry)
  where
    entry : crc_byte 0 (bit_xor (c / 2 ^ 24) b) ≡ table_at (bit_xor (c / 2 ^ 24) b)
    entry =
        unfold crc_byte in
        (ap (rounds 8) (zero-xor _) ∙ sym (table_at_lem _ (xor-lt 8 (omega arith) hb)))

pub crc_byte-lt : (c b : ℕ) → c < 2 ^ 32 → b < 256 → crc_byte c b < 2 ^ 32
unfolding crc_byte
crc_byte-lt c b hc hb = rounds-lt 8 _ (xor-lt 32 hc (omega arith))
