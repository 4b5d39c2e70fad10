-- ===== src/Crc/Tests.antt =====
-- Runs of the CRC code, and its theorems at one buffer.
use libqbz.Base.{ℕ, ◌≡◌, refl, arith, List, [], ◌∷◌, ◌*◌, ◌^◌}
use libqbz.Crc.{crc32_update, initial_crc, finalise_crc, s8, update_crc}
use libqbz.Crc.Spec.{crc_byte, crc_bytes, rounds}
use libqbz.Crc.Linear.{s8_lem}
use libqbz.Crc.Update.{update_crc-crc_byte}
use libqbz.Crc.Whole.{crc32_update-crc_bytes}

abbrev digits_text : List ℕ
digits_text = 49 ∷ 50 ∷ 51 ∷ 52 ∷ 53 ∷ 54 ∷ 55 ∷ 56 ∷ 57 ∷ []

-- the check value of this CRC
check_value : finalise_crc (crc32_update 0 initial_crc digits_text) ≡ 0xfc89_1918
unfolding crc32_update finalise_crc
check_value = refl

-- a buffer that is not aligned takes the other loops
check_value_unaligned : finalise_crc (crc32_update 3 initial_crc digits_text) ≡ 0xfc89_1918
unfolding crc32_update finalise_crc
check_value_unaligned = refl

crc32_update-crc_bytes_example :
    crc32_update 1 initial_crc digits_text ≡ crc_bytes initial_crc digits_text
crc32_update-crc_bytes_example =
    crc32_update-crc_bytes 1 initial_crc digits_text (omega arith) (omega arith)

s8_lem_example : s8 5 200 ≡ rounds 48 (200 * 2 ^ 24)
s8_lem_example = s8_lem 5 200 (omega arith) (omega arith)

update_crc-crc_byte_example : update_crc initial_crc 65 ≡ crc_byte initial_crc 65
update_crc-crc_byte_example = update_crc-crc_byte initial_crc 65 (omega arith) (omega arith)
