-- ===== src/Bits.antt =====
-- Sequences of binary digits, highest first: what a bit stream holds.
pub mod Laws
pub mod Writer
pub mod Reader
pub mod RoundTrip
mod Tests
use libqbz.Base.{ℕ, zero, suc, ◌/◌, ◌%◌, ◌^◌, List, [], ◌∷◌, ◌++◌}

-- The `n` lowest digits of `v`.
unfoldable pub bits : ℕ → ℕ → List ℕ
bits zero v = []
bits (suc n) v = v / 2 ^ n % 2 ∷ bits n v

-- The digits of a sequence of bytes.
unfoldable pub byte_bits : List ℕ → List ℕ
byte_bits [] = []
byte_bits (b ∷ bs) = bits 8 b ++ byte_bits bs
