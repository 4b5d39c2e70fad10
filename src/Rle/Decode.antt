-- ===== src/Rle/Decode.antt =====
-- The decoder that the coding is measured against: four equal bytes are followed by a count.
use libqbz.Base.{ℕ, ◌+◌, List, [], ◌∷◌, ◌++◌, replicate, ◌==◌, leb, if◌then◌else◌, ◌&&◌}
use libqbz.Base.{◌≡◌, refl}

-- `run` counts the equal bytes `prev` that were just read, 0 when a run starts afresh.
pub record Decoder : Type 0 where
  pub prev : ℕ
  pub run : ℕ
  pub out : List ℕ

abbrev pub fresh : Decoder
fresh = record { prev = 0; run = 0; out = [] }

unfoldable pub decode_byte : Decoder → ℕ → Decoder
decode_byte d b =
    if d.run == 4 then record d { run = 0; out = d.out ++ replicate b d.prev } else record {
      prev = b;
      run = if leb 1 d.run && b == d.prev then d.run + 1 else 1;
      out = d.out ++ (b ∷ []);
    }

unfoldable pub decode : Decoder → List ℕ → Decoder
decode d [] = d
decode d (b ∷ bs) = decode (decode_byte d b) bs

pub decode-append : (d : Decoder) (xs ys : List ℕ) → decode d (xs ++ ys) ≡ decode (decode d xs) ys
unfolding decode
decode-append d [] ys = refl
decode-append d (x ∷ xs) ys = decode-append (decode_byte d x) xs ys
