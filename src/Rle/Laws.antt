-- ===== src/Rle/Laws.antt =====
-- Runs as the coding writes them: how they decode, and their CRC.
use libqbz.Base.{ℕ, zero, suc, ◌+◌, ◌≤◌, ◌<◌, ◌^◌, List, [], ◌∷◌, ◌++◌, Bool, true, false}
use libqbz.Base.{◌≡◌, refl, ap, ◌∙◌, ◌⊎◌, inl, inr, ◌≢◌, arith, Bool-cases}
use libqbz.Base.{replicate, ltb, leb, ◌==◌, if◌then◌else◌}
use mathlib.Core.List.{append_assoc}
use libqbz.Crc.Update.{AllBytes, update_crc-crc_byte, crc_byte-lt}
use libqbz.Crc.Whole.{crc32_update-crc_bytes}
use libqbz.Crc.Spec.{crc_byte, crc_bytes}
use libqbz.Rle.{crc_repeat, run_crc, run_bytes}
use libqbz.Rle.{run_marks}
use libqbz.Rle.Decode.{Decoder, decode_byte, decode}

-- A run of `len` bytes `ch`, as the coding writes it, decodes to that run, unless it would be
-- taken together with a run that has just been read.
abbrev pub Starts : Decoder → ℕ → Type 0
Starts d ch = (d.run ≡ 0) ⊎ ((d.run < 4) × (d.prev ≢ ch))

decode_byte_first :
    (d : Decoder) (ch : ℕ)
    → Starts d ch
    → decode_byte d ch ≡ record { prev = ch; run = 1; out = d.out ++ (ch ∷ []) }
unfolding decode_byte
decode_byte_first d ch s = ground arith

-- The decoder within a run.
abbrev pub within : ℕ → ℕ → List ℕ → Decoder
within ch k out = record { prev = ch; run = k; out = out }

decode_byte_again :
    (ch k : ℕ) (out : List ℕ)
    → 1 ≤ k
    → k < 4
    → decode_byte (within ch k out) ch ≡ within ch (k + 1) (out ++ (ch ∷ []))
unfolding decode_byte
decode_byte_again ch k out h l = ground arith

-- The first one to four bytes of a run.
module _ (d : Decoder) (ch : ℕ) (s : Starts d ch) where
  after : ℕ → Decoder
  after k = within ch k (d.out ++ replicate k ch)

  read_one : decode_byte d ch ≡ after 1
  unfolding after
  read_one = decode_byte_first d ch s

  read_two : decode_byte (decode_byte d ch) ch ≡ after 2
  unfolding after
  read_two =
      ap (λ t. decode_byte t ch) read_one
      ∙ decode_byte_again ch 1 (d.out ++ ch ∷ []) (omega arith) (omega arith)
      ∙ ap (within ch 2) (append_assoc d.out (ch ∷ []) (ch ∷ []))

  read_three : decode_byte (decode_byte (decode_byte d ch) ch) ch ≡ after 3
  unfolding after
  read_three =
      ap (λ t. decode_byte t ch) read_two
      ∙ decode_byte_again ch 2 (d.out ++ ch ∷ ch ∷ []) (omega arith) (omega arith)
      ∙ ap (within ch 3) (append_assoc d.out (ch ∷ ch ∷ []) (ch ∷ []))

  read_four : decode_byte (decode_byte (decode_byte (decode_byte d ch) ch) ch) ch ≡ after 4
  unfolding after
  read_four =
      ap (λ t. decode_byte t ch) read_three
      ∙ decode_byte_again ch 3 (d.out ++ ch ∷ ch ∷ ch ∷ []) (omega arith) (omega arith)
      ∙ ap (within ch 4) (append_assoc d.out (ch ∷ ch ∷ ch ∷ []) (ch ∷ []))

  read_count :
      (n : ℕ)
      → decode_byte (after 4) n ≡ within ch 0 (d.out ++ replicate (suc (suc (suc (suc n)))) ch)
  unfolding after decode_byte
  read_count n = ap (within ch 0) (append_assoc d.out (replicate 4 ch) (replicate n ch))

run_bytes_long : (ch n : ℕ) → run_bytes ch (suc (suc (suc (suc n)))) ≡ ch ∷ ch ∷ ch ∷ ch ∷ n ∷ []
unfolding run_bytes
run_bytes_long ch n = ground arith

-- A run of four bytes or more leaves the decoder at the start of a run.
decode_run_long :
    (d : Decoder) (ch n : ℕ)
    → Starts d ch
    → decode d (run_bytes ch (suc (suc (suc (suc n)))))
      ≡ within ch 0 (d.out ++ replicate (suc (suc (suc (suc n)))) ch)
unfolding decode
decode_run_long d ch n s =
    rw (run_bytes_long ch n) (ap (λ t. decode_byte t n) (read_four d ch s) ∙ read_count d ch s n)

-- A run of `len` bytes, as the coding writes it, decodes to that run.
pub decode_run :
    (d : Decoder) (ch len : ℕ)
    → 1 ≤ len
    → Starts d ch
    → decode d (run_bytes ch len)
      ≡ within ch (if ltb len 4 then len else 0) (d.out ++ replicate len ch)
unfolding decode run_bytes after
decode_run d ch zero h s = absurd (omega arith)
decode_run d ch (suc zero) h s = read_one d ch s
decode_run d ch (suc (suc zero)) h s = read_two d ch s
decode_run d ch (suc (suc (suc zero))) h s = read_three d ch s
decode_run d ch (suc (suc (suc (suc n)))) h s =
    decode_run_long d ch n s
    ∙ ap (λ k. within ch k (d.out ++ replicate (suc (suc (suc (suc n)))) ch)) past
  where
    past : 0 ≡ (if ltb (suc (suc (suc (suc n)))) 4 then suc (suc (suc (suc n))) else 0)
    past = ground arith

crc_repeat-crc_bytes :
    (n c ch : ℕ) → c < 2 ^ 32 → ch < 256 → crc_repeat n c ch ≡ crc_bytes c (replicate n ch)
unfolding crc_repeat crc_bytes
crc_repeat-crc_bytes zero c ch hc h = refl
crc_repeat-crc_bytes (suc n) c ch hc h =
    ap (λ t. crc_repeat n t ch) (update_crc-crc_byte c ch hc h)
    ∙ crc_repeat-crc_bytes n (crc_byte c ch) ch (crc_byte-lt c ch hc h) h

pub replicate-AllBytes : (n ch : ℕ) → ch < 256 → AllBytes (replicate n ch)
replicate-AllBytes zero ch h = tt
replicate-AllBytes (suc n) ch h = (h, replicate-AllBytes n ch h)

-- Both ways of updating the CRC by a run agree with the division.
pub run_crc-crc_bytes :
    (addr c ch len : ℕ)
    → c < 2 ^ 32
    → ch < 256
    → run_crc addr c ch len ≡ crc_bytes c (replicate len ch)
unfolding run_crc
run_crc-crc_bytes addr c ch len hc h = elim (Bool-cases (leb 8 len)) [
  | inl e ↦ rw e (crc32_update-crc_bytes addr c (replicate len ch) hc (replicate-AllBytes len ch h))
  | inr e ↦ rw e (crc_repeat-crc_bytes len c ch hc h)
]

-- Whether a byte stands in a list.
abbrev pub contains : List ℕ → ℕ → Bool
contains [] j = false
contains (x ∷ xs) j = if x == j then true else contains xs j

pub contains-append :
    (xs ys : List ℕ) (j : ℕ)
    → contains (xs ++ ys) j ≡ (if contains xs j then true else contains ys j)
contains-append [] ys j = refl
contains-append (x ∷ xs) ys j = ground (arith, contains-append xs ys j)

pub run_marks-contains :
    (f : ℕ → Bool) (ch len j : ℕ)
    → 1 ≤ len
    → run_marks f ch len j ≡ (if contains (run_bytes ch len) j then true else f j)
unfolding run_marks run_bytes
run_marks-contains f ch len j h = ground arith
