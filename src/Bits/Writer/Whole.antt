-- ===== src/Bits/Writer/Whole.antt =====
-- bsW, bsPutUInt32 and bsPutUChar as operations on the sequence of digits written.
use mathlib.Core.List.{append_assoc, append-nil}
use libqbz.Base.{ℕ, zero, suc, ◌+◌, ◌-◌, ◌*◌, ◌/◌, ◌%◌, ◌^◌, ◌≤◌, ◌<◌, ◌≡◌, refl, ap, sym, ◌∙◌}
use libqbz.Base.{List, [], ◌∷◌, ◌++◌, arith, leb, Bool-cases, inl, inr, true}
use libqbz.Bits.{bits, byte_bits}
use libqbz.Bits.Laws.{word_bits}
use libqbz.Bits.Writer.{Writer, init_write, flush_word, need_loop, need_write}
use libqbz.Bits.Writer.{write_bits, put_uint32, put_uchar}
use libqbz.Bits.Writer.Laws.{IsValid, Holds-IsValid, IsValid-Holds, field, contents, put_bits-Holds}
use libqbz.Bits.Writer.Laws.{contents-put_bits, flush_word-Holds, contents-flush_word}

-- A fresh writer is valid, and its buffer is empty.
pub init_write-IsValid :
    (s : Writer) → IsValid (init_write s) × (contents (init_write s) ≡ byte_bits s.zbits ++ [])
unfolding init_write bits
init_write-IsValid s = (record { live = omega arith; fits = omega arith; high = omega arith }, refl)

leb_le : (a b : ℕ) → leb a b ≡ true → a ≤ b
leb_le a b h = ground arith

-- The loop of bsNEEDW keeps the digits, and leaves fewer than 32 in the buffer.
pub record IsRoomy (s t : Writer) : Type 0 where
  pub valid : IsValid t
  pub same : contents t ≡ contents s
  pub room : t.bs_live < 32

need_loop-IsRoomy :
    (fuel : ℕ) (s : Writer)
    → IsValid s
    → s.bs_live ≤ fuel
    → s.bs_live < 32 + fuel
    → IsRoomy s (need_loop fuel s)
unfolding need_loop
need_loop-IsRoomy zero s k h l = record { valid = k; same = refl; room = omega arith }
need_loop-IsRoomy (suc fuel) s k h l = elim (Bool-cases (leb 32 s.bs_live)) [
  | inr e ↦ rw e (record { valid = k; same = refl; room = ground arith })
  | inl e ↦ rw e (
      let many : s.bs_live ≡ 32 + (s.bs_live - 32) = omega (arith, leb_le 32 s.bs_live e) in
      let held = flush_word-Holds s (field s) (s.bs_live - 32) (IsValid-Holds k) many in
      let rest =
        need_loop-IsRoomy fuel (flush_word s) (Holds-IsValid held)
          (unfold flush_word in omega arith) (unfold flush_word in omega arith) in
      record {
        valid = rest.valid;
        same = rest.same ∙ contents-flush_word s (field s) (s.bs_live - 32) (IsValid-Holds k) many;
        room = rest.room;
      })
]

need_write-IsRoomy : (s : Writer) → IsValid s → IsRoomy s (need_write s)
unfolding need_write
need_write-IsRoomy s k = need_loop-IsRoomy s.bs_live s k (omega arith) (omega arith)

-- On a valid writer, bsW of a number below 2 ^ n, with n from 1 to 32, appends its n digits, most
-- significant first, to the digits written so far, and keeps the writer valid.
pub write_bits-contents :
    (s : Writer) (n v : ℕ)
    → IsValid s
    → 1 ≤ n
    → n ≤ 32
    → v < 2 ^ n
    → IsValid (write_bits s n v) × (contents (write_bits s n v) ≡ contents s ++ bits n v)
unfolding write_bits
write_bits-contents s n v k _ hn hv =
    let r = need_write-IsRoomy s k in
    let held = IsValid-Holds r.valid in
    let room : (need_write s).bs_live + n ≤ 64 = omega (arith, r.room) in
    (
      Holds-IsValid (put_bits-Holds (need_write s) (field (need_write s)) n v held room hv),
      contents-put_bits (need_write s) (field (need_write s)) n v held room hv
          ∙ ap (λ t. t ++ bits n v) r.same,
    )

-- bsPutUChar appends the eight digits of a byte.
pub put_uchar-contents :
    (s : Writer) (c : ℕ)
    → IsValid s
    → c < 256
    → IsValid (put_uchar s c) × (contents (put_uchar s c) ≡ contents s ++ bits 8 c)
unfolding put_uchar
put_uchar-contents s c k h = write_bits-contents s 8 c k (omega arith) (omega arith) h

quad :
    (xs : List ℕ) (a b c d : ℕ)
    → xs ++ bits 8 a ++ bits 8 b ++ bits 8 c ++ bits 8 d ≡ xs ++ byte_bits (a ∷ b ∷ c ∷ d ∷ [])
unfolding byte_bits
quad xs a b c d = simp (append_assoc, append-nil)

-- On a valid writer and for a word of 32 digits, bsPutUInt32 appends those digits, most significant
-- first, and keeps the writer valid.
pub put_uint32-contents :
    (s : Writer) (u : ℕ)
    → IsValid s
    → u < 2 ^ 32
    → IsValid (put_uint32 s u) × (contents (put_uint32 s u) ≡ contents s ++ bits 32 u)
unfolding put_uint32
put_uint32-contents s u k h =
    let w1 =
      write_bits-contents s 8 (u / 2 ^ 24 % 2 ^ 8) k (omega arith) (omega arith) (omega arith) in
    let s1 = write_bits s 8 (u / 2 ^ 24 % 2 ^ 8) in
    let w2 =
      write_bits-contents s1 8 (u / 2 ^ 16 % 2 ^ 8) w1.0 (omega arith) (omega arith)
        (omega arith) in
    let s2 = write_bits s1 8 (u / 2 ^ 16 % 2 ^ 8) in
    let w3 =
      write_bits-contents s2 8 (u / 2 ^ 8 % 2 ^ 8) w2.0 (omega arith) (omega arith) (omega arith) in
    let s3 = write_bits s2 8 (u / 2 ^ 8 % 2 ^ 8) in
    let w4 = write_bits-contents s3 8 (u % 2 ^ 8) w3.0 (omega arith) (omega arith) (omega arith) in
    (
      w4.0,
      w4.1
          ∙ ap (λ t. t ++ bits 8 (u % 2 ^ 8))
              (w3.1
                ∙ ap (λ t. t ++ bits 8 (u / 2 ^ 8 % 2 ^ 8))
                    (w2.1 ∙ ap (λ t. t ++ bits 8 (u / 2 ^ 16 % 2 ^ 8)) w1.1))
          ∙ quad (contents s) _ _ _ _
          ∙ ap (λ t. contents s ++ t)
              (sym (word_bits _ _ _ _ (omega arith) (omega arith) (omega arith))
                ∙ ap (bits 32) whole),
    )
  where
    whole :
        ((u / 2 ^ 24 % 2 ^ 8 * 2 ^ 8 + u / 2 ^ 16 % 2 ^ 8) * 2 ^ 8 + u / 2 ^ 8 % 2 ^ 8) * 2 ^ 8
          + u % 2 ^ 8
        ≡ u
    whole = omega arith
