-- ===== src/Crc/Whole.antt =====
-- BZ2_crc32_update computes the division, whatever the length and the alignment of the buffer.
use libqbz.Base.{ℕ, ◌+◌, ◌^◌, ◌<◌, ◌≡◌, refl, arith, ap, ◌∙◌}
use libqbz.Base.{List, [], ◌∷◌, ◌++◌, Bool-cases, inl, inr, bit_and, ◌==◌}
use libqbz.Crc.{tail_loop, slice_loop, align_loop, crc32_update}
use libqbz.Crc.Spec.{crc_byte, crc_bytes}
use libqbz.Crc.Update.{AllBytes, crc_byte-lt, update_crc-crc_byte}
use libqbz.Crc.Sliced.{slice_step-crc_bytes}

pub crc_bytes-lt : (c : ℕ) (bs : List ℕ) → c < 2 ^ 32 → AllBytes bs → crc_bytes c bs < 2 ^ 32
unfolding crc_bytes
crc_bytes-lt c [] hc h = hc
crc_bytes-lt c (b ∷ bs) hc h = crc_bytes-lt (crc_byte c b) bs (crc_byte-lt c b hc h.0) h.1

pub tail_loop-crc_bytes :
    (c : ℕ) (bs : List ℕ) → c < 2 ^ 32 → AllBytes bs → tail_loop c bs ≡ crc_bytes c bs
unfolding tail_loop crc_bytes
tail_loop-crc_bytes c [] hc h = refl
tail_loop-crc_bytes c (b ∷ bs) hc h =
    ap (λ t. tail_loop t bs) (update_crc-crc_byte c b hc h.0)
    ∙ tail_loop-crc_bytes (crc_byte c b) bs (crc_byte-lt c b hc h.0) h.1

slice_loop-crc_bytes :
    (c : ℕ) (bs : List ℕ) → c < 2 ^ 32 → AllBytes bs → slice_loop c bs ≡ crc_bytes c bs
unfolding slice_loop
slice_loop-crc_bytes c (b0 ∷ b1 ∷ b2 ∷ b3 ∷ b4 ∷ b5 ∷ b6 ∷ b7 ∷ bs) hc h =
    ap (λ t. slice_loop t bs) (slice_step-crc_bytes c b0 b1 b2 b3 b4 b5 b6 b7 hc eight)
    ∙ slice_loop-crc_bytes (crc_bytes c (b0 ∷ b1 ∷ b2 ∷ b3 ∷ b4 ∷ b5 ∷ b6 ∷ b7 ∷ [])) bs
        (crc_bytes-lt c _ hc eight) h.1.1.1.1.1.1.1.1
    ∙ (unfold crc_bytes in refl)
  where
    eight : AllBytes (b0 ∷ b1 ∷ b2 ∷ b3 ∷ b4 ∷ b5 ∷ b6 ∷ b7 ∷ [])
    eight = omega arith
slice_loop-crc_bytes c bs hc h = tail_loop-crc_bytes c _ hc h

align_loop-crc_bytes :
    (p c : ℕ) (bs : List ℕ) → c < 2 ^ 32 → AllBytes bs → align_loop p c bs ≡ crc_bytes c bs
unfolding align_loop crc_bytes
align_loop-crc_bytes p c [] hc h = slice_loop-crc_bytes c [] hc h
align_loop-crc_bytes p c (b ∷ bs) hc h = elim (Bool-cases (bit_and p 3 == 0)) [
  | inl e ↦ rw e (slice_loop-crc_bytes c (b ∷ bs) hc h)
  | inr e ↦ rw e (
      ap (λ t. align_loop (p + 1) t bs) (update_crc-crc_byte c b hc h.0)
      ∙ align_loop-crc_bytes (p + 1) (crc_byte c b) bs (crc_byte-lt c b hc h.0) h.1)
]

-- For a register of 32 digits and a buffer of bytes, at any address, BZ2_crc32_update returns the
-- remainder of the message by the generator, as the division digit by digit gives it.
pub crc32_update-crc_bytes :
    (p c : ℕ) (bs : List ℕ) → c < 2 ^ 32 → AllBytes bs → crc32_update p c bs ≡ crc_bytes c bs
unfolding crc32_update
crc32_update-crc_bytes p c bs hc h = align_loop-crc_bytes p c bs hc h

pub crc_bytes-append :
    (c : ℕ) (xs ys : List ℕ) → crc_bytes c (xs ++ ys) ≡ crc_bytes (crc_bytes c xs) ys
unfolding crc_bytes
crc_bytes-append c [] ys = refl
crc_bytes-append c (x ∷ xs) ys = crc_bytes-append (crc_byte c x) xs ys

pub AllBytes-append : (xs ys : List ℕ) → AllBytes xs → AllBytes ys → AllBytes (xs ++ ys)
AllBytes-append [] ys h g = g
AllBytes-append (x ∷ xs) ys h g = (h.0, AllBytes-append xs ys h.1 g)
