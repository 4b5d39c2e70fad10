-- ===== src/Crc/Sliced.antt =====
-- Eight bytes by the sliced tables are eight bytes of the division.
use libqbz.Base.{ℕ, suc, ◌+◌, ◌*◌, ◌/◌, ◌%◌, ◌^◌, ◌<◌, bit_xor, ◌≡◌, refl, arith, ap, ap₂, sym, ◌∙◌}
use libqbz.Base.{List, [], ◌∷◌, length}
use libqbz.Base.Xor.{xor-shr, xor-mod, xor-lt, xor_comm, xor_assoc, xor-zero, zero-xor}
use libqbz.Crc.{s8, bswap32, load32, slice_step}
use libqbz.Crc.Spec.{rounds, crc_byte, crc_bytes}
use libqbz.Crc.Linear.{rounds-xor, rounds-zero, rounds-add, s8_lem}
use libqbz.Crc.Update.{AllBytes, byte_split, crc_byte-lt}

-- What each byte adds to the remainder.
parts : List ℕ → ℕ
parts [] = 0
parts (b ∷ bs) = bit_xor (rounds (8 + length bs * 8) (b * 2 ^ 24)) (parts bs)

crc_bytes-parts :
    (c : ℕ) (bs : List ℕ)
    → c < 2 ^ 32
    → AllBytes bs
    → crc_bytes c bs ≡ bit_xor (rounds (length bs * 8) c) (parts bs)
unfolding crc_bytes parts rounds
crc_bytes-parts c [] hc h = sym (xor-zero c)
crc_bytes-parts c (b ∷ bs) hc h =
    crc_bytes-parts (crc_byte c b) bs (crc_byte-lt c b hc h.0) h.1
    ∙ ap (λ t. bit_xor t (parts bs)) spread
    ∙ xor_assoc _ _ (parts bs)
  where
    spread :
        rounds (length bs * 8) (crc_byte c b)
        ≡ bit_xor (rounds (suc (length bs) * 8) c) (rounds (8 + length bs * 8) (b * 2 ^ 24))
    spread =
        unfold crc_byte in
        (sym (rounds-add 8 (length bs * 8) (bit_xor c (b * 2 ^ 24)))
          ∙ rounds-xor (8 + length bs * 8) c (b * 2 ^ 24) hc (omega arith)
          ∙ ap (λ k. bit_xor (rounds k c) (rounds (8 + length bs * 8) (b * 2 ^ 24))) reorder)
      where
        reorder : 8 + length bs * 8 ≡ suc (length bs) * 8
        reorder = omega arith

-- A whole word of the register can be moved onto the four bytes that follow.
absorb :
    (c b0 b1 b2 b3 : ℕ) (bs : List ℕ)
    → c < 2 ^ 32
    → b0 < 256
    → b1 < 256
    → b2 < 256
    → b3 < 256
    → crc_bytes c (b0 ∷ b1 ∷ b2 ∷ b3 ∷ bs)
      ≡ crc_bytes 0 (
          bit_xor (c / 2 ^ 24) b0
          ∷ bit_xor (c / 2 ^ 16 % 2 ^ 8) b1
          ∷ bit_xor (c / 2 ^ 8 % 2 ^ 8) b2
          ∷ bit_xor (c % 2 ^ 8) b3
          ∷ bs)
unfolding crc_bytes
absorb c b0 b1 b2 b3 bs hc h0 h1 h2 h3 =
    ap (λ t. crc_bytes t bs)
      (ap (λ t. f (f (f t b1) b2) b3) (ap (λ t. f t b0) (sym (zero-xor c)) ∙ s0)
        ∙ ap (λ t. f (f t b2) b3) s1
        ∙ ap (λ t. f t b3) s2
        ∙ s3
        ∙ xor-zero _)
  where
    f : ℕ → ℕ → ℕ
    f = crc_byte

    x0 : ℕ
    x0 = bit_xor (c / 2 ^ 24) b0

    x1 : ℕ
    x1 = bit_xor (c / 2 ^ 16 % 2 ^ 8) b1

    x2 : ℕ
    x2 = bit_xor (c / 2 ^ 8 % 2 ^ 8) b2

    x3 : ℕ
    x3 = bit_xor (c % 2 ^ 8) b3

    d1 : ℕ
    d1 = f 0 x0

    d2 : ℕ
    d2 = f d1 x1

    l1 : d1 < 2 ^ 32
    l1 = crc_byte-lt 0 x0 (omega arith) (xor-lt 8 (omega arith) h0)

    l2 : d2 < 2 ^ 32
    l2 = crc_byte-lt d1 x1 l1 (xor-lt 8 (omega arith) h1)

    l3 : f d2 x2 < 2 ^ 32
    l3 = crc_byte-lt d2 x2 l2 (xor-lt 8 (omega arith) h2)

    -- one byte, with the register's digits named
    move :
        (d c' c'' t b : ℕ)
        → d < 2 ^ 32
        → c' < 2 ^ 32
        → b < 256
        → c' / 2 ^ 24 ≡ t
        → c' * 2 ^ 8 % 2 ^ 32 ≡ c''
        → f (bit_xor d c') b ≡ bit_xor (f d (bit_xor t b)) c''
    move d c' c'' t b hd hc' hb e1 e2 =
        byte_split d c' b hd hc' hb ∙ ap₂ (λ u v. bit_xor (f d (bit_xor u b)) v) e1 e2

    s0 : f (bit_xor 0 c) b0 ≡ bit_xor d1 (c * 2 ^ 8 % 2 ^ 32)
    s0 = move 0 c (c * 2 ^ 8 % 2 ^ 32) (c / 2 ^ 24) b0 (omega arith) hc h0 refl refl

    s1 : f (bit_xor d1 (c * 2 ^ 8 % 2 ^ 32)) b1 ≡ bit_xor d2 (c * 2 ^ 16 % 2 ^ 32)
    s1 =
        move d1 (c * 2 ^ 8 % 2 ^ 32) (c * 2 ^ 16 % 2 ^ 32) (c / 2 ^ 16 % 2 ^ 8) b1 l1 (omega arith)
          h1 (omega arith) (omega arith)

    s2 : f (bit_xor d2 (c * 2 ^ 16 % 2 ^ 32)) b2 ≡ bit_xor (f d2 x2) (c * 2 ^ 24 % 2 ^ 32)
    s2 =
        move d2 (c * 2 ^ 16 % 2 ^ 32) (c * 2 ^ 24 % 2 ^ 32) (c / 2 ^ 8 % 2 ^ 8) b2 l2 (omega arith)
          h2 (omega arith) (omega arith)

    s3 : f (bit_xor (f d2 x2) (c * 2 ^ 24 % 2 ^ 32)) b3 ≡ bit_xor (f (f d2 x2) x3) 0
    s3 =
        move (f d2 x2) (c * 2 ^ 24 % 2 ^ 32) 0 (c % 2 ^ 8) b3 l3 (omega arith) h3 (omega arith)
          (omega arith)

-- A byte of a word is found at the other end after a swap.
bswap-bytes :
    (w : ℕ)
    → (bswap32 w / 2 ^ 24 % 2 ^ 8 ≡ w % 2 ^ 8)
      × (bswap32 w / 2 ^ 16 % 2 ^ 8 ≡ w / 2 ^ 8 % 2 ^ 8)
      × (bswap32 w / 2 ^ 8 % 2 ^ 8 ≡ w / 2 ^ 16 % 2 ^ 8)
      × (bswap32 w % 2 ^ 8 ≡ w / 2 ^ 24 % 2 ^ 8)
unfolding bswap32
bswap-bytes w = omega arith

xor_byte :
    (k u v x y : ℕ)
    → u / 2 ^ k % 2 ^ 8 ≡ x
    → v / 2 ^ k % 2 ^ 8 ≡ y
    → bit_xor u v / 2 ^ k % 2 ^ 8 ≡ bit_xor y x
xor_byte k u v x y p q =
    ap (λ t. t % 2 ^ 8) (xor-shr k u v)
    ∙ xor-mod 8 (u / 2 ^ k) (v / 2 ^ k)
    ∙ ap₂ bit_xor p q
    ∙ xor_comm x y

-- The four indices that the loop takes from its first word, and from its second.
first_word :
    (c b0 b1 b2 b3 : ℕ)
    → c < 2 ^ 32
    → b0 < 256
    → b1 < 256
    → b2 < 256
    → b3 < 256
    → let one = bswap32 (bit_xor (load32 b0 b1 b2 b3) (bswap32 c)) in
      (one / 2 ^ 24 % 2 ^ 8 ≡ bit_xor (c / 2 ^ 24) b0)
      × (one / 2 ^ 16 % 2 ^ 8 ≡ bit_xor (c / 2 ^ 16 % 2 ^ 8) b1)
      × (one / 2 ^ 8 % 2 ^ 8 ≡ bit_xor (c / 2 ^ 8 % 2 ^ 8) b2)
      × (one % 2 ^ 8 ≡ bit_xor (c % 2 ^ 8) b3)
unfolding load32 bswap32
first_word c b0 b1 b2 b3 hc h0 h1 h2 h3 = (
  bytes.0 ∙ ap (λ t. t % 2 ^ 8) (omega arith) ∙ byte 0 b0 (c / 2 ^ 24) (omega arith) (omega arith),
  bytes.1 ∙ byte 8 b1 (c / 2 ^ 16 % 2 ^ 8) (omega arith) (omega arith),
  bytes.2 ∙ byte 16 b2 (c / 2 ^ 8 % 2 ^ 8) (omega arith) (omega arith),
  bytes.3 ∙ byte 24 b3 (c % 2 ^ 8) (omega arith) (omega arith),
)
  where
    w : ℕ
    w = bit_xor (load32 b0 b1 b2 b3) (bswap32 c)

    bytes :
        (bswap32 w / 2 ^ 24 % 2 ^ 8 ≡ w % 2 ^ 8)
        × (bswap32 w / 2 ^ 16 % 2 ^ 8 ≡ w / 2 ^ 8 % 2 ^ 8)
        × (bswap32 w / 2 ^ 8 % 2 ^ 8 ≡ w / 2 ^ 16 % 2 ^ 8)
        × (bswap32 w % 2 ^ 8 ≡ w / 2 ^ 24 % 2 ^ 8)
    bytes = bswap-bytes w

    byte :
        (k x y : ℕ)
        → load32 b0 b1 b2 b3 / 2 ^ k % 2 ^ 8 ≡ x
        → bswap32 c / 2 ^ k % 2 ^ 8 ≡ y
        → w / 2 ^ k % 2 ^ 8 ≡ bit_xor y x
    byte k = xor_byte k (load32 b0 b1 b2 b3) (bswap32 c)

second_word :
    (b0 b1 b2 b3 : ℕ)
    → b0 < 256
    → b1 < 256
    → b2 < 256
    → b3 < 256
    → let two = bswap32 (load32 b0 b1 b2 b3) in
      (two / 2 ^ 24 % 2 ^ 8 ≡ b0)
      × (two / 2 ^ 16 % 2 ^ 8 ≡ b1)
      × (two / 2 ^ 8 % 2 ^ 8 ≡ b2)
      × (two % 2 ^ 8 ≡ b3)
unfolding load32 bswap32
second_word b0 b1 b2 b3 h0 h1 h2 h3 = omega arith

-- The eight entries that a round combines, by their indices.
combine : (x7 x6 x5 x4 x3 x2 x1 x0 : ℕ) → ℕ
combine x7 x6 x5 x4 x3 x2 x1 x0 =
    bit_xor
      (bit_xor
        (bit_xor
          (bit_xor (bit_xor (bit_xor (bit_xor (s8 7 x7) (s8 6 x6)) (s8 5 x5)) (s8 4 x4)) (s8 3 x3))
          (s8 2 x2))
        (s8 1 x1))
      (s8 0 x0)

combine-crc_bytes :
    (x7 x6 x5 x4 x3 x2 x1 x0 : ℕ)
    → AllBytes (x7 ∷ x6 ∷ x5 ∷ x4 ∷ x3 ∷ x2 ∷ x1 ∷ x0 ∷ [])
    → combine x7 x6 x5 x4 x3 x2 x1 x0 ≡ crc_bytes 0 (x7 ∷ x6 ∷ x5 ∷ x4 ∷ x3 ∷ x2 ∷ x1 ∷ x0 ∷ [])
unfolding combine parts
combine-crc_bytes x7 x6 x5 x4 x3 x2 x1 x0 h =
    rw
      (
        s8_lem 7 x7 (omega arith) h.0,
        s8_lem 6 x6 (omega arith) h.1.0,
        s8_lem 5 x5 (omega arith) h.1.1.0,
        s8_lem 4 x4 (omega arith) h.1.1.1.0,
        s8_lem 3 x3 (omega arith) h.1.1.1.1.0,
        s8_lem 2 x2 (omega arith) h.1.1.1.1.1.0,
        s8_lem 1 x1 (omega arith) h.1.1.1.1.1.1.0,
        s8_lem 0 x0 (omega arith) h.1.1.1.1.1.1.1.0,
        crc_bytes-parts 0 (x7 ∷ x6 ∷ x5 ∷ x4 ∷ x3 ∷ x2 ∷ x1 ∷ x0 ∷ []) (omega arith) h,
        rounds-zero,
        zero-xor,
      )
      (simp (xor_assoc, xor-zero))

-- One round of the loop is eight bytes of the division.
pub slice_step-crc_bytes :
    (c b0 b1 b2 b3 b4 b5 b6 b7 : ℕ)
    → c < 2 ^ 32
    → AllBytes (b0 ∷ b1 ∷ b2 ∷ b3 ∷ b4 ∷ b5 ∷ b6 ∷ b7 ∷ [])
    → slice_step c (load32 b0 b1 b2 b3) (load32 b4 b5 b6 b7)
      ≡ crc_bytes c (b0 ∷ b1 ∷ b2 ∷ b3 ∷ b4 ∷ b5 ∷ b6 ∷ b7 ∷ [])
unfolding slice_step combine
slice_step-crc_bytes c b0 b1 b2 b3 b4 b5 b6 b7 hc h =
    (λ i. combine (one.0 i) (one.1 i) (one.2 i) (one.3 i) (two.0 i) (two.1 i) (two.2 i) (two.3 i))
    ∙ combine-crc_bytes _ _ _ _ b4 b5 b6 b7 (
      xor-lt 8 (omega arith) h.0,
      (
        xor-lt 8 (omega arith) h.1.0,
        (xor-lt 8 (omega arith) h.1.1.0, (xor-lt 8 (omega arith) h.1.1.1.0, h.1.1.1.1)),
      ),
    )
    ∙ sym (absorb c b0 b1 b2 b3 (b4 ∷ b5 ∷ b6 ∷ b7 ∷ []) hc h.0 h.1.0 h.1.1.0 h.1.1.1.0)
  where
    one :
        let one = bswap32 (bit_xor (load32 b0 b1 b2 b3) (bswap32 c)) in
        (one / 2 ^ 24 % 2 ^ 8 ≡ bit_xor (c / 2 ^ 24) b0)
        × (one / 2 ^ 16 % 2 ^ 8 ≡ bit_xor (c / 2 ^ 16 % 2 ^ 8) b1)
        × (one / 2 ^ 8 % 2 ^ 8 ≡ bit_xor (c / 2 ^ 8 % 2 ^ 8) b2)
        × (one % 2 ^ 8 ≡ bit_xor (c % 2 ^ 8) b3)
    one = first_word c b0 b1 b2 b3 hc h.0 h.1.0 h.1.1.0 h.1.1.1.0

    two :
        let two = bswap32 (load32 b4 b5 b6 b7) in
        (two / 2 ^ 24 % 2 ^ 8 ≡ b4)
        × (two / 2 ^ 16 % 2 ^ 8 ≡ b5)
        × (two / 2 ^ 8 % 2 ^ 8 ≡ b6)
        × (two % 2 ^ 8 ≡ b7)
    two = second_word b4 b5 b6 b7 h.1.1.1.1.0 h.1.1.1.1.1.0 h.1.1.1.1.1.1.0 h.1.1.1.1.1.1.1.0
