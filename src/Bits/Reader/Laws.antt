-- ===== src/Bits/Reader/Laws.antt =====
-- The reader takes digits off the front of what is left, and stops for want of input only when
-- fewer are left than it was asked for.
use mathlib.Core.List.{append_assoc}
use native.Mathlib.Nat.{div-add-mod', mod-lt}
use libqbz.Base.{ℕ, ◌+◌, ◌-◌, ◌*◌, ◌/◌, ◌%◌, ◌^◌, ◌≤◌, ◌<◌, ◌≡◌, refl, ap, ap₂, sym, ◌∙◌}
use libqbz.Base.{List, [], ◌∷◌, ◌++◌, bit_or, arith, leb, Bool-cases, inl, inr}
use libqbz.Base.{true, false}
use libqbz.Base.Or.{or_fields}
use libqbz.Base.Power.{pow-add, pow-pos}
use libqbz.Bits.{bits, byte_bits}
use libqbz.Bits.Laws.{byte_bits-append, bits_low, bits-append, word_bits}
use libqbz.Bits.Reader.{Reader, Fetch, got, starved, take_bits, refill_word, refill_byte, get_loop}
use libqbz.Bits.Reader.{get_bits}
use libqbz.Crc.Update.{AllBytes}

-- The digits that are left.
abbrev pub contents : Reader → List ℕ
contents s = bits s.bs_live s.bs_buff ++ byte_bits s.next_in

pub record IsValid (s : Reader) : Type 0 where
  pub live : s.bs_live ≤ 64
  pub bytes : AllBytes s.next_in

-- What becomes of a request for `n` digits.
abbrev pub Answers : ℕ → Reader → Fetch → Type 0
Answers n s (got v t) = IsValid t × (v < 2 ^ n) × (contents s ≡ bits n v ++ contents t)
Answers n s (starved t) = IsValid t × (contents s ≡ contents t) × (t.bs_live < n) × (t.next_in ≡ [])

pub bits_mod : (n k x : ℕ) → n ≤ k → bits n (x % 2 ^ k) ≡ bits n x
bits_mod n k x h = sym (
    ap (bits n) (sym (div-add-mod' x (2 ^ k)) ∙ ap (λ t. t + x % 2 ^ k) high)
    ∙ bits_low n (x / 2 ^ k * 2 ^ (k - n)) (x % 2 ^ k))
  where
    high : x / 2 ^ k * 2 ^ k ≡ x / 2 ^ k * 2 ^ (k - n) * 2 ^ n
    high = omega (
      arith,
      ap (λ (t : ℕ). x / 2 ^ k * t) (pow-add (k - n) n),
      ap (λ t. x / 2 ^ k * 2 ^ t) whole,
    )
      where
        whole : k - n + n ≡ k
        whole = omega arith

pub take_bits-Answers :
    (n : ℕ) (s : Reader) → IsValid s → n ≤ s.bs_live → Answers n s (take_bits n s)
unfolding take_bits
take_bits-Answers n s k h = (
  record { live = omega (arith, k.live); bytes = k.bytes },
  mod-lt _ (pow-pos n),
  ap (λ t. t ++ byte_bits s.next_in) split
      ∙ append_assoc (bits n v) (bits m s.bs_buff) (byte_bits s.next_in),
)
  where
    m : ℕ
    m = s.bs_live - n

    v : ℕ
    v = s.bs_buff / 2 ^ m % 2 ^ n

    split : bits s.bs_live s.bs_buff ≡ bits n v ++ bits m s.bs_buff
    split =
        ap₂ bits {x = s.bs_live} {y = n + m} (omega arith) (sym (div-add-mod' s.bs_buff (2 ^ m)))
        ∙ bits-append n m (s.bs_buff / 2 ^ m) (s.bs_buff % 2 ^ m) (mod-lt s.bs_buff (pow-pos m))
        ∙ ap₂ ◌++◌ (sym (bits_mod n n (s.bs_buff / 2 ^ m) (omega arith)))
            (bits_mod m m s.bs_buff (omega arith))

-- A refill moves digits from the input to the buffer.
byte-contents :
    (s : Reader) (b : ℕ) (rest : List ℕ)
    → s.bs_live ≤ 56
    → b < 256
    → s.next_in ≡ b ∷ rest
    → contents s ≡ contents (refill_byte s b rest)
unfolding refill_byte byte_bits
byte-contents s b rest h hb e =
    ap (λ t. bits s.bs_live s.bs_buff ++ byte_bits t) e
    ∙ sym (append_assoc (bits s.bs_live s.bs_buff) (bits 8 b) (byte_bits rest))
    ∙ ap (λ t. t ++ byte_bits rest)
        (ap (λ t. t ++ bits 8 b) (sym (bits_mod s.bs_live 56 s.bs_buff h))
          ∙ sym (bits-append s.bs_live 8 (s.bs_buff % 2 ^ 56) b hb)
          ∙ ap (bits (s.bs_live + 8))
              (sym (or_fields 8 (s.bs_buff % 2 ^ 56) b hb) ∙ ap (λ t. bit_or t b) (omega arith)))

or_bytes :
    (x b0 b1 b2 b3 : ℕ)
    → b0 < 256
    → b1 < 256
    → b2 < 256
    → b3 < 256
    → bit_or (bit_or (bit_or (bit_or (x * 2 ^ 32) (b0 * 2 ^ 24)) (b1 * 2 ^ 16)) (b2 * 2 ^ 8)) b3
      ≡ x * 2 ^ 32 + (((b0 * 2 ^ 8 + b1) * 2 ^ 8 + b2) * 2 ^ 8 + b3)
or_bytes x b0 b1 b2 b3 h0 h1 h2 h3 = ground (
  arith,
  or_fields 32 x (b0 * 2 ^ 24) (omega arith),
  or_fields 24 (x * 2 ^ 8 + b0) (b1 * 2 ^ 16) (omega arith),
  or_fields 16 ((x * 2 ^ 8 + b0) * 2 ^ 8 + b1) (b2 * 2 ^ 8) (omega arith),
  or_fields 8 (((x * 2 ^ 8 + b0) * 2 ^ 8 + b1) * 2 ^ 8 + b2) b3 h3,
)

pub word-contents :
    (s : Reader) (b0 b1 b2 b3 : ℕ) (rest : List ℕ)
    → s.bs_live ≤ 32
    → AllBytes (b0 ∷ b1 ∷ b2 ∷ b3 ∷ [])
    → s.next_in ≡ b0 ∷ b1 ∷ b2 ∷ b3 ∷ rest
    → contents s ≡ contents (refill_word s b0 b1 b2 b3 rest)
unfolding refill_word
word-contents s b0 b1 b2 b3 rest h hb e =
    ap (λ t. bits s.bs_live s.bs_buff ++ byte_bits t) e
    ∙ ap (λ t. bits s.bs_live s.bs_buff ++ t) (byte_bits-append (b0 ∷ b1 ∷ b2 ∷ b3 ∷ []) rest)
    ∙ sym (
        append_assoc (bits s.bs_live s.bs_buff) (byte_bits (b0 ∷ b1 ∷ b2 ∷ b3 ∷ []))
          (byte_bits rest))
    ∙ ap (λ t. t ++ byte_bits rest)
        (ap₂ ◌++◌ (sym (bits_mod s.bs_live 32 s.bs_buff h))
            (sym (word_bits b0 b1 b2 b3 hb.1.0 hb.1.1.0 hb.1.1.1.0))
          ∙ sym (bits-append s.bs_live 32 (s.bs_buff % 2 ^ 32) word (omega arith))
          ∙ ap (bits (s.bs_live + 32)) (
              sym (or_bytes (s.bs_buff % 2 ^ 32) b0 b1 b2 b3 hb.0 hb.1.0 hb.1.1.0 hb.1.1.1.0)
              ∙ ap
                  (λ t.
                    bit_or (bit_or (bit_or (bit_or t (b0 * 2 ^ 24)) (b1 * 2 ^ 16)) (b2 * 2 ^ 8)) b3)
                  {x = s.bs_buff % 2 ^ 32 * 2 ^ 32} {y = s.bs_buff * 2 ^ 32 % 2 ^ 64}
                  (omega arith)))
  where
    word : ℕ
    word = ((b0 * 2 ^ 8 + b1) * 2 ^ 8 + b2) * 2 ^ 8 + b3

-- What holds after a refill holds before it.
Answers-refill :
    (n : ℕ) (s t : Reader) (f : Fetch) → contents s ≡ contents t → Answers n t f → Answers n s f
Answers-refill n s t (got v u) e a = (a.0, a.1, e ∙ a.2)
Answers-refill n s t (starved u) e a = (a.0, e ∙ a.1, a.2, a.3)

leb_le : (a b : ℕ) → leb a b ≡ true → a ≤ b
leb_le a b h = ground arith

leb_lt : (a b : ℕ) → leb a b ≡ false → b < a
leb_lt a b h = ground arith

get_loop-Answers :
    (n : ℕ) (input : List ℕ) (s : Reader)
    → n ≤ 32
    → s.next_in ≡ input
    → IsValid s
    → Answers n s (get_loop n input s)
unfolding get_loop
get_loop-Answers n (b0 ∷ b1 ∷ b2 ∷ b3 ∷ rest) s hn e k = elim (Bool-cases (leb n s.bs_live)) [
  | inl p ↦ rw p (take_bits-Answers n s k (leb_le n s.bs_live p))
  | inr p ↦
      let few : s.bs_live ≤ 32 = omega (arith, leb_lt n s.bs_live p) in
      let q : leb s.bs_live 32 ≡ true = ground arith in
      let bytes = bytes_of k e in
      rw (p, q)
        (Answers-refill n s (refill_word s b0 b1 b2 b3 rest) _
          (word-contents s b0 b1 b2 b3 rest few (omega arith) e)
          (get_loop-Answers n rest (refill_word s b0 b1 b2 b3 rest) hn (unfold refill_word in refl)
            (unfold refill_word in record { live = omega arith; bytes = bytes.1.1.1.1 })))
]
  where
    bytes_of :
        IsValid s → s.next_in ≡ b0 ∷ b1 ∷ b2 ∷ b3 ∷ rest → AllBytes (b0 ∷ b1 ∷ b2 ∷ b3 ∷ rest)
    bytes_of k e = rw e at k.bytes
get_loop-Answers n (b ∷ rest) s hn e k = elim (Bool-cases (leb n s.bs_live)) [
  | inl p ↦ rw p (take_bits-Answers n s k (leb_le n s.bs_live p))
  | inr p ↦
      let few : s.bs_live ≤ 32 = omega (arith, leb_lt n s.bs_live p) in
      rw p (
        Answers-refill n s (refill_byte s b rest) _
          (byte-contents s b rest (omega arith) (head_of k e) e)
          (get_loop-Answers n rest (refill_byte s b rest) hn (unfold refill_byte in refl)
            (unfold refill_byte in record { live = omega arith; bytes = tail_of k e })))
]
  where
    head_of : IsValid s → s.next_in ≡ b ∷ rest → b < 256
    head_of k e = (rw e at k.bytes).0

    tail_of : IsValid s → s.next_in ≡ b ∷ rest → AllBytes rest
    tail_of k e = (rw e at k.bytes).1
get_loop-Answers n [] s hn e k = elim (Bool-cases (leb n s.bs_live)) [
  | inl p ↦ rw p (take_bits-Answers n s k (leb_le n s.bs_live p))
  | inr p ↦ rw p (k, refl, leb_lt n s.bs_live p, e)
]

-- On a valid reader, for n digits, n at most 30: if GET_BITS returns a number, its n digits are the
-- first that the buffer and the input hold, and the rest is left in a valid reader; if it returns for
-- want of input, nothing is lost, the input is used up, the buffer holds fewer than n digits, and the
-- reader is valid.
pub get_bits-Answers : (n : ℕ) (s : Reader) → n ≤ 30 → IsValid s → Answers n s (get_bits n s)
unfolding get_bits
get_bits-Answers n s hn k = get_loop-Answers n s.next_in s (omega arith) refl k
