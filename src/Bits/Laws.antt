-- ===== src/Bits/Laws.antt =====
-- Joining, splitting and reading back sequences of digits.
use mathlib.Core.List.{append_assoc, append-nil}
use libqbz.Base.{ℕ, zero, suc, ◌+◌, ◌*◌, ◌/◌, ◌%◌, ◌^◌, ◌<◌, ◌≡◌, refl, ap, ap₂, sym, ◌∙◌, arith}
use libqbz.Base.{List, [], ◌∷◌, ◌++◌, length}
use libqbz.Base.Power.{pow-pos, div_fields, shr_add}
use libqbz.Bits.{bits, byte_bits}
use native.Mathlib.Nat.{div-lt_iff_lt-mul, div-add-mod', mod-lt}
use native.Mathlib.Nat.{pow-suc, mul-add-div_right}

-- Higher digits do not show.
pub bits_low : (n a b : ℕ) → bits n (a * 2 ^ n + b) ≡ bits n b
unfolding bits
bits_low zero a b = refl
bits_low (suc n) a b = ap₂ ◌∷◌ head' (ap (bits n) regroup ∙ bits_low n (2 * a) b)
  where
    regroup : a * 2 ^ suc n + b ≡ 2 * a * 2 ^ n + b
    regroup = omega (arith, ap (λ (t : ℕ). a * t) (pow-suc 2 n))

    head' : (a * 2 ^ suc n + b) / 2 ^ n % 2 ≡ b / 2 ^ n % 2
    head' =
        ap (λ t. t / 2 ^ n % 2) regroup
        ∙ ap (λ t. t % 2) (mul-add-div_right (pow-pos n) (2 * a) b)
        ∙ omega arith

pub bits-append : (m n a b : ℕ) → b < 2 ^ n → bits (m + n) (a * 2 ^ n + b) ≡ bits m a ++ bits n b
unfolding bits
bits-append zero n a b h = ap (λ k. bits k (a * 2 ^ n + b)) (omega arith) ∙ bits_low n a b
bits-append (suc m) n a b h =
    let e : suc m + n ≡ suc (m + n) = omega arith in
    rw e (
      ap₂ ◌∷◌
        (ap (λ t. t % 2) (shr_add m n (a * 2 ^ n + b) ∙ ap (λ t. t / 2 ^ m) (div_fields n a b h)))
        (bits-append m n a b h))

pub length-bits : (n v : ℕ) → length (bits n v) ≡ n
unfolding bits
length-bits zero v = refl
length-bits (suc n) v = ap suc (length-bits n v)

pub byte_bits-append : (xs ys : List ℕ) → byte_bits (xs ++ ys) ≡ byte_bits xs ++ byte_bits ys
unfolding byte_bits
byte_bits-append [] ys = refl
byte_bits-append (x ∷ xs) ys =
    ap (λ t. bits 8 x ++ t) (byte_bits-append xs ys)
    ∙ sym (append_assoc (bits 8 x) (byte_bits xs) (byte_bits ys))

-- The number that a sequence of digits is.
value : ℕ → List ℕ → ℕ
value acc [] = acc
value acc (d ∷ ds) = value (acc * 2 + d) ds

split_digit :
    (n v : ℕ) → v < 2 ^ suc n → (v / 2 ^ n % 2 ≡ v / 2 ^ n) × (v ≡ v / 2 ^ n * 2 ^ n + v % 2 ^ n)
split_digit n v h = (omega (arith, small), omega (arith, div-add-mod' v (2 ^ n)))
  where
    small : v / 2 ^ n < 2
    small = (div-lt_iff_lt-mul (pow-pos n)).1 (omega (arith, pow-suc 2 n))

value-bits :
    (n acc v : ℕ) (rest : List ℕ)
    → v < 2 ^ n
    → value acc (bits n v ++ rest) ≡ value (acc * 2 ^ n + v) rest
unfolding bits value
value-bits zero acc v rest h = ap (λ t. value t rest) (omega arith)
value-bits (suc n) acc v rest h =
    ap (λ t. value (acc * 2 + v / 2 ^ n % 2) (t ++ rest))
      (ap (bits n) parts.1 ∙ bits_low n (v / 2 ^ n) (v % 2 ^ n))
    ∙ value-bits n (acc * 2 + v / 2 ^ n % 2) (v % 2 ^ n) rest (mod-lt v (pow-pos n))
    ∙ ap (λ t. value t rest) total
  where
    parts : (v / 2 ^ n % 2 ≡ v / 2 ^ n) × (v ≡ v / 2 ^ n * 2 ^ n + v % 2 ^ n)
    parts = split_digit n v h

    total : (acc * 2 + v / 2 ^ n % 2) * 2 ^ n + v % 2 ^ n ≡ acc * 2 ^ suc n + v
    total =
        omega
          (arith, parts, ap (λ (t : ℕ). t * 2 ^ n) parts.0, ap (λ (t : ℕ). acc * t) (pow-suc 2 n))

pub bits-injective : (n v w : ℕ) → v < 2 ^ n → w < 2 ^ n → bits n v ≡ bits n w → v ≡ w
unfolding value
bits-injective n v w hv hw e =
    sym (omega arith)
    ∙ sym (value-bits n 0 v [] hv)
    ∙ ap (λ t. value 0 (t ++ [])) e
    ∙ value-bits n 0 w [] hw
    ∙ omega arith

append-injective :
    (xs ys us ws : List ℕ) → length xs ≡ length ys → xs ++ us ≡ ys ++ ws → (xs ≡ ys) × (us ≡ ws)
append-injective [] [] us ws l e = (refl, e)
append-injective [] (y ∷ ys) us ws l e = absurd (omega arith)
append-injective (x ∷ xs) [] us ws l e = absurd (omega arith)
append-injective (x ∷ xs) (y ∷ ys) us ws l e =
    let rest = append-injective xs ys us ws (omega arith) (cc) in (ap₂ ◌∷◌ (cc) rest.0, rest.1)

-- Equal sequences that begin with `n` digits agree on the number that these are, and on the rest.
pub bits-append-injective :
    (n v w : ℕ) (us ws : List ℕ)
    → v < 2 ^ n
    → w < 2 ^ n
    → bits n v ++ us ≡ bits n w ++ ws
    → (v ≡ w) × (us ≡ ws)
bits-append-injective n v w us ws hv hw e =
    let both =
      append-injective (bits n v) (bits n w) us ws (length-bits n v ∙ sym (length-bits n w)) e in
    (bits-injective n v w hv hw both.0, both.1)

pub append-cancel : (xs us ws : List ℕ) → xs ++ us ≡ xs ++ ws → us ≡ ws
append-cancel xs us ws e = (append-injective xs xs us ws refl e).1

-- Four bytes make a word.
pub word_bits :
    (a b c d : ℕ)
    → b < 2 ^ 8
    → c < 2 ^ 8
    → d < 2 ^ 8
    → bits 32 (((a * 2 ^ 8 + b) * 2 ^ 8 + c) * 2 ^ 8 + d) ≡ byte_bits (a ∷ b ∷ c ∷ d ∷ [])
unfolding byte_bits
word_bits a b c d hb hc hd =
    bits-append 24 8 ((a * 2 ^ 8 + b) * 2 ^ 8 + c) d hd
    ∙ ap (λ t. t ++ bits 8 d)
        (bits-append 16 8 (a * 2 ^ 8 + b) c hc ∙ ap (λ t. t ++ bits 8 c) (bits-append 8 8 a b hb))
    ∙ append_assoc (bits 8 a ++ bits 8 b) (bits 8 c) (bits 8 d)
    ∙ append_assoc (bits 8 a) (bits 8 b) (bits 8 c ++ bits 8 d)
    ∙ ap (λ t. bits 8 a ++ (bits 8 b ++ (bits 8 c ++ t))) (sym (append-nil (bits 8 d)))
