-- ===== src/Bits/Writer/Laws.antt =====
-- The writer appends exactly the digits that it is given, most significant first.
use mathlib.Core.List.{append_assoc}
use native.Mathlib.Nat.{le_trans, pow-le-pow_right, div-add-mod', mod-lt, div-lt_iff_lt-mul}
use native.Mathlib.Nat.{mod-eq_of_lt}
use libqbz.Base.{ℕ, ◌+◌, ◌-◌, ◌*◌, ◌/◌, ◌%◌, ◌^◌, ◌≤◌, ◌<◌, ◌≡◌, refl, ap, ap₂, sym, ◌∙◌}
use libqbz.Base.{List, ◌++◌, bit_or, arith}
use libqbz.Base.Or.{or_fields}
use libqbz.Base.Power.{pow-add, pow-pos, div_fields}
use libqbz.Bits.{bits, byte_bits}
use libqbz.Bits.Laws.{bits-append, byte_bits-append, word_bits}
use libqbz.Bits.Writer.{Writer, flush_word}
use libqbz.Bits.Writer.{put_bits}

-- The buffer holds `f` in its `bs_live` highest digits, and zeros below.
pub record Holds (f : ℕ) (s : Writer) : Type 0 where
  pub live : s.bs_live ≤ 64
  pub fits : f < 2 ^ s.bs_live
  pub high : s.bs_buff ≡ f * 2 ^ (64 - s.bs_live)

-- What is in the buffer.
abbrev pub field : Writer → ℕ
field s = s.bs_buff / 2 ^ (64 - s.bs_live)

pub record IsValid (s : Writer) : Type 0 where
  pub live : s.bs_live ≤ 64
  pub fits : field s < 2 ^ s.bs_live
  pub high : s.bs_buff ≡ field s * 2 ^ (64 - s.bs_live)

-- All the digits written.
abbrev pub contents : Writer → List ℕ
contents s = byte_bits s.zbits ++ bits s.bs_live (field s)

field_of : {f : ℕ} {s : Writer} → Holds f s → field s ≡ f
field_of {f} {s} k =
    ap (λ t. t / 2 ^ (64 - s.bs_live)) (k.high ∙ omega arith)
    ∙ div_fields (64 - s.bs_live) f 0 (pow-pos (64 - s.bs_live))

pub Holds-IsValid : {f : ℕ} {s : Writer} → Holds f s → IsValid s
Holds-IsValid {f} {s} k = record {
  live = k.live;
  fits = rw (field_of k) k.fits;
  high = rw (field_of k) k.high;
}

pub IsValid-Holds : {s : Writer} → IsValid s → Holds (field s) s
IsValid-Holds k = record { live = k.live; fits = k.fits; high = k.high }

-- Sums and products of powers that the shifts need.
pow_split : (m n k : ℕ) → m + n ≡ k → 2 ^ m * 2 ^ n ≡ 2 ^ k
pow_split m n k e = sym (pow-add m n) ∙ ap (λ t. 2 ^ t) e

scale_lt : (v m n k : ℕ) → v < 2 ^ m → m + n ≡ k → v * 2 ^ n < 2 ^ k
scale_lt v m n k h e = grind (arith, pow_split m n k e, pow-pos n)

module _ (s : Writer) (f n v : ℕ) (k : Holds f s) (room : s.bs_live + n ≤ 64) (h : v < 2 ^ n) where
  shifted : v * 2 ^ (64 - s.bs_live - n) < 2 ^ (64 - s.bs_live)
  shifted = scale_lt v n (64 - s.bs_live - n) (64 - s.bs_live) h (omega arith)

  in_word : v * 2 ^ (64 - s.bs_live - n) < 2 ^ 64
  in_word = le_trans shifted (pow-le-pow_right {n = 2} (omega arith) {j = 64} (omega arith))

  widened :
      (f * 2 ^ n + v) * 2 ^ (64 - (s.bs_live + n))
      ≡ f * 2 ^ (64 - s.bs_live) + v * 2 ^ (64 - s.bs_live - n)
  widened = omega (
    arith,
    ap (λ (t : ℕ). f * t) (pow_split n (64 - (s.bs_live + n)) (64 - s.bs_live) (omega arith)),
    ap (λ (t : ℕ). v * 2 ^ t) same,
  )
    where
      same : 64 - (s.bs_live + n) ≡ 64 - s.bs_live - n
      same = omega arith

  pub put_bits-Holds : Holds (f * 2 ^ n + v) (put_bits s n v)
  unfolding put_bits
  put_bits-Holds = record {
    live = room;
    fits = grind (arith, pow_split s.bs_live n (s.bs_live + n) refl, k.fits);
    high =
        ap₂ bit_or k.high (mod-eq_of_lt in_word)
        ∙ or_fields (64 - s.bs_live) f (v * 2 ^ (64 - s.bs_live - n)) shifted
        ∙ sym widened;
  }

  zbits-put_bits : (put_bits s n v).zbits ≡ s.zbits
  unfolding put_bits
  zbits-put_bits = refl

  pub contents-put_bits : contents (put_bits s n v) ≡ contents s ++ bits n v
  contents-put_bits =
      ap₂ (λ x y. byte_bits x ++ y) zbits-put_bits
        (ap (bits (put_bits s n v).bs_live) (field_of put_bits-Holds)
          ∙ live'
          ∙ bits-append s.bs_live n f v h
          ∙ ap (λ t. bits s.bs_live t ++ bits n v) (sym (field_of k)))
      ∙ sym (append_assoc (byte_bits s.zbits) (bits s.bs_live (field s)) (bits n v))
    where
      live' : bits (put_bits s n v).bs_live (f * 2 ^ n + v) ≡ bits (s.bs_live + n) (f * 2 ^ n + v)
      live' = unfold put_bits in refl

-- The four bytes that bsNEEDW takes off are the 32 highest digits of the buffer.
module _ (s : Writer) (f m : ℕ) (k : Holds f s) (many : s.bs_live ≡ 32 + m) where
  top : ℕ
  top = f / 2 ^ m

  pub low : ℕ
  low = f % 2 ^ m

  parts : f ≡ top * 2 ^ m + low
  unfolding top low
  parts = sym (div-add-mod' f (2 ^ m))

  low-lt : low < 2 ^ m
  unfolding low
  low-lt = mod-lt f (pow-pos m)

  top-lt : top < 2 ^ 32
  unfolding top
  top-lt =
      (div-lt_iff_lt-mul (pow-pos m)).1
        (omega (arith, k.fits, ap (λ t. 2 ^ t) many, pow_split 32 m (32 + m) refl))

  rest-lt : low * 2 ^ (32 - m) < 2 ^ 32
  rest-lt = scale_lt low m (32 - m) 32 low-lt (omega (arith, k.live))

  buffer : s.bs_buff ≡ top * 2 ^ 32 + low * 2 ^ (32 - m)
  buffer = omega (
    arith,
    k.high,
    ap (λ t. f * 2 ^ t) gap,
    ap (λ (t : ℕ). t * 2 ^ (32 - m)) parts,
    ap (λ (t : ℕ). top * t) (pow_split m (32 - m) 32 (omega (arith, k.live))),
  )
    where
      gap : 64 - s.bs_live ≡ 32 - m
      gap = omega (arith, many)

  left : s.bs_live - 32 ≡ m
  left = omega (arith, many)

  shifted_up : s.bs_buff * 2 ^ 32 % 2 ^ 64 ≡ low * 2 ^ (64 - (s.bs_live - 32))
  shifted_up = omega (
    arith,
    buffer,
    rest-lt,
    ap (λ (t : ℕ). low * t)
        (pow_split (32 - m) 32 (64 - (s.bs_live - 32)) (omega (arith, many, k.live))),
  )

  pub flush_word-Holds : Holds low (flush_word s)
  unfolding flush_word
  flush_word-Holds = record {
    live = omega (arith, k.live);
    fits = rw left low-lt;
    high = shifted_up;
  }

  flushed : byte_bits (flush_word s).zbits ≡ byte_bits s.zbits ++ bits 32 top
  unfolding flush_word
  flushed =
      byte_bits-append s.zbits _
      ∙ ap (λ t. byte_bits s.zbits ++ t)
          (sym (word_bits _ _ _ _ (omega arith) (omega arith) (omega arith)) ∙ ap (bits 32) word)
    where
      word :
          ((s.bs_buff / 2 ^ 56 % 2 ^ 8 * 2 ^ 8 + s.bs_buff / 2 ^ 48 % 2 ^ 8) * 2 ^ 8
                + s.bs_buff / 2 ^ 40 % 2 ^ 8)
              * 2 ^ 8
            + s.bs_buff / 2 ^ 32 % 2 ^ 8
          ≡ top
      word = omega (arith, buffer, rest-lt, top-lt)

  pub contents-flush_word : contents (flush_word s) ≡ contents s
  contents-flush_word =
      ap₂ ◌++◌ flushed (ap₂ bits live' (field_of flush_word-Holds))
      ∙ append_assoc (byte_bits s.zbits) (bits 32 top) (bits m low)
      ∙ ap (λ t. byte_bits s.zbits ++ t)
          (sym (bits-append 32 m top low low-lt)
            ∙ ap₂ bits (sym many) (sym parts ∙ sym (field_of k)))
    where
      live' : (flush_word s).bs_live ≡ m
      live' = unfold flush_word in left
