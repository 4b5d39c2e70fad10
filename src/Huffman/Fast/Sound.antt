-- ===== src/Huffman/Fast/Sound.antt =====
-- A look-up in tables that hold codes comes to what GET_MTF_VAL comes to.
use mathlib.Core.List.{append_assoc}
use native.Mathlib.Nat.{mod-lt}
use libqbz.Base.{ℕ, suc, ◌+◌, ◌-◌, ◌/◌, ◌%◌, ◌^◌, ◌≤◌, ◌<◌, List, [], ◌∷◌, ◌++◌}
use libqbz.Base.{◌≡◌, refl, sym, ap, ◌∙◌, arith, leb, true, Bool-cases, inl, inr}
use libqbz.Base.{get_or}
use libqbz.Base.Ints.{ℤ, pos, negsuc}
use libqbz.Base.Power.{pow-pos}
use libqbz.Bits.{bits}
use libqbz.Bits.Laws.{bits-append-injective}
use libqbz.Bits.Reader.{Reader, refill_word, take_bits}
use libqbz.Bits.Reader.Laws.{contents, IsValid, word-contents, take_bits-Answers, bits_mod}
use libqbz.Huffman.Fast.{
  refill_some, window, code_length, symbol_of, extra_of, place_of, table_bits,
}
use libqbz.Huffman.Symbol.{bits-split, top_small}

-- The code of a symbol of the group stands at the front of the `n` digits of `x`.
pub record Holds (lens : List ℕ) (code : ℕ → ℕ) (alpha n x entry : ℕ) : Type 0 where
  pub known : symbol_of entry < alpha
  pub own_length : get_or lens (symbol_of entry) 0 ≡ code_length entry
  pub within : code_length entry ≤ n
  pub fits : code (symbol_of entry) < 2 ^ code_length entry
  pub front : code (symbol_of entry) ≡ x / 2 ^ (n - code_length entry)

-- Every entry of `decode_fast` and `decode_overflow` that stands for a symbol stands where its code
-- leads.
pub record Sound (lens : ℕ → List ℕ) (code : ℕ → ℕ → ℕ) (alpha : ℕ) (fast overflow : ℕ → ℕ → ℤ)
    : Type 0 where
  pub short :
      (g x e : ℕ)
      → x < 2 ^ table_bits
      → fast g x ≡ pos (suc e)
      → Holds (lens g) (code g) alpha table_bits x (suc e)
  pub long :
      (g x m e : ℕ)
      → x < 2 ^ (table_bits + extra_of m)
      → fast g (x / 2 ^ extra_of m) ≡ negsuc m
      → overflow g (place_of m (x % 2 ^ extra_of m)) ≡ pos (suc e)
      → Holds (lens g) (code g) alpha (table_bits + extra_of m) x (suc e)

pub leb_le : (a b : ℕ) → leb a b ≡ true → a ≤ b
leb_le a b h = ground arith

-- the refill leaves the digits
pub refill_some-contents :
    (xs : List ℕ) (r : Reader)
    → r.next_in ≡ xs
    → IsValid r
    → IsValid (refill_some xs r) × (contents (refill_some xs r) ≡ contents r)
unfolding refill_some
refill_some-contents [] r e k = (k, refl)
refill_some-contents (a ∷ []) r e k = (k, refl)
refill_some-contents (a ∷ b ∷ []) r e k = (k, refl)
refill_some-contents (a ∷ b ∷ c ∷ []) r e k = (k, refl)
refill_some-contents (a ∷ b ∷ c ∷ d ∷ rest) r e k = elim (Bool-cases (leb r.bs_live 32)) [
  | inl h ↦
      let bytes = rw e at k.bytes in
      let few = leb_le r.bs_live 32 h in
      rw h (
        unfold refill_word in record { live = omega arith; bytes = bytes.1.1.1.1 },
        sym (word-contents r a b c d rest few (omega arith) e),
      )
  | inr h ↦ rw h (k, refl)
]

-- the digits left, once `n` of them are taken
abbrev pub beyond : ℕ → Reader → Reader
beyond n r = record r { bs_live = r.bs_live - n }

pub window-contents :
    (n : ℕ) (r : Reader)
    → IsValid r
    → n ≤ r.bs_live
    → IsValid (beyond n r)
      × (window n r < 2 ^ n)
      × (contents r ≡ bits n (window n r) ++ contents (beyond n r))
unfolding take_bits
window-contents n r k h = take_bits-Answers n r k h

-- A code at the front of a window is the front of the digits that are left.
pub front-contents :
    (n l c : ℕ) (r : Reader)
    → IsValid r
    → n ≤ r.bs_live
    → l ≤ n
    → c < 2 ^ l
    → c ≡ window n r / 2 ^ (n - l)
    → contents r ≡ bits l c ++ contents (beyond l r)
front-contents n l c r k h hl hc e =
    let whole = window-contents n r k h in
    let part = window-contents l r k (omega arith) in
    let split : bits n (window n r) ≡ bits l c ++ bits (n - l) (window n r) =
      (λ i. bits (total i) (window n r))
      ∙ bits-split l (n - l) (window n r)
      ∙ ap (λ t. bits l t ++ bits (n - l) (window n r)) (sym e) in
    let both =
      bits-append-injective l (window l r) c (contents (beyond l r))
        (bits (n - l) (window n r) ++ contents (beyond n r)) part.1 hc
        (sym part.2
          ∙ whole.2
          ∙ ap (λ t. t ++ contents (beyond n r)) split
          ∙ append_assoc (bits l c) (bits (n - l) (window n r)) (contents (beyond n r))) in
    part.2 ∙ ap (λ t. bits l t ++ contents (beyond l r)) both.0
  where
    total : n ≡ l + (n - l)
    total = omega arith

-- A wider window, by the narrower one and the digits behind it.
pub wider :
    (n x : ℕ) (r : Reader)
    → IsValid r
    → n + x ≤ r.bs_live
    → (window (n + x) r / 2 ^ x ≡ window n r)
      × (window (n + x) r % 2 ^ x ≡ r.bs_buff / 2 ^ (r.bs_live - (n + x)) % 2 ^ x)
wider n x r k h =
    let narrow = window-contents n r k (omega arith) in
    let whole = window-contents (n + x) r k h in
    let behind = window-contents x (beyond n r) narrow.0 (omega arith) in
    let first =
      bits-append-injective n (window (n + x) r / 2 ^ x) (window n r)
        (bits x (window (n + x) r) ++ contents (beyond (n + x) r)) (contents (beyond n r))
        (top_small (window (n + x) r) n x whole.1) narrow.1
        (sym (
            append_assoc (bits n (window (n + x) r / 2 ^ x)) (bits x (window (n + x) r))
              (contents (beyond (n + x) r)))
          ∙ ap (λ t. t ++ contents (beyond (n + x) r)) (sym (bits-split n x (window (n + x) r)))
          ∙ sym whole.2
          ∙ narrow.2) in
    let second =
      bits-append-injective x (window (n + x) r % 2 ^ x) (window x (beyond n r))
        (contents (beyond (n + x) r)) (contents (beyond x (beyond n r)))
        (mod-lt (window (n + x) r) (pow-pos x)) behind.1
        (ap (λ t. t ++ contents (beyond (n + x) r)) (bits_mod x x (window (n + x) r) (omega arith))
          ∙ first.1
          ∙ behind.2) in
    (first.0, second.0 ∙ ap (λ t. r.bs_buff / 2 ^ t % 2 ^ x) (omega arith))
