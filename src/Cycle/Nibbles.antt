-- ===== src/Cycle/Nibbles.antt =====
-- SET_LL and GET_LL: numbers of twenty digits in 16 and 4.
use libqbz.Base.{ℕ, ◌+◌, ◌*◌, ◌/◌, ◌%◌, ◌^◌, ◌<◌, ◌≡◌, ◌≢◌, refl, ap, ap₂, ◌∙◌, sym, arith, bit_or}
use libqbz.Base.{◌==◌, Bool-cases, inl, inr, true, false, ◌⊎◌, ==_iff}
use libqbz.Base.Or.{or_fields}
use libqbz.Cycle.{Links, set_ll4, get_ll4, set_ll, get_ll}
use libqbz.Huffman.{write}

write_own : (a : ℕ → ℕ) (i v j : ℕ) → j ≡ i → write a i v j ≡ v
write_own a i v j e = ground arith

write_other : (a : ℕ → ℕ) (i v j : ℕ) → j ≢ i → write a i v j ≡ a j
write_other a i v j e = ground (arith, e)

parity : (i : ℕ) → (i % 2 ≡ 0) ⊎ (i % 2 ≡ 1)
parity i = grind arith

even_test : (i : ℕ) → i % 2 ≡ 0 → (i % 2 == 0) ≡ true
even_test i e = rw e refl

odd_test : (i : ℕ) → i % 2 ≡ 1 → (i % 2 == 0) ≡ false
odd_test i e = rw e refl

-- the byte of two entries
low_nibble :
    (b n : ℕ) → n < 2 ^ 4 → bit_or (b / 2 ^ 4 % 2 ^ 4 * 2 ^ 4) n ≡ b / 2 ^ 4 % 2 ^ 4 * 2 ^ 4 + n
low_nibble b n h = or_fields 4 (b / 2 ^ 4 % 2 ^ 4) n h

high_nibble : (b n : ℕ) → bit_or (n * 2 ^ 4) (b % 2 ^ 4) ≡ n * 2 ^ 4 + b % 2 ^ 4
high_nibble b n = or_fields 4 n (b % 2 ^ 4) (omega arith)

get_ll4-set_self : (ll4 : ℕ → ℕ) (i n : ℕ) → n < 2 ^ 4 → get_ll4 (set_ll4 ll4 i n) i ≡ n
unfolding get_ll4 set_ll4
get_ll4-set_self ll4 i n h = elim (parity i) [
  | inl e ↦ rw (even_test i e) (
      ap (λ t. t / 2 ^ (i % 2 * 4) % 2 ^ 4)
        (write_own ll4 (i / 2) _ (i / 2) refl ∙ low_nibble (ll4 (i / 2)) n h)
      ∙ (λ t. (ll4 (i / 2) / 2 ^ 4 % 2 ^ 4 * 2 ^ 4 + n) / 2 ^ (e t * 4) % 2 ^ 4)
      ∙ omega arith)
  | inr e ↦ rw (odd_test i e) (
      ap (λ t. t / 2 ^ (i % 2 * 4) % 2 ^ 4)
        (write_own ll4 (i / 2) _ (i / 2) refl ∙ high_nibble (ll4 (i / 2)) n)
      ∙ (λ t. (n * 2 ^ 4 + ll4 (i / 2) % 2 ^ 4) / 2 ^ (e t * 4) % 2 ^ 4)
      ∙ omega arith)
]

get_ll4-set_other :
    (ll4 : ℕ → ℕ) (i n j : ℕ) → n < 2 ^ 4 → j ≢ i → get_ll4 (set_ll4 ll4 i n) j ≡ get_ll4 ll4 j
unfolding get_ll4 set_ll4
get_ll4-set_other ll4 i n j h ne = elim (parity i) [
  | inl e ↦ rw (even_test i e) (elim (same_byte (j / 2) (i / 2)) [
    | inl b ↦
        let odd : j % 2 ≡ 1 = omega (arith, b, e, ne) in
        ap (λ t. t / 2 ^ (j % 2 * 4) % 2 ^ 4)
          (write_own ll4 (i / 2) _ (j / 2) b ∙ low_nibble (ll4 (i / 2)) n h)
        ∙ (λ t. (ll4 (sym b t) / 2 ^ 4 % 2 ^ 4 * 2 ^ 4 + n) / 2 ^ (odd t * 4) % 2 ^ 4)
        ∙ omega arith
        ∙ (λ t. ll4 (j / 2) / 2 ^ (sym odd t * 4) % 2 ^ 4)
    | inr b ↦ ap (λ t. t / 2 ^ (j % 2 * 4) % 2 ^ 4) (write_other ll4 (i / 2) _ (j / 2) b)
  ])
  | inr e ↦ rw (odd_test i e) (elim (same_byte (j / 2) (i / 2)) [
    | inl b ↦
        let even : j % 2 ≡ 0 = omega (arith, b, e, ne) in
        ap (λ t. t / 2 ^ (j % 2 * 4) % 2 ^ 4)
          (write_own ll4 (i / 2) _ (j / 2) b ∙ high_nibble (ll4 (i / 2)) n)
        ∙ (λ t. (n * 2 ^ 4 + ll4 (sym b t) % 2 ^ 4) / 2 ^ (even t * 4) % 2 ^ 4)
        ∙ omega arith
        ∙ (λ t. ll4 (j / 2) / 2 ^ (sym even t * 4) % 2 ^ 4)
    | inr b ↦ ap (λ t. t / 2 ^ (j % 2 * 4) % 2 ^ 4) (write_other ll4 (i / 2) _ (j / 2) b)
  ])
]
  where
    same_byte : (a b : ℕ) → (a ≡ b) ⊎ (a ≢ b)
    same_byte a b = elim (Bool-cases (a == b)) [
      | inl e ↦ inl ((==_iff a b).0 e)
      | inr e ↦ inr (differ a b e)
    ]
      where
        differ : (a b : ℕ) → (a == b) ≡ false → a ≢ b
        differ a b e = ground (arith, e)

-- For numbers of twenty digits: GET_LL gives back what SET_LL put at an index, and what stands at
-- every other index stays.
pub get_ll-set_ll :
    (ls : Links) (i n j : ℕ)
    → n < 2 ^ 20
    → (get_ll (set_ll ls i n) i ≡ n) × (j ≢ i → get_ll (set_ll ls i n) j ≡ get_ll ls j)
unfolding get_ll set_ll
get_ll-set_ll ls i n j h = (
  ap₂ (λ a b. bit_or (a * 2 ^ 16) b) (get_ll4-set_self ls.ll4 i (n / 2 ^ 16) (omega arith))
        (write_own ls.ll16 i (n % 2 ^ 16) i refl)
      ∙ or_fields 16 (n / 2 ^ 16) (n % 2 ^ 16) (omega arith)
      ∙ omega arith,
  λ ne.
      ap₂ (λ a b. bit_or (a * 2 ^ 16) b)
        (get_ll4-set_other ls.ll4 i (n / 2 ^ 16) j (omega arith) ne)
        (write_other ls.ll16 i (n % 2 ^ 16) j ne),
)
