-- ===== src/Huffman/Codes.antt =====
-- BZ2_hbAssignCodes gives the canonical codes.
use libqbz.Base.{ℕ, zero, suc, ◌+◌, ◌-◌, ◌*◌, ◌≤◌, ◌<◌, ◌≡◌, refl, ◌∙◌, arith}
use libqbz.Base.{List, [], ◌∷◌, ◌==◌, length, get_or, take, Bool-cases, inl, inr}
use libqbz.Base.{true, ==_iff, ◌≢◌}
use libqbz.Huffman.{write, Filled, assign_row, assign_loop, assign_codes}
use libqbz.Huffman.Counts.{count, first_code, canonical, rank}

pub eq_of : (a b : ℕ) → (a == b) ≡ true → a ≡ b
eq_of a b h = (==_iff a b).0 h

pub write_other : (a : ℕ → ℕ) (i v k : ℕ) → k ≢ i → write a i v k ≡ a k
write_other a i v k h = ground (arith, h)

pub write_self : (a : ℕ → ℕ) (i v k : ℕ) → k ≡ i → write a i v k ≡ v
write_self a i v k h = ground (arith, h)

row_next : (ls : List ℕ) (n i : ℕ) (s : Filled) → (assign_row ls n i s).next ≡ s.next + count n ls
unfolding assign_row
row_next [] n i s = omega arith
row_next (l ∷ ls) n i s = elim (Bool-cases (l == n)) [
  | inl e ↦
      rw (e, assign_row)
        (omega (
          arith,
          row_next ls n (i + 1) (record { next = s.next + 1; array = write s.array i s.next }),
        ))
  | inr e ↦ rw (e, assign_row) (row_next ls n (i + 1) s)
]

-- what stands before `i` stays
row_before :
    (ls : List ℕ) (n i k : ℕ) (s : Filled) → k < i → (assign_row ls n i s).array k ≡ s.array k
unfolding assign_row
row_before [] n i k s h = refl
row_before (l ∷ ls) n i k s h = elim (Bool-cases (l == n)) [
  | inl e ↦
      rw (e, assign_row)
        (row_before ls n (i + 1) k (record { next = s.next + 1; array = write s.array i s.next })
            (omega arith)
          ∙ write_other s.array i s.next k (omega arith))
  | inr e ↦ rw (e, assign_row) (row_before ls n (i + 1) k s (omega arith))
]

-- a symbol of another length keeps its entry
row_other :
    (ls : List ℕ) (n i p k : ℕ) (s : Filled)
    → p < length ls
    → k ≡ i + p
    → get_or ls p 0 ≢ n
    → (assign_row ls n i s).array k ≡ s.array k
unfolding assign_row
row_other [] n i p k s hp hk h = refl
row_other (l ∷ ls) n i zero k s hp hk h = elim (Bool-cases (l == n)) [
  | inl e ↦ absurd (h (eq_of l n e))
  | inr e ↦ rw (e, assign_row) (row_before ls n (i + 1) k s (omega arith))
]
row_other (l ∷ ls) n i (suc p) k s hp hk h = elim (Bool-cases (l == n)) [
  | inl e ↦
      rw (e, assign_row)
        (row_other ls n (i + 1) p k (record { next = s.next + 1; array = write s.array i s.next })
            (omega arith) (omega arith) h
          ∙ write_other s.array i s.next k (omega arith))
  | inr e ↦ rw (e, assign_row) (row_other ls n (i + 1) p k s (omega arith) (omega arith) h)
]

-- a symbol of this length gets the next code
row_own :
    (ls : List ℕ) (n i p k : ℕ) (s : Filled)
    → p < length ls
    → k ≡ i + p
    → get_or ls p 0 ≡ n
    → (assign_row ls n i s).array k ≡ s.next + count n (take p ls)
unfolding assign_row
row_own [] n i p k s h hk g = absurd (omega arith)
row_own (l ∷ ls) n i zero k s h hk g =
    rw (own g, assign_row)
      (row_before ls n (i + 1) k (record { next = s.next + 1; array = write s.array i s.next })
          (omega arith)
        ∙ write_self s.array i s.next k (omega arith)
        ∙ omega arith)
  where
    own : l ≡ n → (l == n) ≡ true
    own g = ground arith
row_own (l ∷ ls) n i (suc p) k s h hk g = elim (Bool-cases (l == n)) [
  | inl e ↦
      rw (e, assign_row)
        (row_own ls n (i + 1) p k (record { next = s.next + 1; array = write s.array i s.next })
            (omega arith) (omega arith) g
          ∙ omega arith)
  | inr e ↦ rw (e, assign_row) (row_own ls n (i + 1) p k s (omega arith) (omega arith) g)
]

-- the rows of the lengths above that of a symbol
loop_above :
    (lens : List ℕ) (rounds n i : ℕ) (s : Filled)
    → i < length lens
    → get_or lens i 0 < n
    → (assign_loop lens rounds n s).array i ≡ s.array i
unfolding assign_loop
loop_above lens zero n i s h g = refl
loop_above lens (suc rounds) n i s h g =
    loop_above lens rounds (n + 1) i _ h (omega arith)
    ∙ row_other lens n 0 i i s h (omega arith) (omega arith)

loop_codes :
    (lens : List ℕ) (least rounds j n k i : ℕ) (s : Filled)
    → i < length lens
    → n ≡ least + j
    → s.next ≡ first_code lens least j
    → get_or lens i 0 ≡ n + k
    → k < rounds
    → (assign_loop lens rounds n s).array i ≡ first_code lens least (j + k) + rank lens i
unfolding assign_loop
loop_codes lens least zero j n k i s h hn hs hl hk = absurd (omega arith)
loop_codes lens least (suc rounds) j n zero i s h hn hs hl hk =
    loop_above lens rounds (n + 1) i _ h (omega arith)
    ∙ row_own lens n 0 i i s h (omega arith) (omega arith)
    ∙ (λ t. hs t + count (own t) (take i lens))
    ∙ (λ t. first_code lens least (zero_right t) + rank lens i)
  where
    own : n ≡ get_or lens i 0
    own = omega arith

    zero_right : j ≡ j + 0
    zero_right = omega arith
loop_codes lens least (suc rounds) j n (suc k) i s h hn hs hl hk =
    loop_codes lens least rounds (suc j) (n + 1) k i _ h (omega arith)
      ((λ t. row_next lens n 0 s t * 2) ∙ (λ t. (hs t + count (hn t) lens) * 2)) (omega arith)
      (omega arith)
    ∙ (λ t. first_code lens least (onward t) + rank lens i)
  where
    onward : suc j + k ≡ j + suc k
    onward = omega arith

-- For code lengths from `least` to `most`, BZ2_hbAssignCodes gives every symbol the canonical code
-- of its length: the first code of that length, and the symbol's place among those of its length.
pub assign_codes-canonical :
    (code : ℕ → ℕ) (lens : List ℕ) (least most i : ℕ)
    → i < length lens
    → least ≤ get_or lens i 0
    → get_or lens i 0 ≤ most
    → assign_codes code lens least most i ≡ canonical lens least i
unfolding assign_codes
assign_codes-canonical code lens least most i h hl hm =
    loop_codes lens least (most + 1 - least) 0 least (get_or lens i 0 - least) i
      (record { next = 0; array = code }) h (omega arith) refl (omega arith) (omega arith)
    ∙ (λ t. first_code lens least (zero_left t) + rank lens i)
  where
    zero_left : 0 + (get_or lens i 0 - least) ≡ get_or lens i 0 - least
    zero_left = omega arith
