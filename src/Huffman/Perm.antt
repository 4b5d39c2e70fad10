-- ===== src/Huffman/Perm.antt =====
-- The table `perm` of BZ2_hbCreateDecodeTables: the symbols in the order of their codes.
use libqbz.Base.{ℕ, zero, suc, ◌+◌, ◌<◌, ◌≡◌, refl, ap, ◌∙◌, sym, arith}
use libqbz.Base.{List, [], ◌∷◌, ◌==◌, length, get_or, take, Bool-cases, inl, inr}
use libqbz.Base.{true, false}
use libqbz.Huffman.{write, Filled, perm_row, perm_loop}
use libqbz.Huffman.Codes.{write_other, write_self}
use libqbz.Huffman.Counts.{count, shorter, rank, shorter-suc}

row_next : (ls : List ℕ) (n j : ℕ) (s : Filled) → (perm_row ls n j s).next ≡ s.next + count n ls
unfolding perm_row
row_next [] n j s = omega arith
row_next (l ∷ ls) n j s = elim (Bool-cases (l == n)) [
  | inl e ↦
      rw (e, perm_row)
        (omega (
          arith,
          row_next ls n (j + 1) (record { next = s.next + 1; array = write s.array s.next j }),
        ))
  | inr e ↦ rw (e, perm_row) (row_next ls n (j + 1) s)
]

-- what is filled stays
row_before :
    (ls : List ℕ) (n j k : ℕ) (s : Filled) → k < s.next → (perm_row ls n j s).array k ≡ s.array k
unfolding perm_row
row_before [] n j k s h = refl
row_before (l ∷ ls) n j k s h = elim (Bool-cases (l == n)) [
  | inl e ↦
      rw (e, perm_row)
        (row_before ls n (j + 1) k (record { next = s.next + 1; array = write s.array s.next j })
            (omega arith)
          ∙ write_other s.array s.next j k (omega arith))
  | inr e ↦ rw (e, perm_row) (row_before ls n (j + 1) k s h)
]

-- a symbol of this length stands at its place among them
row_own :
    (ls : List ℕ) (n j p k : ℕ) (s : Filled)
    → p < length ls
    → get_or ls p 0 ≡ n
    → k ≡ s.next + count n (take p ls)
    → (perm_row ls n j s).array k ≡ j + p
unfolding perm_row
row_own [] n j p k s h g hk = absurd (omega arith)
row_own (l ∷ ls) n j zero k s h g hk =
    rw (own g, perm_row)
      (row_before ls n (j + 1) k (record { next = s.next + 1; array = write s.array s.next j })
          (omega arith)
        ∙ write_self s.array s.next j k (omega arith)
        ∙ omega arith)
  where
    own : l ≡ n → (l == n) ≡ true
    own g = ground arith
row_own (l ∷ ls) n j (suc p) k s h g hk = elim (Bool-cases (l == n)) [
  | inl e ↦
      rw (e, perm_row)
        (row_own ls n (j + 1) p k (record { next = s.next + 1; array = write s.array s.next j })
            (omega arith) g (hk ∙ ap (λ (t : ℕ). s.next + t) (with_own e) ∙ omega arith)
          ∙ omega arith)
  | inr e ↦
      rw (e, perm_row)
        (row_own ls n (j + 1) p k s (omega arith) g (hk ∙ ap (λ (t : ℕ). s.next + t) (without e))
          ∙ omega arith)
]
  where
    with_own : (l == n) ≡ true → count n (l ∷ take p ls) ≡ count n (take p ls) + 1
    with_own e = ground arith

    without : (l == n) ≡ false → count n (l ∷ take p ls) ≡ count n (take p ls)
    without e = ground arith

loop_before :
    (lens : List ℕ) (rounds n k : ℕ) (s : Filled)
    → k < s.next
    → (perm_loop lens rounds n s).array k ≡ s.array k
unfolding perm_loop
loop_before lens zero n k s h = refl
loop_before lens (suc rounds) n k s h =
    loop_before lens rounds (n + 1) k _ (omega (arith, row_next lens n 0 s))
    ∙ row_before lens n 0 k s h

-- From the length `n` on, with the symbols of the lengths below it filled in, the loop puts a symbol
-- after those that are shorter and those before it that are as long.
pub perm_loop-rank :
    (lens : List ℕ) (rounds n k i : ℕ) (s : Filled)
    → i < length lens
    → s.next ≡ shorter n lens
    → get_or lens i 0 ≡ n + k
    → k < rounds
    → count (get_or lens i 0) (take i lens) < count (get_or lens i 0) lens
    → (perm_loop lens rounds n s).array (shorter (get_or lens i 0) lens + rank lens i) ≡ i
unfolding perm_loop
perm_loop-rank lens zero n k i s h hs hl hk hr = absurd (omega arith)
perm_loop-rank lens (suc rounds) n zero i s h hs hl hk hr =
    loop_before lens rounds (n + 1) _ _ (omega (arith, row_next lens n 0 s, same, starts))
    ∙ row_own lens n 0 i _ s h (omega arith)
        (ap (λ (t : ℕ). t + rank lens i) starts ∙ (λ t. s.next + count (own t) (take i lens)))
    ∙ omega arith
  where
    own : get_or lens i 0 ≡ n
    own = omega arith

    starts : shorter (get_or lens i 0) lens ≡ s.next
    starts = (λ t. shorter (own t) lens) ∙ sym hs

    same : count (get_or lens i 0) lens ≡ count n lens
    same = λ t. count (own t) lens
perm_loop-rank lens (suc rounds) n (suc k) i s h hs hl hk hr =
    perm_loop-rank lens rounds (n + 1) k i _ h
      (row_next lens n 0 s ∙ ap (λ (t : ℕ). t + count n lens) hs ∙ sym (shorter-suc n lens))
      (omega arith) (omega arith) hr
