-- ===== src/Mtf/Search.antt =====
-- The two compilations of the search in generateMTFValues move a value to the front.
use native.Mathlib.Nat.{zero-add}
use libqbz.Base.{ℕ, zero, suc, ◌+◌, ◌-◌, ◌≤◌, List, [], ◌∷◌, ◌++◌, true, false, ◌==◌}
use libqbz.Base.{◌≡◌, refl, sym, ap, ◌∙◌, ◌≢◌, ◌⊎◌, inl, inr, arith}
use libqbz.Base.{length, get_or, take, drop, none, some}
use libqbz.Mtf.{shift_loop, move_portable, first_match, chunk_loop, move_sse2}
use libqbz.Mtf.Front.{index_of, remove, Found, index_of-lt, take-drop-remove, eq_cases}

absent : {x v : ℕ} (xs : List ℕ) → x ≢ v → Found v (x ∷ xs) → Found v xs
absent xs ne (inl e) = absurd (ne e)
absent xs ne (inr f) = f

swap_test : (a b : ℕ) → (a == b) ≡ (b == a)
swap_test a b = ground arith

same_test : (a b : ℕ) → a ≡ b → (a == b) ≡ true
same_test a b e = ground arith

-- The loop of the portable branch: the entries up to the value, shifted by one.
shift_loop_lem :
    (v r : ℕ) (ys : List ℕ)
    → Found v (r ∷ ys)
    → shift_loop v r ys ≡ (index_of v (r ∷ ys), v, remove v (r ∷ ys))
unfolding shift_loop
shift_loop_lem v r [] (inl e) = rw (same_test r v e) (λ i. (0, e i, []))
shift_loop_lem v r [] (inr f) = absurd f
shift_loop_lem v r (y ∷ ys) f = elim (eq_cases r v) [
  | inl h ↦ rw (swap_test v r, h.1) (λ i. (0, h.0 i, y ∷ ys))
  | inr h ↦
      rw (swap_test v r, h.1)
        (ap {A = ℕ × ℕ × List ℕ} (λ t. (suc t.0, t.1, r ∷ t.2))
          (shift_loop_lem v y ys (absent (y ∷ ys) h.0 f)))
]

-- The portable branch, for a value that is not at the front.
pub move_portable_lem :
    (v : ℕ) (yy : List ℕ)
    → Found v yy
    → (get_or yy 0 0 == v) ≡ false
    → move_portable v yy ≡ (index_of v yy, v ∷ remove v yy)
unfolding move_portable
move_portable_lem v [] f ne = absurd f
move_portable_lem v (y0 ∷ []) (inl e) ne = absurd (ground (arith, same_test y0 v e))
move_portable_lem v (y0 ∷ []) (inr f) ne = absurd f
move_portable_lem v (y0 ∷ y1 ∷ ys) f ne = elim (eq_cases y0 v) [
  | inl h ↦ absurd (ground (arith, h.1, ne))
  | inr h ↦ rw (h.1) (
      ap {A = ℕ × ℕ × List ℕ} {B = ℕ × List ℕ} (λ t. (1 + t.0, t.1 ∷ y0 ∷ t.2))
        (shift_loop_lem v y1 ys (absent (y1 ∷ ys) h.0 f))
      ∙ (λ i. (one_more (index_of v (y1 ∷ ys)) i, v ∷ y0 ∷ remove v (y1 ∷ ys))))
]
  where
    one_more : (k : ℕ) → 1 + k ≡ suc k
    one_more k = omega arith

-- A chunk holds the value, or it stands further on.
first_match-take :
    (n v : ℕ) (xs : List ℕ)
    → Found v xs
    → (first_match v (take n xs) ≡ some (index_of v xs))
      ⊎ ((first_match v (take n xs) ≡ none)
          × Found v (drop n xs)
          × (index_of v xs ≡ n + index_of v (drop n xs)))
unfolding first_match
first_match-take zero v xs f = inr (refl, f, omega arith)
first_match-take (suc n) v [] f = absurd f
first_match-take (suc n) v (x ∷ xs) f = elim (eq_cases x v) [
  | inl h ↦ inl (rw (h.1) refl)
  | inr h ↦ rw (h.1) (elim (first_match-take n v xs (absent xs h.0 f)) [
    | inl e ↦ inl (rw e refl)
    | inr g ↦ inr (rw (g.0) (refl, g.1, omega (arith, g.2)))
  ])
]

length-drop : (n : ℕ) (xs : List ℕ) → length (drop n xs) ≡ length xs - n
length-drop zero xs = omega arith
length-drop (suc n) [] = omega arith
length-drop (suc n) (x ∷ xs) = omega (arith, length-drop n xs)

chunk_loop_lem :
    (fuel v pos : ℕ) (left : List ℕ)
    → Found v left
    → length left ≤ fuel
    → chunk_loop fuel v pos left ≡ pos + index_of v left
unfolding chunk_loop
chunk_loop_lem zero v pos left f h = absurd (omega (arith, index_of-lt v left f))
chunk_loop_lem (suc fuel) v pos left f h = elim (first_match-take 16 v left f) [
  | inl e ↦ rw (e, chunk_loop) refl
  | inr g ↦
      rw (g.0, chunk_loop)
        (chunk_loop_lem fuel v (pos + 16) (drop 16 left) g.1
            (omega (arith, length-drop 16 left, index_of-lt v left f))
          ∙ omega (arith, g.2))
]

-- The branch for SSE2, for any value that is there.
pub move_sse2_lem :
    (v : ℕ) (yy : List ℕ) → Found v yy → move_sse2 v yy ≡ (index_of v yy, v ∷ remove v yy)
unfolding move_sse2
move_sse2_lem v yy f =
    rw (chunk_loop_lem (length yy) v 0 yy f (omega arith), zero-add)
      (λ i. (
        index_of v yy,
        v ∷ (ap (λ t. take (index_of v yy) yy ++ drop t yy) plus_one ∙ take-drop-remove v yy f) i,
      ))
  where
    plus_one : index_of v yy + 1 ≡ suc (index_of v yy)
    plus_one = omega arith

-- For a list that holds the value, and not at the front, both compilations of the search in
-- generateMTFValues, sixteen entries at a time and one at a time, give its first place and the list
-- with it moved to the front.
pub move_sse2-move_portable :
    (v : ℕ) (yy : List ℕ)
    → Found v yy
    → (get_or yy 0 0 == v) ≡ false
    → (move_sse2 v yy ≡ move_portable v yy) × (move_sse2 v yy ≡ (index_of v yy, v ∷ remove v yy))
move_sse2-move_portable v yy f ne =
    (move_sse2_lem v yy f ∙ sym (move_portable_lem v yy f ne), move_sse2_lem v yy f)
