-- ===== src/Huffman/Range.antt =====
-- The loop before the calls of BZ2_hbAssignCodes and BZ2_hbCreateDecodeTables, in src/compress.c and
-- src/decompress.c alike, which finds the least and the greatest code length.
use libqbz.Base.{ℕ, zero, suc, ◌≤◌, ◌<◌, refl, arith}
use libqbz.Base.{List, [], ◌∷◌, if◌then◌else◌, ltb, length, get_or}
use libqbz.Huffman.Counts.{AllAtLeast}

pub record Range : Type 0 where
  pub least : ℕ
  pub most : ℕ

unfoldable pub range_loop : List ℕ → Range → Range
range_loop [] r = r
range_loop (l ∷ ls) r = range_loop ls (record {
  most = if ltb r.most l then l else r.most;
  least = if ltb l r.least then l else r.least;
})

-- `minLen` and `maxLen`
unfoldable pub length_range : List ℕ → Range
length_range lens = range_loop lens (record { least = 32; most = 0 })

-- All code lengths are at least `least` and at most `most`.
abbrev pub AllWithin : ℕ → ℕ → List ℕ → Type 0
AllWithin least most [] = Unit
AllWithin least most (l ∷ ls) = (least ≤ l) × (l ≤ most) × AllWithin least most ls

pub AllWithin-at :
    (least most : ℕ) (ls : List ℕ) (i : ℕ)
    → AllWithin least most ls
    → i < length ls
    → (least ≤ get_or ls i 0) × (get_or ls i 0 ≤ most)
AllWithin-at least most [] i w h = absurd (omega arith)
AllWithin-at least most (l ∷ ls) zero w h = (w.0, w.1)
AllWithin-at least most (l ∷ ls) (suc i) w h = AllWithin-at least most ls i w.2 (omega arith)

pub AllWithin-AllAtLeast :
    (least most : ℕ) (ls : List ℕ) → AllWithin least most ls → AllAtLeast least ls
AllWithin-AllAtLeast least most [] w = refl
AllWithin-AllAtLeast least most (l ∷ ls) w =
    ground (arith, w.0, AllWithin-AllAtLeast least most ls w.2)

widen : (a b c d : ℕ) (ls : List ℕ) → c ≤ a → b ≤ d → AllWithin a b ls → AllWithin c d ls
widen a b c d [] h k w = tt
widen a b c d (l ∷ ls) h k w = (omega (arith, w.0), omega (arith, w.1), widen a b c d ls h k w.2)

-- The range found lies round all lengths and round the range before.
range_loop_lem :
    (ls : List ℕ) (r : Range)
    → ((range_loop ls r).least ≤ r.least)
      × (r.most ≤ (range_loop ls r).most)
      × AllWithin ((range_loop ls r).least) ((range_loop ls r).most) ls
unfolding range_loop
range_loop_lem [] r = (omega arith, omega arith, tt)
range_loop_lem (l ∷ ls) r =
    let rest = range_loop_lem ls (record {
      most = if ltb r.most l then l else r.most;
      least = if ltb l r.least then l else r.least;
    }) in
    (
      ground (arith, rest.0),
      ground (arith, rest.1),
      (ground (arith, rest.0), ground (arith, rest.1), rest.2),
    )

-- where some length is in the range wanted, so is what was found
range_loop_bounds :
    (a b : ℕ) (ls : List ℕ) (r : Range)
    → AllWithin a b ls
    → a ≤ r.least
    → r.most ≤ b
    → (a ≤ (range_loop ls r).least) × ((range_loop ls r).most ≤ b)
unfolding range_loop
range_loop_bounds a b [] r w h k = (h, k)
range_loop_bounds a b (l ∷ ls) r w h k =
    range_loop_bounds a b ls _ w.2 (ground (arith, w.0, h)) (ground (arith, w.1, k))

-- For lengths from 1 to 20 the loop finds bounds of all of them that lie there too.
pub length_range-AllWithin :
    (lens : List ℕ)
    → AllWithin 1 20 lens
    → AllWithin ((length_range lens).least) ((length_range lens).most) lens
      × (1 ≤ (length_range lens).least)
      × ((length_range lens).most ≤ 20)
unfolding length_range
length_range-AllWithin lens w =
    let bounds =
      range_loop_bounds 1 20 lens (record { least = 32; most = 0 }) w (omega arith) (omega arith) in
    ((range_loop_lem lens (record { least = 32; most = 0 })).2, bounds.0, bounds.1)
