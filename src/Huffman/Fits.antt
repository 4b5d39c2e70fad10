-- ===== src/Huffman/Fits.antt =====
-- The decoding tables, read through the canonical codes.
use libqbz.Base.{ℕ, suc, ◌+◌, ◌-◌, ◌*◌, ◌≤◌, ◌<◌, ◌≡◌, ap, ap₂, ◌∙◌, sym, arith}
use libqbz.Base.{List, length, get_or, ◌⊎◌, inl, inr}
use libqbz.Base.Ints.{ℤ, pos, minus, suc_ℤ, double_ℤ, ◌-ℤ◌, minus_le, suc_ℤ-minus}
use libqbz.Huffman.{Tables, limit_loop, base_loop, base_sums, create_decode_tables}
use libqbz.Huffman.Counts.{count, shorter, first_code, rank, rank-lt, shorter-first_code}
use libqbz.Huffman.Counts.{AllAtLeast}
use libqbz.Huffman.Limits.{base_sums-shorter, limit_loop-first_code, base_before, base_loop_lem}
use libqbz.Huffman.Perm.{perm_loop-rank}
use libqbz.Huffman.Range.{AllWithin, AllWithin-at, AllWithin-AllAtLeast}

-- What the tables hold: the last code of each length, what is taken off a code of each length, and
-- the symbols in the order of their codes.
abbrev pub Fits : List ℕ → ℕ → ℕ → Tables → Type 0
Fits lens least most t =
    ((n : ℕ)
      → least ≤ n
      → n ≤ most
      → (t.limit n ≡ minus (first_code lens least (n - least) + count n lens) 1)
        × (t.base n ≡ pos (first_code lens least (n - least) - shorter n lens)))
    × ((i : ℕ) → i < length lens → t.perm (shorter (get_or lens i 0) lens + rank lens i) ≡ i)

module _ (lens : List ℕ) (least most : ℕ) (w : AllWithin least most lens) (hm : most ≤ 20) where
  limits : ℕ → ℤ
  limits = limit_loop (base_sums lens) (most + 1 - least) least 0 (λ i. pos 0)

  none_below : AllAtLeast least lens
  none_below = AllWithin-AllAtLeast least most lens w

  limits_lem :
      (n : ℕ)
      → least ≤ n
      → n ≤ most
      → limits n ≡ minus (first_code lens least (n - least) + count n lens) 1
  unfolding limits
  limits_lem n hl hn =
      limit_loop-first_code lens least (most + 1 - least) 0 least (n - least) n (λ i. pos 0)
        (omega arith) (omega arith) (omega arith) (omega arith)
      ∙ (λ t. minus (first_code lens least (zero_left t) + count n lens) 1)
    where
      zero_left : 0 + (n - least) ≡ n - least
      zero_left = omega arith

  bases_lem :
      (n : ℕ)
      → least ≤ n
      → n ≤ most
      → base_loop limits (most - least) (least + 1) (λ i. pos (base_sums lens i)) n
        ≡ pos (first_code lens least (n - least) - shorter n lens)
  bases_lem n hl hn = elim (first_or_later n hl) [
    | inl e ↦
        base_before limits (most - least) (least + 1) n _ (omega (arith, e))
        ∙ ap pos (
            base_sums-shorter lens n (omega arith)
            ∙ (λ t. shorter (e t) lens)
            ∙ none_below
            ∙ omega arith
            ∙ (λ t. first_code lens least (origin e t) - shorter n lens))
    | inr h ↦
        base_loop_lem limits (most - least) (least + 1) n _ (omega (arith, h)) (omega (arith, h))
        ∙ ap₂ (λ a b. double_ℤ (suc_ℤ a) -ℤ pos b)
            (limits_lem (n - 1) (omega (arith, h)) (omega (arith, h)))
            (base_sums-shorter lens n (omega arith))
        ∙ ap (λ a. double_ℤ a -ℤ pos (shorter n lens))
            (suc_ℤ-minus (first_code lens least (n - 1 - least) + count (n - 1) lens))
        ∙ minus_le _ _ (omega (arith, room h, doubled h))
        ∙ ap (λ (a : ℕ). pos (a - shorter n lens)) (doubled h)
  ]
    where
      first_or_later : (n : ℕ) → least ≤ n → (n ≡ least) ⊎ (least < n)
      first_or_later n h = grind arith

      origin : n ≡ least → 0 ≡ n - least
      origin e = omega arith

      room : least < n → shorter n lens ≤ first_code lens least (n - least)
      room h = omega (
        arith,
        shorter-first_code lens least (n - least) none_below,
        ap (λ m. shorter m lens) (there h),
      )
        where
          there : least < n → least + (n - least) ≡ n
          there h = omega arith

      doubled :
          least < n
          → first_code lens least (n - 1 - least)
              + count (n - 1) lens
              + (first_code lens least (n - 1 - least) + count (n - 1) lens)
            ≡ first_code lens least (n - least)
      doubled h =
          twice (first_code lens least (n - 1 - least) + count (n - 1) lens)
          ∙ (λ t. (first_code lens least (n - 1 - least) + count (there h t) lens) * 2)
          ∙ (λ t. first_code lens least (next h t))
        where
          twice : (a : ℕ) → a + a ≡ a * 2
          twice a = omega arith

          there : least < n → n - 1 ≡ least + (n - 1 - least)
          there h = omega arith

          next : least < n → suc (n - 1 - least) ≡ n - least
          next h = omega arith

  pub create_decode_tables-Fits :
      (perm : ℕ → ℕ) → Fits lens least most (create_decode_tables perm lens least most)
  unfolding create_decode_tables limits
  create_decode_tables-Fits perm = (
    λ n hl hn. (limits_lem n hl hn, bases_lem n hl hn),
    λ i h.
        perm_loop-rank lens (most + 1 - least) least (get_or lens i 0 - least) i
          (record { next = 0; array = perm }) h (sym none_below)
          (omega (arith, AllWithin-at least most lens i w h))
          (omega (arith, AllWithin-at least most lens i w h)) (rank-lt lens i h),
  )
