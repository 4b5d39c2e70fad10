-- ===== src/Cycle/Chain.antt =====
-- The links over the bytes of a block: entry `p` of the sorted bytes leads to the place in the block
-- that its byte has.
use mathlib.Core.Path.{subst}
use libqbz.Base.{
  ℕ, zero, suc, ◌+◌, ◌-◌, ◌*◌, ◌/◌, ◌%◌, ◌^◌, ◌≤◌, ◌<◌, ◌≡◌, ◌≢◌, refl, ap, ap₂, ◌∙◌, sym,
}
use libqbz.Base.{
  arith, bit_or, List, [], ◌∷◌, length, get_or, take, ◌==◌, if◌then◌else◌, ◌⊎◌, inl, inr,
}
use libqbz.Base.{Bool-cases, true, false, Bool, some, ==_iff, leb}
use libqbz.Base.Or.{or_fields}
use libqbz.Crc.Update.{AllBytes}
use libqbz.Cycle.{link_loop, make_cftab, get_fast}
use libqbz.Huffman.{write}
use libqbz.Huffman.Counts.{count, shorter, shorter-suc, shorter-zero, rank-lt}
use libqbz.Huffman.Limits.{sum_loop_lem, sum_before}

shorter_mono : (a b : ℕ) (ls : List ℕ) → a ≤ b → shorter a ls ≤ shorter b ls
shorter_mono a b [] h = omega arith
shorter_mono a b (l ∷ ls) h = ground (arith, shorter_mono a b ls h)

-- a byte more of the block
count-take :
    (c : ℕ) (ls : List ℕ) (i : ℕ)
    → i < length ls
    → count c (take (i + 1) ls)
      ≡ (if get_or ls i 0 == c then count c (take i ls) + 1 else count c (take i ls))
count-take c [] i h = absurd (omega arith)
count-take c (l ∷ ls) zero h = refl
count-take c (l ∷ ls) (suc i) h =
    (λ t. count c (take (onward t) (l ∷ ls))) ∙ ground (arith, count-take c ls i (omega arith))
  where
    onward : suc i + 1 ≡ suc (i + 1)
    onward = omega arith

-- a byte that stands before another of its kind
count-lt :
    (ls : List ℕ) (i j : ℕ)
    → i < j
    → j < length ls
    → count (get_or ls i 0) (take i ls) < count (get_or ls i 0) (take j ls)
count-lt [] i j h k = absurd (omega arith)
count-lt (l ∷ ls) i zero h k = absurd (omega arith)
count-lt (l ∷ ls) zero (suc j) h k = ground arith
count-lt (l ∷ ls) (suc i) (suc j) h k = ground (arith, count-lt ls i j (omega arith) (omega arith))

byte-lt : (ls : List ℕ) (i : ℕ) → AllBytes ls → i < length ls → get_or ls i 0 < 256
byte-lt [] i w h = absurd (omega arith)
byte-lt (l ∷ ls) zero w h = w.0
byte-lt (l ∷ ls) (suc i) w h = byte-lt ls i w.1 (omega arith)

module _ (block : List ℕ) where
  abbrev pub byte_at : ℕ → ℕ
  byte_at i = get_or block i 0

  -- The place of the byte `i` of the block when the bytes are sorted, equal ones in their order.
  abbrev pub place : ℕ → ℕ
  place i = shorter (byte_at i) block + count (byte_at i) (take i block)

  lower : (i j : ℕ) → i < length block → byte_at i < byte_at j → place i < place j
  lower i j h lt = omega (
    arith,
    rank-lt block i h,
    shorter-suc (byte_at i) block,
    shorter_mono (byte_at i + 1) (byte_at j) block (omega arith),
  )

  shorter-le-length : (n : ℕ) (ls : List ℕ) → shorter n ls ≤ length ls
  shorter-le-length n [] = omega arith
  shorter-le-length n (l ∷ ls) = ground (arith, shorter-le-length n ls)

  place-lt-length : (i : ℕ) → i < length block → place i < length block
  place-lt-length i h = omega (
    arith,
    rank-lt block i h,
    shorter-suc (byte_at i) block,
    shorter-le-length (byte_at i + 1) block,
  )

  place-lt : (i j : ℕ) → i < j → j < length block → place i ≢ place j
  place-lt i j h k = elim (three (byte_at i) (byte_at j)) [
    | inl lt ↦ omega (arith, lower i j (omega arith) lt)
    | inr (inl e) ↦ omega (
      arith,
      count-lt block i j h k,
      ap (λ c. count c (take j block)) e,
      ap (λ c. shorter c block) e,
    )
    | inr (inr gt) ↦ omega (arith, lower j i k gt)
  ]
    where
      three : (a b : ℕ) → (a < b) ⊎ ((a ≡ b) ⊎ (b < a))
      three a b = grind arith

  place-injective : (i j : ℕ) → i < length block → j < length block → i ≢ j → place i ≢ place j
  place-injective i j h k ne = elim (two i j ne) [
    | inl lt ↦ place-lt i j lt k
    | inr gt ↦ λ e. place-lt j i gt h (sym e)
  ]
    where
      two : (a b : ℕ) → a ≢ b → (a < b) ⊎ (b < a)
      two a b ne = grind arith

  -- `cftab` when `i` bytes are done, and `tt`
  abbrev pub Tabled : ℕ → (ℕ → ℕ) → Type 0
  Tabled i cftab = (c : ℕ) → c < 256 → cftab c ≡ shorter c block + count c (take i block)

  abbrev pub Linked : ℕ → (ℕ → ℕ) → Type 0
  Linked i tvec =
      ((p : ℕ) → p < length block → tvec p % 2 ^ 8 ≡ byte_at p)
      × ((j : ℕ) → j < i → tvec (place j) ≡ byte_at (place j) + j * 2 ^ 8)
      × ((j : ℕ) → i ≤ j → j < length block → tvec (place j) ≡ byte_at (place j))

  next-Tabled :
      (i : ℕ) (cftab : ℕ → ℕ)
      → i < length block
      → byte_at i < 256
      → Tabled i cftab
      → Tabled (i + 1) (write cftab (byte_at i) (cftab (byte_at i) + 1))
  next-Tabled i cftab h hb t c hc = elim (Bool-cases (c == byte_at i)) [
    | inl e ↦ rw e (
        ap (λ (n : ℕ). n + 1) (t (byte_at i) hb)
        ∙ (λ k. shorter (sym (same e) k) block + count (sym (same e) k) (take i block) + 1)
        ∙ omega (arith, counts (swapped (byte_at i) c (sym (same e)))))
    | inr e ↦
        rw e (t c hc ∙ ap (λ (n : ℕ). shorter c block + n) (sym (counts (differ (byte_at i) c e))))
  ]
    where
      counts :
          {b : Bool}
          → (byte_at i == c) ≡ b
          → count c (take (i + 1) block)
            ≡ (if b then count c (take i block) + 1 else count c (take i block))
      counts e =
          count-take c block i h
          ∙ (λ k. if e k then count c (take i block) + 1 else count c (take i block))

      same : (c == byte_at i) ≡ true → c ≡ byte_at i
      same e = (==_iff c (byte_at i)).0 e

      swapped : (a b : ℕ) → a ≡ b → (a == b) ≡ true
      swapped a b e = ground arith

      differ : (a b : ℕ) → (b == a) ≡ false → (a == b) ≡ false
      differ a b e = ground (arith, e)

  -- one link
  next-Linked :
      (i : ℕ) (tvec : ℕ → ℕ)
      → i < length block
      → i < 2 ^ 24
      → Linked i tvec
      → Linked (i + 1) (write tvec (place i) (bit_or (i * 2 ^ 8 % 2 ^ 32) (tvec (place i))))
  next-Linked i tvec h m l = (
    λ p hp. elim (Bool-cases (p == place i)) [
      | inl e ↦ rw e (
          ap (λ (n : ℕ). n % 2 ^ 8) value
          ∙ low_byte (byte_at (place i)) i small
          ∙ (λ k. byte_at (sym ((==_iff p (place i)).0 e) k)))
      | inr e ↦ rw e (l.0 p hp)
    ],
    λ j hj. elim (Bool-cases (j == i)) [
      | inl e ↦
          subst (λ q. write tvec (place i) v (place q) ≡ byte_at (place q) + q * 2 ^ 8)
            (sym ((==_iff j i).0 e)) (own v (place i) ∙ value)
      | inr e ↦
          other (place j) (place-injective j i (omega arith) h (apart j i e))
          ∙ l.1 j (omega (arith, apart j i e))
    ],
    λ j hj hn. other (place j) (place-injective j i hn h (omega arith)) ∙ l.2 j (omega arith) hn,
  )
    where
      v : ℕ
      v = bit_or (i * 2 ^ 8 % 2 ^ 32) (tvec (place i))

      small : byte_at (place i) < 2 ^ 8
      small = omega (arith, l.0 (place i) (place-lt-length i h))

      value : v ≡ byte_at (place i) + i * 2 ^ 8
      value =
          ap₂ bit_or (fits i m) (l.2 i (omega arith) h)
          ∙ or_fields 8 i (byte_at (place i)) small
          ∙ omega arith
        where
          fits : (i : ℕ) → i < 2 ^ 24 → i * 2 ^ 8 % 2 ^ 32 ≡ i * 2 ^ 8
          fits i h = omega arith

      low_byte : (b i : ℕ) → b < 2 ^ 8 → (b + i * 2 ^ 8) % 2 ^ 8 ≡ b
      low_byte b i h = omega arith

      own : (v q : ℕ) → write tvec q v q ≡ v
      own v q = ground arith

      other : (q : ℕ) → q ≢ place i → write tvec (place i) v q ≡ tvec q
      other q ne = rw (not_there q (place i) ne) refl
        where
          not_there : (a b : ℕ) → a ≢ b → (a == b) ≡ false
          not_there a b ne = ground arith

      apart : (a b : ℕ) → (a == b) ≡ false → a ≢ b
      apart a b e = ground (arith, e)

  link_loop-Linked :
      (rounds i : ℕ) (cftab tvec : ℕ → ℕ)
      → rounds + i ≡ length block
      → length block < 2 ^ 24
      → Tabled i cftab
      → Linked i tvec
      → Linked (length block) (link_loop rounds i cftab tvec)
  unfolding link_loop
  link_loop-Linked zero i cftab tvec n m t l = subst (λ j. Linked j tvec) (omega (arith, n)) l
  link_loop-Linked (suc rounds) i cftab tvec n m t l =
      subst
        (λ uc. Linked (length block) (
          link_loop rounds (i + 1) (write cftab uc (cftab uc + 1))
            (write tvec (cftab uc) (bit_or (i * 2 ^ 8 % 2 ^ 32) (tvec (cftab uc))))))
        (sym (l.0 i (omega arith)))
        (link_loop-Linked rounds (i + 1) _ _ (omega arith) m
          (next-Tabled i cftab (omega arith) small t)
          (subst (λ p. Linked (i + 1) (write tvec p (bit_or (i * 2 ^ 8 % 2 ^ 32) (tvec p))))
            (sym (t (byte_at i) small)) (next-Linked i tvec (omega arith) (omega arith) l)))
    where
      small : byte_at i < 256
      small = omega (arith, l.0 i (omega arith))

  -- the sums of the frequencies
  make_cftab-shorter :
      (unzftab : ℕ → ℕ)
      → ((k : ℕ) → unzftab k ≡ count k block)
      → (k : ℕ) → k < 257
      → make_cftab unzftab k ≡ shorter k block
  unfolding make_cftab
  make_cftab-shorter unzftab u zero h =
      sum_before 256 1 0 _ (omega arith) ∙ sym (shorter-zero block)
  make_cftab-shorter unzftab u (suc k) h =
      sum_loop_lem block 256 1 (suc k) (λ i. if i == 0 then 0 else unzftab (i - 1)) (omega arith)
        (sym (shorter-zero block)) (λ m hm. counted m hm) (omega arith) (omega arith)
    where
      counted : (m : ℕ) → 1 ≤ m → (if m == 0 then 0 else unzftab (m - 1)) ≡ count (m - 1) block
      counted zero hm = absurd (omega arith)
      counted (suc m) hm = rw (positive m) (u (suc m - 1))
        where
          positive : (m : ℕ) → (suc m == 0) ≡ false
          positive m = ground arith

  -- For a block of fewer than 2 ^ 24 bytes, which fills no more than the memory of its size, and the
  -- frequencies of its bytes: BZ2_decompress links the bytes, so that from the place of a byte among the
  -- sorted ones BZ_GET_FAST gives the byte of the block that stands at that place, and goes on to the
  -- byte's own index in the block.
  pub get_fast-link_loop :
      (block_size100k i : ℕ) (unzftab tvec : ℕ → ℕ)
      → i < length block
      → AllBytes block
      → length block < 2 ^ 24
      → length block ≤ 100000 * block_size100k
      → ((k : ℕ) → unzftab k ≡ count k block)
      → ((p : ℕ) → p < length block → tvec p ≡ byte_at p)
      → get_fast block_size100k (link_loop (length block) 0 (make_cftab unzftab) tvec) (place i)
        ≡ some (byte_at (place i), i)
  unfolding get_fast
  get_fast-link_loop block_size100k i unzftab tvec h bytes small room u first =
      rw (inside (place i) (omega (arith, place-lt-length i h, room))) (λ k. some (low k, high k))
    where
      linked : Linked (length block) (link_loop (length block) 0 (make_cftab unzftab) tvec)
      linked =
          link_loop-Linked (length block) 0 (make_cftab unzftab) tvec (omega arith) small
            (λ c hc. make_cftab-shorter unzftab u c (omega arith) ∙ omega arith)
            (
              λ p hp.
                  ap (λ (n : ℕ). n % 2 ^ 8) (first p hp) ∙ omega (arith, byte-lt block p bytes hp),
              λ j hj. absurd (omega arith),
              λ j _ hj. first (place j) (place-lt-length j hj),
            )

      entry :
          link_loop (length block) 0 (make_cftab unzftab) tvec (place i)
          ≡ byte_at (place i) + i * 2 ^ 8
      entry = linked.1 i h

      small_byte : byte_at (place i) < 256
      small_byte = byte-lt block (place i) bytes (place-lt-length i h)

      low :
          link_loop (length block) 0 (make_cftab unzftab) tvec (place i) % 2 ^ 8 ≡ byte_at (place i)
      low = omega (arith, entry, small_byte)

      high : link_loop (length block) 0 (make_cftab unzftab) tvec (place i) / 2 ^ 8 ≡ i
      high = omega (arith, entry, small_byte)

      inside : (p : ℕ) → p < 100000 * block_size100k → leb (100000 * block_size100k) p ≡ false
      inside p h = ground arith
