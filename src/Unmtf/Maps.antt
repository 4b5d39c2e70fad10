-- ===== src/Unmtf/Maps.antt =====
-- makeMaps_e and makeMaps_d number the bytes in use alike.
use libqbz.Base.{ℕ, zero, suc, ◌+◌, ◌≤◌, ◌<◌, List, [], ◌∷◌, ◌++◌, Bool, true, false}
use libqbz.Base.{◌≡◌, refl, sym, ap, ◌∙◌, ◌⊎◌, inl, inr, arith, Bool-cases, ◌==◌}
use libqbz.Base.{if◌then◌else◌, length, get_or, length-append}
use libqbz.Mtf.{Maps, map_byte, map_loop, make_maps_e}
use libqbz.Unmtf.{unmap_byte, unmap_loop, make_maps_d}

get_or-append_left :
    (xs ys : List ℕ) (i d : ℕ) → i < length xs → get_or (xs ++ ys) i d ≡ get_or xs i d
get_or-append_left [] ys i d h = absurd (omega arith)
get_or-append_left (x ∷ xs) ys zero d h = refl
get_or-append_left (x ∷ xs) ys (suc i) d h = get_or-append_left xs ys i d (omega arith)

get_or-append_length : (xs : List ℕ) (v d : ℕ) → get_or (xs ++ v ∷ []) (length xs) d ≡ v
get_or-append_length [] v d = refl
get_or-append_length (x ∷ xs) v d = get_or-append_length xs v d

new_or_old : (b i : ℕ) → b < i + 1 → ((b == i ≡ true) × (b ≡ i)) ⊎ ((b == i ≡ false) × (b < i))
new_or_old b i h = grind arith

module _ (in_use : ℕ → Bool) where
  -- After the bytes below `i`.
  pub record Agree (i : ℕ) (m : Maps) (seqs : List ℕ) : Type 0 where
    pub size : m.n_in_use ≡ length seqs
    pub at_most : length seqs ≤ i
    pub back :
        (b : ℕ)
        → b < i
        → in_use b ≡ true
        → (m.unseq_to_seq b < length seqs) × (get_or seqs (m.unseq_to_seq b) 0 ≡ b)

  byte-Agree :
      (i : ℕ) (m : Maps) (seqs : List ℕ)
      → Agree i m seqs
      → Agree (i + 1) (map_byte in_use i m) (unmap_byte in_use i seqs)
  unfolding map_byte unmap_byte
  byte-Agree i m seqs k = elim (Bool-cases (in_use i)) [
    | inl u ↦ rw u (record {
      size = omega (arith, k.size, length-append seqs (i ∷ []));
      at_most = omega (arith, k.at_most, length-append seqs (i ∷ []));
      back = used;
    })
    | inr u ↦ rw u (record { size = k.size; at_most = omega (arith, k.at_most); back = unused u })
  ]
    where
      used :
          (b : ℕ)
          → b < i + 1
          → in_use b ≡ true
          → ((if b == i then m.n_in_use else m.unseq_to_seq b) < length (seqs ++ i ∷ []))
            × (get_or (seqs ++ i ∷ []) (if b == i then m.n_in_use else m.unseq_to_seq b) 0 ≡ b)
      used b h v = elim (new_or_old b i h) [
        | inl e ↦ rw (e.0) (
          omega (arith, k.size, length-append seqs (i ∷ [])),
          ap (λ t. get_or (seqs ++ i ∷ []) t 0) k.size ∙ get_or-append_length seqs i 0 ∙ sym e.1,
        )
        | inr e ↦
            let old = k.back b e.1 v in
            rw (e.0) (
              omega (arith, old.0, length-append seqs (i ∷ [])),
              get_or-append_left seqs (i ∷ []) (m.unseq_to_seq b) 0 old.0 ∙ old.1,
            )
      ]

      unused :
          in_use i ≡ false
          → (b : ℕ) → b < i + 1
          → in_use b ≡ true
          → (m.unseq_to_seq b < length seqs) × (get_or seqs (m.unseq_to_seq b) 0 ≡ b)
      unused u b h v = elim (new_or_old b i h) [
        | inl e ↦ absurd (ground (arith, ap in_use e.1, u, v))
        | inr e ↦ k.back b e.1 v
      ]

  loop-Agree :
      (rounds i : ℕ) (m : Maps) (seqs : List ℕ)
      → Agree i m seqs
      → Agree (rounds + i) (map_loop in_use rounds i m) (unmap_loop in_use rounds i seqs)
  unfolding map_loop unmap_loop
  loop-Agree zero i m seqs k = let e : zero + i ≡ i = omega arith in rw e k
  loop-Agree (suc rounds) i m seqs k =
      let e : suc rounds + i ≡ rounds + (i + 1) = omega arith in
      rw e (
        loop-Agree rounds (i + 1) (map_byte in_use i m) (unmap_byte in_use i seqs)
          (byte-Agree i m seqs k))

  -- The numbers that makeMaps_e gives to the bytes in use are their places in the table of makeMaps_d,
  -- which is as long as makeMaps_e says.
  pub make_maps-Agree :
      (before : ℕ → ℕ) → Agree 256 (make_maps_e in_use before) (make_maps_d in_use)
  unfolding make_maps_e make_maps_d
  make_maps-Agree before =
      loop-Agree 256 0 _ []
        (record { size = refl; at_most = omega arith; back = λ b h v. absurd (omega arith) })
