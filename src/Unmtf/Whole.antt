-- ===== src/Unmtf/Whole.antt =====
-- BZ2_decompress on all the symbols of generateMTFValues.
use mathlib.Core.Path.{subst}
use libqbz.Base.{ℕ, zero, suc, ◌+◌, ◌-◌, ◌≤◌, ◌<◌, List, [], ◌∷◌, ◌++◌, Bool, true}
use libqbz.Base.{◌≡◌, refl, sym, ap, ap₂, ◌∙◌, ◌⊎◌, inl, inr, arith, length, get_or, replicate}
use libqbz.Mtf.{Maps, make_maps_e, generate_mtf_values, map_seq, last_bytes, count_up, first_yy}
use libqbz.Mtf.Front.{Found, Found-append}
use libqbz.Mtf.Codes.{codes, AllIn, Moves, generate-codes}
use libqbz.Unmtf.{at_top, make_maps_d, symbols_loop, first_unmtf}
use libqbz.Unmtf.Maps.{Agree, make_maps-Agree}
use libqbz.Unmtf.Runs.{run_limit}
use libqbz.Unmtf.Reads.{Ends}
use libqbz.Unmtf.RoundTrip.{codes_read}

length-last_bytes : (block ps : List ℕ) → length (last_bytes block ps) ≡ length ps
unfolding last_bytes
length-last_bytes block [] = refl
length-last_bytes block (p ∷ ps) = ap suc (length-last_bytes block ps)

-- All bytes of the list are in use.
abbrev pub AllUsed : (ℕ → Bool) → List ℕ → Type 0
AllUsed in_use [] = Unit
AllUsed in_use (b ∷ bs) = (b < 256) × (in_use b ≡ true) × AllUsed in_use bs

Found-count_up : (n from v : ℕ) → from ≤ v → v < from + n → Found v (count_up n from)
unfolding count_up
Found-count_up zero from v h g = absurd (omega (arith, h, g))
Found-count_up (suc n) from v h g = elim (first_or_later from v h) [
  | inl e ↦ inl e
  | inr l ↦ inr (Found-count_up n (from + 1) v l (omega (arith, g)))
]
  where
    first_or_later : (from v : ℕ) → from ≤ v → (from ≡ v) ⊎ (from + 1 ≤ v)
    first_or_later from v h = grind arith

count_up-append : (n m from : ℕ) → count_up (n + m) from ≡ count_up n from ++ count_up m (from + n)
unfolding count_up
count_up-append zero m from =
    let e : zero + m ≡ m = omega arith in let g : from + zero ≡ from = omega arith in rw (e, g) refl
count_up-append (suc n) m from =
    let e : suc n + m ≡ suc (n + m) = omega arith in
    let g : from + suc n ≡ from + 1 + n = omega arith in
    rw (e, g) (ap (λ t. from ∷ t) (count_up-append n m (from + 1)))

length-count_up : (n from : ℕ) → length (count_up n from) ≡ n
unfolding count_up
length-count_up zero from = refl
length-count_up (suc n) from = ap suc (length-count_up n (from + 1))

AllIn-append : (bs xs ys : List ℕ) → AllIn bs xs → AllIn bs (xs ++ ys)
AllIn-append [] xs ys h = tt
AllIn-append (b ∷ bs) xs ys h = (Found-append b xs ys h.0, AllIn-append bs xs ys h.1)

module _ (in_use : ℕ → Bool) (m : Maps) (seqs : List ℕ) (k : Agree in_use 256 m seqs) where
  AllIn-map_seq :
      (bs : List ℕ) → AllUsed in_use bs → AllIn (map_seq m.unseq_to_seq bs) (count_up m.n_in_use 0)
  unfolding map_seq
  AllIn-map_seq [] h = tt
  AllIn-map_seq (b ∷ bs) h = (
    Found-count_up m.n_in_use 0 (m.unseq_to_seq b) (omega arith)
        (omega (arith, (k.back b h.0 h.1).0, k.size)),
    AllIn-map_seq bs h.2,
  )

  map_seq-back :
      (bs : List ℕ)
      → AllUsed in_use bs
      → map_seq (λ b. get_or seqs b 0) (map_seq m.unseq_to_seq bs) ≡ bs
  unfolding map_seq
  map_seq-back [] h = refl
  map_seq-back (b ∷ bs) h = ap₂ ◌∷◌ (k.back b h.0 h.1).1 (map_seq-back bs h.2)

  length-map_seq : (bs : List ℕ) → length (map_seq m.unseq_to_seq bs) ≡ length bs
  unfolding map_seq
  length-map_seq [] = refl
  length-map_seq (b ∷ bs) = ap suc (length-map_seq bs)

  -- the number of bytes in use, where there is one
  some_used : (b : ℕ) → b < 256 → in_use b ≡ true → (n : ℕ) × (m.n_in_use ≡ suc n)
  some_used b h u = (m.n_in_use - 1, omega (arith, (k.back b h u).0, k.size))

  read_back :
      (max : ℕ)
      → max < run_limit
      → (bs : List ℕ) (n : ℕ) → m.n_in_use ≡ suc n
      → AllUsed in_use bs
      → length bs ≤ max
      → Ends bs (
          symbols_loop seqs
            (m.n_in_use + 1)
            max
            (at_top first_unmtf)
            (codes (map_seq m.unseq_to_seq bs) (first_yy m.n_in_use) 0 ++ (m.n_in_use + 1) ∷ []))
  unfolding first_yy first_unmtf
  read_back max limit bs n e h l =
      let step =
        codes_read seqs (m.n_in_use + 1) max limit (map_seq m.unseq_to_seq bs) 0 (count_up n 1)
          (replicate (272 - m.n_in_use) 0xff) (count_up (256 - suc n) (0 + suc n)) 0 first_unmtf
          (record {
            same = ap (λ t. count_up t 0) parts ∙ count_up-append (suc n) (256 - suc n) 0 ∙ split;
            all_in =
                subst (λ t. AllIn (map_seq m.unseq_to_seq bs) t) (ap (λ t. count_up t 0) e ∙ head)
                  (AllIn-map_seq bs h);
            last = omega (arith, e, length-count_up n 1);
            room = omega (arith, l, length-map_seq bs);
            counted = λ b. refl;
          }) in
      subst
        (λ q. Ends bs (
          symbols_loop seqs (m.n_in_use + 1) max (at_top first_unmtf) (
            codes (map_seq m.unseq_to_seq bs) (q ++ replicate (272 - m.n_in_use) 0xff) 0
            ++ (m.n_in_use + 1) ∷ [])))
        (sym (ap (λ t. count_up t 0) e ∙ head))
        (subst
          (λ w. Ends w (
            symbols_loop seqs (m.n_in_use + 1) max (at_top first_unmtf) (
              codes (map_seq m.unseq_to_seq bs)
                ((0 ∷ count_up n 1) ++ replicate (272 - m.n_in_use) 0xff) 0
              ++ (m.n_in_use + 1) ∷ [])))
          (map_seq-back bs h) step)
    where
      head : count_up (suc n) 0 ≡ 0 ∷ count_up n 1
      head = unfold count_up in refl

      split :
          count_up (suc n) 0 ++ count_up (256 - suc n) (0 + suc n)
          ≡ 0 ∷ count_up n 1 ++ count_up (256 - suc n) (0 + suc n)
      split = unfold count_up in refl

      parts : 256 ≡ suc n + (256 - suc n)
      parts = omega (arith, e, k.size, k.at_most)

-- Where the entries of `ptr`, of which there is one at least and no more than `max`, all stand for
-- bytes in use, and `max` is below 2 * 1024 * 1024: BZ2_decompress, given the symbols that
-- generateMTFValues writes with either search, ends at EOB with exactly the bytes block[ptr[i] - 1] in
-- their order, and its table unzftab holds how often each byte stands among them.
pub symbols_loop-generate :
    (move : ℕ → List ℕ → ℕ × List ℕ) (moves : Moves move) (in_use : ℕ → Bool) (before freq : ℕ → ℕ)
    (block : List ℕ) (p : ℕ) (ptr : List ℕ) (max : ℕ)
    → max < run_limit
    → length (p ∷ ptr) ≤ max
    → AllUsed in_use (last_bytes block (p ∷ ptr))
    → let m = make_maps_e in_use before in
      Ends (last_bytes block (p ∷ ptr)) (
        symbols_loop
          (make_maps_d in_use)
          (m.n_in_use + 1)
          max
          (at_top first_unmtf)
          (generate_mtf_values move m block (p ∷ ptr) freq).mtfv)
unfolding last_bytes first_yy
symbols_loop-generate move moves in_use before freq block p ptr max limit l h =
    let m = make_maps_e in_use before in
    let k = make_maps-Agree in_use before in
    let used = some_used in_use m (make_maps_d in_use) k _ h.0 h.1 in
    subst
      (λ syms.
        Ends (last_bytes block (p ∷ ptr))
          (symbols_loop (make_maps_d in_use) (m.n_in_use + 1) max (at_top first_unmtf) syms))
      (sym (
        generate-codes move moves m block (p ∷ ptr) freq (
          AllIn-append (map_seq m.unseq_to_seq (last_bytes block (p ∷ ptr))) (count_up m.n_in_use 0)
            (replicate (272 - m.n_in_use) 0xff)
            (AllIn-map_seq in_use m (make_maps_d in_use) k (last_bytes block (p ∷ ptr)) h))))
      (read_back in_use m (make_maps_d in_use) k max limit (last_bytes block (p ∷ ptr)) used.0
        used.1 h (omega (arith, l, length-last_bytes block (p ∷ ptr))))
