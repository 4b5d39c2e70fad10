-- ===== src/Unmtf/Runs.antt =====
-- The decoder on the symbols of a run: it counts back what generateMTFValues wrote.
use libqbz.Base.{ℕ, zero, suc, ◌+◌, ◌-◌, ◌*◌, ◌/◌, ◌%◌, ◌≤◌, ◌<◌, List, ◌++◌, true, false}
use libqbz.Base.{◌≡◌, refl, ap, ap₂, ◌∙◌, ◌⊎◌, inl, inr, arith, Bool-cases, ◌==◌}
use libqbz.Base.{if◌then◌else◌, ltb, leb}
use libqbz.Mtf.{run_a, run_b}
use libqbz.Mtf.Codes.{run_syms}
use libqbz.Unmtf.{Unmtf, in_run, is_run, run_round}
use libqbz.Unmtf.{next_symbol, symbols_loop}

-- the largest run whose symbols the decoder takes
abbrev pub run_limit : ℕ
run_limit = 2 * 1024 * 1024

-- the least symbol of the digit that a run of `z + 1` begins with
pub digit_is_run : (z : ℕ) → is_run (if z % 2 == 1 then run_b else run_a) ≡ true
digit_is_run z = ground arith

-- a digit and the digits after it
run_step :
    (z n : ℕ) → (ltb z 2) ≡ false → (1 + z % 2) * n + ((z - 2) / 2 + 1) * (n * 2) ≡ (z + 1) * n
run_step z n h = ap₂ ◌+◌ refl refl ∙ split
  where
    whole : 1 + z % 2 + ((z - 2) / 2 + 1) * 2 ≡ z + 1
    whole = ground arith

    split : (1 + z % 2) * n + ((z - 2) / 2 + 1) * (n * 2) ≡ (z + 1) * n
    split = omega (arith, ap (λ (t : ℕ). t * n) whole)

last_step : (z n : ℕ) → (ltb z 2) ≡ true → (1 + z % 2) * n ≡ (z + 1) * n
last_step z n h = ap (λ (t : ℕ). t * n) (ground arith)

parity : (z : ℕ) → (z % 2 ≡ 0) ⊎ (z % 2 ≡ 1)
parity z = grind arith

-- what a digit adds
digit_adds :
    (z es1 n : ℕ)
    → (if (if z % 2 == 1 then run_b else run_a) == run_a then es1 + 1 * n else es1 + 2 * n)
      ≡ es1 + (1 + z % 2) * n
digit_adds z es1 n = elim (parity z) [ inl e ↦ rw e (omega arith) | inr e ↦ rw e (omega arith) ]

module _ (seqs : List ℕ) (eob max : ℕ) where
  -- A run symbol, inside a run.
  digit_taken :
      (z es1 n : ℕ) (s : Unmtf)
      → n < run_limit
      → next_symbol seqs eob max (in_run es1 n s) (if z % 2 == 1 then run_b else run_a)
        ≡ in_run (es1 + (1 + z % 2) * n) (n * 2) s
  unfolding next_symbol run_round
  digit_taken z es1 n s h =
      rw (digit_is_run z, at_most n h) (λ i. in_run (digit_adds z es1 n i) (n * 2) s)
    where
      at_most : (n : ℕ) → n < run_limit → leb (2 * 1024 * 1024) n ≡ false
      at_most n h = ground arith

  -- The symbols of a run add up to it, whatever comes after them.
  pub run_syms-counted :
      (fuel z es1 n : ℕ) (s : Unmtf) (rest : List ℕ)
      → z < fuel
      → (z + 1) * n < run_limit
      → 1 ≤ n
      → (n' : ℕ) × (symbols_loop seqs eob max (in_run es1 n s) (run_syms fuel z ++ rest)
          ≡ symbols_loop seqs eob max (in_run (es1 + (z + 1) * n) n' s) rest)
  unfolding symbols_loop run_syms
  run_syms-counted zero z es1 n s rest h b p = absurd (omega (arith, h))
  run_syms-counted (suc fuel) z es1 n s rest h b p = elim (Bool-cases (ltb z 2)) [
    | inl e ↦ (
      n * 2,
      rw e (
          ap (λ t. symbols_loop seqs eob max t rest)
            (digit_taken z es1 n s (small z n b)
              ∙ (λ i. in_run (es1 + last_step z n e i) (n * 2) s))),
    )
    | inr e ↦
        let more =
          run_syms-counted fuel ((z - 2) / 2) (es1 + (1 + z % 2) * n) (n * 2) s rest
            (ground (arith, e, h)) (omega (arith, run_step z n e, b)) (omega (arith, p)) in
        (
          more.0,
          rw e (
              ap (λ t. symbols_loop seqs eob max t (run_syms fuel ((z - 2) / 2) ++ rest))
                (digit_taken z es1 n s (small z n b))
              ∙ more.1
              ∙ (λ i. symbols_loop seqs eob max (in_run (total z es1 n e i) (more.0) s) rest)),
        )
  ]
    where
      small : (z n : ℕ) → (z + 1) * n < run_limit → n < run_limit
      small z n b = omega (arith, b)

      total :
          (z es1 n : ℕ)
          → ltb z 2 ≡ false
          → es1 + (1 + z % 2) * n + ((z - 2) / 2 + 1) * (n * 2) ≡ es1 + (z + 1) * n
      total z es1 n e = omega (arith, run_step z n e)
