-- ===== src/Unmtf/Reads.antt =====
-- The decoder on a run with the symbol after it, and on the symbol of an index.
use mathlib.Core.List.{append-nil}
use libqbz.Base.{ℕ, zero, suc, ◌+◌, ◌-◌, ◌*◌, ◌/◌, ◌%◌, ◌≤◌, ◌<◌, List, [], ◌∷◌, ◌++◌, true, false}
use libqbz.Base.{◌≡◌, refl, sym, ap, ◌∙◌, arith, ◌==◌}
use libqbz.Base.{if◌then◌else◌, ltb, leb, length, get_or, replicate}
use libqbz.Mtf.{run_a, run_b}
use libqbz.Mtf.Codes.{run_syms, zero_runs}
use libqbz.Unmtf.{Unmtf, Symbols, at_top, in_run, ended, bad_data, is_run, count_in}
use libqbz.Unmtf.{top_symbol, end_run, next_symbol, symbols_loop, pull_front, put_index}
use libqbz.Unmtf.Runs.{run_limit, run_syms-counted, digit_is_run}

digit_below : (z eob : ℕ) → 1 < eob → ((if z % 2 == 1 then run_b else run_a) == eob) ≡ false
digit_below z eob h = ground arith

-- how often a byte stands in a list
abbrev pub count : ℕ → List ℕ → ℕ
count k [] = 0
count k (x ∷ xs) = if k == x then count k xs + 1 else count k xs

pub count-append : (k : ℕ) (xs ys : List ℕ) → count k (xs ++ ys) ≡ count k xs + count k ys
count-append k [] ys = omega arith
count-append k (x ∷ xs) ys = ground (arith, count-append k xs ys)

pub count-replicate : (k n x : ℕ) → count k (replicate n x) ≡ (if k == x then n else 0)
count-replicate k zero x = ground arith
count-replicate k (suc n) x = ground (arith, count-replicate k n x)

-- The table of frequencies is that of the bytes written.
abbrev pub Counted : Unmtf → Type 0
Counted s = (k : ℕ) → s.unzftab k ≡ count k s.out

-- `w` was decoded, and the table counts it.
abbrev pub Ends : List ℕ → Symbols → Type 0
Ends w (ended s) = (s.out ≡ w) × Counted s
Ends w (at_top s) = ⊥
Ends w (in_run es n s) = ⊥
Ends w bad_data = ⊥

pub count_in-replicate :
    (s : Unmtf) (uc n : ℕ)
    → Counted s
    → (k : ℕ) → count_in s.unzftab uc n k ≡ count k (s.out ++ replicate n uc)
count_in-replicate s uc n c k =
    ground (arith, c k, count-append k s.out (replicate n uc), count-replicate k n uc)

module _ (seqs : List ℕ) (eob max : ℕ) where
  abbrev pub byte_at : Unmtf → ℕ → ℕ
  byte_at s i = get_or seqs (get_or s.mtfa i 0) 0

  -- the state after a run of `z`
  abbrev pub grown : ℕ → Unmtf → Unmtf
  grown zero s = s
  grown (suc z) s = record s {
    out = s.out ++ replicate (suc z) (byte_at s 0);
    unzftab = count_in s.unzftab (byte_at s 0) (suc z);
  }

  pub grown-out : (z : ℕ) (s : Unmtf) → (grown z s).out ≡ s.out ++ replicate z (byte_at s 0)
  grown-out zero s = sym (append-nil s.out)
  grown-out (suc z) s = refl

  pub grown-Counted : (z : ℕ) (s : Unmtf) → Counted s → Counted (grown z s)
  grown-Counted zero s c = c
  grown-Counted (suc z) s c = count_in-replicate s (byte_at s 0) (suc z) c

  pub grown-mtfa : (z : ℕ) (s : Unmtf) → (grown z s).mtfa ≡ s.mtfa
  grown-mtfa zero s = refl
  grown-mtfa (suc z) s = refl

  first_digit :
      (y : ℕ) (s : Unmtf)
      → (y == eob) ≡ false
      → is_run y ≡ true
      → next_symbol seqs eob max (at_top s) y ≡ next_symbol seqs eob max (in_run 0 1 s) y
  unfolding next_symbol top_symbol
  first_digit y s ne h = rw (ne, h) refl

  -- The first symbol of a run starts one.
  run-starts :
      (z fuel : ℕ) (s : Unmtf) (rest : List ℕ)
      → 1 < eob
      → symbols_loop seqs eob max (at_top s) (run_syms (suc fuel) z ++ rest)
        ≡ symbols_loop seqs eob max (in_run 0 1 s) (run_syms (suc fuel) z ++ rest)
  unfolding symbols_loop run_syms
  run-starts z fuel s rest h =
      ap
        (λ t.
          symbols_loop seqs eob max t
            ((if ltb z 2 then [] else run_syms fuel ((z - 2) / 2)) ++ rest))
        (first_digit (if z % 2 == 1 then run_b else run_a) s (digit_below z eob h) (digit_is_run z))

  -- A symbol that is none of a run ends it.
  run-ends :
      (z n y : ℕ) (s : Unmtf) (rest : List ℕ)
      → is_run y ≡ false
      → length s.out + z ≤ max
      → symbols_loop seqs eob max (in_run z n s) (y ∷ rest)
        ≡ symbols_loop seqs eob max
            (at_top (record s {
              out = s.out ++ replicate z (byte_at s 0);
              unzftab = count_in s.unzftab (byte_at s 0) z;
            }))
            (y ∷ rest)
  unfolding symbols_loop next_symbol end_run
  run-ends z n y s rest h b = rw h (rw (fits z b) refl)
    where
      fits : (z : ℕ) → length s.out + z ≤ max → ltb max (length s.out + z) ≡ false
      fits z b = ground arith

  -- A run and the symbol after it.
  pub run_read :
      (z y : ℕ) (s : Unmtf) (rest : List ℕ)
      → is_run y ≡ false
      → 1 < eob
      → length s.out + z ≤ max
      → max < run_limit
      → symbols_loop seqs eob max (at_top s) (zero_runs z ++ y ∷ rest)
        ≡ symbols_loop seqs eob max (at_top (grown z s)) (y ∷ rest)
  unfolding zero_runs
  run_read zero y s rest ny he b l = refl
  run_read (suc z) y s rest ny he b l =
      let counted =
        run_syms-counted seqs eob max (suc z) z 0 1 s (y ∷ rest) (omega arith) (omega (arith, b, l))
          (omega arith) in
      rw (positive z, less_one z)
        (run-starts z z s (y ∷ rest) he
          ∙ counted.1
          ∙ (λ i. symbols_loop seqs eob max (in_run (once z i) (counted.0) s) (y ∷ rest))
          ∙ run-ends (suc z) (counted.0) y s rest ny b)
    where
      positive : (z : ℕ) → ltb 0 (suc z) ≡ true
      positive z = ground arith

      less_one : (z : ℕ) → suc z - 1 ≡ z
      less_one z = omega arith

      once : (z : ℕ) → 0 + (z + 1) * 1 ≡ suc z
      once z = omega arith

  -- A symbol above the runs and below EOB: the byte at its index, which moves to the front.
  pub index_read :
      (y uc : ℕ) (mtfa : List ℕ) (s : Unmtf)
      → (y == eob) ≡ false
      → is_run y ≡ false
      → length s.out < max
      → byte_at s (y - 1) ≡ uc
      → pull_front s.mtfa (y - 1) ≡ mtfa
      → next_symbol seqs eob max (at_top s) y
        ≡ at_top (record { mtfa = mtfa; out = s.out ++ uc ∷ []; unzftab = count_in s.unzftab uc 1 })
  unfolding next_symbol top_symbol put_index
  index_read y uc mtfa s ne nr room eu em =
      rw (ne, nr, fits room)
        (λ i.
          at_top (record {
            mtfa = em i;
            out = s.out ++ eu i ∷ [];
            unzftab = count_in s.unzftab (eu i) 1;
          }))
    where
      fits : length s.out < max → leb max (length s.out) ≡ false
      fits h = ground arith
