-- ===== src/Unmtf.antt =====
-- The decoding of the symbols of a block: makeMaps_d and the loop of BZ2_decompress between two calls
-- of GET_MTF_VAL, in src/decompress.c. `out` is the written prefix of `tt` or `ll16`, in which the
-- bytes stand before the transform, so that its length is `nblock`.
pub mod Runs
pub mod Maps
pub mod Reads
pub mod RoundTrip
pub mod Whole
mod Tests
use libqbz.Base.{ℕ, zero, suc, ◌+◌, ◌-◌, ◌*◌, ◌^◌, List, [], ◌∷◌, ◌++◌, Bool, true, false, ◌==◌}
use libqbz.Base.{◌||◌, if◌then◌else◌, ltb, leb, length, get_or, replicate, take, drop}
use libqbz.Mtf.{run_a, run_b, count_up}

-- one round of the loop of makeMaps_d
unfoldable pub unmap_byte : (ℕ → Bool) → ℕ → List ℕ → List ℕ
unmap_byte in_use i seqs = if in_use i then seqs ++ i ∷ [] else seqs

unfoldable pub unmap_loop : (ℕ → Bool) → ℕ → ℕ → List ℕ → List ℕ
unmap_loop in_use zero i seqs = seqs
unmap_loop in_use (suc rounds) i seqs = unmap_loop in_use rounds (i + 1) (unmap_byte in_use i seqs)

-- makeMaps_d: the written prefix of `seqToUnseq`, whose length is `nInUse`
unfoldable pub make_maps_d : (ℕ → Bool) → List ℕ
make_maps_d in_use = unmap_loop in_use 256 0 []

pub record Unmtf : Type 0 where
  pub mtfa : List ℕ
  pub out : List ℕ
  pub unzftab : ℕ → ℕ

-- what the loop does with a symbol: it waits for the next one, at its top or inside the `do` loop of
-- a run with `es + 1` and `N`; it ends at EOB; or it returns BZ_DATA_ERROR
pub data Symbols : Type 0 where
  at_top : Unmtf → Symbols
  in_run : ℕ → ℕ → Unmtf → Symbols
  ended : Unmtf → Symbols
  bad_data : Symbols

abbrev pub is_run : ℕ → Bool
is_run sym = sym == run_a || sym == run_b

-- the body of the `do` loop, `es1` being `es + 1`
unfoldable pub run_round : ℕ → ℕ → ℕ → Unmtf → Symbols
run_round sym es1 n s =
    if leb (2 * 1024 * 1024) n
    then bad_data
    else in_run (if sym == run_a then es1 + 1 * n else es1 + 2 * n) (n * 2) s

-- `s->unzftab[uc] += n`
abbrev pub count_in : (ℕ → ℕ) → ℕ → ℕ → ℕ → ℕ
count_in tab uc n k = if k == uc then tab k + n else tab k

-- the decoder before the first symbol: `mtfa[i] = i`, `unzftab[i] = 0`, `nblock = 0`
unfoldable pub first_unmtf : Unmtf
first_unmtf = record { mtfa = count_up 256 0; out = []; unzftab = λ k. 0 }

-- the inverse of a move to the front, on `mtfa`
unfoldable pub pull_front : List ℕ → ℕ → List ℕ
pull_front mtfa nn = get_or mtfa nn 0 ∷ take nn mtfa ++ drop (nn + 1) mtfa

module _ (seqs : List ℕ) (eob nblock_max : ℕ) where
  -- a symbol that stands for an index
  unfoldable pub put_index : ℕ → Unmtf → Symbols
  put_index sym s =
      let uc = get_or seqs (get_or s.mtfa (sym - 1) 0) 0 in
      if leb nblock_max (length s.out)
      then bad_data
      else at_top (record {
        mtfa = pull_front s.mtfa (sym - 1);
        out = s.out ++ uc ∷ [];
        unzftab = count_in s.unzftab uc 1;
      })

  -- a symbol at the top of the loop
  unfoldable pub top_symbol : ℕ → Unmtf → Symbols
  top_symbol sym s =
      if sym == eob then ended s else if is_run sym then run_round sym 0 1 s else put_index sym s

  -- what follows the `do` loop; the bound is `nblock + es > nblockMAX`
  unfoldable pub end_run : ℕ → ℕ → Unmtf → Symbols
  end_run sym es s =
      let uc = get_or seqs (get_or s.mtfa 0 0) 0 in
      if ltb nblock_max (length s.out + es)
      then bad_data
      else top_symbol sym
          (record s { out = s.out ++ replicate es uc; unzftab = count_in s.unzftab uc es })

  -- the loop, from one GET_MTF_VAL to the next
  unfoldable pub next_symbol : Symbols → ℕ → Symbols
  next_symbol (at_top s) sym = top_symbol sym s
  next_symbol (in_run es1 n s) sym = if is_run sym then run_round sym es1 n s else end_run sym es1 s
  next_symbol (ended s) sym = ended s
  next_symbol bad_data sym = bad_data

  unfoldable pub symbols_loop : Symbols → List ℕ → Symbols
  symbols_loop s [] = s
  symbols_loop s (sym ∷ syms) = symbols_loop (next_symbol s sym) syms
