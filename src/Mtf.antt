-- ===== src/Mtf.antt =====
-- The move-to-front and zero-run coding of a sorted block: makeMaps_e and generateMTFValues of
-- src/compress.c. `mtfv` is the written prefix of the array, so that its length is `wr`.
pub mod Front
pub mod Search
pub mod Codes
use libqbz.Base.{ℕ, zero, suc, ◌+◌, ◌-◌, ◌/◌, ◌%◌, List, [], ◌∷◌, ◌++◌, Bool, true, false, ◌==◌}
use libqbz.Base.{if◌then◌else◌, ltb, leb, length, get_or, replicate, take, drop, Option, none, some}

pub record Maps : Type 0 where
  pub n_in_use : ℕ
  pub unseq_to_seq : ℕ → ℕ

-- one round of the loop of makeMaps_e
unfoldable pub map_byte : (ℕ → Bool) → ℕ → Maps → Maps
map_byte in_use i m =
    if in_use i
    then record {
      n_in_use = m.n_in_use + 1;
      unseq_to_seq = λ k. if k == i then m.n_in_use else m.unseq_to_seq k;
    }
    else m

-- the loop, over the rounds from `i` on
unfoldable pub map_loop : (ℕ → Bool) → ℕ → ℕ → Maps → Maps
map_loop in_use zero i m = m
map_loop in_use (suc rounds) i m = map_loop in_use rounds (i + 1) (map_byte in_use i m)

-- makeMaps_e; entries of bytes that are not in use keep what they were
unfoldable pub make_maps_e : (ℕ → Bool) → (ℕ → ℕ) → Maps
make_maps_e in_use before = map_loop in_use 256 0 (record { n_in_use = 0; unseq_to_seq = before })

-- BZ_RUNA and BZ_RUNB
abbrev pub run_a : ℕ
run_a = 0

abbrev pub run_b : ℕ
run_b = 1

-- the locals of generateMTFValues, and the fields that it writes
pub record Coding : Type 0 where
  pub yy : List ℕ
  pub z_pend : ℕ
  pub mtfv : List ℕ
  pub mtf_freq : ℕ → ℕ

-- `mtfv[wr] = sym; wr++; s->mtfFreq[sym]++`
unfoldable pub emit : Coding → ℕ → Coding
emit s sym = record s {
  mtfv = s.mtfv ++ sym ∷ [];
  mtf_freq = λ k. if k == sym then s.mtf_freq k + 1 else s.mtf_freq k;
}

-- the loop that writes a run, `z` being `zPend`; at most `z` rounds follow the first
unfoldable pub run_loop : ℕ → ℕ → Coding → Coding
run_loop zero z s = s
run_loop (suc fuel) z s =
    let t = emit s (if z % 2 == 1 then run_b else run_a) in
    let more = run_loop fuel ((z - 2) / 2) t in if ltb z 2 then t else more

-- `if (zPend > 0) { zPend--; ...; zPend = 0; }`
unfoldable pub flush_run : Coding → Coding
flush_run s =
    if ltb 0 s.z_pend then record (run_loop s.z_pend (s.z_pend - 1) s) { z_pend = 0 } else s

-- The loop of the portable branch, from `rtmp` on, over the entries above `ryy_j`: how far `ryy_j`
-- goes, the last `rtmp`, and the entries from the first `ryy_j` on.
unfoldable pub shift_loop : ℕ → ℕ → List ℕ → ℕ × ℕ × List ℕ
shift_loop ll rtmp [] = (0, rtmp, [])
shift_loop ll rtmp (y ∷ ys) =
    let (far, last, rest) = shift_loop ll y ys in
    if ll == rtmp then (0, rtmp, y ∷ ys) else (suc far, last, rtmp ∷ rest)

-- the portable branch: `j`, and `yy` after it
unfoldable pub move_portable : ℕ → List ℕ → ℕ × List ℕ
move_portable ll (y0 ∷ y1 ∷ ys) =
    let (far, last, rest) = shift_loop ll y1 ys in (1 + far, last ∷ y0 ∷ rest)
move_portable ll yy = (0, yy)

-- __builtin_ctz of the mask of a comparison with `ll`, or none where the mask is 0
unfoldable pub first_match : ℕ → List ℕ → Option ℕ
first_match ll [] = none
first_match ll (y ∷ ys) =
    if y == ll then some 0 else elim (first_match ll ys) [ none ↦ none | some k ↦ some (suc k) ]

-- the loop of the branch for SSE2, sixteen entries at a time; `left` is `yy + pos`
unfoldable pub chunk_loop : ℕ → ℕ → ℕ → List ℕ → ℕ
chunk_loop zero ll pos left = pos
chunk_loop (suc fuel) ll pos left = elim (first_match ll (take 16 left)) [
  | some k ↦ pos + k
  | none ↦ chunk_loop fuel ll (pos + 16) (drop 16 left)
]

-- the branch for SSE2: `memmove(yy + 1, yy, pos); yy[0] = ll_i`
unfoldable pub move_sse2 : ℕ → List ℕ → ℕ × List ℕ
move_sse2 ll yy =
    let pos = chunk_loop (length yy) ll 0 yy in (pos, ll ∷ take pos yy ++ drop (pos + 1) yy)

-- what a byte that is not at the front does, `move` being the branch compiled
unfoldable pub code_index : (ℕ → List ℕ → ℕ × List ℕ) → ℕ → Coding → Coding
code_index move ll s =
    let t = flush_run s in let (j, yy) = move ll t.yy in emit (record t { yy = yy }) (j + 1)

-- the body of the loop over the block
unfoldable pub code_byte : (ℕ → List ℕ → ℕ × List ℕ) → ℕ → Coding → Coding
code_byte move ll s =
    if get_or s.yy 0 0 == ll then record s { z_pend = s.z_pend + 1 } else code_index move ll s

unfoldable pub code_loop : (ℕ → List ℕ → ℕ × List ℕ) → List ℕ → Coding → Coding
code_loop move [] s = s
code_loop move (ll ∷ rest) s = code_loop move rest (code_byte move ll s)

-- `j = ptr[i]-1; if (j < 0) j += nblock; block[j]`
unfoldable pub last_byte : List ℕ → ℕ → ℕ
last_byte block p = if p == 0 then get_or block (length block - 1) 0 else get_or block (p - 1) 0

-- the bytes that the loop meets, for the entries of `ptr`
unfoldable pub last_bytes : List ℕ → List ℕ → List ℕ
last_bytes block [] = []
last_bytes block (p ∷ ps) = last_byte block p ∷ last_bytes block ps

unfoldable pub map_seq : (ℕ → ℕ) → List ℕ → List ℕ
map_seq f [] = []
map_seq f (x ∷ xs) = f x ∷ map_seq f xs

-- `0, 1, ...`: `n` numbers from `from` on
unfoldable pub count_up : ℕ → ℕ → List ℕ
count_up zero from = []
count_up (suc n) from = from ∷ count_up n (from + 1)

-- `yy` before the loop
unfoldable pub first_yy : ℕ → List ℕ
first_yy n = count_up n 0 ++ replicate (272 - n) 0xff

-- the locals before the loop; the frequencies of symbols above EOB stay
unfoldable pub first_coding : ℕ → (ℕ → ℕ) → Coding
first_coding n freq = record {
  yy = first_yy n;
  z_pend = 0;
  mtfv = [];
  mtf_freq = λ k. if leb k (n + 1) then 0 else freq k;
}

-- generateMTFValues after makeMaps_e, on `ptr[0..nblock)`
unfoldable pub generate_mtf_values :
    (ℕ → List ℕ → ℕ × List ℕ) → Maps → List ℕ → List ℕ → (ℕ → ℕ) → Coding
generate_mtf_values move m block ptr freq =
    let lasts = map_seq m.unseq_to_seq (last_bytes block ptr) in
    emit (flush_run (code_loop move lasts (first_coding m.n_in_use freq))) (m.n_in_use + 1)
