-- ===== src/Unmtf/Tests.antt =====
-- A block of three bytes, there and back.
use libqbz.Base.{ℕ, ◌≡◌, refl, arith, [], ◌∷◌, Bool, ◌==◌, ◌||◌, ◌+◌, inl, inr}
use libqbz.Mtf.{make_maps_e, generate_mtf_values, move_sse2, move_portable, last_bytes, last_byte}
use libqbz.Mtf.Front.{index_of, remove}
use libqbz.Mtf.Search.{move_sse2-move_portable}
use libqbz.Mtf.Codes.{move_sse2-Moves, zero_runs, run_syms}
use libqbz.Unmtf.{make_maps_d, symbols_loop, first_unmtf, at_top}
use libqbz.Unmtf.Maps.{Agree, make_maps-Agree}
use libqbz.Unmtf.Reads.{Ends}
use libqbz.Unmtf.Whole.{symbols_loop-generate}

abbrev two_used : ℕ → Bool
two_used b = b == 97 || b == 98

abbrev none_before : ℕ → ℕ
none_before b = 0

-- a run of nine, in bijective digits
nine_zeros : zero_runs 9 ≡ 0 ∷ 1 ∷ 0 ∷ []
unfolding zero_runs run_syms
nine_zeros = refl

symbols_loop-generate_example :
    let m = make_maps_e two_used none_before in
    Ends (last_bytes (98 ∷ 97 ∷ 97 ∷ []) (1 ∷ 0 ∷ 2 ∷ [])) (
      symbols_loop
        (make_maps_d two_used)
        (m.n_in_use + 1)
        100000
        (at_top first_unmtf)
        (generate_mtf_values move_sse2 m (98 ∷ 97 ∷ 97 ∷ []) (1 ∷ 0 ∷ 2 ∷ []) none_before).mtfv)
unfolding last_bytes last_byte
symbols_loop-generate_example =
    symbols_loop-generate move_sse2 move_sse2-Moves two_used none_before none_before
      (98 ∷ 97 ∷ 97 ∷ []) 1 (0 ∷ 2 ∷ []) 100000 (omega arith) (omega arith)
      (omega arith, refl, (omega arith, refl, (omega arith, refl, tt)))

make_maps-Agree_example :
    Agree two_used 256 (make_maps_e two_used none_before) (make_maps_d two_used)
make_maps-Agree_example = make_maps-Agree two_used none_before

move_sse2-move_portable_example :
    (move_sse2 5 (3 ∷ 4 ∷ 5 ∷ []) ≡ move_portable 5 (3 ∷ 4 ∷ 5 ∷ []))
    × (move_sse2 5 (3 ∷ 4 ∷ 5 ∷ []) ≡ (index_of 5 (3 ∷ 4 ∷ 5 ∷ []), 5 ∷ remove 5 (3 ∷ 4 ∷ 5 ∷ [])))
move_sse2-move_portable_example =
    move_sse2-move_portable 5 (3 ∷ 4 ∷ 5 ∷ []) (inr (inr (inl refl))) refl
