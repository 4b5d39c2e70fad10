-- ===== src/Mtf/Codes.antt =====
-- The symbols of a block, as a function of the bytes and of the list with the latest ones in front, and
-- generateMTFValues against it.
use mathlib.Core.List.{append_assoc, append-nil}
use libqbz.Base.{ℕ, zero, suc, ◌+◌, ◌-◌, ◌/◌, ◌%◌, List, [], ◌∷◌, ◌++◌, false}
use mathlib.Core.Path.{subst}
use libqbz.Base.{◌≡◌, refl, sym, ap, ◌∙◌, inl, inr, arith, Bool-cases, ◌==◌}
use libqbz.Base.{if◌then◌else◌, ltb, get_or}
use libqbz.Mtf.{Coding, run_a, run_b, emit, run_loop, flush_run, code_index, code_byte, code_loop}
use libqbz.Mtf.{Maps, generate_mtf_values, first_coding, first_yy, map_seq, last_bytes}
use libqbz.Mtf.{move_portable, move_sse2}
use libqbz.Mtf.Front.{index_of, remove, Found, Found-front}
use libqbz.Mtf.Search.{move_portable_lem, move_sse2_lem}

-- the symbols of a run of `z + 1`, at most `fuel` of them
unfoldable pub run_syms : ℕ → ℕ → List ℕ
run_syms zero z = []
run_syms (suc fuel) z =
    let more = run_syms fuel ((z - 2) / 2) in
    (if z % 2 == 1 then run_b else run_a) ∷ (if ltb z 2 then [] else more)

-- the symbols of a run of `n`
unfoldable pub zero_runs : ℕ → List ℕ
zero_runs n = if ltb 0 n then run_syms n (n - 1) else []

-- the symbols of the bytes, after `z` zeros that are still to be written
unfoldable pub codes : List ℕ → List ℕ → ℕ → List ℕ
codes [] yy z = zero_runs z
codes (b ∷ bs) yy z =
    let same = codes bs yy (z + 1) in
    let other = codes bs (b ∷ remove b yy) 0 in
    if get_or yy 0 0 == b then same else zero_runs z ++ (index_of b yy + 1) ∷ other

abbrev pub AllIn : List ℕ → List ℕ → Type 0
AllIn [] yy = Unit
AllIn (b ∷ bs) yy = Found b yy × AllIn bs yy

pub AllIn-front : (v : ℕ) (bs yy : List ℕ) → AllIn bs yy → AllIn bs (v ∷ remove v yy)
AllIn-front v [] yy h = tt
AllIn-front v (b ∷ bs) yy h = (Found-front b v yy h.0, AllIn-front v bs yy h.1)

-- A search that moves values to the front.
abbrev pub Moves : (ℕ → List ℕ → ℕ × List ℕ) → Type 0
Moves move =
    (v : ℕ) (yy : List ℕ)
    → Found v yy
    → (get_or yy 0 0 == v) ≡ false
    → move v yy ≡ (index_of v yy, v ∷ remove v yy)

pub move_portable-Moves : Moves move_portable
move_portable-Moves v yy f ne = move_portable_lem v yy f ne

pub move_sse2-Moves : Moves move_sse2
move_sse2-Moves v yy f ne = move_sse2_lem v yy f

-- Writing a run.
run_loop-mtfv : (fuel z : ℕ) (s : Coding) → (run_loop fuel z s).mtfv ≡ s.mtfv ++ run_syms fuel z
unfolding run_loop run_syms
run_loop-mtfv zero z s = sym (append-nil s.mtfv)
run_loop-mtfv (suc fuel) z s = elim (Bool-cases (ltb z 2)) [
  | inl h ↦ rw h (unfold emit in refl)
  | inr h ↦ rw h (
      run_loop-mtfv fuel ((z - 2) / 2) (emit s (if z % 2 == 1 then run_b else run_a))
      ∙ (unfold emit in append_assoc s.mtfv _ (run_syms fuel ((z - 2) / 2))))
]

run_loop-yy : (fuel z : ℕ) (s : Coding) → (run_loop fuel z s).yy ≡ s.yy
unfolding run_loop
run_loop-yy zero z s = refl
run_loop-yy (suc fuel) z s = elim (Bool-cases (ltb z 2)) [
  | inl h ↦ rw h (unfold emit in refl)
  | inr h ↦ rw h (
      run_loop-yy fuel ((z - 2) / 2) (emit s (if z % 2 == 1 then run_b else run_a))
      ∙ (unfold emit in refl))
]

flush_run-mtfv : (s : Coding) → (flush_run s).mtfv ≡ s.mtfv ++ zero_runs s.z_pend
unfolding flush_run zero_runs
flush_run-mtfv s = elim (Bool-cases (ltb 0 s.z_pend)) [
  | inl h ↦ rw h (run_loop-mtfv s.z_pend (s.z_pend - 1) s)
  | inr h ↦ rw h (sym (append-nil s.mtfv))
]

flush_run-yy : (s : Coding) → (flush_run s).yy ≡ s.yy
unfolding flush_run
flush_run-yy s = elim (Bool-cases (ltb 0 s.z_pend)) [
  | inl h ↦ rw h (run_loop-yy s.z_pend (s.z_pend - 1) s)
  | inr h ↦ rw h refl
]

flush_run-z_pend : (s : Coding) → (flush_run s).z_pend ≡ 0
unfolding flush_run
flush_run-z_pend s = elim (Bool-cases (ltb 0 s.z_pend)) [
  | inl h ↦ rw h refl
  | inr h ↦ rw h (ground (arith, h))
]

module _ (move : ℕ → List ℕ → ℕ × List ℕ) (moves : Moves move) where
  moved :
      (b : ℕ) (s : Coding)
      → Found b s.yy
      → (get_or s.yy 0 0 == b) ≡ false
      → move b (flush_run s).yy ≡ (index_of b s.yy, b ∷ remove b s.yy)
  moved b s f ne = ap (move b) (flush_run-yy s) ∙ moves b s.yy f ne

  -- a byte that is not at the front
  code_index_fields :
      (b : ℕ) (s : Coding)
      → Found b s.yy
      → (get_or s.yy 0 0 == b) ≡ false
      → ((code_index move b s).mtfv ≡ s.mtfv ++ (zero_runs s.z_pend ++ (index_of b s.yy + 1) ∷ []))
        × ((code_index move b s).yy ≡ b ∷ remove b s.yy)
        × ((code_index move b s).z_pend ≡ 0)
  unfolding code_index emit
  code_index_fields b s f ne =
      let m = moved b s f ne in
      (
        (λ i. flush_run-mtfv s i ++ ((m i).0 + 1) ∷ [])
            ∙ append_assoc s.mtfv (zero_runs s.z_pend) _,
        ap (λ t. t.1) m,
        flush_run-z_pend s,
      )

  code_loop-codes :
      (bs : List ℕ) (s : Coding)
      → AllIn bs s.yy
      → (flush_run (code_loop move bs s)).mtfv ≡ s.mtfv ++ codes bs s.yy s.z_pend
  unfolding code_loop code_byte codes
  code_loop-codes [] s h = flush_run-mtfv s
  code_loop-codes (b ∷ bs) s h = elim (Bool-cases (get_or s.yy 0 0 == b)) [
    | inl e ↦ rw e (code_loop-codes bs (record s { z_pend = s.z_pend + 1 }) h.1)
    | inr e ↦ rw e (
        let t = code_index move b s in
        let k = code_index_fields b s h.0 e in
        code_loop-codes bs t (subst (λ yy. AllIn bs yy) (sym k.1) (AllIn-front b bs s.yy h.1))
        ∙ (λ i. k.0 i ++ codes bs (k.1 i) (k.2 i))
        ∙ append_assoc s.mtfv (zero_runs s.z_pend ++ (index_of b s.yy + 1) ∷ []) _
        ∙ ap (λ t. s.mtfv ++ t) (append_assoc (zero_runs s.z_pend) _ _))
  ]

  pub generate-codes :
      (m : Maps) (block ptr : List ℕ) (freq : ℕ → ℕ)
      → AllIn (map_seq m.unseq_to_seq (last_bytes block ptr)) (first_yy m.n_in_use)
      → (generate_mtf_values move m block ptr freq).mtfv
        ≡ codes (map_seq m.unseq_to_seq (last_bytes block ptr)) (first_yy m.n_in_use) 0
          ++ (m.n_in_use + 1) ∷ []
  unfolding generate_mtf_values emit first_coding
  generate-codes m block ptr freq h =
      ap (λ t. t ++ (m.n_in_use + 1) ∷ [])
        (code_loop-codes (map_seq m.unseq_to_seq (last_bytes block ptr))
          (first_coding m.n_in_use freq) h)
