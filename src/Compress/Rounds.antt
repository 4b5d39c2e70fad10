-- ===== src/Compress/Rounds.antt =====
-- The rounds of handle_compress: each but the first and the last two takes input.
use libqbz.Base.{ℕ, zero, suc, ◌+◌, ◌≤◌, Bool, true, false, arith}
use libqbz.Base.{◌≡◌, refl, ap, ◌∙◌, ◌⊎◌, inl, inr, Option, none, some, length}
use libqbz.Base.{if◌then◌else◌, ◌||◌}
use libqbz.Compress.{Turn, drained, output_phase, input_phase}
use libqbz.Compress.{output_turn, input_turn, handle_loop}
use libqbz.Compress.Types.{Backend, EState, output, input}
use libqbz.Compress.Types.{is_running}
use libqbz.Compress.Turns.{is_live, Filled, Renewed, input_phase-Filled, output_phase-Renewed}

abbrev pub is_some {ℓ} : {A : Type ℓ} → Option A → Bool
is_some none = false
is_some (some x) = true

pub is_some-if :
    {A : Type 0} (a b : Bool) (x y : A) (r : Option A)
    → (a ≡ true) ⊎ ((b ≡ true) ⊎ (is_some r ≡ true))
    → is_some (if a then some x else if b then some y else r) ≡ true
is_some-if true b x y r h = refl
is_some-if false true x y r h = refl
is_some-if false false x y r (inr (inr h)) = h
is_some-if false false x y r (inl h) = absurd (ground (arith, h))
is_some-if false false x y r (inr (inl h)) = absurd (ground (arith, h))

module _ (B : Backend) (addr : ℕ) where
  open B use {Coder}

  -- A round ends the loop, or the rest of the loop does.
  round-ends :
      (fuel : ℕ) (p : Bool) (s t1 : EState Coder) (a1 p1 : Bool) (t2 : Turn B addr)
      → output_turn B addr s.phase s ≡ (a1, p1, t1)
      → input_turn B addr t1.phase t1 ≡ t2
      → (a1 ≡ true)
        ⊎ ((t2.0 ≡ true) ⊎ ((p' : Bool) → is_some (handle_loop B addr fuel p' t2.2) ≡ true))
      → is_some (handle_loop B addr (suc fuel) p s) ≡ true
  unfolding handle_loop
  round-ends fuel p s t1 a1 p1 t2 e1 e2 h = rw e1 (rw e2 (is_some-if a1 t2.0 _ _ _ (later h)))
    where
      later :
          (a1 ≡ true)
            ⊎ ((t2.0 ≡ true) ⊎ ((p' : Bool) → is_some (handle_loop B addr fuel p' t2.2) ≡ true))
          → (a1 ≡ true)
            ⊎ ((t2.0 ≡ true) ⊎ (is_some (handle_loop B addr fuel (p || p1 || t2.1) t2.2) ≡ true))
      later (inl x) = inl x
      later (inr (inl x)) = inr (inl x)
      later (inr (inr x)) = inr (inr (x _))

  output_turn_lem :
      (s : EState Coder) → s.phase ≡ output → output_turn B addr s.phase s ≡ output_phase B addr s
  unfolding output_turn
  output_turn_lem s e = rw e refl

  skip_turn_lem :
      (s : EState Coder) → s.phase ≡ input → output_turn B addr s.phase s ≡ (false, false, s)
  unfolding output_turn
  skip_turn_lem s e = rw e refl

  input_turn_lem :
      (s : EState Coder) → s.phase ≡ input → input_turn B addr s.phase s ≡ input_phase B addr s
  unfolding input_turn
  input_turn_lem s e = rw e refl

  -- how many rounds the state in front of the output branch may still need
  abbrev pub HasFuel : ℕ → EState Coder → Type 0
  HasFuel fuel s =
      ((is_running s.mode ≡ false) × (drained B addr s ≡ true) × (1 ≤ fuel))
      ⊎ (length s.strm.next_in + 2 ≤ fuel)

  next_fuel :
      (fuel : ℕ) {s t u : EState Coder}
      → 1 ≤ s.nblock_max
      → HasFuel (suc fuel) s
      → Renewed B addr s t
      → Filled B addr t u
      → HasFuel fuel u
  next_fuel fuel big (inl h) r f = elim (r.busy) [
    | inl y ↦ absurd (ground (arith, h.0, y))
    | inr y ↦ absurd (ground (arith, h.1, y))
  ]
  next_fuel fuel big (inr h) r f = elim (f.next) [
    | inl d ↦ inl (d.0, d.1, omega (arith, h))
    | inr l ↦
        inr (omega (arith, h, ap length r.in_same, l.0 (omega (arith, r.empty, r.max_same, big))))
  ]

  pub loop-ends :
      (fuel : ℕ) (p : Bool) (s : EState Coder)
      → s.phase ≡ output
      → is_live s.mode ≡ true
      → 1 ≤ s.nblock_max
      → HasFuel fuel s
      → is_some (handle_loop B addr fuel p s) ≡ true
  loop-ends zero p s e live big (inl h) = absurd (omega (arith, h.2))
  loop-ends zero p s e live big (inr h) = absurd (omega (arith, h))
  loop-ends (suc fuel) p s e live big h = elim (output_phase-Renewed B addr s live) [
    | inl stop ↦ round-ends fuel p s _ _ _ _ (output_turn_lem s e) refl (inl stop)
    | inr r ↦ elim (input_phase-Filled B addr (output_phase B addr s).2) [
      | inl stop ↦
          round-ends fuel p s _ _ _ _ (output_turn_lem s e) (input_turn_lem _ r.phase_is)
            (inr (inl stop))
      | inr f ↦ round-ends fuel p s _ _ _ _ (output_turn_lem s e) (input_turn_lem _ r.phase_is) (
          inr (
            inr (λ p'.
              loop-ends fuel p' _ f.phase_is (ap is_live (f.mode_same ∙ r.mode_same) ∙ live)
                (omega (arith, f.max_same, r.max_same)) (next_fuel fuel big h r f))))
    ]
  ]

  -- the first round, from the input branch
  pub input-ends :
      (fuel : ℕ) (p : Bool) (s : EState Coder)
      → s.phase ≡ input
      → is_live s.mode ≡ true
      → 1 ≤ s.nblock_max
      → length s.strm.next_in + 3 ≤ fuel
      → is_some (handle_loop B addr fuel p s) ≡ true
  input-ends zero p s e live big h = absurd (omega (arith, h))
  input-ends (suc fuel) p s e live big h = elim (input_phase-Filled B addr s) [
    | inl stop ↦
        round-ends fuel p s s false false _ (skip_turn_lem s e) (input_turn_lem s e)
          (inr (inl stop))
    | inr f ↦ round-ends fuel p s s false false _ (skip_turn_lem s e) (input_turn_lem s e) (
        inr (
          inr (λ p'.
            loop-ends fuel p' _ f.phase_is (ap is_live f.mode_same ∙ live)
              (omega (arith, f.max_same, big)) (first_fuel f))))
  ]
    where
      first_fuel : {u : EState Coder} → Filled B addr s u → HasFuel fuel u
      first_fuel f = elim (f.next) [
        | inl d ↦ inl (d.0, d.1, omega (arith, h))
        | inr l ↦ inr (omega (arith, h, l.1))
      ]
