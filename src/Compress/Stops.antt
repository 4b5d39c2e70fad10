-- ===== src/Compress/Stops.antt =====
-- Why the loop of handle_compress stops, in the mode finishing.
use libqbz.Base.{ℕ, zero, suc, ◌≤◌, ◌<◌, Bool, true, false, arith}
use libqbz.Base.{◌≡◌, refl, ap, ◌∙◌, ◌⊎◌, inl, inr, Option, none, some, length, ltb, leb}
use libqbz.Base.{◌==◌, Bool-cases, ◌||◌, ◌&&◌, not, if◌then◌else◌}
use libqbz.Rle.{nblock}
use libqbz.Compress.{copy_input_until_stop, copy_output_until_stop, num_z, drained, output_phase}
use libqbz.Compress.{
  input_phase, prepare_new_block, output_turn, input_turn, handle_loop, handle_compress, enough,
}
use libqbz.Compress.Types.{
  Backend, EState, Phase, output, input, is_running, is_finishing, is_flushing,
}
use libqbz.Compress.Types.{Mode, finishing, advance_out}
use libqbz.Compress.Copy.{copy_input-ended}
use libqbz.Compress.Turns.{copy_output-Kept}
use libqbz.Compress.Level.{Level, copy_input-Level, output_turn-Level, input_turn-Level}

no_end :
    (full run : Bool) (n m : ℕ)
    → run ≡ false
    → n ≡ m
    → (not run && n == 0) ≡ false
    → full ≡ false
    → (full || m == 0 || (not run && n == 0)) ≡ true
    → ⊥
no_end full run n m r e h g f = ground (arith, r, e, h, g, f)

only_finishing : (m : Mode) → m ≡ finishing → (is_running m ≡ false) × (is_finishing m ≡ true)
only_finishing m e = (ap is_running e, ap is_finishing e)

second : (a b : Bool) → (a && b) ≡ true → b ≡ true
second a b h = ground arith

ltb_lt : (a b : ℕ) → ltb a b ≡ true → a < b
ltb_lt a b h = ground arith

ltb_le : (a b : ℕ) → ltb a b ≡ false → b ≤ a
ltb_le a b h = ground arith

not_flushing : (m : Mode) (d : Bool) → m ≡ finishing → (is_flushing m && d) ≡ true → ⊥
not_flushing m d e h = absurd (ground (arith, ap is_flushing e, h))

module _ (B : Backend) (addr : ℕ) where
  open B use {Coder}

  -- No room is left for the bytes of a block; or nothing is left to take or to hand out.
  abbrev pub Ends : EState Coder → Type 0
  Ends t =
      ((t.strm.avail_out ≡ 0) × (t.state_out_pos < num_z B addr t))
      ⊎ ((drained B addr t ≡ true) × (num_z B addr t ≤ t.state_out_pos))

  filled :
      (s : EState Coder)
      → ltb
          (copy_output_until_stop B addr s).1.state_out_pos
          (num_z B addr (copy_output_until_stop B addr s).1)
        ≡ true
      → (copy_output_until_stop B addr s).1.strm.avail_out ≡ 0
  unfolding copy_output_until_stop advance_out
  filled s h = ground (arith, h)

  output_phase-Ends :
      (s : EState Coder)
      → (copy_output_until_stop B addr s).1.mode ≡ finishing
      → (output_phase B addr s).0 ≡ true
      → Ends (output_phase B addr s).2
  unfolding output_phase prepare_new_block
  output_phase-Ends s f =
      let u = (copy_output_until_stop B addr s).1 in
      elim (Bool-cases (ltb u.state_out_pos (num_z B addr u))) [
        | inl h ↦ rw h (λ z. inl (filled s h, ltb_lt _ _ h))
        | inr h ↦ elim (Bool-cases (is_finishing u.mode && drained B addr u)) [
          | inl g ↦ rw h (rw g (λ z. inr (second _ _ g, ltb_le _ _ h)))
          | inr g ↦ rw h (rw g (λ z. absurd (not_flushing u.mode _ f z)))
        ]
      ]

  -- With the announced input counted, the branch for input goes on.
  input_phase-goes_on :
      (s t : EState Coder)
      → s.mode ≡ finishing
      → Level B addr s t
      → (input_phase B addr t).0 ≡ false
  unfolding input_phase
  input_phase-goes_on s t f k =
      let u = (copy_input_until_stop B addr t).1 in
      let r = (only_finishing s.mode f).0 in
      let l = copy_input-Level B addr s t r k in
      elim (Bool-cases (not (is_running u.mode) && u.avail_in_expect == 0)) [
        | inl h ↦ rw h refl
        | inr h ↦ elim (Bool-cases (leb u.nblock_max (nblock u.blk))) [
          | inl g ↦ rw h (rw g refl)
          | inr g ↦ absurd (
              no_end (leb u.nblock_max (nblock u.blk)) (is_running u.mode) u.avail_in_expect
                (length u.strm.next_in) (ap is_running l.mode_same ∙ r) (l.counted) h g
                (copy_input-ended B addr t))
        ]
      ]

  output_turn-Ends :
      (p : Phase) (s t : EState Coder)
      → s.mode ≡ finishing
      → Level B addr s t
      → (output_turn B addr p t).0 ≡ true
      → Ends (output_turn B addr p t).2
  unfolding output_turn
  output_turn-Ends output s t f k h =
      output_phase-Ends t ((copy_output-Kept B addr t).mode_same ∙ k.mode_same ∙ f) h
  output_turn-Ends input s t f k h = absurd (ground (arith, h))

  input_turn-goes_on :
      (p : Phase) (s t : EState Coder)
      → s.mode ≡ finishing
      → Level B addr s t
      → (input_turn B addr p t).0 ≡ false
  unfolding input_turn
  input_turn-goes_on output s t f k = refl
  input_turn-goes_on input s t f k = input_phase-goes_on s t f k

  abbrev pub EndsAfter : Option (Bool × EState Coder) → Type 0
  EndsAfter none = Unit
  EndsAfter (some (p, t)) = Ends t

  EndsAfter-if :
      (a b p q : Bool) (t u : EState Coder) (o : Option (Bool × EState Coder))
      → (a ≡ true → Ends t)
      → b ≡ false
      → EndsAfter o
      → EndsAfter (if a then some (p, t) else if b then some (q, u) else o)
  EndsAfter-if true b p q t u o k e m = k refl
  EndsAfter-if false true p q t u o k e m = absurd (ground (arith, e))
  EndsAfter-if false false p q t u o k e m = m

  handle_loop-Ends :
      (fuel : ℕ) (p : Bool) (s t : EState Coder)
      → s.mode ≡ finishing
      → Level B addr s t
      → EndsAfter (handle_loop B addr fuel p t)
  unfolding handle_loop
  handle_loop-Ends zero p s t f k = tt
  handle_loop-Ends (suc fuel) p s t f k =
      let t1 = output_turn B addr t.phase t in
      let t2 = input_turn B addr ((t1.2).phase) (t1.2) in
      let r = (only_finishing s.mode f).0 in
      let one = output_turn-Level B addr t.phase s t k in
      let two = input_turn-Level B addr ((t1.2).phase) s (t1.2) r one in
      EndsAfter-if t1.0 t2.0 (p || t1.1) (p || t1.1 || t2.1) (t1.2) (t2.2)
        (handle_loop B addr fuel (p || t1.1 || t2.1) (t2.2)) (output_turn-Ends t.phase s t f k)
        (input_turn-goes_on ((t1.2).phase) s (t1.2) f one)
        (handle_loop-Ends fuel (p || t1.1 || t2.1) s (t2.2) f two)

  -- With the announced input counted, handle_compress stops in the mode finishing only for want of
  -- room, or with nothing left.
  pub handle_compress-Ends :
      (s : EState Coder)
      → s.mode ≡ finishing
      → s.avail_in_expect ≡ length s.strm.next_in
      → EndsAfter (handle_compress B addr s)
  unfolding handle_compress
  handle_compress-Ends s f e =
      handle_loop-Ends (enough B addr s) false s s f (record { mode_same = refl; counted = e })
