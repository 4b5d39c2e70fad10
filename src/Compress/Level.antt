-- ===== src/Compress/Level.antt =====
-- The announced input: outside the mode running, `avail_in_expect` counts what is left of it.
use libqbz.Base.{ℕ, zero, suc, ◌-◌, List, [], ◌∷◌, Bool, true, false, arith}
use libqbz.Base.{◌≡◌, refl, sym, ap, ◌∙◌, inl, inr, Option, none, some, length, ltb, leb}
use libqbz.Base.{◌==◌, Bool-cases, ◌||◌, ◌&&◌, not, if◌then◌else◌}
use libqbz.Rle.{nblock}
use libqbz.Compress.{absorb, copy_expected, copy_input_until_stop, copy_output_until_stop}
use libqbz.Compress.{num_z, emit_block, prepare_new_block, drained, output_phase, input_phase}
use libqbz.Compress.{output_turn, input_turn, handle_loop, handle_compress, enough}
use libqbz.Compress.Types.{Backend, EState, Phase, output, input, is_running, is_finishing}
use libqbz.Compress.Types.{advance_in}
use libqbz.Compress.Turns.{copy_output-Kept}

module _ (B : Backend) (addr : ℕ) where
  open B use {Coder}

  -- The stream is in the mode of `s`, and what is left is what it still has to take.
  pub record Level (s t : EState Coder) : Type 0 where
    pub mode_same : t.mode ≡ s.mode
    pub counted : t.avail_in_expect ≡ length t.strm.next_in

  copy_expected-Level :
      (xs : List ℕ) (p : Bool) (s t : EState Coder)
      → t.strm.next_in ≡ xs
      → Level s t
      → Level s (copy_expected B addr xs p t).1
  unfolding copy_expected
  copy_expected-Level [] p s t e k = k
  copy_expected-Level (c ∷ rest) p s t e k =
      elim (Bool-cases (leb t.nblock_max (nblock t.blk) || t.avail_in_expect == 0)) [
        | inl h ↦ rw h k
        | inr h ↦ rw h (
            copy_expected-Level rest true s
              (record (absorb B addr t c rest) { avail_in_expect = t.avail_in_expect - 1 })
              (unfold absorb advance_in in refl)
              (unfold absorb advance_in in
                record {
                  mode_same = k.mode_same;
                  counted = omega (arith, k.counted, ap length e);
                }))
      ]

  pub copy_input-Level :
      (s t : EState Coder)
      → is_running s.mode ≡ false
      → Level s t
      → Level s (copy_input_until_stop B addr t).1
  unfolding copy_input_until_stop
  copy_input-Level s t r k =
      rw (ap is_running k.mode_same ∙ r) (copy_expected-Level t.strm.next_in false s t refl k)

  input_phase-Level :
      (s t : EState Coder)
      → is_running s.mode ≡ false
      → Level s t
      → Level s (input_phase B addr t).2
  unfolding input_phase emit_block
  input_phase-Level s t r k =
      let u = (copy_input_until_stop B addr t).1 in
      let l = copy_input-Level s t r k in
      elim (Bool-cases (not (is_running u.mode) && u.avail_in_expect == 0)) [
        | inl h ↦ rw h (record { mode_same = l.mode_same; counted = l.counted })
        | inr h ↦ elim (Bool-cases (leb u.nblock_max (nblock u.blk))) [
          | inl g ↦ rw h (rw g (record { mode_same = l.mode_same; counted = l.counted }))
          | inr g ↦ rw h (rw g l)
        ]
      ]

  copy_output-Level : (s t : EState Coder) → Level s t → Level s (copy_output_until_stop B addr t).1
  copy_output-Level s t k =
      let o = copy_output-Kept B addr t in
      record {
        mode_same = o.mode_same ∙ k.mode_same;
        counted = o.expect_same ∙ k.counted ∙ ap length (sym o.in_same);
      }

  output_phase-Level : (s t : EState Coder) → Level s t → Level s (output_phase B addr t).2
  unfolding output_phase prepare_new_block
  output_phase-Level s t k =
      let u = (copy_output_until_stop B addr t).1 in
      let l = copy_output-Level s t k in
      elim (Bool-cases (ltb u.state_out_pos (num_z B addr u))) [
        | inl h ↦ rw h l
        | inr h ↦ elim (Bool-cases (is_finishing u.mode && drained B addr u)) [
          | inl g ↦ rw h (rw g l)
          | inr g ↦ rw h (rw g (record { mode_same = l.mode_same; counted = l.counted }))
        ]
      ]

  pub output_turn-Level :
      (p : Phase) (s t : EState Coder) → Level s t → Level s (output_turn B addr p t).2
  unfolding output_turn
  output_turn-Level output s t k = output_phase-Level s t k
  output_turn-Level input s t k = k

  pub input_turn-Level :
      (p : Phase) (s t : EState Coder)
      → is_running s.mode ≡ false
      → Level s t
      → Level s (input_turn B addr p t).2
  unfolding input_turn
  input_turn-Level output s t r k = k
  input_turn-Level input s t r k = input_phase-Level s t r k

  abbrev pub LevelAfter : EState Coder → Option (Bool × EState Coder) → Type 0
  LevelAfter s none = Unit
  LevelAfter s (some (p, t)) = Level s t

  LevelAfter-if :
      (a b p q : Bool) (s t u : EState Coder) (o : Option (Bool × EState Coder))
      → Level s t
      → Level s u
      → LevelAfter s o
      → LevelAfter s (if a then some (p, t) else if b then some (q, u) else o)
  LevelAfter-if true b p q s t u o k l m = k
  LevelAfter-if false true p q s t u o k l m = l
  LevelAfter-if false false p q s t u o k l m = m

  handle_loop-Level :
      (fuel : ℕ) (p : Bool) (s t : EState Coder)
      → is_running s.mode ≡ false
      → Level s t
      → LevelAfter s (handle_loop B addr fuel p t)
  unfolding handle_loop
  handle_loop-Level zero p s t r k = tt
  handle_loop-Level (suc fuel) p s t r k =
      let t1 = output_turn B addr t.phase t in
      let t2 = input_turn B addr ((t1.2).phase) (t1.2) in
      let one = output_turn-Level t.phase s t k in
      let two = input_turn-Level ((t1.2).phase) s (t1.2) r one in
      LevelAfter-if t1.0 t2.0 (p || t1.1) (p || t1.1 || t2.1) s (t1.2) (t2.2)
        (handle_loop B addr fuel (p || t1.1 || t2.1) (t2.2)) one two
        (handle_loop-Level fuel (p || t1.1 || t2.1) s (t2.2) r two)

  -- handle_compress keeps the mode and the count of what is left, outside the mode running.
  pub handle_compress-Level :
      (s : EState Coder)
      → is_running s.mode ≡ false
      → s.avail_in_expect ≡ length s.strm.next_in
      → LevelAfter s (handle_compress B addr s)
  unfolding handle_compress
  handle_compress-Level s r e =
      handle_loop-Level (enough B addr s) false s s r (record { mode_same = refl; counted = e })
