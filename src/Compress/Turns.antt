-- ===== src/Compress/Turns.antt =====
-- What a round of handle_compress leaves, where the loop goes on.
use libqbz.Base.{ℕ, ◌≤◌, ◌<◌, Bool, true, false, arith}
use libqbz.Base.{◌≡◌, refl, sym, ap, ◌∙◌, ◌⊎◌, inl, inr, length, ltb, leb}
use libqbz.Base.{◌==◌, Bool-cases, ◌||◌, ◌&&◌, not}
use libqbz.Rle.{nblock, flush_rl, isempty_rl, prepare_block, init_rl}
use libqbz.Rle.Absorb.{nblock-prepare_block}
use libqbz.Compress.{copy_input_until_stop, num_z, emit_block}
use libqbz.Compress.{copy_output_until_stop, prepare_new_block, drained, output_phase, input_phase}
use libqbz.Compress.Types.{Backend, EState, output, input, Mode, idle, running, flushing, finishing}
use libqbz.Compress.Types.{is_running, is_flushing, is_finishing, advance_out}
use libqbz.Compress.Copy.{Takes, copy_input-Takes, copy_input-ended}

-- the modes in which the loop is entered
abbrev pub is_live : Mode → Bool
is_live idle = false
is_live _ = true

and_not : (a b : Bool) → (not a && b) ≡ true → (a ≡ false) × (b ≡ true)
and_not a b h = ground arith

not_ended : (a b c : Bool) → a ≡ false → b ≡ false → c ≡ false → (a || b || c) ≡ true → ⊥
not_ended a b c ea eb ec h = ground arith

leb_le : (a b : ℕ) → leb a b ≡ true → a ≤ b
leb_le a b h = ground arith

busy_of :
    (m : Mode) (d : Bool)
    → is_live m ≡ true
    → (is_finishing m && d) ≡ false
    → (is_flushing m && d) ≡ false
    → (is_running m ≡ true) ⊎ (d ≡ false)
busy_of running d l h g = inl refl
busy_of flushing d l h g = inr g
busy_of finishing d l h g = inr h
busy_of idle d l h g = absurd (ground (arith, l))

module _ (B : Backend) (addr : ℕ) where
  open B use {Coder}

  fewer_left :
      (s t : EState Coder)
      → Takes B addr s t
      → leb t.nblock_max (nblock t.blk) ≡ true
      → nblock s.blk < s.nblock_max
      → length t.strm.next_in < length s.strm.next_in
  fewer_left s t k g small = elim (k.fewer) [
    | inl e ↦ absurd (omega (arith, leb_le _ _ g, e, k.max_same, small))
    | inr l ↦ l
  ]

  -- what the branch for input leaves, where the loop goes on
  pub record Filled (s t : EState Coder) : Type 0 where
    pub phase_is : t.phase ≡ output
    pub mode_same : t.mode ≡ s.mode
    pub max_same : t.nblock_max ≡ s.nblock_max
    pub next :
        ((is_running t.mode ≡ false) × (drained B addr t ≡ true))
        ⊎ ((nblock s.blk < s.nblock_max → length t.strm.next_in < length s.strm.next_in)
            × (length t.strm.next_in ≤ length s.strm.next_in))

  drained_flush :
      (s : EState Coder) (last : Bool)
      → (s.avail_in_expect == 0) ≡ true
      → drained B addr (emit_block B addr (record s { blk = flush_rl addr s.blk }) last) ≡ true
  unfolding emit_block isempty_rl flush_rl init_rl
  drained_flush s last e = rw e refl

  pub input_phase-Filled :
      (s : EState Coder) → ((input_phase B addr s).0 ≡ true) ⊎ Filled s (input_phase B addr s).2
  unfolding input_phase emit_block
  input_phase-Filled s =
      let t = (copy_input_until_stop B addr s).1 in
      let k = copy_input-Takes B addr s in
      elim (Bool-cases (not (is_running t.mode) && t.avail_in_expect == 0)) [
        | inl h ↦ rw h (
            inr (record {
              phase_is = refl;
              mode_same = k.mode_same;
              max_same = k.max_same;
              next =
                  inl ((and_not _ _ h).0, drained_flush t (is_finishing t.mode) (and_not _ _ h).1);
            }))
        | inr h ↦ elim (Bool-cases (leb t.nblock_max (nblock t.blk))) [
          | inl g ↦ rw h (
              rw g (
                inr (record {
                  phase_is = refl;
                  mode_same = k.mode_same;
                  max_same = k.max_same;
                  next = inr (λ small. fewer_left s t k g small, k.at_most);
                })))
          | inr g ↦ elim (Bool-cases (length t.strm.next_in == 0)) [
            | inl l ↦ rw h (rw g (inl l))
            | inr l ↦ absurd (not_ended _ _ _ g l h (copy_input-ended B addr s))
          ]
        ]
      ]

  -- what copying output leaves alone
  pub record Kept (s t : EState Coder) : Type 0 where
    pub mode_same : t.mode ≡ s.mode
    pub max_same : t.nblock_max ≡ s.nblock_max
    pub blk_same : t.blk ≡ s.blk
    pub expect_same : t.avail_in_expect ≡ s.avail_in_expect
    pub in_same : t.strm.next_in ≡ s.strm.next_in

  pub copy_output-Kept : (s : EState Coder) → Kept s (copy_output_until_stop B addr s).1
  unfolding copy_output_until_stop advance_out
  copy_output-Kept s =
      elim (Bool-cases (leb (num_z B addr s) s.state_out_pos || s.strm.avail_out == 0)) [
        | inl h ↦ rw h (record {
          mode_same = refl;
          max_same = refl;
          blk_same = refl;
          expect_same = refl;
          in_same = refl;
        })
        | inr h ↦ rw h (record {
          mode_same = refl;
          max_same = refl;
          blk_same = refl;
          expect_same = refl;
          in_same = refl;
        })
      ]

  -- what the branch for output leaves, where the loop goes on
  pub record Renewed (s t : EState Coder) : Type 0 where
    pub phase_is : t.phase ≡ input
    pub mode_same : t.mode ≡ s.mode
    pub max_same : t.nblock_max ≡ s.nblock_max
    pub empty : nblock t.blk ≡ 0
    pub in_same : t.strm.next_in ≡ s.strm.next_in
    pub busy : (is_running s.mode ≡ true) ⊎ (drained B addr s ≡ false)

  drained_same : (s t : EState Coder) → Kept s t → drained B addr t ≡ drained B addr s
  drained_same s t k = λ i. (k.expect_same i == 0) && isempty_rl (k.blk_same i)

  renewed_drained :
      (s : EState Coder)
      → drained B addr (record (prepare_new_block B addr s) { phase = input }) ≡ drained B addr s
  unfolding prepare_new_block prepare_block isempty_rl
  renewed_drained s = refl

  renewed :
      (s t : EState Coder)
      → Kept s t
      → is_live s.mode ≡ true
      → (is_finishing t.mode && drained B addr t) ≡ false
      → (is_flushing (record (prepare_new_block B addr t) { phase = input }).mode
          && drained B addr (record (prepare_new_block B addr t) { phase = input }))
        ≡ false
      → Renewed s (record (prepare_new_block B addr t) { phase = input })
  unfolding prepare_new_block
  renewed s t k live g l = record {
    phase_is = refl;
    mode_same = k.mode_same;
    max_same = k.max_same;
    empty = nblock-prepare_block t.blk;
    in_same = k.in_same;
    busy =
        busy_of s.mode (drained B addr s) live
          (sym (λ i. is_finishing (k.mode_same i) && drained_same s t k i) ∙ g)
          (sym (λ i. is_flushing (k.mode_same i) && drained_same s t k i)
            ∙ ap (λ d. is_flushing t.mode && d) (sym (renewed_drained t))
            ∙ l);
  }

  pub output_phase-Renewed :
      (s : EState Coder)
      → is_live s.mode ≡ true
      → ((output_phase B addr s).0 ≡ true) ⊎ Renewed s (output_phase B addr s).2
  unfolding output_phase
  output_phase-Renewed s live =
      let t = (copy_output_until_stop B addr s).1 in
      let k = copy_output-Kept s in
      let u = record (prepare_new_block B addr t) { phase = input } in
      elim (Bool-cases (ltb t.state_out_pos (num_z B addr t))) [
        | inl h ↦ rw h (inl refl)
        | inr h ↦ elim (Bool-cases (is_finishing t.mode && drained B addr t)) [
          | inl g ↦ rw h (rw g (inl refl))
          | inr g ↦ elim (Bool-cases (is_flushing u.mode && drained B addr u)) [
            | inl l ↦ rw h (rw g (inl l))
            | inr l ↦ rw h (rw g (inr (renewed s t k live g l)))
          ]
        ]
      ]
