-- ===== src/Compress/Progress.antt =====
-- handle_compress and BZ2_bzCompress return.
use libqbz.Base.{ℕ, ◌≤◌, Bool, true, false, arith}
use libqbz.Base.{◌≡◌, refl, ap, ◌⊎◌, inl, inr, Option, none, some, length}
use libqbz.Base.{◌==◌, if◌then◌else◌, not}
use libqbz.Compress.{handle_compress, after_run}
use libqbz.Compress.{
  after_flush, after_finish, flushing_case, finishing_case, running_case, mode_case,
}
use libqbz.Compress.{bz_compress, announce}
use libqbz.Compress.Types.{
  Backend, EState, Phase, output, input, Mode, idle, running, flushing, finishing,
}
use libqbz.Compress.Types.{Action, run, flush, finish, other, sequence_error, is_flush, is_finish}
use libqbz.Compress.Turns.{is_live}
use libqbz.Compress.Rounds.{is_some, is_some-if, loop-ends, input-ends}

module _ (B : Backend) (addr : ℕ) where
  open B use {Coder}

  phase_cases : (x : Phase) → (x ≡ output) ⊎ (x ≡ input)
  phase_cases output = inl refl
  phase_cases input = inr refl

  handle_compress-Returns :
      (s : EState Coder)
      → is_live s.mode ≡ true
      → 1 ≤ s.nblock_max
      → is_some (handle_compress B addr s) ≡ true
  unfolding handle_compress
  handle_compress-Returns s live big = elim (phase_cases s.phase) [
    | inl e ↦ loop-ends B addr _ false s e live big (inr (omega arith))
    | inr e ↦ input-ends B addr _ false s e live big (omega arith)
  ]

  after_run-Returns :
      (o : Option (Bool × EState Coder)) → is_some o ≡ true → is_some (after_run B addr o) ≡ true
  unfolding after_run
  after_run-Returns none h = h
  after_run-Returns (some x) h = refl

  after_flush-Returns :
      (o : Option (Bool × EState Coder)) → is_some o ≡ true → is_some (after_flush B addr o) ≡ true
  unfolding after_flush
  after_flush-Returns none h = h
  after_flush-Returns (some x) h = refl

  after_finish-Returns :
      (o : Option (Bool × EState Coder)) → is_some o ≡ true → is_some (after_finish B addr o) ≡ true
  unfolding after_finish
  after_finish-Returns none h = h
  after_finish-Returns (some x) h = refl

  is_some-guard :
      {A : Type 0} (a b : Bool) (x y : A) (o : Option A)
      → is_some o ≡ true
      → is_some (if a then some x else if b then some y else o) ≡ true
  is_some-guard a b x y o h = is_some-if a b x y o (inr (inr h))

  flushing-Returns :
      (s : EState Coder) (a : Action)
      → is_live s.mode ≡ true
      → 1 ≤ s.nblock_max
      → is_some (flushing_case B addr s a) ≡ true
  unfolding flushing_case
  flushing-Returns s a live big =
      is_some-guard (not (is_flush a)) (not (s.avail_in_expect == length s.strm.next_in))
        (sequence_error, s) (sequence_error, s) _
        (after_flush-Returns _ (handle_compress-Returns s live big))

  finishing-Returns :
      (s : EState Coder) (a : Action)
      → is_live s.mode ≡ true
      → 1 ≤ s.nblock_max
      → is_some (finishing_case B addr s a) ≡ true
  unfolding finishing_case
  finishing-Returns s a live big =
      is_some-guard (not (is_finish a)) (not (s.avail_in_expect == length s.strm.next_in))
        (sequence_error, s) (sequence_error, s) _
        (after_finish-Returns _ (handle_compress-Returns s live big))

  running-Returns :
      (s : EState Coder) (a : Action)
      → is_live s.mode ≡ true
      → 1 ≤ s.nblock_max
      → is_some (running_case B addr s a) ≡ true
  unfolding running_case announce
  running-Returns s run live big = after_run-Returns _ (handle_compress-Returns s live big)
  running-Returns s flush live big = flushing-Returns _ flush refl big
  running-Returns s finish live big = finishing-Returns _ finish refl big
  running-Returns s other live big = refl

  mode-Returns :
      (m : Mode) (s : EState Coder) (a : Action)
      → s.mode ≡ m
      → 1 ≤ s.nblock_max
      → is_some (mode_case B addr m s a) ≡ true
  unfolding mode_case
  mode-Returns idle s a e big = refl
  mode-Returns running s a e big = running-Returns s a (ap is_live e) big
  mode-Returns flushing s a e big = flushing-Returns s a (ap is_live e) big
  mode-Returns finishing s a e big = finishing-Returns s a (ap is_live e) big

  -- Where a block holds at least one byte, BZ2_bzCompress returns for every action, in every state
  -- and with every block coder: the rounds given to the loop of handle_compress are enough.
  pub bz_compress-Returns :
      (s : EState Coder) (a : Action) → 1 ≤ s.nblock_max → is_some (bz_compress B addr s a) ≡ true
  unfolding bz_compress
  bz_compress-Returns s a big = mode-Returns s.mode s a refl big
