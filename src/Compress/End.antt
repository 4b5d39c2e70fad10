-- ===== src/Compress/End.antt =====
-- What the codes of BZ2_bzCompress tell the caller.
use libqbz.Base.{ℕ, ◌≤◌, ◌≡◌, refl, sym, ap, ◌∙◌, List, [], ◌∷◌, length, ◌==◌, ==_iff}
use libqbz.Base.{Bool, true, false, Option, none, some, arith, Bool-cases, inl, inr}
use libqbz.Base.{ltb, ◌&&◌, ◌||◌, not, if◌then◌else◌}
use libqbz.Rle.{isempty_rl}
use libqbz.Compress.{
  num_z, Outcome, unfinished, after_run, after_flush, after_finish, handle_compress,
}
use libqbz.Compress.{flushing_case, finishing_case, running_case, mode_case, bz_compress, announce}
use libqbz.Compress.Types.{Backend, EState, Mode, idle, running, flushing, finishing, Action}
use libqbz.Compress.Types.{run, flush, finish, other, stream_end, run_ok, finish_ok}
use libqbz.Compress.Types.{sequence_error, is_running}
use libqbz.Compress.Level.{Level, LevelAfter, handle_compress-Level}
use libqbz.Compress.Stops.{Ends, EndsAfter, handle_compress-Ends}

nothing_left : (xs : List ℕ) → 0 ≡ length xs → xs ≡ []
nothing_left [] e = refl
nothing_left (x ∷ xs) e = absurd (omega (arith, e))

module _ (B : Backend) (addr : ℕ) where
  open B use {Coder}

  -- In the mode `m` with nothing left to take, to write into a block or to hand out.
  pub record IsOver (m : Mode) (t : EState Coder) : Type 0 where
    pub mode_is : t.mode ≡ m
    pub all_taken : t.strm.next_in ≡ []
    pub no_run : isempty_rl t.blk ≡ true
    pub all_out : num_z B addr t ≤ t.state_out_pos

  -- What the codes say, by the action.
  abbrev pub Tells : Action → Outcome B addr → Type 0
  Tells a none = Unit
  Tells finish (some (stream_end, t)) = IsOver idle t
  Tells finish (some (finish_ok, t)) = (t.mode ≡ finishing) × (t.strm.avail_out ≡ 0)
  Tells flush (some (run_ok, t)) = IsOver running t
  Tells flush (some (stream_end, t)) = ⊥
  Tells run (some (stream_end, t)) = ⊥
  Tells other (some (stream_end, t)) = ⊥
  Tells a (some (c, t)) = Unit

  done :
      (a b z : ℕ) (e : Bool)
      → (ltb 0 a || not e || ltb b z) ≡ false
      → (a ≡ 0) × (e ≡ true) × (z ≤ b)
  done a b z e h = ground arith

  over :
      (m : Mode) (s t : EState Coder)
      → Level B addr s t
      → unfinished B addr t ≡ false
      → IsOver m (record t { mode = m })
  over m s t l e =
      let d = done t.avail_in_expect t.state_out_pos (num_z B addr t) (isempty_rl t.blk) e in
      record {
        mode_is = refl;
        all_taken = nothing_left t.strm.next_in (sym d.0 ∙ l.counted);
        no_run = d.1;
        all_out = d.2;
      }

  run-Tells : (o : Option (Bool × EState Coder)) → Tells run (after_run B addr o)
  unfolding after_run
  run-Tells none = tt
  run-Tells (some (true, s)) = tt
  run-Tells (some (false, s)) = tt

  flush-Tells :
      (s : EState Coder) (o : Option (Bool × EState Coder))
      → LevelAfter B addr s o
      → Tells flush (after_flush B addr o)
  unfolding after_flush
  flush-Tells s none l = tt
  flush-Tells s (some (p, t)) l = elim (Bool-cases (unfinished B addr t)) [
    | inl e ↦ rw e tt
    | inr e ↦ rw e (over running s t l e)
  ]

  -- What the loop leaves is unfinished only for want of room.
  no_room : (t : EState Coder) → Ends B addr t → unfinished B addr t ≡ true → t.strm.avail_out ≡ 0
  no_room t (inl h) e = h.0
  no_room t (inr h) e =
      absurd (
        not_done t.avail_in_expect t.state_out_pos (num_z B addr t) (isempty_rl t.blk) (h.0) (h.1)
          e)
    where
      not_done :
          (a b z : ℕ) (e : Bool)
          → (a == 0 && e) ≡ true
          → z ≤ b
          → (ltb 0 a || not e || ltb b z) ≡ true
          → ⊥
      not_done a b z e d l u = absurd (ground (arith, d, l, u))

  finish-Tells :
      (s : EState Coder) (o : Option (Bool × EState Coder))
      → s.mode ≡ finishing
      → LevelAfter B addr s o
      → EndsAfter B addr o
      → Tells finish (after_finish B addr o)
  unfolding after_finish
  finish-Tells s none f l k = tt
  finish-Tells s (some (false, t)) f l k = tt
  finish-Tells s (some (true, t)) f l k = elim (Bool-cases (unfinished B addr t)) [
    | inl e ↦ rw e (l.mode_same ∙ f, no_room t k e)
    | inr e ↦ rw e (over idle s t l e)
  ]

  refused-Tells : (a : Action) (s : EState Coder) → Tells a (some (sequence_error, s))
  refused-Tells run s = tt
  refused-Tells flush s = tt
  refused-Tells finish s = tt
  refused-Tells other s = tt

  guarded-Tells :
      (a : Action) (n m : ℕ) (s : EState Coder) (o : Outcome B addr)
      → (n ≡ m → Tells a o)
      → Tells a (if not (n == m) then some (sequence_error, s) else o)
  guarded-Tells a n m s o h = elim (Bool-cases (n == m)) [
    | inl e ↦ rw e (h ((==_iff n m).0 e))
    | inr e ↦ rw e (refused-Tells a s)
  ]

  flushing-Tells :
      (s : EState Coder) (a : Action) → s.mode ≡ flushing → Tells a (flushing_case B addr s a)
  unfolding flushing_case
  flushing-Tells s flush f = guarded-Tells flush s.avail_in_expect (length s.strm.next_in) s _ (λ e.
      flush-Tells s (handle_compress B addr s) (handle_compress-Level B addr s (ap is_running f) e))
  flushing-Tells s run f = tt
  flushing-Tells s finish f = tt
  flushing-Tells s other f = tt

  finishing-Tells :
      (s : EState Coder) (a : Action) → s.mode ≡ finishing → Tells a (finishing_case B addr s a)
  unfolding finishing_case
  finishing-Tells s finish f =
      guarded-Tells finish s.avail_in_expect (length s.strm.next_in) s _ (λ e.
        finish-Tells s (handle_compress B addr s) f
          (handle_compress-Level B addr s (ap is_running f) e) (handle_compress-Ends B addr s f e))
  finishing-Tells s run f = tt
  finishing-Tells s flush f = tt
  finishing-Tells s other f = tt

  running-Tells : (s : EState Coder) (a : Action) → Tells a (running_case B addr s a)
  unfolding running_case announce
  running-Tells s run = run-Tells (handle_compress B addr s)
  running-Tells s flush = flushing-Tells _ flush refl
  running-Tells s finish = finishing-Tells _ finish refl
  running-Tells s other = tt

  mode-Tells :
      (m : Mode) (s : EState Coder) (a : Action) → s.mode ≡ m → Tells a (mode_case B addr m s a)
  unfolding mode_case
  mode-Tells idle s a e = refused-Tells a s
  mode-Tells running s a e = running-Tells s a
  mode-Tells flushing s a e = flushing-Tells s a e
  mode-Tells finishing s a e = finishing-Tells s a e

  -- With every block coder, in every mode: BZ2_bzCompress returns BZ_STREAM_END only for BZ_FINISH,
  -- with the mode idle, all the input of the call taken, no run pending and all bytes of the block
  -- handed out. For BZ_FLUSH, BZ_RUN_OK tells the same, with the mode running. BZ_FINISH_OK for
  -- BZ_FINISH tells that the room for output is used up and the mode is finishing.
  pub bz_compress-Tells : (s : EState Coder) (a : Action) → Tells a (bz_compress B addr s a)
  unfolding bz_compress
  bz_compress-Tells s a = mode-Tells s.mode s a refl
