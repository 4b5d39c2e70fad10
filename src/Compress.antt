-- ===== src/Compress.antt =====
-- The compression state machine of src/bzlib.c: copy_input_until_stop, copy_output_until_stop,
-- handle_compress and BZ2_bzCompress. `addr` is the address of the buffer in add_pair_to_block.
pub mod Types
pub mod Copy
pub mod Turns
pub mod Rounds
pub mod Progress
pub mod Level
pub mod Stops
pub mod End
mod Tests
use Types.{Code, run_ok, flush_ok, finish_ok, stream_end, sequence_error, param_error}
use Types.{Action, run, flush, finish, other, Mode, idle, running, flushing, finishing}
use Types.{Phase, output, input, Stream, Backend, EState, is_running, is_flushing, is_finishing}
use Types.{is_flush, is_finish, advance_in, advance_out, minimum}
use libqbz.Base.{
  ℕ, zero, suc, ◌+◌, ◌-◌, ◌*◌, ◌%◌, ◌^◌, List, [], ◌∷◌, ◌++◌, Bool, true, false, ◌&&◌,
}
use libqbz.Base.{◌||◌, not, Option, none, some, length, ltb, leb, ◌==◌, if◌then◌else◌, take, drop}
use libqbz.Crc.{finalise_crc}
use libqbz.Rle.{BlockState, nblock, add_char_to_block, flush_rl, isempty_rl, prepare_block}

module _ (B : Backend) (addr : ℕ) where
  open B use {Coder, compress_block, new_block, zbits}

  -- one byte into the block
  unfoldable pub absorb : EState Coder → ℕ → List ℕ → EState Coder
  absorb s c rest = record s { blk = add_char_to_block addr s.blk c; strm = advance_in s.strm rest }

  -- the first loop of copy_input_until_stop, on `next_in`; the flag is progress_in
  unfoldable pub copy_running : List ℕ → Bool → EState Coder → Bool × EState Coder
  copy_running [] progress s = (progress, s)
  copy_running (c ∷ rest) progress s =
      let more = copy_running rest true (absorb s c rest) in
      if leb s.nblock_max (nblock s.blk) then (progress, s) else more

  -- its second loop, which stops at the input that the call announced
  unfoldable pub copy_expected : List ℕ → Bool → EState Coder → Bool × EState Coder
  copy_expected [] progress s = (progress, s)
  copy_expected (c ∷ rest) progress s =
      let next = record (absorb s c rest) { avail_in_expect = s.avail_in_expect - 1 } in
      let more = copy_expected rest true next in
      if leb s.nblock_max (nblock s.blk) || s.avail_in_expect == 0 then (progress, s) else more

  -- copy_input_until_stop
  unfoldable pub copy_input_until_stop : EState Coder → Bool × EState Coder
  unfolding copy_running copy_expected
  copy_input_until_stop s =
      if is_running s.mode
      then copy_running s.strm.next_in false s
      else copy_expected s.strm.next_in false s

  -- numZ
  abbrev pub num_z : EState Coder → ℕ
  num_z s = length (zbits s.coder)

  -- copy_output_until_stop; `avail <= 0` is `numZ <= state_out_pos`
  unfoldable pub copy_output_until_stop : EState Coder → Bool × EState Coder
  copy_output_until_stop s =
      if leb (num_z s) s.state_out_pos || s.strm.avail_out == 0
      then (false, s)
      else let n = minimum (num_z s - s.state_out_pos) s.strm.avail_out in
        (
          true,
          record s {
            strm = advance_out s.strm (take n (drop s.state_out_pos (zbits s.coder))) n;
            state_out_pos = s.state_out_pos + n;
          },
        )

  -- prepare_new_block
  unfoldable pub prepare_new_block : EState Coder → EState Coder
  prepare_new_block s = record s {
    blk = prepare_block s.blk;
    coder = new_block s.coder;
    state_out_pos = 0;
  }

  -- the call of BZ2_compressBlock, which complements the CRC of a block that holds bytes
  unfoldable pub emit_block : EState Coder → Bool → EState Coder
  emit_block s last = record s {
    coder = compress_block s.coder s.blk last;
    blk = record (s.blk) {
      block_crc = if ltb 0 (nblock s.blk) then finalise_crc s.blk.block_crc else s.blk.block_crc;
    };
    phase = output;
  }

  -- a round of handle_compress, or half of one: whether to break, the progress and the state
  abbrev pub Turn : Type 0
  Turn = Bool × Bool × EState Coder

  -- `avail_in_expect == 0 && isempty_RL(s)`
  abbrev pub drained : EState Coder → Bool
  drained s = s.avail_in_expect == 0 && isempty_rl s.blk

  -- the branch `state == BZ_S_OUTPUT`
  unfoldable pub output_phase : EState Coder → Turn
  output_phase s =
      let (progress, s1) = copy_output_until_stop s in
      let s2 = record (prepare_new_block s1) { phase = input } in
      if ltb s1.state_out_pos (num_z s1)
      then (true, progress, s1)
      else if is_finishing s1.mode && drained s1
      then (true, progress, s1)
      else (is_flushing s2.mode && drained s2, progress, s2)

  -- the branch `state == BZ_S_INPUT`
  unfoldable pub input_phase : EState Coder → Turn
  input_phase s =
      let (progress, s1) = copy_input_until_stop s in
      if not (is_running s1.mode) && s1.avail_in_expect == 0
      then (
        false,
        progress,
        emit_block (record s1 { blk = flush_rl addr s1.blk }) (is_finishing s1.mode),
      )
      else if leb s1.nblock_max (nblock s1.blk)
      then (false, progress, emit_block s1 false)
      else (length s1.strm.next_in == 0, progress, s1)

  unfoldable pub output_turn : Phase → EState Coder → Turn
  output_turn output s = output_phase s
  output_turn input s = (false, false, s)

  unfoldable pub input_turn : Phase → EState Coder → Turn
  input_turn input s = input_phase s
  input_turn output s = (false, false, s)

  -- the loop of handle_compress; `none` means that the fuel ran out
  unfoldable pub handle_loop : ℕ → Bool → EState Coder → Option (Bool × EState Coder)
  handle_loop zero progress s = none
  handle_loop (suc fuel) progress s =
      let (stop1, p1, s1) = output_turn s.phase s in
      let (stop2, p2, s2) = input_turn s1.phase s1 in
      let rest = handle_loop fuel (progress || p1 || p2) s2 in
      if stop1
      then some (progress || p1, s1)
      else if stop2
      then some (progress || p1 || p2, s2)
      else rest

  -- Each round but the first and the last two takes a byte of input.
  abbrev pub enough : EState Coder → ℕ
  enough s = length s.strm.next_in + 3

  -- handle_compress
  unfoldable pub handle_compress : EState Coder → Option (Bool × EState Coder)
  handle_compress s = handle_loop (enough s) false s

  -- what a call returns, and the state after it
  abbrev pub Outcome : Type 0
  Outcome = Option (Code × EState Coder)

  -- `avail_in_expect > 0 || !isempty_RL(s) || state_out_pos < numZ`
  abbrev pub unfinished : EState Coder → Bool
  unfinished s = ltb 0 s.avail_in_expect || not (isempty_rl s.blk) || ltb s.state_out_pos (num_z s)

  unfoldable pub after_run : Option (Bool × EState Coder) → Outcome
  after_run none = none
  after_run (some (progress, s)) = some (if progress then run_ok else param_error, s)

  unfoldable pub after_flush : Option (Bool × EState Coder) → Outcome
  after_flush none = none
  after_flush (some (progress, s)) =
      some (if unfinished s then (flush_ok, s) else (run_ok, record s { mode = running }))

  unfoldable pub after_finish : Option (Bool × EState Coder) → Outcome
  after_finish none = none
  after_finish (some (progress, s)) = some (
      if not progress
      then (sequence_error, s)
      else if unfinished s
      then (finish_ok, s)
      else (stream_end, record s { mode = idle }))

  -- case BZ_M_FLUSHING
  unfoldable pub flushing_case : EState Coder → Action → Outcome
  flushing_case s action =
      if not (is_flush action)
      then some (sequence_error, s)
      else if not (s.avail_in_expect == length s.strm.next_in)
      then some (sequence_error, s)
      else after_flush (handle_compress s)

  -- case BZ_M_FINISHING
  unfoldable pub finishing_case : EState Coder → Action → Outcome
  finishing_case s action =
      if not (is_finish action)
      then some (sequence_error, s)
      else if not (s.avail_in_expect == length s.strm.next_in)
      then some (sequence_error, s)
      else after_finish (handle_compress s)

  -- what a call announces: the input that it has to take
  unfoldable pub announce : EState Coder → Mode → EState Coder
  announce s m = record s { avail_in_expect = length s.strm.next_in; mode = m }

  -- case BZ_M_RUNNING, with its two jumps back to the switch
  unfoldable pub running_case : EState Coder → Action → Outcome
  running_case s run = after_run (handle_compress s)
  running_case s flush = flushing_case (announce s flushing) flush
  running_case s finish = finishing_case (announce s finishing) finish
  running_case s other = some (param_error, s)

  pub mode_case : Mode → EState Coder → Action → Outcome
  mode_case idle s action = some (sequence_error, s)
  mode_case running s action = running_case s action
  mode_case flushing s action = flushing_case s action
  mode_case finishing s action = finishing_case s action

  -- BZ2_bzCompress, once the handle has been found good
  unfoldable pub bz_compress : EState Coder → Action → Outcome
  unfolding mode_case
  bz_compress s action = mode_case s.mode s action
