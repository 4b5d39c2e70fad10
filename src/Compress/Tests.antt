-- ===== src/Compress/Tests.antt =====
-- A run of the state machine with a block coder that hands out the bytes of the block.
use libqbz.Base.{ℕ, ◌≡◌, refl, arith, List, [], ◌∷◌, ◌++◌, true, false, Option, some, none}
use libqbz.Rle.{BlockState, init_rl, prepare_block, add_char_to_block, add_pair_to_block, flush_rl}
use libqbz.Rle.{isempty_rl, run_bytes}
use libqbz.Compress.{
  bz_compress, mode_case, running_case, finishing_case, handle_compress, handle_loop,
}
use libqbz.Compress.{output_turn, input_turn, output_phase, input_phase, copy_input_until_stop}
use libqbz.Compress.{copy_output_until_stop, copy_expected, copy_running, absorb, emit_block}
use libqbz.Compress.{prepare_new_block, after_finish, announce}
use libqbz.Compress.Types.{Backend, EState, Stream, Code, stream_end, finish, running, input}
use libqbz.Compress.Types.{advance_in, advance_out}
use libqbz.Compress.Rounds.{is_some}
use libqbz.Compress.End.{Tells, bz_compress-Tells}
use libqbz.Compress.Progress.{bz_compress-Returns}

abbrev plain : Backend
plain = record {
  Coder = List ℕ;
  compress_block = λ z b last. z ++ b.block;
  new_block = λ z. [];
  zbits = λ z. z;
}

abbrev strm : Stream
strm = record {
  next_in = 97 ∷ 97 ∷ 98 ∷ [];
  total_in_lo32 = 0;
  total_in_hi32 = 0;
  out = [];
  avail_out = 100;
  total_out_lo32 = 0;
  total_out_hi32 = 0;
}

abbrev blank : BlockState
blank = prepare_block (
    init_rl (record {
      state_in_ch = 256;
      state_in_len = 0;
      block = [];
      in_use = λ i. false;
      block_crc = 0;
    }))

abbrev opened : EState (List ℕ)
opened = record {
  strm = strm;
  mode = running;
  phase = input;
  avail_in_expect = 0;
  blk = blank;
  nblock_max = 2;
  state_out_pos = 0;
  coder = [];
}

-- the code and the output of a call
abbrev answer : Option (Code × EState (List ℕ)) → Option (Code × List ℕ)
answer none = none
answer (some (c, s)) = some (c, s.strm.out)

finished : answer (bz_compress plain 0 opened finish) ≡ some (stream_end, 97 ∷ 97 ∷ 98 ∷ [])
unfolding bz_compress mode_case running_case finishing_case handle_compress handle_loop output_turn
    input_turn output_phase input_phase copy_input_until_stop copy_output_until_stop copy_expected
    copy_running absorb emit_block prepare_new_block after_finish announce advance_in advance_out
    add_char_to_block add_pair_to_block flush_rl init_rl prepare_block isempty_rl run_bytes
finished = refl

bz_compress-Returns_example : is_some (bz_compress plain 0 opened finish) ≡ true
bz_compress-Returns_example = bz_compress-Returns plain 0 opened finish (omega arith)

bz_compress-Tells_example : Tells plain 0 finish (bz_compress plain 0 opened finish)
bz_compress-Tells_example = bz_compress-Tells plain 0 opened finish
