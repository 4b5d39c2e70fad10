-- ===== src/Compress/Types.antt =====
-- The state of a compression stream: `bz_stream` and the codes of include/bzlib.h, `EState` of
-- src/qbz2_internal.h, and the counters of a stream.
use libqbz.Base.{ℕ, ◌+◌, ◌-◌, ◌%◌, ◌^◌, List, ◌++◌, Bool, true, false, ltb, ◌==◌, if◌then◌else◌}
use libqbz.Rle.{BlockState}

-- what the functions return
pub data Code : Type 0 where
  ok run_ok flush_ok finish_ok stream_end : Code
  sequence_error param_error mem_error data_error data_error_magic io_error : Code
  unexpected_eof outbuff_full config_error : Code

-- BZ_RUN, BZ_FLUSH and BZ_FINISH; the other values of `action`
pub data Action : Type 0 where
  run flush finish other : Action

-- BZ_M_IDLE to BZ_M_FINISHING
pub data Mode : Type 0 where
  idle running flushing finishing : Mode

-- BZ_S_OUTPUT and BZ_S_INPUT
pub data Phase : Type 0 where
  output input : Phase

-- `next_in` holds the `avail_in` bytes left; `out` the bytes written through `next_out` so far.
pub record Stream : Type 0 where
  pub next_in : List ℕ
  pub total_in_lo32 : ℕ
  pub total_in_hi32 : ℕ
  pub out : List ℕ
  pub avail_out : ℕ
  pub total_out_lo32 : ℕ
  pub total_out_hi32 : ℕ

-- The block coder behind the state machine (BZ2_compressBlock and what it calls), by the names of
-- its operations: what it does to a block, `numZ = 0; blockNo++`, and the bytes `zbits[0..numZ)`.
pub record Backend : Type 1 where
  pub Coder : Type 0
  pub compress_block : Coder → BlockState → Bool → Coder
  pub new_block : Coder → Coder
  pub zbits : Coder → List ℕ

pub record EState (Z : Type 0) : Type 0 where
  pub strm : Stream
  pub mode : Mode
  pub phase : Phase
  pub avail_in_expect : ℕ
  pub blk : BlockState
  pub nblock_max : ℕ
  pub state_out_pos : ℕ
  pub coder : Z

abbrev pub is_running : Mode → Bool
is_running running = true
is_running _ = false

abbrev pub is_flushing : Mode → Bool
is_flushing flushing = true
is_flushing _ = false

abbrev pub is_finishing : Mode → Bool
is_finishing finishing = true
is_finishing _ = false

abbrev pub is_flush : Action → Bool
is_flush flush = true
is_flush _ = false

abbrev pub is_finish : Action → Bool
is_finish finish = true
is_finish _ = false

-- `next_in++; avail_in--; total_in_lo32++; if (total_in_lo32 == 0) total_in_hi32++`
unfoldable pub advance_in : Stream → List ℕ → Stream
advance_in t rest =
    let lo = (t.total_in_lo32 + 1) % 2 ^ 32 in
    record t {
      next_in = rest;
      total_in_lo32 = lo;
      total_in_hi32 = if lo == 0 then (t.total_in_hi32 + 1) % 2 ^ 32 else t.total_in_hi32;
    }

-- `out` grows by `n` bytes, with the counters
unfoldable pub advance_out : Stream → List ℕ → ℕ → Stream
advance_out t bytes n =
    let lo = (t.total_out_lo32 + n) % 2 ^ 32 in
    record t {
      out = t.out ++ bytes;
      avail_out = t.avail_out - n;
      total_out_lo32 = lo;
      total_out_hi32 =
          if ltb lo t.total_out_lo32 then (t.total_out_hi32 + 1) % 2 ^ 32 else t.total_out_hi32;
    }

abbrev pub minimum : ℕ → ℕ → ℕ
minimum a b = if ltb b a then b else a
