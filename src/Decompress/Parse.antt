-- ===== src/Decompress/Parse.antt =====
-- A call of BZ2_decompress: the locals restored, the loop of GET_BITS and the code after it until the
-- input runs out or the code returns, the locals saved, and at the end of a stream the whole bytes
-- that are still held given back.
use libqbz.Base.{ℕ, zero, suc, ◌+◌, ◌-◌, ◌*◌, ◌/◌, ◌%◌, ◌^◌, List, Bool, true, false}
use libqbz.Base.{length, drop, ltb, if◌then◌else◌}
use libqbz.Bits.Reader.{Reader, Fetch, got, starved, get_bits}
use libqbz.Compress.Types.{Code, stream_end}
use libqbz.Decompress.{bits_of, after}
use libqbz.Decompress.Types.{Label, DState, Locals, Saved, Step, goto, return, tables}
use libqbz.Decompress.Types.{zero_saved, restore, save_state, is_magic_1, is_idle}

-- Where the switch is left, with the locals: a RETURN(BZ_OK) for want of input, another RETURN, or the
-- end of the part modelled. `exhausted` means that the fuel ran out.
pub data Exit : Type 0 where
  starved_exit : DState → Locals → Reader → Exit
  return_exit : Code → DState → Locals → Reader → Exit
  tables_exit : DState → Locals → Reader → Exit
  exhausted : Exit

unfoldable pub on_step : (Label → DState → Locals → Reader → Exit) → Step → Reader → Exit
on_step more (goto l s v) r = more l s v r
on_step more (return c s v) r = return_exit c s v r
on_step more (tables s v) r = tables_exit s v r

unfoldable pub on_fetch :
    (ℕ → Bool) → (Label → DState → Locals → Reader → Exit) → Label → DState → Locals → Fetch → Exit
on_fetch alloc more l s v (got n r) = on_step more (after alloc l n s v) r
on_fetch alloc more l s v (starved r) = starved_exit s v r

-- `case lll: s->state = lll`, GET_BITS and what follows it
unfoldable pub parse_loop : (ℕ → Bool) → ℕ → Label → DState → Locals → Reader → Exit
parse_loop alloc zero l s v r = exhausted
parse_loop alloc (suc fuel) l s v r =
    on_fetch alloc (parse_loop alloc fuel) l (record s { state = l }) v (get_bits (bits_of l) r)

-- A round takes a digit at least (Decompress/Resume).
abbrev pub enough : Reader → ℕ
enough r = suc (r.bs_live + 8 * length r.next_in)

-- the switch, from the label `l` on
unfoldable pub switch : (ℕ → Bool) → Label → DState → Locals → Reader → Exit
switch alloc l s v r = parse_loop alloc (enough r) l s v r

-- The whole bytes that are held go back to the input, of which `given` is all that the call was given;
-- the digits of a part of a byte are dropped.
unfoldable pub give_back : List ℕ → Reader → Reader
give_back given r =
    let excess = r.bs_live / 8 in
    record {
      bs_buff = 0;
      bs_live = 0;
      next_in = drop (length given - (length r.next_in + excess)) given;
      total_in_lo32 = (r.total_in_lo32 + 2 ^ 32 - excess) % 2 ^ 32;
      total_in_hi32 =
          if ltb r.total_in_lo32 excess
          then (r.total_in_hi32 + 2 ^ 32 - 1) % 2 ^ 32
          else r.total_in_hi32;
    }

-- What a call comes to: BZ_OK for want of input; another code; the tables, inside the call; a failed
-- assertion; or the end of the fuel.
pub data Outcome : Type 0 where
  waiting : DState → Saved → Reader → Outcome
  stopped : Code → DState → Saved → Reader → Outcome
  at_tables : DState → Locals → Reader → Outcome
  asserted : Outcome
  spent : Outcome

abbrev pub is_stream_end : Code → Bool
is_stream_end stream_end = true
is_stream_end _ = false

-- save_state_and_return
unfoldable pub leave : List ℕ → Exit → Outcome
leave given (starved_exit s v r) = waiting s (save_state v) r
leave given (return_exit c s v r) =
    stopped c s (save_state v) (if is_stream_end c then give_back given r else r)
leave given (tables_exit s v r) = at_tables s v r
leave given exhausted = spent

-- the save area as the call finds it, zeroed in the first call of a stream
abbrev pub entered : Label → Saved → Saved
entered l w = if is_magic_1 l then zero_saved else w

-- BZ2_decompress; AssertH fails in a state that has no case
unfoldable pub parse : (ℕ → Bool) → DState → Saved → Reader → Outcome
parse alloc s w r =
    if is_idle s.state
    then asserted
    else leave r.next_in (switch alloc s.state s (restore (entered s.state w)) r)
