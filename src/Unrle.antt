-- ===== src/Unrle.antt =====
-- The output of a block in src/bzlib.c: unRLE_obuf_to_output_FAST and unRLE_obuf_to_output_SMALL. Of
-- the four loops, three are one text with different macros for the next byte (BZ_GET_FAST or
-- BZ_GET_SMALL, with the randomisation or without): `slow_loop`. The loop of
-- unRLE_obuf_to_output_FAST for a block that is not randomised, on cached variables, is `fast_loop`.
-- The macro is the parameter `get_byte`, which answers `none` where it returns True.
pub mod Decode
pub mod Runs
pub mod Pours
pub mod Slow
pub mod Fast
pub mod FastLoop
pub mod Same
pub mod Done
mod Tests
use libqbz.Base.{ℕ, zero, suc, ◌+◌, ◌-◌, ◌*◌, ◌%◌, ◌^◌, List, [], ◌∷◌, ◌++◌, replicate}
use libqbz.Base.{Option, some, none, not, ◌||◌, ltb, ◌==◌, if◌then◌else◌}
use libqbz.Crc.{update_crc, crc32_update}

-- where the bytes go; `out` holds the bytes written through `next_out` so far
pub record Sink : Type 0 where
  pub avail_out : ℕ
  pub out : List ℕ
  pub calculated_block_crc : ℕ
  pub total_out_lo32 : ℕ
  pub total_out_hi32 : ℕ

-- the body of the loop that drains a run, but for `state_out_len--`
unfoldable pub put_byte : ℕ → Sink → Sink
put_byte ch k =
    let lo = (k.total_out_lo32 + 1) % 2 ^ 32 in
    record {
      avail_out = k.avail_out - 1;
      out = k.out ++ ch ∷ [];
      calculated_block_crc = update_crc k.calculated_block_crc ch;
      total_out_lo32 = lo;
      total_out_hi32 = if lo == 0 then (k.total_out_hi32 + 1) % 2 ^ 32 else k.total_out_hi32;
    }

-- that loop, on `state_out_len`; it ends with the run, or with `avail_out` at 0
unfoldable pub drain : ℕ → ℕ → Sink → ℕ × Sink
drain zero ch k = (0, k)
drain (suc len) ch k =
    let rest = drain len ch (put_byte ch k) in if k.avail_out == 0 then (suc len, k) else rest

-- the fields of DState that the functions move; `source` is the position in the block
pub record Run (Source : Type 0) : Type 0 where
  pub state_out_ch : ℕ
  pub state_out_len : ℕ
  pub k0 : ℕ
  pub nblock_used : ℕ
  pub source : Source

-- a return of False, a return of True, and the end of the fuel
pub data Unrle (Source : Type 0) : Type 0 where
  paused : Run Source → Sink → Unrle Source
  corrupt : Unrle Source
  spent : Unrle Source

-- where the fast loop goes on: at its top, or at `s_state_out_len_eq_one`
pub data Place : Type 0 where
  top one : Place

module _ {Source : Type 0} (get_byte : Source → Option (ℕ × Source)) (save_nblock : ℕ) where
  abbrev pub on_byte :
      (ℕ → Source → Option (Run Source)) → Option (ℕ × Source) → Option (Run Source)
  on_byte next none = none
  on_byte next (some (k1, g)) = next k1 g

  -- the byte after `len` equal ones: the block ends, another run begins, or the run goes on
  unfoldable pub same : ℕ → (Run Source → Option (Run Source)) → Run Source → Option (Run Source)
  same len more s =
      on_byte
        (λ k1 g.
          if s.nblock_used + 1 == save_nblock + 1
          then some (record s { state_out_len = len; nblock_used = s.nblock_used + 1; source = g })
          else if not (k1 == s.k0)
          then some (record s {
            state_out_len = len;
            k0 = k1;
            nblock_used = s.nblock_used + 1;
            source = g;
          })
          else more (record s { state_out_len = len; nblock_used = s.nblock_used + 1; source = g }))
        (get_byte s.source)

  -- the count after four equal bytes, and the byte after it
  unfoldable pub read_count : Run Source → Option (Run Source)
  read_count s =
      on_byte
        (λ k1 g.
          on_byte
            (λ next h. some (record s {
              state_out_len = k1 + 4;
              k0 = next;
              nblock_used = s.nblock_used + 2;
              source = h;
            }))
            (get_byte g))
        (get_byte s.source)

  -- a round of the slow loop from `state_out_len = 1` on
  unfoldable pub read_run : Run Source → Option (Run Source)
  read_run s = same 1 (same 2 (same 3 read_count)) (record s { state_out_ch = s.k0 })

  abbrev pub on_run : (Run Source → Sink → Unrle Source) → Sink → Option (Run Source) → Unrle Source
  on_run more k none = corrupt
  on_run more k (some s) = more s k

  -- what follows the run's drain
  unfoldable pub slow_next : (Run Source → Sink → Unrle Source) → Run Source → Sink → Unrle Source
  slow_next more s k =
      if k.avail_out == 0
      then paused s k
      else if s.nblock_used == save_nblock + 1
      then paused s k
      else if ltb (save_nblock + 1) s.nblock_used
      then corrupt
      else on_run more k (read_run s)

  -- the loop of unRLE_obuf_to_output_SMALL, and of the randomised blocks
  unfoldable pub slow_loop : ℕ → Run Source → Sink → Unrle Source
  slow_loop zero s k = spent
  slow_loop (suc rounds) s k =
      let d = drain s.state_out_len s.state_out_ch k in
      slow_next (slow_loop rounds) (record s { state_out_len = d.0 }) d.1

  -- one byte of the fast loop, which counts the totals at its end
  unfoldable pub quick_byte : ℕ → Sink → Sink
  quick_byte ch k = record k {
    avail_out = k.avail_out - 1;
    out = k.out ++ ch ∷ [];
    calculated_block_crc = update_crc k.calculated_block_crc ch;
  }

  -- the bytes of a run but its last one, or as many as there is room for; `addr` is the address of
  -- `cs_next_out`
  unfoldable pub batch : (Sink → ℕ) → Run Source → Sink → Run Source × Sink
  batch addr s k =
      let n = if ltb k.avail_out (s.state_out_len - 1) then k.avail_out else s.state_out_len - 1 in
      (
        record s { state_out_len = s.state_out_len - n },
        record k {
          avail_out = k.avail_out - n;
          out = k.out ++ replicate n s.state_out_ch;
          calculated_block_crc =
              crc32_update (addr k) k.calculated_block_crc (replicate n s.state_out_ch);
        },
      )

  -- the inner loop of the fast loop: a batch leaves no room, or a run of one
  unfoldable pub fast_drain : (Sink → ℕ) → Run Source → Sink → Run Source × Sink
  fast_drain addr s k = if k.avail_out == 0 || s.state_out_len == 1 then (s, k) else batch addr s k

  abbrev pub on_first : (ℕ → Source → Unrle Source) → Option (ℕ × Source) → Unrle Source
  on_first next none = corrupt
  on_first next (some (k1, g)) = next k1 g

  -- from the comparison of `c_nblock_used` on
  unfoldable pub fast_next :
      (Place → Run Source → Sink → Unrle Source) → Run Source → Sink → Unrle Source
  fast_next more s k =
      if ltb (save_nblock + 1) s.nblock_used
      then corrupt
      else if s.nblock_used == save_nblock + 1
      then paused (record s { state_out_len = 0 }) k
      else on_first
          (λ k1 g.
            let t : Run Source = record s {
              state_out_ch = s.k0;
              nblock_used = s.nblock_used + 1;
              source = g;
            } in
            if not (k1 == s.k0)
            then more one (record t { k0 = k1 }) k
            else if t.nblock_used == save_nblock + 1
            then more one t k
            else on_run (more top) k (same 2 (same 3 read_count) t))
          (get_byte s.source)

  -- from `s_state_out_len_eq_one` on
  unfoldable pub fast_one :
      (Place → Run Source → Sink → Unrle Source) → Run Source → Sink → Unrle Source
  fast_one more s k =
      if k.avail_out == 0
      then paused (record s { state_out_len = 1 }) k
      else fast_next more s (quick_byte s.state_out_ch k)

  -- what follows the inner loop
  unfoldable pub fast_drained :
      (Place → Run Source → Sink → Unrle Source) → Run Source × Sink → Unrle Source
  fast_drained more (s, k) = if k.avail_out == 0 then paused s k else fast_one more s k

  unfoldable pub fast_round :
      (Sink → ℕ)
      → (Place → Run Source → Sink → Unrle Source)
      → Place
      → Run Source
      → Sink
      → Unrle Source
  fast_round addr more top s k =
      if ltb 0 s.state_out_len then fast_drained more (fast_drain addr s k) else fast_next more s k
  fast_round addr more one s k = fast_one more s k

  unfoldable pub fast_loop : (Sink → ℕ) → ℕ → Place → Run Source → Sink → Unrle Source
  fast_loop addr zero p s k = spent
  fast_loop addr (suc rounds) p s k = fast_round addr (fast_loop addr rounds) p s k

  -- `return_notr`: the totals
  unfoldable pub count_out : Sink → Unrle Source → Unrle Source
  count_out k (paused s u) =
      let lo = (k.total_out_lo32 + (k.avail_out - u.avail_out)) % 2 ^ 32 in
      paused s (record u {
        total_out_lo32 = lo;
        total_out_hi32 =
            if ltb lo k.total_out_lo32 then (k.total_out_hi32 + 1) % 2 ^ 32 else k.total_out_hi32;
      })
  count_out k corrupt = corrupt
  count_out k spent = spent

  -- the branch for a block that is not randomised
  unfoldable pub fast_output : (Sink → ℕ) → ℕ → Run Source → Sink → Unrle Source
  fast_output addr rounds s k = count_out k (fast_loop addr rounds top s k)
