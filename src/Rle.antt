-- ===== src/Rle.antt =====
-- The first run-length coding of src/bzlib.c: how bytes are absorbed into a block
-- (prepare_new_block, init_RL, isempty_RL, add_pair_to_block, flush_RL, ADD_CHAR_TO_BLOCK).
-- `BlockState` is the part of `EState` that these functions touch. `block` is the written prefix of
-- the array, so `block[nblock] = b; nblock++` appends, and `nblock` is its length.
pub mod Decode
pub mod Laws
pub mod Coded
pub mod Absorb
pub mod Bounds
mod Tests
use libqbz.Base.{ℕ, zero, suc, ◌+◌, ◌-◌, List, [], ◌∷◌, ◌++◌, Bool, true, false, ◌&&◌, ◌||◌, not}
use libqbz.Base.{length, replicate, leb, ltb, ◌==◌, if◌then◌else◌}
use libqbz.Crc.{update_crc, crc32_update, initial_crc}

pub record BlockState : Type 0 where
  pub state_in_ch : ℕ
  pub state_in_len : ℕ
  pub block : List ℕ
  pub in_use : ℕ → Bool
  pub block_crc : ℕ

abbrev pub nblock : BlockState → ℕ
nblock s = length s.block

-- `inUse[i] = True`
abbrev pub mark : (ℕ → Bool) → ℕ → ℕ → Bool
mark f i j = if i == j then true else f j

-- init_RL
unfoldable pub init_rl : BlockState → BlockState
init_rl s = record s { state_in_ch = 256; state_in_len = 0 }

-- the fields of prepare_new_block that belong to a block
unfoldable pub prepare_block : BlockState → BlockState
prepare_block s = record s { block = []; in_use = λ i. false; block_crc = initial_crc }

-- isempty_RL
unfoldable pub isempty_rl : BlockState → Bool
isempty_rl s = if ltb s.state_in_ch 256 && ltb 0 s.state_in_len then false else true

-- the loop of BZ_UPDATE_CRC on a run of fewer than eight bytes
pub crc_repeat : ℕ → ℕ → ℕ → ℕ
crc_repeat zero c ch = c
crc_repeat (suc n) c ch = crc_repeat n (update_crc c ch) ch

-- the CRC of a run; `addr` is the address of the local buffer
pub run_crc : ℕ → ℕ → ℕ → ℕ → ℕ
run_crc addr c ch len =
    if leb 8 len then crc32_update addr c (replicate len ch) else crc_repeat len c ch

-- the bytes that the `switch` writes for a run
unfoldable pub run_bytes : ℕ → ℕ → List ℕ
run_bytes ch len =
    if len == 1
    then ch ∷ []
    else if len == 2
    then ch ∷ ch ∷ []
    else if len == 3
    then ch ∷ ch ∷ ch ∷ []
    else ch ∷ ch ∷ ch ∷ ch ∷ (len - 4) ∷ []

-- the flags that it sets: the byte of the run, and in the default case the count
pub run_marks : (ℕ → Bool) → ℕ → ℕ → ℕ → Bool
run_marks f ch len =
    if len == 1 || len == 2 || len == 3 then mark f ch else mark (mark f ch) (len - 4)

module _ (addr : ℕ) where
  -- add_pair_to_block
  unfoldable pub add_pair_to_block : BlockState → BlockState
  add_pair_to_block s = record s {
    block_crc = run_crc addr s.block_crc s.state_in_ch s.state_in_len;
    in_use = run_marks s.in_use s.state_in_ch s.state_in_len;
    block = s.block ++ run_bytes s.state_in_ch s.state_in_len;
  }

  -- flush_RL
  unfoldable pub flush_rl : BlockState → BlockState
  flush_rl s = init_rl (if ltb s.state_in_ch 256 then add_pair_to_block s else s)

  -- ADD_CHAR_TO_BLOCK
  unfoldable pub add_char_to_block : BlockState → ℕ → BlockState
  add_char_to_block s ch =
      if not (ch == s.state_in_ch) && s.state_in_len == 1
      then record s {
        block_crc = update_crc s.block_crc s.state_in_ch;
        in_use = mark s.in_use s.state_in_ch;
        block = s.block ++ (s.state_in_ch ∷ []);
        state_in_ch = ch;
      }
      else if not (ch == s.state_in_ch) || s.state_in_len == 255
      then record (if ltb s.state_in_ch 256 then add_pair_to_block s else s) {
        state_in_ch = ch;
        state_in_len = 1;
      }
      else record s { state_in_len = s.state_in_len + 1 }
