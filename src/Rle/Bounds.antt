-- ===== src/Rle/Bounds.antt =====
-- How much a block grows: at most five bytes at a time.
use libqbz.Base.{ℕ, ◌+◌, ◌≤◌, arith, length, length-append, [], ◌∷◌}
use libqbz.Rle.{BlockState, nblock, run_bytes, add_pair_to_block, flush_rl, add_char_to_block}
use libqbz.Rle.{init_rl}

length-run_bytes : (ch len : ℕ) → length (run_bytes ch len) ≤ 5
unfolding run_bytes
length-run_bytes ch len = ground arith

add_pair-le : (addr : ℕ) (s : BlockState) → nblock (add_pair_to_block addr s) ≤ nblock s + 5
unfolding add_pair_to_block
add_pair-le addr s = omega (
  arith,
  length-append s.block (run_bytes s.state_in_ch s.state_in_len),
  length-run_bytes s.state_in_ch s.state_in_len,
)

-- ADD_CHAR_TO_BLOCK, in every state and with every byte, adds at most five bytes to the block.
pub add_char-le :
    (addr : ℕ) (s : BlockState) (c : ℕ) → nblock (add_char_to_block addr s c) ≤ nblock s + 5
unfolding add_char_to_block
add_char-le addr s c =
    ground (arith, add_pair-le addr s, length-append s.block (s.state_in_ch ∷ []))

-- So does a flush.
pub flush_rl-le : (addr : ℕ) (s : BlockState) → nblock (flush_rl addr s) ≤ nblock s + 5
unfolding flush_rl init_rl
flush_rl-le addr s = ground (arith, add_pair-le addr s)
