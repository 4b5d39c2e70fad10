-- ===== src/Rle/Tests.antt =====
-- Runs of the run-length coding, and its theorems on a short text.
use libqbz.Base.{ℕ, ◌≡◌, refl, arith, List, [], ◌∷◌, true, false, ◌≤◌, ◌+◌}
use libqbz.Rle.{BlockState, nblock, init_rl, prepare_block, flush_rl, add_char_to_block}
use libqbz.Rle.{run_bytes, add_pair_to_block, isempty_rl}
use libqbz.Rle.Bounds.{add_char-le}
use libqbz.Rle.Decode.{decode, decode_byte, fresh}
use libqbz.Rle.Coded.{IsCoded, IsConsistent, held, pending}
use libqbz.Rle.Absorb.{
  add_char-IsCoded, flush_rl-IsConsistent, prepare_block-IsCoded, init-IsCoded, IsCoded-IsRun,
}

abbrev nothing : BlockState
nothing = record {
  state_in_ch = 256;
  state_in_len = 0;
  block = [];
  in_use = λ i. false;
  block_crc = 0;
}

abbrev start : BlockState
start = prepare_block (init_rl nothing)

absorb : BlockState → List ℕ → BlockState
absorb s [] = s
absorb s (c ∷ cs) = absorb (add_char_to_block 0 s c) cs

-- five equal bytes and another one
coded_text :
    (flush_rl 0 (absorb start (7 ∷ 7 ∷ 7 ∷ 7 ∷ 7 ∷ 9 ∷ []))).block ≡ 7 ∷ 7 ∷ 7 ∷ 7 ∷ 1 ∷ 9 ∷ []
unfolding absorb flush_rl add_char_to_block add_pair_to_block init_rl prepare_block run_bytes
coded_text = refl

decoded_text : (decode fresh (7 ∷ 7 ∷ 7 ∷ 7 ∷ 1 ∷ 9 ∷ [])).out ≡ 7 ∷ 7 ∷ 7 ∷ 7 ∷ 7 ∷ 9 ∷ []
unfolding decode decode_byte
decoded_text = refl

one_absorbed : IsCoded (97 ∷ []) (add_char_to_block 0 start 97)
one_absorbed = add_char-IsCoded 0 97 (omega arith) (init-IsCoded nothing)

add_char-IsCoded_example :
    IsCoded (97 ∷ 98 ∷ []) (add_char_to_block 0 (add_char_to_block 0 start 97) 98)
add_char-IsCoded_example = add_char-IsCoded 0 98 (omega arith) one_absorbed

flush_rl-IsConsistent_example :
    let s = flush_rl 0 (add_char_to_block 0 start 97) in
    IsConsistent s × (held s ≡ 97 ∷ []) × (isempty_rl s ≡ true)
flush_rl-IsConsistent_example = flush_rl-IsConsistent 0 one_absorbed

prepare_block-IsCoded_example :
    let s = add_char_to_block 0 start 97 in IsCoded (pending s) (prepare_block s)
prepare_block-IsCoded_example =
    prepare_block-IsCoded (add_char_to_block 0 start 97) (IsCoded-IsRun one_absorbed)

add_char-le_example : nblock (add_char_to_block 0 start 97) ≤ nblock start + 5
add_char-le_example = add_char-le 0 start 97
