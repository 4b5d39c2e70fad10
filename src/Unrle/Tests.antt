-- ===== src/Unrle/Tests.antt =====
-- A block of seven bytes, which decodes to eight.
use libqbz.Base.{ℕ, ◌≡◌, refl, arith, List, [], ◌∷◌, ◌++◌, replicate}
use libqbz.Base.{Option, some, none, true, ◌↔◌}
use libqbz.Unrle.{Sink, Run, slow_loop, fast_output}
use libqbz.Unrle.Decode.{decoded}
use libqbz.Unrle.Done.{block_done, block_done_iff}
use libqbz.Unrle.Runs.{Stands}
use libqbz.Unrle.Same.{Agree, output-Agree, fast_output-Pours}
use libqbz.Unrle.Slow.{SlowPours, slow_loop-Pours}

-- a source that is the list of the bytes to come
abbrev uncons : List ℕ → Option (ℕ × List ℕ)
uncons [] = none
uncons (x ∷ xs) = some (x, xs)

-- the first byte was read; the last one is that behind the block
abbrev seven : Run (List ℕ)
seven = record {
  state_out_ch = 0;
  state_out_len = 0;
  k0 = 97;
  nblock_used = 1;
  source = 97 ∷ 97 ∷ 97 ∷ 2 ∷ 98 ∷ 99 ∷ 5 ∷ [];
}

abbrev zs : List ℕ
zs = 97 ∷ 97 ∷ 97 ∷ 97 ∷ 2 ∷ 98 ∷ 99 ∷ []

abbrev room_for_five : Sink
room_for_five = record {
  avail_out = 5;
  out = [];
  calculated_block_crc = 0xffff_ffff;
  total_out_lo32 = 0xffff_fffe;
  total_out_hi32 = 0;
}

decoded_eight : decoded 0 0 zs ≡ replicate 6 97 ++ 98 ∷ 99 ∷ []
decoded_eight = refl

seven-Stands : Stands uncons 7 seven zs
seven-Stands = (
  refl,
  refl,
  (
    97 ∷ 97 ∷ 2 ∷ 98 ∷ 99 ∷ 5 ∷ [],
    refl,
    (
      97 ∷ 2 ∷ 98 ∷ 99 ∷ 5 ∷ [],
      refl,
      (
        2 ∷ 98 ∷ 99 ∷ 5 ∷ [],
        refl,
        (98 ∷ 99 ∷ 5 ∷ [], refl, (99 ∷ 5 ∷ [], refl, (5 ∷ [], refl, (5, [], refl)))),
      ),
    ),
  ),
  (
    omega arith,
    (omega arith, (omega arith, (omega arith, (omega arith, (omega arith, (omega arith, tt)))))),
  ),
)

slow_loop-Pours_example :
    SlowPours uncons 7 (decoded 0 0 zs) room_for_five (slow_loop uncons 7 9 seven room_for_five)
slow_loop-Pours_example =
    slow_loop-Pours uncons 7 9 seven room_for_five zs seven-Stands (omega arith) (omega arith)

fast_output-Pours_example :
    SlowPours uncons 7
      (decoded 0 0 zs)
      room_for_five
      (fast_output uncons 7 (λ k. 3) 9 seven room_for_five)
fast_output-Pours_example =
    fast_output-Pours uncons 7 (λ k. 3) 9 seven room_for_five zs seven-Stands (omega arith)
      (omega arith) (omega arith) (omega arith) (omega arith) (omega arith)

output-Agree_example :
    Agree
      (slow_loop uncons 7 9 seven room_for_five)
      (fast_output uncons 7 (λ k. 3) 9 seven room_for_five)
output-Agree_example =
    output-Agree uncons uncons 7 (λ k. 3) 9 seven seven room_for_five zs seven-Stands seven-Stands
      refl refl (omega arith) (omega arith) (omega arith) (omega arith) (omega arith) (omega arith)

block_done_iff_example : (block_done uncons 7 seven ≡ true) ↔ (replicate 0 0 ++ decoded 0 0 zs ≡ [])
block_done_iff_example = block_done_iff uncons 7 seven zs seven-Stands
