-- ===== src/Opening/Tests.antt =====
-- Memory functions that number the blocks and hand out a few of them, and calls with them.
use libqbz.Base.{ℕ, ◌+◌, ◌-◌, ◌≡◌, refl, arith, List, [], ◌∷◌, Bool, true, false, ◌==◌}
use libqbz.Base.{Option, some, none, if◌then◌else◌, ltb, inl, inr, Bool-cases, ==_iff, ap, ◌++◌}
use libqbz.Base.Ints.{pos}
use libqbz.Compress.Types.{Backend, EState, idle, output, ok}
use libqbz.Opening.{Memory, Arrays, Decoder, compress_init, compress_end, decompress_init}
use libqbz.Opening.{decompress_end, buff_to_buff_compress}
use libqbz.Opening.Owned.{Gains, Takes, Owns, once}
use libqbz.Opening.Whole.{Opens, Settles, DecoderOpens, compress_init-Opens, compress_end-Owns}
use libqbz.Opening.Whole.{buff_to_buff_compress-Settles, decompress_init-DecoderOpens}
use libqbz.Opening.Whole.{decompress_end-Owns, accepted}
use libqbz.Decompress.Types.{magic_1}

-- the next block's number, and how often each block is held
pub record Counts : Type 0 where
  pub next : ℕ
  pub held : ℕ → ℕ

abbrev pub hand_out : Bool → Counts → Option ℕ × Counts
hand_out false h = (none, h)
hand_out true h = (some h.next, record { next = h.next + 1; held = λ k. h.held k + once h.next k })

-- at most `limit` blocks are handed out
abbrev few : ℕ → Memory
few limit = record {
  Heap = Counts;
  alloc = λ h n. hand_out (ltb h.next limit) h;
  release = λ h p. record h { held = λ k. h.held k - once p k };
}

abbrev held_of : Counts → ℕ → ℕ
held_of h k = h.held k

hand_out-Gains : (limit : ℕ) (b : Bool) (h : Counts) → Gains (few limit) held_of h (hand_out b h)
hand_out-Gains limit false h = λ k. refl
hand_out-Gains limit true h = λ k. refl

few-Gains : (limit : ℕ) (h : Counts) (n : ℕ) → Gains (few limit) held_of h ((few limit).alloc h n)
few-Gains limit h n = hand_out-Gains limit (ltb h.next limit) h

few-Takes : (limit : ℕ) → Takes (few limit) held_of
few-Takes limit h p one k = elim (Bool-cases (k == p)) [
  | inl e ↦ rw e (omega (arith, one, ap h.held ((==_iff k p).0 e)))
  | inr e ↦ rw e (omega arith)
]

abbrev nothing : Counts
nothing = record { next = 0; held = λ k. 0 }

abbrev plain : Backend
plain = record {
  Coder = List ℕ;
  compress_block = λ z b last. z ++ b.block;
  new_block = λ z. [];
  zbits = λ z. z;
}

abbrev junk : EState (List ℕ)
junk = record {
  strm = record {
    next_in = [];
    total_in_lo32 = 7;
    total_in_hi32 = 7;
    out = [];
    avail_out = 0;
    total_out_lo32 = 7;
    total_out_hi32 = 7;
  };
  mode = idle;
  phase = output;
  avail_in_expect = 0;
  blk = record {
    state_in_ch = 1;
    state_in_len = 1;
    block = [];
    in_use = λ i. false;
    block_crc = 0;
  };
  nblock_max = 0;
  state_out_pos = 0;
  coder = [];
}

-- the second array is not to be had
compress_init-Opens_example :
    Opens
      (few 2)
      100
      held_of
      (few-Gains 2)
      (few-Takes 2)
      plain
      (λ u. [])
      nothing
      (compress_init (few 2) 100 plain (λ u. []) true false junk (pos 9) (pos 0) (pos 0) nothing)
compress_init-Opens_example =
    compress_init-Opens (few 2) 100 held_of (few-Gains 2) (few-Takes 2) plain (λ u. []) true false
      junk (pos 9) (pos 0) (pos 0) nothing

-- the blocks 0 to 3
abbrev four_blocks : Arrays
four_blocks = record { self = 0; arr1 = some 1; arr2 = some 2; ftab = some 3 }

abbrev four_held : Counts
four_held = record { next = 4; held = λ k. if ltb k 4 then 1 else 0 }

compress_end-Owns_example :
    ((compress_end (few 9) 100 plain (λ u. []) true (some four_blocks) four_held).0 ≡ ok)
    × Owns
        (few 9)
        held_of
        nothing
        []
        ((compress_end (few 9) 100 plain (λ u. []) true (some four_blocks) four_held).2)
compress_end-Owns_example =
    compress_end-Owns (few 9) 100 held_of (few-Gains 9) (few-Takes 9) plain (λ u. []) nothing
      four_held four_blocks (λ k. ground arith)

buff_to_buff_compress-Settles_example :
    Settles
      (few 9)
      100
      held_of
      (few-Gains 9)
      (few-Takes 9)
      plain
      (λ u. [])
      nothing
      (buff_to_buff_compress
        (few 9)
        100
        plain
        (λ u. [])
        true
        junk
        0
        (some 50)
        (some (97 ∷ 97 ∷ 98 ∷ []))
        (pos 1)
        (pos 0)
        (pos 0)
        nothing)
buff_to_buff_compress-Settles_example =
    buff_to_buff_compress-Settles (few 9) 100 held_of (few-Gains 9) (few-Takes 9) plain (λ u. [])
      true junk 0 (some 50) (some (97 ∷ 97 ∷ 98 ∷ [])) (pos 1) (pos 0) (pos 0) nothing

decompress_init-DecoderOpens_example :
    DecoderOpens
      (few 1)
      100
      held_of
      (few-Gains 1)
      (few-Takes 1)
      nothing
      (accepted true false (pos 0) (pos 1))
      true
      (decompress_init (few 1) 100 true false (pos 0) (pos 1) nothing)
decompress_init-DecoderOpens_example =
    decompress_init-DecoderOpens (few 1) 100 held_of (few-Gains 1) (few-Takes 1) true false (pos 0)
      (pos 1) nothing

-- a decompressor with three arrays
abbrev small_decoder : Decoder
small_decoder = record {
  self = 0;
  state = magic_1;
  bs_live = 0;
  bs_buff = 0;
  calculated_combined_crc = 0;
  small_decompress = true;
  ll4 = some 3;
  ll16 = some 1;
  tt = some 2;
  curr_block_no = 0;
  verbosity = pos 0;
  total_in_lo32 = 0;
  total_in_hi32 = 0;
  total_out_lo32 = 0;
  total_out_hi32 = 0;
}

decompress_end-Owns_example :
    ((decompress_end (few 9) 100 true (some small_decoder) four_held).0 ≡ ok)
    × Owns
        (few 9)
        held_of
        nothing
        []
        ((decompress_end (few 9) 100 true (some small_decoder) four_held).2)
decompress_end-Owns_example =
    decompress_end-Owns (few 9) 100 held_of (few-Gains 9) (few-Takes 9) nothing four_held
      small_decoder (λ k. ground arith)
