-- ===== src/Decompress.antt =====
-- The resumable parser of src/decompress.c, from the stream header to the coding tables, and the
-- trailer: each `after_` function is the code of BZ2_decompress between a GET_BITS and the next one, on the
-- state `s` and the locals `v`.
pub mod Types
pub mod Parse
pub mod Later
pub mod Checks
pub mod Resume
pub mod Leave
pub mod Split
use Types.{Label, DState, Locals, Step, idle, goto, return, tables}
use Types.{magic_1, magic_2, magic_3, magic_4, blkhdr_1, blkhdr_2, blkhdr_3, blkhdr_4}
use Types.{blkhdr_5, blkhdr_6, bcrc_1, bcrc_2, bcrc_3, bcrc_4, randbit, origptr_1}
use Types.{origptr_2, origptr_3, mapping_1, mapping_2, selector_1, selector_2, selector_3, coding_1}
use Types.{coding_2, coding_3, endhdr_2, endhdr_3, endhdr_4, endhdr_5, endhdr_6, ccrc_1}
use Types.{ccrc_2, ccrc_3, ccrc_4}
use libqbz.Base.{ℕ, zero, suc, ◌+◌, ◌-◌, ◌*◌, ◌/◌, ◌%◌, ◌^◌, List, [], ◌∷◌, ◌++◌, Bool, true, false}
use libqbz.Base.{
  ◌&&◌, ◌||◌, not, Option, none, some, length, get_or, ltb, leb, ◌==◌, if◌then◌else◌, bit_or,
}
use libqbz.Compress.Types.{stream_end, data_error, data_error_magic, mem_error}
use libqbz.Mtf.{count_up}
use libqbz.Unmtf.{make_maps_d, pull_front}

-- the third argument of GET_BITS
abbrev pub bits_of : Label → ℕ
bits_of randbit = 1
bits_of mapping_1 = 1
bits_of mapping_2 = 1
bits_of selector_1 = 3
bits_of selector_2 = 15
bits_of selector_3 = 1
bits_of coding_1 = 5
bits_of coding_2 = 1
bits_of coding_3 = 1
bits_of _ = 8

-- a byte of the header that has to be `want`
unfoldable pub expect : ℕ → ℕ → Step → DState → Locals → Step
expect uc want next s v = if not (uc == want) then return data_error s v else next

unfoldable pub expect_magic : ℕ → ℕ → Label → DState → Locals → Step
expect_magic uc want l s v = if not (uc == want) then return data_error_magic s v else goto l s v

-- `(x << 8) | uc` on 32 digits
abbrev pub shift_in : ℕ → ℕ → ℕ
shift_in x uc = bit_or (x * 2 ^ 8 % 2 ^ 32) uc

-- what the allocator answers to a request for so many bytes
module _ (alloc : ℕ → Bool) where
  abbrev pub allocated : ℕ → Option ℕ
  allocated n = if alloc n then some n else none

  abbrev pub failed : Option ℕ → Bool
  failed none = true
  failed (some n) = false

  unfoldable pub alloc_small : DState → Locals → Step
  alloc_small s v =
      let u = record s {
        ll16 = allocated (s.block_size100k * 100000 * 2);
        ll4 = allocated ((1 + s.block_size100k * 100000) / 2);
      } in
      if failed u.ll16 || failed u.ll4 then return mem_error u v else goto blkhdr_1 u v

  unfoldable pub alloc_fast : DState → Locals → Step
  alloc_fast s v =
      let u = record s { tt = allocated (s.block_size100k * 100000 * 4) } in
      if failed u.tt then return mem_error u v else goto blkhdr_1 u v

  -- from BZ_X_MAGIC_4 on: the size of the blocks, and their memory
  unfoldable pub after_magic : ℕ → DState → Locals → Step
  after_magic size s v =
      let u = record s { block_size100k = size - 0x30 } in
      if ltb size 0x31 || ltb 0x39 size
      then return data_error_magic (record s { block_size100k = size }) v
      else if s.small_decompress
      then alloc_small u v
      else alloc_fast u v

-- the check of origPtr, which three bytes keep from being negative
unfoldable pub after_origptr : DState → Locals → Step
after_origptr s v =
    if ltb (10 + 100000 * s.block_size100k) s.orig_ptr
    then return data_error s v
    else goto mapping_1 s (record v { i = 0 })

-- after the map of the bytes in use
unfoldable pub after_maps : DState → Locals → Step
after_maps s v =
    let seqs = make_maps_d s.in_use in
    let u = record s { seq_to_unseq = seqs } in
    if length seqs == 0
    then return data_error u v
    else goto selector_1 u (record v { alpha_size = length seqs + 2 })

-- the outer loop of the second map, with `rounds` left
unfoldable pub next_sixteen : ℕ → DState → Locals → Step
next_sixteen zero s v = after_maps s v
next_sixteen (suc rounds) s v =
    let rest = next_sixteen rounds s (record v { i = v.i + 1 }) in
    if s.in_use16 v.i then goto mapping_2 s (record v { j = 0 }) else rest

unfoldable pub after_mapping_1 : ℕ → DState → Locals → Step
after_mapping_1 uc s v =
    let u = record s { in_use16 = λ k. if k == v.i then uc == 1 else s.in_use16 k } in
    if ltb (v.i + 1) 16
    then goto mapping_1 u (record v { i = v.i + 1 })
    else next_sixteen 16 (record u { in_use = λ k. false }) (record v { i = 0 })

unfoldable pub after_mapping_2 : ℕ → DState → Locals → Step
after_mapping_2 uc s v =
    let u = record s {
      in_use = λ k. if k == v.i * 16 + v.j && uc == 1 then true else s.in_use k;
    } in
    let w = record v { j = v.j + 1 } in
    if ltb w.j 16 then goto mapping_2 u w else next_sixteen (15 - v.i) u (record w { i = v.i + 1 })

-- the selectors, out of their move-to-front coding: the loop from `i` on
unfoldable pub undo_mtf : ℕ → ℕ → (ℕ → ℕ) → List ℕ → List ℕ
undo_mtf zero i mtf pos = []
undo_mtf (suc rounds) i mtf pos =
    get_or pos (mtf i) 0 ∷ undo_mtf rounds (i + 1) mtf (pull_front pos (mtf i))

-- BZ_MAX_SELECTORS
abbrev pub max_selectors : ℕ
max_selectors = 18002

unfoldable pub after_selectors : DState → Locals → Step
after_selectors s v =
    let n = if ltb max_selectors v.n_selectors then max_selectors else v.n_selectors in
    goto coding_1 (record s { selector = undo_mtf n 0 s.selector_mtf (count_up v.n_groups 0) })
      (record v { n_selectors = n; i = n; t = 0 })

unfoldable pub after_selector_3 : ℕ → DState → Locals → Step
after_selector_3 uc s v =
    let mtf = λ (k : ℕ). if k == v.i && ltb v.i max_selectors then v.j else s.selector_mtf k in
    let u = record s { selector_mtf = mtf } in
    let w = record v { j = v.j + 1 } in
    if uc == 0
    then if ltb (v.i + 1) v.n_selectors
      then goto selector_3 u (record v { i = v.i + 1; j = 0 })
      else after_selectors u (record v { i = v.i + 1 })
    else if leb v.n_groups w.j
    then return data_error s w
    else goto selector_3 s w

-- the top of the loop of a code length
unfoldable pub check_curr : DState → Locals → Step
check_curr s v = if ltb v.curr 1 || ltb 20 v.curr then return data_error s v else goto coding_2 s v

-- after a table: the next one, or the end of this part
unfoldable pub next_table : DState → Locals → Step
next_table s v = if ltb v.t v.n_groups then goto coding_1 s v else tables s v

-- after a code length: the next one, or the end of the table
unfoldable pub next_length : DState → Locals → Step
next_length s v =
    if ltb v.i v.alpha_size then check_curr s v else next_table s (record v { t = v.t + 1 })

unfoldable pub after_coding_2 : ℕ → DState → Locals → Step
after_coding_2 uc s v =
    let row = λ (g k : ℕ). if g == v.t && k == v.i then v.curr else s.len g k in
    if not (uc == 0)
    then goto coding_3 s v
    else next_length (record s { len = row }) (record v { i = v.i + 1 })

-- the labels of the trailer
unfoldable pub after_trailer : Label → ℕ → DState → Locals → Step
after_trailer endhdr_2 uc s v = expect uc 0x72 (goto endhdr_3 s v) s v
after_trailer endhdr_3 uc s v = expect uc 0x45 (goto endhdr_4 s v) s v
after_trailer endhdr_4 uc s v = expect uc 0x38 (goto endhdr_5 s v) s v
after_trailer endhdr_5 uc s v = expect uc 0x50 (goto endhdr_6 s v) s v
after_trailer endhdr_6 uc s v =
    expect uc 0x90 (goto ccrc_1 (record s { stored_combined_crc = 0 }) v) s v
after_trailer ccrc_1 uc s v =
    goto ccrc_2 (record s { stored_combined_crc = shift_in s.stored_combined_crc uc }) v
after_trailer ccrc_2 uc s v =
    goto ccrc_3 (record s { stored_combined_crc = shift_in s.stored_combined_crc uc }) v
after_trailer ccrc_3 uc s v =
    goto ccrc_4 (record s { stored_combined_crc = shift_in s.stored_combined_crc uc }) v
after_trailer ccrc_4 uc s v =
    return stream_end
      (record s { stored_combined_crc = shift_in s.stored_combined_crc uc; state = idle }) v
-- no other label comes here
after_trailer _ uc s v = return data_error s v

-- all labels, with the value that GET_BITS read
unfoldable pub after : (ℕ → Bool) → Label → ℕ → DState → Locals → Step
after alloc magic_1 uc s v = expect_magic uc 0x42 magic_2 s v
after alloc magic_2 uc s v = expect_magic uc 0x5a magic_3 s v
after alloc magic_3 uc s v = expect_magic uc 0x68 magic_4 s v
after alloc magic_4 size s v = after_magic alloc size s v
after alloc blkhdr_1 uc s v =
    if uc == 0x17 then goto endhdr_2 s v else expect uc 0x31 (goto blkhdr_2 s v) s v
after alloc blkhdr_2 uc s v = expect uc 0x41 (goto blkhdr_3 s v) s v
after alloc blkhdr_3 uc s v = expect uc 0x59 (goto blkhdr_4 s v) s v
after alloc blkhdr_4 uc s v = expect uc 0x26 (goto blkhdr_5 s v) s v
after alloc blkhdr_5 uc s v = expect uc 0x53 (goto blkhdr_6 s v) s v
after alloc blkhdr_6 uc s v =
    let u = record s { curr_block_no = s.curr_block_no + 1; stored_block_crc = 0 } in
    expect uc 0x59 (goto bcrc_1 u v) s v
after alloc bcrc_1 uc s v =
    goto bcrc_2 (record s { stored_block_crc = shift_in s.stored_block_crc uc }) v
after alloc bcrc_2 uc s v =
    goto bcrc_3 (record s { stored_block_crc = shift_in s.stored_block_crc uc }) v
after alloc bcrc_3 uc s v =
    goto bcrc_4 (record s { stored_block_crc = shift_in s.stored_block_crc uc }) v
after alloc bcrc_4 uc s v =
    goto randbit (record s { stored_block_crc = shift_in s.stored_block_crc uc }) v
after alloc randbit bit s v = goto origptr_1 (record s { block_randomised = bit; orig_ptr = 0 }) v
after alloc origptr_1 uc s v = goto origptr_2 (record s { orig_ptr = shift_in s.orig_ptr uc }) v
after alloc origptr_2 uc s v = goto origptr_3 (record s { orig_ptr = shift_in s.orig_ptr uc }) v
after alloc origptr_3 uc s v = after_origptr (record s { orig_ptr = shift_in s.orig_ptr uc }) v
after alloc mapping_1 uc s v = after_mapping_1 uc s v
after alloc mapping_2 uc s v = after_mapping_2 uc s v
after alloc selector_1 n s v =
    let w = record v { n_groups = n } in
    if ltb n 2 || ltb 6 n then return data_error s w else goto selector_2 s w
after alloc selector_2 n s v =
    let w = record v { n_selectors = n } in
    if ltb n 1 then return data_error s w else goto selector_3 s (record w { i = 0; j = 0 })
after alloc selector_3 uc s v = after_selector_3 uc s v
after alloc coding_1 n s v = check_curr s (record v { curr = n; i = 0 })
after alloc coding_2 uc s v = after_coding_2 uc s v
after alloc coding_3 uc s v =
    check_curr s (record v { curr = if uc == 0 then v.curr + 1 else v.curr - 1 })
after alloc l uc s v = after_trailer l uc s v
