-- ===== src/Opening.antt =====
-- Opening and closing of streams, and the call that compresses a buffer at once: BZ2_bzCompressInit,
-- BZ2_bzCompressEnd, BZ2_bzDecompressInit, BZ2_bzDecompressEnd and BZ2_bzBuffToBuffCompress of
-- src/bzlib.c. The memory functions of the caller are parameters; a pointer is the number of the
-- block of memory it points to, and NULL is `none`.
pub mod Owned
pub mod Whole
mod Tests
use libqbz.Base.{ℕ, zero, suc, ◌+◌, ◌-◌, ◌*◌, List, [], Bool, true, false, ◌&&◌, ◌||◌, not}
use libqbz.Base.{Option, some, none, leb, if◌then◌else◌}
use libqbz.Base.Ints.{ℤ, pos, negsuc}
use libqbz.Compress.{bz_compress, prepare_new_block}
use libqbz.Compress.Types.{Backend, Code, EState, ok, param_error, mem_error, config_error}
use libqbz.Compress.Types.{finish_ok, stream_end, outbuff_full, finish, running, input}
use libqbz.Decompress.Types.{Label, magic_1}
use libqbz.Rle.{init_rl}

-- `bzalloc` and `bzfree`
pub record Memory : Type 1 where
  pub Heap : Type 0
  pub alloc : Heap → ℕ → Option ℕ × Heap
  pub release : Heap → ℕ → Heap

-- what BZ2_bzCompressInit stores for the block coder
pub record Setup : Type 0 where
  pub block_no : ℕ
  pub combined_crc : ℕ
  pub block_size100k : ℕ
  pub verbosity : ℤ
  pub work_factor : ℕ

-- the memory of a compressor: the block of the EState and the arrays
pub record Arrays : Type 0 where
  pub self : ℕ
  pub arr1 : Option ℕ
  pub arr2 : Option ℕ
  pub ftab : Option ℕ

-- a decompressor as it is opened, with its memory: the block of the DState and the arrays; the
-- totals are those of the stream that it belongs to
pub record Decoder : Type 0 where
  pub self : ℕ
  pub state : Label
  pub bs_live : ℕ
  pub bs_buff : ℕ
  pub calculated_combined_crc : ℕ
  pub small_decompress : Bool
  pub ll4 : Option ℕ
  pub ll16 : Option ℕ
  pub tt : Option ℕ
  pub curr_block_no : ℕ
  pub verbosity : ℤ
  pub total_in_lo32 : ℕ
  pub total_in_hi32 : ℕ
  pub total_out_lo32 : ℕ
  pub total_out_hi32 : ℕ

abbrev pub in_range : ℕ → ℕ → ℤ → Bool
in_range least most (pos n) = leb least n && leb n most
in_range least most (negsuc n) = false

-- the value of a variable that was found in range
abbrev pub value : ℤ → ℕ
value (pos n) = n
value (negsuc n) = 0

abbrev pub is_null {ℓ} : {A : Type ℓ} → Option A → Bool
is_null none = true
is_null (some a) = false

-- BZ_N_OVERSHOOT
abbrev pub n_overshoot : ℕ
n_overshoot = 2 + 12 + 18 + 2

-- the default of `workFactor`
abbrev pub work_factor_of : ℤ → ℕ
work_factor_of (pos zero) = 30
work_factor_of w = value w

-- what BZ2_bzBuffToBuffCompress makes of the code of BZ2_bzCompress
abbrev pub answer_of : Code → Code
answer_of finish_ok = outbuff_full
answer_of stream_end = ok
answer_of c = c

-- `*destLen`, from which `avail_out` is taken at the end of the stream
abbrev pub length_of : Code → ℕ → ℕ → ℕ
length_of stream_end len avail_out = len - avail_out
length_of c len avail_out = len

-- `size_of` is sizeof(EState) or sizeof(DState)
module _ (M : Memory) (size_of : ℕ) where
  open M use {Heap, alloc, release}

  -- `if (p != NULL) BZFREE(p)`
  abbrev pub free_some : Option ℕ → Heap → Heap
  free_some none h = h
  free_some (some p) h = release h p

  -- the four lines that free, in the order of BZ2_bzCompressInit and BZ2_bzCompressEnd
  abbrev pub free_arrays : Arrays → Heap → Heap
  free_arrays a h = release (free_some a.ftab (free_some a.arr2 (free_some a.arr1 h))) a.self

  module _ (B : Backend) (first_coder : Setup → B.Coder) where
    -- an opened compressor, or the code that the call returns
    pub data Init : Type 0 where
      opened : Arrays → EState B.Coder → Heap → Init
      refused : Code → Heap → Init

    -- the fields that are set; `junk` is what the memory holds before
    unfoldable pub first_state : EState B.Coder → ℕ → ℤ → ℤ → EState B.Coder
    first_state junk size verbosity work_factor = prepare_new_block B 0 (record junk {
      strm = record (junk.strm) {
        total_in_lo32 = 0;
        total_in_hi32 = 0;
        total_out_lo32 = 0;
        total_out_hi32 = 0;
      };
      mode = running;
      phase = input;
      nblock_max = 100000 * size - 19;
      blk = init_rl junk.blk;
      coder = first_coder (record {
        block_no = 0;
        combined_crc = 0;
        block_size100k = size;
        verbosity = verbosity;
        work_factor = work_factor_of work_factor;
      });
    })

    -- from the allocation of the arrays on
    unfoldable pub init_arrays : EState B.Coder → ℕ → ℤ → ℤ → ℕ → Heap → Init
    init_arrays junk size verbosity work_factor self h =
        let (arr1, h1) = alloc h (100000 * size * 4) in
        let (arr2, h2) = alloc h1 ((100000 * size + n_overshoot) * 4) in
        let (ftab, h3) = alloc h2 (65537 * 4) in
        let a : Arrays = record { self = self; arr1 = arr1; arr2 = arr2; ftab = ftab } in
        if is_null arr1 || is_null arr2 || is_null ftab
        then refused mem_error (free_arrays a h3)
        else opened a (first_state junk size verbosity work_factor) h3

    -- what follows the allocation of the EState
    unfoldable pub init_self : EState B.Coder → ℕ → ℤ → ℤ → Option ℕ × Heap → Init
    init_self junk size verbosity work_factor (none, h) = refused mem_error h
    init_self junk size verbosity work_factor (some self, h) =
        init_arrays junk size verbosity work_factor self h

    -- BZ2_bzCompressInit; `config_ok` is what bz_config_ok answers, `strm_null` tells that `strm` is NULL
    unfoldable pub compress_init : Bool → Bool → EState B.Coder → ℤ → ℤ → ℤ → Heap → Init
    compress_init config_ok strm_null junk size verbosity work_factor h =
        if not config_ok
        then refused config_error h
        else if strm_null || not (in_range 1 9 size) || not (in_range 0 250 work_factor)
        then refused param_error h
        else init_self junk (value size) verbosity work_factor (alloc h size_of)

    -- BZ2_bzCompressEnd on `strm->state`; `own` tells that it points back to `strm`
    unfoldable pub compress_end : Bool → Option Arrays → Heap → Code × Option Arrays × Heap
    compress_end own none h = (param_error, none, h)
    compress_end own (some a) h =
        if not own then (param_error, some a, h) else (ok, none, free_arrays a h)

    -- what BZ2_bzBuffToBuffCompress returns, what it wrote and the memory behind it
    pub record Written : Type 0 where
      pub code : Code
      pub dest : List ℕ
      pub dest_len : ℕ
      pub heap : Heap

    -- what follows the call of BZ2_bzCompress: its three ways out, all through BZ2_bzCompressEnd;
    -- nothing is left of a call that does not return
    unfoldable pub on_finished : Arrays → ℕ → Heap → Option (Code × EState B.Coder) → Option Written
    on_finished a len h none = none
    on_finished a len h (some (c, s)) = some (record {
      code = answer_of c;
      dest = s.strm.out;
      dest_len = length_of c len s.strm.avail_out;
      heap = (compress_end true (some a) h).2;
    })

    unfoldable pub on_init : ℕ → List ℕ → ℕ → Init → Option Written
    on_init addr source len (refused c h) =
        some (record { code = c; dest = []; dest_len = len; heap = h })
    on_init addr source len (opened a e h) = on_finished a len h (
        bz_compress B addr
          (record e { strm = record (e.strm) { next_in = source; out = []; avail_out = len } })
          finish)

    -- BZ2_bzBuffToBuffCompress; a pointer that is NULL has no buffer
    unfoldable pub buff_to_buff_compress :
        Bool → EState B.Coder → ℕ → Option ℕ → Option (List ℕ) → ℤ → ℤ → ℤ → Heap → Option Written
    buff_to_buff_compress config_ok junk addr (some len) (some source) size verbosity work_factor
          h =
        if not (in_range 1 9 size)
          || not (in_range 0 4 verbosity)
          || not (in_range 0 250 work_factor)
        then some (record { code = param_error; dest = []; dest_len = len; heap = h })
        else on_init addr source len
            (compress_init config_ok false junk size verbosity (pos (work_factor_of work_factor)) h)
    buff_to_buff_compress config_ok junk addr none source size verbosity work_factor h =
        some (record { code = param_error; dest = []; dest_len = 0; heap = h })
    buff_to_buff_compress config_ok junk addr (some len) none size verbosity work_factor h =
        some (record { code = param_error; dest = []; dest_len = len; heap = h })

  -- an opened decompressor, or the code that the call returns
  pub data DecodeInit : Type 0 where
    decoder : Decoder → Heap → DecodeInit
    not_opened : Code → Heap → DecodeInit

  unfoldable pub on_decoder : Bool → ℤ → Option ℕ × Heap → DecodeInit
  on_decoder small verbosity (none, h) = not_opened mem_error h
  on_decoder small verbosity (some self, h) =
      decoder
        (record {
          self = self;
          state = magic_1;
          bs_live = 0;
          bs_buff = 0;
          calculated_combined_crc = 0;
          small_decompress = small;
          ll4 = none;
          ll16 = none;
          tt = none;
          curr_block_no = 0;
          verbosity = verbosity;
          total_in_lo32 = 0;
          total_in_hi32 = 0;
          total_out_lo32 = 0;
          total_out_hi32 = 0;
        })
        h

  -- BZ2_bzDecompressInit
  unfoldable pub decompress_init : Bool → Bool → ℤ → ℤ → Heap → DecodeInit
  decompress_init config_ok strm_null verbosity small h =
      if not config_ok
      then not_opened config_error h
      else if strm_null || not (in_range 0 1 small) || not (in_range 0 4 verbosity)
      then not_opened param_error h
      else on_decoder (leb 1 (value small)) verbosity (alloc h size_of)

  -- BZ2_bzDecompressEnd
  unfoldable pub decompress_end : Bool → Option Decoder → Heap → Code × Option Decoder × Heap
  decompress_end own none h = (param_error, none, h)
  decompress_end own (some d) h =
      if not own
      then (param_error, some d, h)
      else (ok, none, release (free_some d.ll4 (free_some d.ll16 (free_some d.tt h))) d.self)
