-- ===== src/Opening/Whole.antt =====
-- Opening fails with nothing left behind, and closing gives everything back.
use libqbz.Base.{ℕ, ◌+◌, ◌-◌, ◌*◌, ◌≤◌, ◌≡◌, refl, ap, ◌∙◌, arith, List, [], ◌∷◌}
use libqbz.Base.{Option, some, none, Bool, true, false, Bool-cases, inl, inr, leb}
use libqbz.Base.{◌&&◌, ◌||◌, not}
use libqbz.Decompress.Types.{magic_1}
use libqbz.Base.Ints.{ℤ, pos, negsuc}
use libqbz.Compress.{prepare_new_block}
use libqbz.Compress.Progress.{bz_compress-Returns}
use libqbz.Compress.Rounds.{is_some}
use libqbz.Compress.Types.{Backend, Code, EState, ok, running, finish}
use libqbz.Opening.{Memory, Setup, Arrays, Decoder, Init, opened, refused, in_range, value, is_null}
use libqbz.Opening.{free_some, free_arrays, first_state, init_arrays, init_self, compress_init}
use libqbz.Opening.{
  compress_end, Written, on_finished, on_init, buff_to_buff_compress, n_overshoot, work_factor_of,
}
use libqbz.Opening.{DecodeInit, decoder, not_opened, on_decoder, decompress_init, decompress_end}
use libqbz.Opening.Owned.{owned, Gains, Takes, Owns, alloc-Owns, release-Owns, free_some-Owns}

abbrev pub is_ok : Code → Bool
is_ok ok = true
is_ok _ = false

-- the pointers of a compressor and of a decompressor
abbrev pub array_list : Arrays → List (Option ℕ)
array_list a = a.arr1 ∷ a.arr2 ∷ a.ftab ∷ some a.self ∷ []

abbrev pub decoder_list : Decoder → List (Option ℕ)
decoder_list d = d.tt ∷ d.ll16 ∷ d.ll4 ∷ some d.self ∷ []

-- what the arguments of BZ2_bzDecompressInit have to be
abbrev pub accepted : Bool → Bool → ℤ → ℤ → Bool
accepted config_ok strm_null verbosity small =
    config_ok && not (strm_null || not (in_range 0 1 small) || not (in_range 0 4 verbosity))

-- A decompressor that has read nothing and holds no array.
pub record IsFresh (small : Bool) (d : Decoder) : Type 0 where
  pub at_start : d.state ≡ magic_1
  pub no_digits : d.bs_live ≡ 0
  pub no_buffer : d.bs_buff ≡ 0
  pub mode_is : d.small_decompress ≡ small
  pub no_tt : d.tt ≡ none
  pub no_ll16 : d.ll16 ≡ none
  pub no_ll4 : d.ll4 ≡ none
  pub no_block : d.curr_block_no ≡ 0
  pub no_crc : d.calculated_combined_crc ≡ 0
  pub no_totals :
      (d.total_in_lo32 ≡ 0)
      × (d.total_in_hi32 ≡ 0)
      × (d.total_out_lo32 ≡ 0)
      × (d.total_out_hi32 ≡ 0)

owned-cons :
    (k : ℕ) (p : Option ℕ) (ps : List (Option ℕ)) → owned k (p ∷ ps) ≡ owned k ps + owned k (p ∷ [])
owned-cons k none ps = omega arith
owned-cons k (some p) ps = omega arith

owned-reverse :
    (k : ℕ) (a b c : Option ℕ) (ps : List (Option ℕ))
    → owned k (c ∷ b ∷ a ∷ ps) ≡ owned k (a ∷ b ∷ c ∷ ps)
owned-reverse k a b c ps = omega (
  arith,
  owned-cons k c (b ∷ a ∷ ps),
  owned-cons k b (a ∷ ps),
  owned-cons k a ps,
  owned-cons k a (b ∷ c ∷ ps),
  owned-cons k b (c ∷ ps),
  owned-cons k c ps,
)

size_room : (z : ℤ) → in_range 1 9 z ≡ true → 1 ≤ 100000 * value z - 19
size_room (pos n) h = ground (arith, h)
size_room (negsuc n) h = absurd (ground (arith, h))

module _ (M : Memory) (size_of : ℕ) (held : M.Heap → ℕ → ℕ)
    (gains : (h : M.Heap) (n : ℕ) → Gains M held h (M.alloc h n)) (takes : Takes M held) where
  free_arrays-Owns :
      (before h : M.Heap) (a : Arrays)
      → Owns M held before (array_list a) h
      → Owns M held before [] (free_arrays M size_of a h)
  free_arrays-Owns before h a o =
      let h1 = free_some M size_of a.arr1 h in
      let h2 = free_some M size_of a.arr2 h1 in
      let o1 =
        free_some-Owns M held takes size_of before h (a.arr2 ∷ a.ftab ∷ some a.self ∷ []) a.arr1
          o in
      let o2 =
        free_some-Owns M held takes size_of before h1 (a.ftab ∷ some a.self ∷ []) a.arr2 o1 in
      let o3 = free_some-Owns M held takes size_of before h2 (some a.self ∷ []) a.ftab o2 in
      release-Owns M held takes before (free_some M size_of a.ftab h2) [] a.self o3

  module _ (B : Backend) (first_coder : Setup → B.Coder) where
    -- What BZ2_bzCompressInit leaves: an opened compressor with its four blocks, running, with room
    -- in its block; or an error, and what was held before.
    abbrev pub Opens : M.Heap → Init M size_of B first_coder → Type 0
    Opens before (opened a e h) =
        (is_null a.arr1 || is_null a.arr2 || is_null a.ftab) ≡ false
        × (1 ≤ e.nblock_max)
        × (e.mode ≡ running)
        × Owns M held before (array_list a) h
    Opens before (refused c h) = (is_ok c ≡ false) × Owns M held before [] h

    init_arrays-Opens :
        (before h : M.Heap) (junk : EState B.Coder) (size : ℕ) (verbosity work_factor : ℤ)
        (self : ℕ)
        → 1 ≤ 100000 * size - 19
        → Owns M held before (some self ∷ []) h
        → Opens before (init_arrays M size_of B first_coder junk size verbosity work_factor self h)
    unfolding init_arrays first_state prepare_new_block
    init_arrays-Opens before h junk size verbosity work_factor self room o =
        let a1 = M.alloc h (100000 * size * 4) in
        let a2 = M.alloc (a1.1) ((100000 * size + n_overshoot) * 4) in
        let a3 = M.alloc (a2.1) (65537 * 4) in
        let o1 = alloc-Owns M held before h (some self ∷ []) a1 o (gains h (100000 * size * 4)) in
        let o2 =
          alloc-Owns M held before (a1.1) (a1.0 ∷ some self ∷ []) a2 o1
            (gains (a1.1) ((100000 * size + n_overshoot) * 4)) in
        let o3 =
          alloc-Owns M held before (a2.1) (a2.0 ∷ a1.0 ∷ some self ∷ []) a3 o2
            (gains (a2.1) (65537 * 4)) in
        let all : Owns M held before (a1.0 ∷ a2.0 ∷ a3.0 ∷ some self ∷ []) (a3.1) = λ k.
          o3 k
          ∙ ap (λ (n : ℕ). held before k + n)
              (owned-reverse k (a1.0) (a2.0) (a3.0) (some self ∷ [])) in
        elim (Bool-cases (is_null (a1.0) || is_null (a2.0) || is_null (a3.0))) [
          | inl e ↦ rw e (
            refl,
            free_arrays-Owns before (a3.1)
                (record { self = self; arr1 = a1.0; arr2 = a2.0; ftab = a3.0 }) all,
          )
          | inr e ↦ rw e (e, room, refl, all)
        ]

    init_self-Opens :
        (before : M.Heap) (junk : EState B.Coder) (size : ℕ) (verbosity work_factor : ℤ)
        (a : Option ℕ × M.Heap)
        → 1 ≤ 100000 * size - 19
        → Gains M held before a
        → Opens before (init_self M size_of B first_coder junk size verbosity work_factor a)
    unfolding init_self
    init_self-Opens before junk size verbosity work_factor (none, h) room g =
        (refl, λ k. omega (arith, g k))
    init_self-Opens before junk size verbosity work_factor (some self, h) room g =
        init_arrays-Opens before h junk size verbosity work_factor self room
          (λ k. omega (arith, g k))

    -- With memory functions that hand out a block or nothing, and take back what they handed out:
    -- BZ2_bzCompressInit either opens a running compressor that holds its four blocks, none of them
    -- NULL, with room for a byte in its block, or returns an error and holds nothing more than before.
    pub compress_init-Opens :
        (config_ok strm_null : Bool) (junk : EState B.Coder) (size verbosity work_factor : ℤ)
        (h : M.Heap)
        → Opens h (
            compress_init M size_of B first_coder config_ok strm_null junk size verbosity
              work_factor h)
    unfolding compress_init
    compress_init-Opens false strm_null junk size verbosity work_factor h = (refl, λ k. omega arith)
    compress_init-Opens true strm_null junk size verbosity work_factor h =
        elim (Bool-cases
          (strm_null || not (in_range 1 9 size) || not (in_range 0 250 work_factor))) [
            | inl e ↦ rw e (refl, λ k. omega arith)
            | inr e ↦ rw e (
                init_self-Opens h junk (value size) verbosity work_factor (M.alloc h size_of)
                  (size_room size
                    (second strm_null (in_range 1 9 size) (in_range 0 250 work_factor) e))
                  (gains h size_of))
          ]
      where
        second : (a b c : Bool) → (a || not b || not c) ≡ false → b ≡ true
        second true b c e = absurd (ground (arith, e))
        second false true c e = refl
        second false false c e = absurd (ground (arith, e))

    -- BZ2_bzCompressEnd on a compressor that holds its blocks returns BZ_OK and gives all of them back.
    pub compress_end-Owns :
        (before h : M.Heap) (a : Arrays)
        → Owns M held before (array_list a) h
        → ((compress_end M size_of B first_coder true (some a) h).0 ≡ ok)
          × Owns M held before [] ((compress_end M size_of B first_coder true (some a) h).2)
    unfolding compress_end
    compress_end-Owns before h a o = (refl, free_arrays-Owns before h a o)

    -- The call came back, with nothing held beyond `before`.
    abbrev pub Settles : M.Heap → Option (Written M size_of B first_coder) → Type 0
    Settles before none = ⊥
    Settles before (some w) = Owns M held before [] w.heap

    finished-Settles :
        (before h : M.Heap) (a : Arrays) (len : ℕ) (o : Option (Code × EState B.Coder))
        → is_some o ≡ true
        → Owns M held before (array_list a) h
        → Settles before (on_finished M size_of B first_coder a len h o)
    unfolding on_finished compress_end
    finished-Settles before h a len none i o = absurd (ground (arith, i))
    finished-Settles before h a len (some (c, s)) i o = free_arrays-Owns before h a o

    init-Settles :
        (addr : ℕ) (before : M.Heap) (source : List ℕ) (len : ℕ) (o : Init M size_of B first_coder)
        → Opens before o
        → Settles before (on_init M size_of B first_coder addr source len o)
    unfolding on_init
    init-Settles addr before source len (opened a e h) o =
        finished-Settles before h a len _
          (bz_compress-Returns B addr
            (record e { strm = record (e.strm) { next_in = source; out = []; avail_out = len } })
            finish o.1)
          o.3
    init-Settles addr before source len (refused c h) o = o.1

    -- With memory functions that hand out a block or nothing, and take back what they handed out,
    -- and with any block coder: BZ2_bzBuffToBuffCompress returns for all its arguments, NULL or out
    -- of range as they may be, and holds no memory afterwards that it did not hold before.
    pub buff_to_buff_compress-Settles :
        (config_ok : Bool) (junk : EState B.Coder) (addr : ℕ) (dest : Option ℕ)
        (source : Option (List ℕ)) (size verbosity work_factor : ℤ) (h : M.Heap)
        → Settles h (
            buff_to_buff_compress M size_of B first_coder config_ok junk addr dest source size
              verbosity work_factor h)
    unfolding buff_to_buff_compress
    buff_to_buff_compress-Settles config_ok junk addr none source size verbosity work_factor h =
        λ k. omega arith
    buff_to_buff_compress-Settles config_ok junk addr (some len) none size verbosity work_factor h =
        λ k. omega arith
    buff_to_buff_compress-Settles config_ok junk addr (some len) (some source) size verbosity
          work_factor h =
        elim (Bool-cases (
          not (in_range 1 9 size)
          || not (in_range 0 4 verbosity)
          || not (in_range 0 250 work_factor))) [
            | inl e ↦ rw e (λ k. omega arith)
            | inr e ↦ rw e (
                init-Settles addr h source len _ (
                  compress_init-Opens config_ok false junk size verbosity
                    (pos (work_factor_of work_factor)) h))
          ]

  -- BZ2_bzDecompressEnd on a decompressor that holds its block, and of the three arrays those that are
  -- not NULL, returns BZ_OK and gives all of them back.
  pub decompress_end-Owns :
      (before h : M.Heap) (d : Decoder)
      → Owns M held before (decoder_list d) h
      → ((decompress_end M size_of true (some d) h).0 ≡ ok)
        × Owns M held before [] ((decompress_end M size_of true (some d) h).2)
  unfolding decompress_end
  decompress_end-Owns before h d o =
      let h1 = free_some M size_of d.tt h in
      let h2 = free_some M size_of d.ll16 h1 in
      let o1 =
        free_some-Owns M held takes size_of before h (d.ll16 ∷ d.ll4 ∷ some d.self ∷ []) d.tt o in
      let o2 = free_some-Owns M held takes size_of before h1 (d.ll4 ∷ some d.self ∷ []) d.ll16 o1 in
      let o3 = free_some-Owns M held takes size_of before h2 (some d.self ∷ []) d.ll4 o2 in
      (refl, release-Owns M held takes before (free_some M size_of d.ll4 h2) [] d.self o3)

  -- What BZ2_bzDecompressInit leaves, `good` telling that its arguments are good. Nothing is opened on
  -- bad ones; what is opened holds its own block, and closing it at once gives that back.
  abbrev pub DecoderOpens : M.Heap → Bool → Bool → DecodeInit M size_of → Type 0
  DecoderOpens before good small (decoder d h) =
      (good ≡ true)
      × IsFresh small d
      × Owns M held before (some d.self ∷ []) h
      × Owns M held before [] ((decompress_end M size_of true (some d) h).2)
  DecoderOpens before good small (not_opened c h) = (is_ok c ≡ false) × Owns M held before [] h

  on_decoder-DecoderOpens :
      (before : M.Heap) (small : Bool) (verbosity : ℤ) (a : Option ℕ × M.Heap)
      → Gains M held before a
      → DecoderOpens before true small (on_decoder M size_of small verbosity a)
  unfolding on_decoder
  on_decoder-DecoderOpens before small verbosity (none, h) g = (refl, λ k. omega (arith, g k))
  on_decoder-DecoderOpens before small verbosity (some self, h) g =
      let one : Owns M held before (some self ∷ []) h = λ k. omega (arith, g k) in
      (
        refl,
        record {
          at_start = refl;
          no_digits = refl;
          no_buffer = refl;
          mode_is = refl;
          no_tt = refl;
          no_ll16 = refl;
          no_ll4 = refl;
          no_block = refl;
          no_crc = refl;
          no_totals = (refl, refl, refl, refl);
        },
        one,
        (decompress_end-Owns before h _ one).1,
      )

  -- With memory functions that hand out a block or nothing, and take back what they handed out:
  -- BZ2_bzDecompressInit either opens a decompressor, only where the library is configured, `strm` is
  -- not NULL, `small` is 0 or 1 and `verbosity` is from 0 to 4; the decompressor holds exactly the one
  -- block of its DState, has no array, waits for the first byte of a stream with no digits held, no
  -- block begun and all counters 0, in the mode that `small` asks for, and BZ2_bzDecompressEnd on it
  -- gives its block back. Or it returns an error and holds nothing more than before.
  pub decompress_init-DecoderOpens :
      (config_ok strm_null : Bool) (verbosity small : ℤ) (h : M.Heap)
      → DecoderOpens h
          (accepted config_ok strm_null verbosity small)
          (leb 1 (value small))
          (decompress_init M size_of config_ok strm_null verbosity small h)
  unfolding decompress_init
  decompress_init-DecoderOpens false strm_null verbosity small h = (refl, λ k. omega arith)
  decompress_init-DecoderOpens true strm_null verbosity small h =
      elim (Bool-cases (strm_null || not (in_range 0 1 small) || not (in_range 0 4 verbosity))) [
        | inl e ↦ rw e (refl, λ k. omega arith)
        | inr e ↦ rw e (
            on_decoder-DecoderOpens h (leb 1 (value small)) verbosity (M.alloc h size_of)
              (gains h size_of))
      ]
