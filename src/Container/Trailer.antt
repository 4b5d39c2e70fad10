-- ===== src/Container/Trailer.antt =====
-- The trailer that the compressor writes ends the parse, with the CRC that it holds.
use mathlib.Core.List.{append_assoc, append-nil}
use libqbz.Base.{ℕ, ◌+◌, ◌*◌, ◌/◌, ◌%◌, ◌^◌, ◌<◌, ◌≤◌, List, [], ◌∷◌, ◌++◌, Bool}
use libqbz.Base.{◌≡◌, refl, sym, ap, ◌∙◌, arith, bit_or, length, length-append, drop}
use mathlib.Core.Path.{subst}
use libqbz.Base.Or.{or_fields}
use libqbz.Bits.{bits, byte_bits}
use libqbz.Bits.Laws.{word_bits, byte_bits-append, append-cancel, length-bits}
use libqbz.Bits.Reader.{Reader}
use libqbz.Bits.Reader.Laws.{contents, IsValid}
use libqbz.Bits.Writer.{Writer}
use libqbz.Bits.Writer.Laws as Written
use libqbz.Bits.Writer.Whole.{put_uint32-contents}
use libqbz.Compress.Types.{Code, stream_end}
use libqbz.Container.{put_bytes, write_trailer}
use libqbz.Container.Run.{put_bytes-contents, Runs, switch-Runs, on_value}
use libqbz.Decompress.{after, after_trailer, shift_in, expect}
use libqbz.Decompress.Leave.{kept, kept_lem}
use libqbz.Decompress.Types.{Label, DState, Locals, Saved, restore, save_state, idle}
use libqbz.Decompress.Types.{blkhdr_1, endhdr_2, endhdr_3, endhdr_4, endhdr_5, endhdr_6}
use libqbz.Decompress.Types.{ccrc_1, ccrc_2, ccrc_3, ccrc_4}
use libqbz.Decompress.Parse.{Exit, starved_exit, return_exit, tables_exit, exhausted, on_step}
use libqbz.Decompress.Parse.{Outcome, stopped, switch, give_back, leave, parse}
use libqbz.Decompress.Resume.{seen, sees_stopped, length-contents, length-byte_bits}

-- the bytes of a word, most significant first
abbrev pub byte3 : ℕ → ℕ
byte3 u = u / 2 ^ 24 % 2 ^ 8

abbrev pub byte2 : ℕ → ℕ
byte2 u = u / 2 ^ 16 % 2 ^ 8

abbrev pub byte1 : ℕ → ℕ
byte1 u = u / 2 ^ 8 % 2 ^ 8

abbrev pub byte0 : ℕ → ℕ
byte0 u = u % 2 ^ 8

word_bytes :
    (u : ℕ) → u < 2 ^ 32 → bits 32 u ≡ byte_bits (byte3 u ∷ byte2 u ∷ byte1 u ∷ byte0 u ∷ [])
word_bytes u h =
    ap (bits 32) whole
    ∙ word_bits (byte3 u) (byte2 u) (byte1 u) (byte0 u) (omega arith) (omega arith) (omega arith)
  where
    whole : u ≡ ((byte3 u * 2 ^ 8 + byte2 u) * 2 ^ 8 + byte1 u) * 2 ^ 8 + byte0 u
    whole = omega arith

shift_in_lem : (x b : ℕ) → x < 2 ^ 24 → b < 2 ^ 8 → shift_in x b ≡ x * 2 ^ 8 + b
shift_in_lem x b h g = ap (λ t. bit_or t b) (omega arith) ∙ or_fields 8 x b g

shifted :
    (u : ℕ)
    → u < 2 ^ 32
    → shift_in (shift_in (shift_in (shift_in 0 (byte3 u)) (byte2 u)) (byte1 u)) (byte0 u) ≡ u
shifted u h =
    let one = shift_in_lem 0 (byte3 u) (omega arith) (omega arith) in
    let two = shift_in_lem (shift_in 0 (byte3 u)) (byte2 u) (omega (arith, one)) (omega arith) in
    let three =
      shift_in_lem (shift_in (shift_in 0 (byte3 u)) (byte2 u)) (byte1 u) (omega (arith, one, two))
        (omega arith) in
    let four =
      shift_in_lem (shift_in (shift_in (shift_in 0 (byte3 u)) (byte2 u)) (byte1 u)) (byte0 u)
        (omega (arith, one, two, three)) (omega arith) in
    omega (arith, one, two, three, four)

-- the magic number, and the first three bytes of the CRC
abbrev pub magic : List ℕ → List ℕ
magic rest = 0x17 ∷ 0x72 ∷ 0x45 ∷ 0x38 ∷ 0x50 ∷ 0x90 ∷ rest

trailer_path :
    (alloc : ℕ → Bool) (s : DState) (v : Locals) (a b c : ℕ)
    → Runs alloc blkhdr_1 s v
        (magic (a ∷ b ∷ c ∷ []))
        ccrc_4
        (record s { state = ccrc_3; stored_combined_crc = shift_in (shift_in (shift_in 0 a) b) c })
unfolding after after_trailer expect
trailer_path alloc s v a b c =
    let enter = λ (l : Label). record s { state = l } in
    let crc = λ (l : Label) (x : ℕ). record s { state = l; stored_combined_crc = x } in
    (
      endhdr_2,
      enter blkhdr_1,
      refl,
      refl,
      refl,
      (
        endhdr_3,
        enter endhdr_2,
        refl,
        refl,
        refl,
        (
          endhdr_4,
          enter endhdr_3,
          refl,
          refl,
          refl,
          (
            endhdr_5,
            enter endhdr_4,
            refl,
            refl,
            refl,
            (
              endhdr_6,
              enter endhdr_5,
              refl,
              refl,
              refl,
              (
                ccrc_1,
                crc endhdr_6 0,
                refl,
                refl,
                refl,
                (
                  ccrc_2,
                  crc ccrc_1 (shift_in 0 a),
                  refl,
                  refl,
                  refl,
                  (
                    ccrc_3,
                    crc ccrc_2 (shift_in (shift_in 0 a) b),
                    refl,
                    refl,
                    refl,
                    (
                      ccrc_4,
                      crc ccrc_3 (shift_in (shift_in (shift_in 0 a) b) c),
                      refl,
                      refl,
                      refl,
                      (refl, refl),
                    ),
                  ),
                ),
              ),
            ),
          ),
        ),
      ),
    )

-- the digits of the trailer
pub trailer_digits :
    (w : Writer) (crc : ℕ)
    → Written.IsValid w
    → crc < 2 ^ 32
    → Written.contents (write_trailer w crc)
      ≡ Written.contents w
        ++ (byte_bits (magic (byte3 crc ∷ byte2 crc ∷ byte1 crc ∷ [])) ++ bits 8 (byte0 crc))
unfolding write_trailer
trailer_digits w crc k h =
    let front = put_bytes-contents w (magic []) k (omega arith) in
    (put_uint32-contents (put_bytes w (magic [])) crc front.0 h).1
    ∙ ap (λ t. t ++ bits 32 crc) front.1
    ∙ append_assoc (Written.contents w) (byte_bits (magic [])) (bits 32 crc)
    ∙ ap (λ t. Written.contents w ++ t)
        (ap (λ t. byte_bits (magic []) ++ t) (word_bytes crc h)
          ∙ sym (byte_bits-append (magic []) (byte3 crc ∷ byte2 crc ∷ byte1 crc ∷ byte0 crc ∷ []))
          ∙ byte_bits-append (magic (byte3 crc ∷ byte2 crc ∷ byte1 crc ∷ [])) (byte0 crc ∷ [])
          ∙ ap (λ t. byte_bits (magic (byte3 crc ∷ byte2 crc ∷ byte1 crc ∷ [])) ++ t)
              (last_byte (byte0 crc)))
  where
    last_byte : (b : ℕ) → byte_bits (b ∷ []) ≡ bits 8 b
    last_byte b = unfold byte_bits in append-nil (bits 8 b)

-- The call returned the code `c` with the state `s` and the save area `w`; the bit buffer is empty,
-- and the input holds the digits `ds`.
abbrev pub Stops : Code → DState → Saved → List ℕ → Outcome → Type 0
Stops c s w ds (stopped b u x t) =
    (b ≡ c) × (u ≡ s) × (x ≡ w) × (t.bs_live ≡ 0) × (t.bs_buff ≡ 0) × (byte_bits t.next_in ≡ ds)
Stops c s w ds _ = ⊥

-- A trailer leaves the switch with its CRC.
switch-trailer :
    (crc : ℕ) (rest : List ℕ) (alloc : ℕ → Bool) (s : DState) (v : Locals) (r : Reader)
    → crc < 2 ^ 32
    → IsValid r
    → contents r
      ≡ (byte_bits (magic (byte3 crc ∷ byte2 crc ∷ byte1 crc ∷ [])) ++ bits 8 (byte0 crc)) ++ rest
    → seen [] (switch alloc blkhdr_1 s v r)
      ≡ sees_stopped stream_end (record s { state = idle; stored_combined_crc = crc }) v rest
unfolding after after_trailer on_step
switch-trailer crc rest alloc s v r h k e =
    let run =
      switch-Runs alloc (magic (byte3 crc ∷ byte2 crc ∷ byte1 crc ∷ [])) blkhdr_1 ccrc_4 s
        (record s {
          state = ccrc_3;
          stored_combined_crc =
              shift_in (shift_in (shift_in 0 (byte3 crc)) (byte2 crc)) (byte1 crc);
        })
        v r (bits 8 (byte0 crc) ++ rest) k (omega arith)
        (e ∙ append_assoc _ (bits 8 (byte0 crc)) rest)
        (trailer_path alloc s v (byte3 crc) (byte2 crc) (byte1 crc)) in
    let end =
      on_value alloc ccrc_4 _ v run.0 (byte0 crc) rest run.1 (omega arith) (omega arith) run.2 in
    run.3 ∙ ap (seen []) end.3 ∙ (λ i.
      sees_stopped stream_end (record s { state = idle; stored_combined_crc = shifted crc h i }) v
        ((append-nil (contents end.0) ∙ end.2) i))

-- where the switch was left, out of what is seen of it
returned :
    (c : Code) (s : DState) (v : Locals) (ds : List ℕ) (e : Exit)
    → seen [] e ≡ sees_stopped c s v ds
    → (t : Reader) × (e ≡ return_exit c s v t) × (contents t ≡ ds)
returned c s v ds (return_exit b u x t) h =
    let same_code : b ≡ c = cc in
    let same_state : u ≡ s = cc in
    let same_locals : x ≡ v = cc in
    let same_digits : contents t ++ [] ≡ ds = cc in
    (
      t,
      λ i. return_exit (same_code i) (same_state i) (same_locals i) t,
      sym (append-nil _) ∙ same_digits,
    )
returned c s v ds (starved_exit u x t) h = absurd (cc)
returned c s v ds (tables_exit u x t) h = absurd (cc)
returned c s v ds exhausted h = absurd (cc)

-- The trailer has more digits than the bit buffer, so that what is given back is input of this call.
room :
    (crc : ℕ) (r t : Reader)
    → IsValid r
    → contents r
      ≡ (byte_bits (magic (byte3 crc ∷ byte2 crc ∷ byte1 crc ∷ [])) ++ bits 8 (byte0 crc))
        ++ contents t
    → length (contents t) ≤ 8 * length r.next_in
room crc r t k e = omega (
  arith,
  k.live,
  ap length e,
  length-contents r,
  length-append (byte_bits (magic (byte3 crc ∷ byte2 crc ∷ byte1 crc ∷ [])) ++ bits 8 (byte0 crc))
      (contents t),
  length-append (byte_bits (magic (byte3 crc ∷ byte2 crc ∷ byte1 crc ∷ []))) (bits 8 (byte0 crc)),
  length-byte_bits (magic (byte3 crc ∷ byte2 crc ∷ byte1 crc ∷ [])),
  length-bits 8 (byte0 crc),
)

-- For a valid writer and a CRC of 32 digits, let `ds` be the digits that the trailer of
-- BZ2_compressBlock adds. On a valid reader that holds `ds` and then `rest`, in the state where a
-- block header or a trailer is expected, BZ2_decompress returns BZ_STREAM_END with that CRC as
-- storedCombinedCRC, idle, with the rest of its state and its saved locals as they were. It has given
-- back the whole bytes of `rest` that it held: the bit buffer is empty, and the input holds `rest` but
-- for its first digits, up to seven, which fill no byte.
pub parse-write_trailer :
    (w : Writer) (crc : ℕ) (ds rest : List ℕ) (alloc : ℕ → Bool) (s : DState) (saved : Saved)
    (r : Reader)
    → Written.IsValid w
    → crc < 2 ^ 32
    → Written.contents (write_trailer w crc) ≡ Written.contents w ++ ds
    → IsValid r
    → contents r ≡ ds ++ rest
    → Stops stream_end
        (record s { state = idle; stored_combined_crc = crc })
        saved
        (drop (length rest % 8) rest)
        (parse alloc (record s { state = blkhdr_1 }) saved r)
unfolding parse leave give_back restore save_state bits
parse-write_trailer w crc ds rest alloc s saved r kw h ew k e =
    let u : DState = record s { state = blkhdr_1 } in
    let sent = byte_bits (magic (byte3 crc ∷ byte2 crc ∷ byte1 crc ∷ [])) ++ bits 8 (byte0 crc) in
    let digits = append-cancel (Written.contents w) _ ds (sym (trailer_digits w crc kw h) ∙ ew) in
    let held : contents r ≡ sent ++ rest = e ∙ ap (λ t. t ++ rest) (sym digits) in
    let f =
      returned stream_end (record u { state = idle; stored_combined_crc = crc }) (restore saved)
        rest (switch alloc blkhdr_1 u (restore saved) r)
        (switch-trailer crc rest alloc u (restore saved) r h k held) in
    let left : contents r ≡ sent ++ contents f.0 = held ∙ ap (λ t. sent ++ t) (sym f.2) in
    subst
      (λ o.
        Stops stream_end (record s { state = idle; stored_combined_crc = crc }) saved
          (drop (length rest % 8) rest) (leave r.next_in o))
      (sym f.1)
      (
        refl,
        refl,
        refl,
        refl,
        refl,
        kept_lem stream_end r f.0 sent left (room crc r f.0 k left) ∙ ap (kept stream_end) f.2,
      )
