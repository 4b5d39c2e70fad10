-- ===== src/Rle/Coded.antt =====
-- The invariant of a block under construction: it decodes to the bytes absorbed, less the run that
-- is still pending, and its CRC and its flags are those of what it holds.
use libqbz.Base.{ℕ, zero, suc, ◌+◌, ◌≤◌, ◌<◌, List, [], ◌∷◌, ◌++◌, Bool, true}
use libqbz.Base.{◌≡◌, refl, sym, ap, ap₂, ◌∙◌, ◌⊎◌, ◌≢◌, arith}
use libqbz.Base.{replicate, ltb, if◌then◌else◌}
use libqbz.Crc.{update_crc, initial_crc}
use libqbz.Crc.Update.{AllBytes}
use libqbz.Crc.Whole.{crc_bytes-lt, crc_bytes-append, AllBytes-append}
use libqbz.Crc.Spec.{crc_bytes}
use libqbz.Rle.{BlockState, mark, crc_repeat, run_crc, run_bytes}
use libqbz.Rle.{run_marks, add_pair_to_block, add_char_to_block}
use libqbz.Rle.Decode.{fresh, decode, decode-append}
use libqbz.Rle.Laws.{Starts, within, decode_run, replicate-AllBytes, run_crc-crc_bytes, contains}
use libqbz.Rle.Laws.{contains-append, run_marks-contains}

-- What a block holds.
abbrev pub held : BlockState → List ℕ
held s = (decode fresh s.block).out

-- The run that has not been written yet.
abbrev pub pending : BlockState → List ℕ
pending s = if ltb s.state_in_ch 256 then replicate s.state_in_len s.state_in_ch else []

-- The block, its CRC and its flags describe the same bytes.
pub record IsConsistent (s : BlockState) : Type 0 where
  pub bytes : AllBytes (held s)
  pub crc : s.block_crc ≡ crc_bytes initial_crc (held s)
  pub flags : (j : ℕ) → s.in_use j ≡ contains s.block j

-- `consumed` has been absorbed.
pub record IsCoded (consumed : List ℕ) (s : BlockState) : Type 0 where
  pub consistent : IsConsistent s
  pub idle : s.state_in_ch ≡ 256 → (s.state_in_len ≡ 0) × (s.block ≡ [])
  pub in_range : s.state_in_ch ≤ 256
  pub busy : s.state_in_ch < 256 → (1 ≤ s.state_in_len) × (s.state_in_len ≤ 255)
  pub starts : s.state_in_ch < 256 → Starts (decode fresh s.block) s.state_in_ch
  pub text : held s ++ pending s ≡ consumed

pub pending_run :
    (ch len : ℕ) → ch < 256 → (if ltb ch 256 then replicate len ch else []) ≡ replicate len ch
pending_run ch len h = ground arith

pub pending_idle : (ch len : ℕ) → ch ≡ 256 → (if ltb ch 256 then replicate len ch else []) ≡ []
pending_idle ch len h = ground arith

pub replicate-append_one : (n : ℕ) (b : ℕ) → replicate n b ++ b ∷ [] ≡ replicate (n + 1) b
replicate-append_one zero b = refl
replicate-append_one (suc n) b =
    let e : suc n + 1 ≡ suc (n + 1) = omega arith in
    rw e (ap (λ t. b ∷ t) (replicate-append_one n b))

or_swap : (a b f : Bool) → f ≡ b → (if a then true else f) ≡ (if b then true else a)
or_swap a b f e = ground arith

-- Writing a run.
module _ (addr : ℕ) (s : BlockState) (k : IsConsistent s) (byte : s.state_in_ch < 256)
    (long : 1 ≤ s.state_in_len) (st : Starts (decode fresh s.block) s.state_in_ch) where
  pub add_pair-decode :
      decode fresh (add_pair_to_block addr s).block
      ≡ within s.state_in_ch
          (if ltb s.state_in_len 4 then s.state_in_len else 0)
          (held s ++ replicate s.state_in_len s.state_in_ch)
  unfolding add_pair_to_block
  add_pair-decode =
      decode-append fresh s.block (run_bytes s.state_in_ch s.state_in_len)
      ∙ decode_run (decode fresh s.block) s.state_in_ch s.state_in_len long st

  pub held-add_pair :
      held (add_pair_to_block addr s) ≡ held s ++ replicate s.state_in_len s.state_in_ch
  held-add_pair = ap (λ d. d.out) add_pair-decode

  pub add_pair-IsConsistent : IsConsistent (add_pair_to_block addr s)
  add_pair-IsConsistent = record {
    bytes =
        rw held-add_pair (
          AllBytes-append (held s) _ k.bytes
            (replicate-AllBytes s.state_in_len s.state_in_ch byte));
    crc = rw held-add_pair crc';
    flags = flags';
  }
    where
      crc' :
          (add_pair_to_block addr s).block_crc
          ≡ crc_bytes initial_crc (held s ++ replicate s.state_in_len s.state_in_ch)
      crc' =
          unfold add_pair_to_block in
          (ap (λ t. run_crc addr t s.state_in_ch s.state_in_len) k.crc
            ∙ run_crc-crc_bytes addr (crc_bytes initial_crc (held s)) s.state_in_ch s.state_in_len
                (crc_bytes-lt initial_crc (held s) (omega arith) k.bytes) byte
            ∙ sym (crc_bytes-append initial_crc (held s) _))

      flags' :
          (j : ℕ)
          → (add_pair_to_block addr s).in_use j ≡ contains (add_pair_to_block addr s).block j
      flags' j =
          unfold add_pair_to_block in
          (run_marks-contains s.in_use s.state_in_ch s.state_in_len j long
            ∙ or_swap _ _ _ (k.flags j)
            ∙ sym (contains-append s.block (run_bytes s.state_in_ch s.state_in_len) j))

  -- A new run after one that was written.
  pub add_pair-IsCoded :
      (c : ℕ) {consumed : List ℕ}
      → c < 256
      → s.state_in_len ≤ 255
      → (c ≢ s.state_in_ch) ⊎ (s.state_in_len ≡ 255)
      → held s ++ replicate s.state_in_len s.state_in_ch ≡ consumed
      → IsCoded
          (consumed ++ c ∷ [])
          (record (add_pair_to_block addr s) { state_in_ch = c; state_in_len = 1 })
  add_pair-IsCoded c {consumed = w} hc short fresh_run e = record {
    consistent = record {
      bytes = add_pair-IsConsistent.bytes;
      crc = add_pair-IsConsistent.crc;
      flags = add_pair-IsConsistent.flags;
    };
    idle = λ e'. absurd (omega arith);
    in_range = omega arith;
    busy = λ h. omega arith;
    starts = λ h. rw add_pair-decode (ground arith);
    text = ap₂ ◌++◌ (held-add_pair ∙ e) (pending_run c 1 hc);
  }

-- A run of one byte is written as the fast path writes it.
module _ (addr ch n : ℕ) (one : n ≡ 1) where
  run_crc_one : (c : ℕ) → update_crc c ch ≡ run_crc addr c ch n
  unfolding run_crc crc_repeat
  run_crc_one c = sym (ap (run_crc addr c ch) one)

  run_bytes_one : ch ∷ [] ≡ run_bytes ch n
  unfolding run_bytes
  run_bytes_one = sym (ap (run_bytes ch) one)

  run_marks_one : (f : ℕ → Bool) → mark f ch ≡ run_marks f ch n
  unfolding run_marks
  run_marks_one f = sym (ap (run_marks f ch) one)

module _ (addr : ℕ) where
  -- The fast path of ADD_CHAR_TO_BLOCK does what the general path does.
  add_char_fast :
      (s : BlockState) (c : ℕ)
      → s.state_in_len ≡ 1
      → record s {
        block_crc = update_crc s.block_crc s.state_in_ch;
        in_use = mark s.in_use s.state_in_ch;
        block = s.block ++ (s.state_in_ch ∷ []);
        state_in_ch = c;
      }
        ≡ record (add_pair_to_block addr s) { state_in_ch = c; state_in_len = 1 }
  unfolding add_pair_to_block
  add_char_fast s c e = λ i. record {
    state_in_ch = c;
    state_in_len = e i;
    block = s.block ++ run_bytes_one addr s.state_in_ch s.state_in_len e i;
    in_use = run_marks_one addr s.state_in_ch s.state_in_len e s.in_use i;
    block_crc = run_crc_one addr s.state_in_ch s.state_in_len e s.block_crc i;
  }

  pub add_char_new :
      (s : BlockState) (c : ℕ)
      → s.state_in_ch < 256
      → (c ≢ s.state_in_ch) ⊎ (s.state_in_len ≡ 255)
      → add_char_to_block addr s c
        ≡ record (add_pair_to_block addr s) { state_in_ch = c; state_in_len = 1 }
  unfolding add_char_to_block
  add_char_new s c h o = ground (arith, add_char_fast s c)

  pub add_char_idle :
      (s : BlockState) (c : ℕ)
      → c < 256
      → s.state_in_ch ≡ 256
      → s.state_in_len ≡ 0
      → add_char_to_block addr s c ≡ record s { state_in_ch = c; state_in_len = 1 }
  unfolding add_char_to_block
  add_char_idle s c h e l = ground arith

  pub add_char_same :
      (s : BlockState) (c : ℕ)
      → c ≡ s.state_in_ch
      → s.state_in_len ≢ 255
      → add_char_to_block addr s c ≡ record s { state_in_len = s.state_in_len + 1 }
  unfolding add_char_to_block
  add_char_same s c e l = ground arith
