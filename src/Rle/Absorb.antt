-- ===== src/Rle/Absorb.antt =====
-- Absorbing bytes, flushing and starting a block keep the invariant, and the block in bounds.
use mathlib.Core.List.{append_assoc, append-nil}
use libqbz.Base.{ℕ, ◌+◌, ◌≤◌, ◌<◌, List, [], ◌∷◌, ◌++◌, true}
use libqbz.Base.{◌≡◌, refl, sym, ap, ◌∙◌, ◌⊎◌, inl, inr, ◌≢◌, arith}
use libqbz.Base.{replicate}
use libqbz.Crc.Spec.{crc_bytes}
use libqbz.Rle.{BlockState, nblock, init_rl, prepare_block}
use libqbz.Rle.{add_pair_to_block, flush_rl, add_char_to_block, isempty_rl}
use libqbz.Rle.Decode.{decode}
use libqbz.Rle.Coded.{IsCoded, IsConsistent, held, pending, pending_run, pending_idle}
use libqbz.Rle.Coded.{replicate-append_one, add_char_new, add_char_idle, add_char_same}
use libqbz.Rle.Coded.{held-add_pair, add_pair-IsConsistent, add_pair-IsCoded}

range_cases : (ch : ℕ) → ch ≤ 256 → (ch < 256) ⊎ (ch ≡ 256)
range_cases ch h = grind arith

run_cases : (c ch len : ℕ) → ((c ≢ ch) ⊎ (len ≡ 255)) ⊎ ((c ≡ ch) × (len ≢ 255))
run_cases c ch len = grind arith

module _ {consumed : List ℕ} {s : BlockState} (k : IsCoded consumed s) where
  idle-IsCoded :
      (c : ℕ)
      → c < 256
      → s.state_in_ch ≡ 256
      → IsCoded (consumed ++ c ∷ []) (record s { state_in_ch = c; state_in_len = 1 })
  unfolding decode
  idle-IsCoded c hc e = record {
    consistent = record {
      bytes = k.consistent.bytes;
      crc = k.consistent.crc;
      flags = k.consistent.flags;
    };
    idle = λ e'. absurd (omega arith);
    in_range = omega arith;
    busy = λ h. omega arith;
    starts = λ h. rw (k.idle e).1 (inl refl);
    text =
        ap (λ t. held s ++ t) (pending_run c 1 hc)
        ∙ ap (λ t. t ++ c ∷ [])
            (sym (append-nil (held s))
              ∙ ap (λ t. held s ++ t) (sym (pending_idle s.state_in_ch s.state_in_len e))
              ∙ k.text);
  }

  same-IsCoded :
      (c : ℕ)
      → s.state_in_ch < 256
      → c ≡ s.state_in_ch
      → s.state_in_len ≢ 255
      → IsCoded (consumed ++ c ∷ []) (record s { state_in_len = s.state_in_len + 1 })
  same-IsCoded c h e l = record {
    consistent = record {
      bytes = k.consistent.bytes;
      crc = k.consistent.crc;
      flags = k.consistent.flags;
    };
    idle = λ e'. absurd (omega arith);
    in_range = k.in_range;
    busy = λ h'. omega (arith, k.busy h);
    starts = k.starts;
    text =
        ap (λ t. held s ++ t)
          (pending_run s.state_in_ch (s.state_in_len + 1) h
            ∙ sym (replicate-append_one s.state_in_len s.state_in_ch)
            ∙ ap (λ t. replicate s.state_in_len s.state_in_ch ++ t ∷ []) (sym e))
        ∙ sym (append_assoc (held s) _ (c ∷ []))
        ∙ ap (λ t. t ++ c ∷ []) written;
  }
    where
      written : held s ++ replicate s.state_in_len s.state_in_ch ≡ consumed
      written = ap (λ t. held s ++ t) (sym (pending_run s.state_in_ch s.state_in_len h)) ∙ k.text

  written : s.state_in_ch < 256 → held s ++ replicate s.state_in_len s.state_in_ch ≡ consumed
  written h = ap (λ t. held s ++ t) (sym (pending_run s.state_in_ch s.state_in_len h)) ∙ k.text

init_rl-IsConsistent : (t : BlockState) → IsConsistent t → IsConsistent (init_rl t)
unfolding init_rl
init_rl-IsConsistent t k = record { bytes = k.bytes; crc = k.crc; flags = k.flags }

held-init_rl : (t : BlockState) → held (init_rl t) ≡ held t
unfolding init_rl
held-init_rl t = refl

isempty-init_rl : (t : BlockState) → isempty_rl (init_rl t) ≡ true
unfolding init_rl isempty_rl
isempty-init_rl t = refl

flush_writes :
    (addr : ℕ) (s : BlockState)
    → s.state_in_ch < 256
    → flush_rl addr s ≡ init_rl (add_pair_to_block addr s)
unfolding flush_rl
flush_writes addr s h = ground arith

flush_idle : (addr : ℕ) (s : BlockState) → s.state_in_ch ≡ 256 → flush_rl addr s ≡ init_rl s
unfolding flush_rl
flush_idle addr s h = ground arith

module _ (addr : ℕ) {consumed : List ℕ} {s : BlockState} where
  -- Where the bytes `consumed` have been absorbed, ADD_CHAR_TO_BLOCK with a byte absorbs it too: what
  -- the block decodes to, with the pending run after it, is `consumed` and that byte, the CRC and the
  -- byte flags stay those of what the block holds, and the pending run stays in range.
  pub add_char-IsCoded :
      (c : ℕ)
      → c < 256
      → IsCoded consumed s
      → IsCoded (consumed ++ c ∷ []) (add_char_to_block addr s c)
  add_char-IsCoded c hc k = elim (range_cases s.state_in_ch k.in_range) [
    | inr e ↦ rw (add_char_idle addr s c hc e (k.idle e).0) (idle-IsCoded k c hc e)
    | inl h ↦ elim (run_cases c s.state_in_ch s.state_in_len) [
      | inl fresh_run ↦ rw (add_char_new addr s c h fresh_run) (
          add_pair-IsCoded addr s k.consistent h (k.busy h).0 (k.starts h) c hc (k.busy h).1
            fresh_run (written k h))
      | inr old ↦ rw (add_char_same addr s c old.0 old.1) (same-IsCoded k c h old.0 old.1)
    ]
  ]

  -- Where the bytes `consumed` have been absorbed, after flush_RL the block decodes to all of them,
  -- its CRC is theirs and its flags are those of its bytes, and no run is pending.
  pub flush_rl-IsConsistent :
      IsCoded consumed s
      → IsConsistent (flush_rl addr s)
        × (held (flush_rl addr s) ≡ consumed)
        × (isempty_rl (flush_rl addr s) ≡ true)
  flush_rl-IsConsistent k = elim (range_cases s.state_in_ch k.in_range) [
    | inl h ↦ rw (flush_writes addr s h) (
      init_rl-IsConsistent _
          (add_pair-IsConsistent addr s k.consistent h (k.busy h).0 (k.starts h)),
      held-init_rl _ ∙ held-add_pair addr s k.consistent h (k.busy h).0 (k.starts h) ∙ written k h,
      isempty-init_rl _,
    )
    | inr e ↦ rw (flush_idle addr s e) (
      init_rl-IsConsistent s k.consistent,
      held-init_rl s
          ∙ sym (append-nil (held s))
          ∙ ap (λ t. held s ++ t) (sym (pending_idle s.state_in_ch s.state_in_len e))
          ∙ k.text,
      isempty-init_rl s,
    )
  ]

-- A run between blocks: nothing, or one to 255 equal bytes.
pub record IsRun (s : BlockState) : Type 0 where
  pub idle : s.state_in_ch ≡ 256 → s.state_in_len ≡ 0
  pub in_range : s.state_in_ch ≤ 256
  pub busy : s.state_in_ch < 256 → (1 ≤ s.state_in_len) × (s.state_in_len ≤ 255)

pub IsCoded-IsRun : {consumed : List ℕ} {s : BlockState} → IsCoded consumed s → IsRun s
IsCoded-IsRun k = record { idle = λ e. (k.idle e).0; in_range = k.in_range; busy = k.busy }

pub flush_rl-IsRun : (addr : ℕ) (s : BlockState) → IsRun (flush_rl addr s)
unfolding flush_rl init_rl
flush_rl-IsRun addr s = record {
  idle = λ e. refl;
  in_range = omega arith;
  busy = λ h. absurd (omega arith);
}

pub pending-flush_rl : (addr : ℕ) (s : BlockState) → pending (flush_rl addr s) ≡ []
unfolding flush_rl init_rl
pending-flush_rl addr s = refl

-- Where the run-length state is nothing or a run of one to 255 bytes, prepare_new_block starts a
-- block that has absorbed the bytes of that run and no others.
pub prepare_block-IsCoded : (s : BlockState) → IsRun s → IsCoded (pending s) (prepare_block s)
unfolding prepare_block decode crc_bytes
prepare_block-IsCoded s k = record {
  consistent = record { bytes = tt; crc = refl; flags = λ j. refl };
  idle = λ e. (k.idle e, refl);
  in_range = k.in_range;
  busy = k.busy;
  starts = λ h. inl refl;
  text = refl;
}

pub nblock-prepare_block : (s : BlockState) → nblock (prepare_block s) ≡ 0
unfolding prepare_block
nblock-prepare_block s = refl

-- A block whose run-length state was reset by init_RL starts empty.
pub init-IsCoded : (s : BlockState) → IsCoded [] (prepare_block (init_rl s))
unfolding prepare_block init_rl decode crc_bytes
init-IsCoded s = record {
  consistent = record { bytes = tt; crc = refl; flags = λ j. refl };
  idle = λ e. (refl, refl);
  in_range = omega arith;
  busy = λ h. absurd (omega arith);
  starts = λ h. inl refl;
  text = refl;
}
