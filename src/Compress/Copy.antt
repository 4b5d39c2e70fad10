-- ===== src/Compress/Copy.antt =====
-- What the two loops of copy_input_until_stop take, and why they stop.
use libqbz.Base.{ℕ, suc, ◌-◌, ◌≤◌, ◌<◌, List, [], ◌∷◌, Bool, true, false, arith}
use libqbz.Base.{◌≡◌, refl, ap, ◌∙◌, ◌⊎◌, inl, inr, length, leb}
use libqbz.Base.{◌==◌, Bool-cases, ◌||◌, ◌&&◌, not}
use libqbz.Rle.{nblock}
use libqbz.Compress.{absorb, copy_running, copy_expected, copy_input_until_stop}
use libqbz.Compress.Types.{Backend, EState}
use libqbz.Compress.Types.{is_running, advance_in}

module _ (B : Backend) (addr : ℕ) where
  open B use {Coder}

  -- Nothing taken, or at least one byte; the rest stays.
  pub record Takes (s t : EState Coder) : Type 0 where
    pub mode_same : t.mode ≡ s.mode
    pub max_same : t.nblock_max ≡ s.nblock_max
    pub fewer : (nblock t.blk ≡ nblock s.blk) ⊎ (length t.strm.next_in < length s.strm.next_in)
    pub at_most : length t.strm.next_in ≤ length s.strm.next_in

  Takes-refl : (s : EState Coder) → Takes s s
  Takes-refl s = record {
    mode_same = refl;
    max_same = refl;
    fewer = inl refl;
    at_most = omega arith;
  }

  -- after a byte
  Takes-step :
      (s u t : EState Coder) (rest : List ℕ)
      → u.mode ≡ s.mode
      → u.nblock_max ≡ s.nblock_max
      → length s.strm.next_in ≡ suc (length rest)
      → u.strm.next_in ≡ rest
      → Takes u t
      → Takes s t
  Takes-step s u t rest m x e r k = record {
    mode_same = k.mode_same ∙ m;
    max_same = k.max_same ∙ x;
    fewer = inr (omega (arith, k.at_most, ap length r, e));
    at_most = omega (arith, k.at_most, ap length r, e);
  }

  copy_running-Takes :
      (xs : List ℕ) (p : Bool) (s : EState Coder)
      → s.strm.next_in ≡ xs
      → Takes s (copy_running B addr xs p s).1
  unfolding copy_running
  copy_running-Takes [] p s e = Takes-refl s
  copy_running-Takes (c ∷ rest) p s e = elim (Bool-cases (leb s.nblock_max (nblock s.blk))) [
    | inl h ↦ rw h (Takes-refl s)
    | inr h ↦ rw h (
        Takes-step s (absorb B addr s c rest) _ rest (unfold absorb in refl) (unfold absorb in refl)
          (ap length e) (unfold absorb advance_in in refl)
          (copy_running-Takes rest true (absorb B addr s c rest)
            (unfold absorb advance_in in refl)))
  ]

  copy_expected-Takes :
      (xs : List ℕ) (p : Bool) (s : EState Coder)
      → s.strm.next_in ≡ xs
      → Takes s (copy_expected B addr xs p s).1
  unfolding copy_expected
  copy_expected-Takes [] p s e = Takes-refl s
  copy_expected-Takes (c ∷ rest) p s e =
      elim (Bool-cases (leb s.nblock_max (nblock s.blk) || s.avail_in_expect == 0)) [
        | inl h ↦ rw h (Takes-refl s)
        | inr h ↦ rw h (
            Takes-step s (taken c rest s) _ rest (unfold absorb in refl) (unfold absorb in refl)
              (ap length e) (unfold absorb advance_in in refl)
              (copy_expected-Takes rest true (taken c rest s) (unfold absorb advance_in in refl)))
      ]
    where
      taken : ℕ → List ℕ → EState Coder → EState Coder
      taken c rest s = record (absorb B addr s c rest) { avail_in_expect = s.avail_in_expect - 1 }

  pub copy_input-Takes : (s : EState Coder) → Takes s (copy_input_until_stop B addr s).1
  unfolding copy_input_until_stop
  copy_input-Takes s = elim (Bool-cases (is_running s.mode)) [
    | inl h ↦ rw h (copy_running-Takes s.strm.next_in false s refl)
    | inr h ↦ rw h (copy_expected-Takes s.strm.next_in false s refl)
  ]

  -- why a copy stopped
  abbrev pub ended : EState Coder → Bool
  ended t =
      leb t.nblock_max (nblock t.blk)
      || length t.strm.next_in == 0
      || not (is_running t.mode) && t.avail_in_expect == 0

  copy_running-ended :
      (xs : List ℕ) (p : Bool) (s : EState Coder)
      → s.strm.next_in ≡ xs
      → ended (copy_running B addr xs p s).1 ≡ true
  unfolding copy_running
  copy_running-ended [] p s e = ground (arith, ap length e)
  copy_running-ended (c ∷ rest) p s e = elim (Bool-cases (leb s.nblock_max (nblock s.blk))) [
    | inl h ↦ rw h (rw h refl)
    | inr h ↦
        rw h
          (copy_running-ended rest true (absorb B addr s c rest) (unfold absorb advance_in in refl))
  ]

  copy_expected-ended :
      (xs : List ℕ) (p : Bool) (s : EState Coder)
      → is_running s.mode ≡ false
      → s.strm.next_in ≡ xs
      → ended (copy_expected B addr xs p s).1 ≡ true
  unfolding copy_expected
  copy_expected-ended [] p s m e = ground (arith, ap length e)
  copy_expected-ended (c ∷ rest) p s m e =
      elim (Bool-cases (leb s.nblock_max (nblock s.blk) || s.avail_in_expect == 0)) [
        | inl h ↦ rw h (ground (arith, h, m))
        | inr h ↦ rw h (
            copy_expected-ended rest true
              (record (absorb B addr s c rest) { avail_in_expect = s.avail_in_expect - 1 })
              (unfold absorb in m) (unfold absorb advance_in in refl))
      ]

  pub copy_input-ended : (s : EState Coder) → ended (copy_input_until_stop B addr s).1 ≡ true
  unfolding copy_input_until_stop
  copy_input-ended s = elim (Bool-cases (is_running s.mode)) [
    | inl h ↦ rw h (copy_running-ended s.strm.next_in false s refl)
    | inr h ↦ rw h (copy_expected-ended s.strm.next_in false s h refl)
  ]
