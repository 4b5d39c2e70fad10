-- ===== src/Unrle/Fast.antt =====
-- The fast loop writes what the block decodes to.
use mathlib.Core.Path.{subst}
use libqbz.Base.{ℕ, zero, suc, ◌+◌, ◌-◌, ◌<◌, ◌^◌, List, [], ◌∷◌, ◌++◌, replicate, length}
use libqbz.Base.{◌≡◌, refl, ap, ◌∙◌, sym, arith, Option, some, none, ◌==◌, ltb, if◌then◌else◌}
use libqbz.Base.{true, false, ◌⊎◌, inl, inr, Bool-cases, Bool}
use mathlib.Core.List.{append_assoc, append-nil}
use libqbz.Crc.{crc32_update}
use libqbz.Crc.Spec.{crc_bytes}
use libqbz.Crc.Whole.{crc32_update-crc_bytes}
use libqbz.Crc.Update.{update_crc-crc_byte, crc_byte-lt}
use libqbz.Rle.Laws.{replicate-AllBytes}
use libqbz.Unrle.{Sink, Run, Unrle, Place, top, one, paused, quick_byte, batch}
use libqbz.Unrle.{fast_next, fast_one, on_run}
use libqbz.Unrle.{same, read_count}
use libqbz.Unrle.Decode.{
  decoded, open_run, decoded-other, decoded-same, open_run-other, open_run-same,
}
use libqbz.Unrle.Pours.{put_all, Pours, Pours-within, Pours-after, Pours-end}
use libqbz.Unrle.Runs.{Stands, Reads, same_2-Reads}
use libqbz.Unrle.Slow.{same_stand}

module _ {Source : Type 0} (get_byte : Source → Option (ℕ × Source)) (save_nblock : ℕ) where
  abbrev pub quick : ℕ → Sink → Sink
  quick = quick_byte get_byte save_nblock

  pub quick-spends : (x : ℕ) (k : Sink) → (quick x k).avail_out ≡ k.avail_out - 1
  unfolding quick_byte
  quick-spends x k = refl

  -- the CRC keeps its width
  pub crc-put_all :
      (n ch : ℕ) (k : Sink)
      → ch < 256
      → k.calculated_block_crc < 2 ^ 32
      → (put_all quick (replicate n ch) k).calculated_block_crc < 2 ^ 32
  unfolding quick_byte
  crc-put_all zero ch k hc hk = hk
  crc-put_all (suc n) ch k hc hk = crc-put_all n ch (quick ch k) hc (
      subst (λ c. c < 2 ^ 32) (sym (update_crc-crc_byte k.calculated_block_crc ch hk hc))
        (crc_byte-lt k.calculated_block_crc ch hk hc))

  -- bytes one by one, at once
  quick_all :
      (n ch : ℕ) (k : Sink)
      → ch < 256
      → k.calculated_block_crc < 2 ^ 32
      → put_all quick (replicate n ch) k ≡ record k {
        avail_out = k.avail_out - n;
        out = k.out ++ replicate n ch;
        calculated_block_crc = crc_bytes k.calculated_block_crc (replicate n ch);
      }
  unfolding quick_byte crc_bytes
  quick_all zero ch k hc hk =
      λ i. record k { avail_out = none_spent i; out = sym (append-nil k.out) i }
    where
      none_spent : k.avail_out ≡ k.avail_out - 0
      none_spent = omega arith
  quick_all (suc n) ch k hc hk = quick_all n ch (quick ch k) hc (crc-put_all 1 ch k hc hk) ∙ (λ i.
      record k {
        avail_out = less i;
        out = append_assoc k.out (ch ∷ []) (replicate n ch) i;
        calculated_block_crc =
            crc_bytes (update_crc-crc_byte k.calculated_block_crc ch hk hc i) (replicate n ch);
      })
    where
      less : k.avail_out - 1 - n ≡ k.avail_out - suc n
      less = omega arith

  module _ (addr : Sink → ℕ) where
    -- a batch is its bytes one by one
    pub batch_lem :
        (s : Run Source) (k : Sink) (n : ℕ)
        → (if ltb k.avail_out (s.state_out_len - 1) then k.avail_out else s.state_out_len - 1) ≡ n
        → s.state_out_ch < 256
        → k.calculated_block_crc < 2 ^ 32
        → batch get_byte save_nblock addr s k ≡ (
          record s { state_out_len = s.state_out_len - n },
          put_all quick (replicate n s.state_out_ch) k,
        )
    unfolding batch
    batch_lem s k n e hc hk =
        (λ i. (
          record s { state_out_len = s.state_out_len - e i },
          record k {
            avail_out = k.avail_out - e i;
            out = k.out ++ replicate (e i) s.state_out_ch;
            calculated_block_crc =
                crc32_update (addr k) k.calculated_block_crc (replicate (e i) s.state_out_ch);
          },
        ))
        ∙ (λ i. (
          record s { state_out_len = s.state_out_len - n },
          record k {
            avail_out = k.avail_out - n;
            out = k.out ++ replicate n s.state_out_ch;
            calculated_block_crc =
                crc32_update-crc_bytes (addr k) k.calculated_block_crc (replicate n s.state_out_ch)
                  hk (replicate-AllBytes n s.state_out_ch hc) i;
          },
        ))
        ∙ (λ i. (
          record s { state_out_len = s.state_out_len - n },
          sym (quick_all n s.state_out_ch k hc hk) i,
        ))

    abbrev pub FastPours : List ℕ → Sink → Unrle Source → Type 0
    FastPours = Pours quick quick-spends get_byte save_nblock

    -- the bytes that a place in the loop has before it, and those of the rest
    abbrev pub pending : Place → Run Source → List ℕ → List ℕ
    pending top s zs = replicate s.state_out_len s.state_out_ch ++ decoded 0 0 zs
    pending one s zs = s.state_out_ch ∷ decoded 0 0 zs

    -- what the loop does on fewer bytes of the block
    abbrev pub Goes : (Place → Run Source → Sink → Unrle Source) → Sink → ℕ → Type 0
    Goes more k n =
        (p : Place) (t : Run Source) (ws : List ℕ)
        → Stands get_byte save_nblock t ws
        → open_run 0 0 ws < 4
        → length ws < n
        → t.state_out_ch < 256
        → FastPours (pending p t ws) k (more p t k)

    pub next-Pours :
        (more : Place → Run Source → Sink → Unrle Source) (s : Run Source) (k : Sink) (zs : List ℕ)
        → Stands get_byte save_nblock s zs
        → open_run 0 0 zs < 4
        → Goes more k (length zs)
        → FastPours (decoded 0 0 zs) k (fast_next get_byte save_nblock more s k)
    unfolding fast_next
    next-Pours more s k [] st c go =
        rw (not_past st, ended st)
          (Pours-end quick quick-spends get_byte save_nblock k (record s { state_out_len = 0 }) st
            refl)
      where
        not_past : s.nblock_used ≡ save_nblock + 1 → ltb (save_nblock + 1) s.nblock_used ≡ false
        not_past e = ground arith

        ended : s.nblock_used ≡ save_nblock + 1 → (s.nblock_used == save_nblock + 1) ≡ true
        ended e = ground arith
    next-Pours more s k (x ∷ []) st c go = elim (Bool-cases (st.2.0 == s.k0)) [
      | inl e ↦
          rw
            (
              not_past (omega (arith, st.1)),
              not_ended (omega (arith, st.1)),
              st.2.2,
              e,
              last (omega (arith, st.1)),
            )
            (subst (λ v. FastPours (v ∷ []) k (more one t k)) st.0
              (go one t [] (omega (arith, st.1)) (omega arith) (omega arith) small))
      | inr e ↦
          rw (not_past (omega (arith, st.1)), not_ended (omega (arith, st.1)), st.2.2, e)
            (subst (λ v. FastPours (v ∷ []) k (more one (record t { k0 = st.2.0 }) k)) st.0
              (go one (record t { k0 = st.2.0 }) [] (omega (arith, st.1)) (omega arith)
                (omega arith) small))
    ]
      where
        t : Run Source
        t = record s { state_out_ch = s.k0; nblock_used = s.nblock_used + 1; source = st.2.1 }

        small : s.k0 < 256
        small = omega (arith, st.0, st.3)

        not_past : s.nblock_used ≡ save_nblock → ltb (save_nblock + 1) s.nblock_used ≡ false
        not_past e = ground arith

        not_ended : s.nblock_used ≡ save_nblock → (s.nblock_used == save_nblock + 1) ≡ false
        not_ended e = ground arith

        last : s.nblock_used ≡ save_nblock → (s.nblock_used + 1 == save_nblock + 1) ≡ true
        last e = ground arith
    next-Pours more s k (x ∷ y ∷ ys) st c go = elim (Bool-cases (y == s.k0)) [
      | inl e ↦
          rw
            (
              not_past (omega (arith, st.1)),
              not_ended (omega (arith, st.1)),
              st.2.1,
              e,
              inside (omega (arith, st.1)),
            )
            (run_read
              (same get_byte save_nblock 2
                (same get_byte save_nblock 3 (read_count get_byte save_nblock)) t)
              e
              (same_2-Reads get_byte save_nblock x s.k0 t ys refl
                (st.0, omega (arith, st.1), st.2.2, (st.3.0, st.3.1.1))
                (subst (λ n. n < 4) (open_run-same x 1 (omega arith) (omega arith) y ys (first e))
                  c)))
      | inr e ↦
          rw (not_past (omega (arith, st.1)), not_ended (omega (arith, st.1)), st.2.1, e)
            (subst (λ vs. FastPours vs k (more one (record t { k0 = y }) k))
              ((λ i. st.0 i ∷ decoded 0 0 (y ∷ ys))
                ∙ ap (λ vs. x ∷ vs) (sym (decoded-other x 1 (omega arith) y ys (first e))))
              (go one (record t { k0 = y }) (y ∷ ys) (refl, omega (arith, st.1), st.2.2, st.3.1)
                (subst (λ n. n < 4) (open_run-other x 1 (omega arith) y ys (first e)) c)
                (omega arith) small))
    ]
      where
        t : Run Source
        t = record s { state_out_ch = s.k0; nblock_used = s.nblock_used + 1; source = st.2.0 }

        small : s.k0 < 256
        small = omega (arith, st.0, st.3.0)

        not_past :
            s.nblock_used + suc (length ys) ≡ save_nblock
            → ltb (save_nblock + 1) s.nblock_used ≡ false
        not_past e = ground arith

        not_ended :
            s.nblock_used + suc (length ys) ≡ save_nblock
            → (s.nblock_used == save_nblock + 1) ≡ false
        not_ended e = ground arith

        inside :
            s.nblock_used + suc (length ys) ≡ save_nblock
            → (s.nblock_used + 1 == save_nblock + 1) ≡ false
        inside e = ground arith

        first : {b : Bool} → (y == s.k0) ≡ b → (y == x) ≡ b
        first e = (λ i. y == sym st.0 i) ∙ e

        run_read :
            (o : Option (Run Source))
            → (y == s.k0) ≡ true
            → Reads get_byte save_nblock s.k0 x 2 ys o
            → FastPours (decoded 0 0 (x ∷ y ∷ ys)) k (on_run get_byte save_nblock (more top) k o)
        run_read none e r = r
        run_read (some u) e r =
            subst (λ vs. FastPours vs k (more top u k))
              ((λ i. replicate u.state_out_len ((r.5 ∙ st.0) i) ++ decoded 0 0 r.0)
                ∙ r.6
                ∙ ap (λ vs. x ∷ vs)
                    (sym (decoded-same x 1 (omega arith) (omega arith) y ys (first e))))
              (go top u r.0 r.1 r.2 (omega (arith, r.3)) (omega (arith, r.5, small)))

    -- at `s_state_out_len_eq_one`
    pub one-Pours :
        (more : Place → Run Source → Sink → Unrle Source) (s : Run Source) (k : Sink) (zs : List ℕ)
        → Stands get_byte save_nblock s zs
        → open_run 0 0 zs < 4
        → Goes more (quick s.state_out_ch k) (length zs)
        → FastPours (pending one s zs) k (fast_one get_byte save_nblock more s k)
    unfolding fast_one
    one-Pours more s k zs st c go = elim (zero_or_more k.avail_out) [
      | inl e ↦ rw (is_zero k.avail_out e) (
          subst (λ u. FastPours (pending one s zs) k (paused (record s { state_out_len = 1 }) u))
            (λ i. put_all quick (replicate (e i) s.state_out_ch) k)
            (Pours-within quick quick-spends get_byte save_nblock 1 s.state_out_ch zs k
              (record s { state_out_len = 1 }) (omega (arith, e))
              (same_stand get_byte save_nblock s 1 zs st) c (omega (arith, e)) refl))
      | inr h ↦ rw (is_more k.avail_out h) (
          Pours-after quick quick-spends get_byte save_nblock 1 s.state_out_ch (decoded 0 0 zs) k _
            h (next-Pours more s (quick s.state_out_ch k) zs st c go))
    ]
      where
        zero_or_more : (a : ℕ) → (a ≡ 0) ⊎ (0 < a)
        zero_or_more a = grind arith

        is_zero : (a : ℕ) → a ≡ 0 → (a == 0) ≡ true
        is_zero a e = ground arith

        is_more : (a : ℕ) → 0 < a → (a == 0) ≡ false
        is_more a e = ground arith
