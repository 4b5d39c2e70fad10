-- ===== src/Unrle/FastLoop.antt =====
-- The rounds of the fast loop.
use mathlib.Core.Path.{subst}
use libqbz.Base.{ℕ, zero, suc, ◌+◌, ◌-◌, ◌≤◌, ◌<◌, ◌^◌, List, ◌∷◌, ◌++◌, replicate, length}
use libqbz.Base.{◌≡◌, refl, ap, ◌∙◌, sym, arith, Option, ◌==◌, ltb, if◌then◌else◌, Bool}
use libqbz.Base.{true, false, ◌⊎◌, inl, inr, length-replicate, Bool-cases, ◌||◌, ==_iff}
use libqbz.Unrle.{Sink, Run, Unrle, Place, top, one, fast_drain, fast_drained, fast_round}
use libqbz.Unrle.{fast_loop, fast_one, fast_next, paused}
use libqbz.Unrle.Decode.{decoded, open_run}
use libqbz.Unrle.Fast.{quick, quick-spends, crc-put_all, batch_lem, FastPours, pending, Goes}
use libqbz.Unrle.Fast.{next-Pours, one-Pours}
use libqbz.Unrle.Pours.{put_all, avail_out-put_all, Pours-within, Pours-after}
use libqbz.Unrle.Runs.{Stands, replicate-more}
use libqbz.Unrle.Slow.{same_stand}

module _ {Source : Type 0} (get_byte : Source → Option (ℕ × Source)) (save_nblock : ℕ)
    (addr : Sink → ℕ) where
  -- for every sink whose CRC has its width
  abbrev pub AllGo : (Place → Run Source → Sink → Unrle Source) → ℕ → Type 0
  AllGo more n =
      (k : Sink) → k.calculated_block_crc < 2 ^ 32 → Goes get_byte save_nblock addr more k n

  -- behind the inner loop, which wrote `n` bytes of the run: as many as there is room for, or all but
  -- the last one
  drained-Pours :
      (more : Place → Run Source → Sink → Unrle Source) (s : Run Source) (k : Sink) (zs : List ℕ)
      (n : ℕ)
      → Stands get_byte save_nblock s zs
      → open_run 0 0 zs < 4
      → s.state_out_ch < 256
      → k.calculated_block_crc < 2 ^ 32
      → AllGo more (length zs)
      → n ≤ k.avail_out
      → n < s.state_out_len
      → (n ≡ k.avail_out) ⊎ (n + 1 ≡ s.state_out_len)
      → FastPours get_byte save_nblock addr (pending get_byte save_nblock addr top s zs) k (
          fast_drained get_byte save_nblock more (
            record s { state_out_len = s.state_out_len - n },
            put_all (quick get_byte save_nblock) (replicate n s.state_out_ch) k,
          ))
  unfolding fast_drained
  drained-Pours more s k zs n st c hc hk go room less w = elim (Bool-cases (after.avail_out == 0)) [
    | inl e ↦ rw e (
        subst
          (λ m.
            FastPours get_byte save_nblock addr
              (replicate s.state_out_len s.state_out_ch ++ decoded 0 0 zs) k
              (paused (record s { state_out_len = s.state_out_len - n })
                (put_all (quick get_byte save_nblock) (replicate m s.state_out_ch) k)))
          (sym (used_up e))
          (Pours-within (quick get_byte save_nblock) (quick-spends get_byte save_nblock) get_byte
            save_nblock s.state_out_len s.state_out_ch zs k
            (record s { state_out_len = s.state_out_len - n }) (omega (arith, used_up e))
            (same_stand get_byte save_nblock s (s.state_out_len - n) zs st) c
            (omega (arith, used_up e)) refl))
    | inr e ↦ rw e (
        subst
          (λ vs. FastPours get_byte save_nblock addr vs k (
            fast_one get_byte save_nblock more (record s { state_out_len = s.state_out_len - n })
              after))
          (replicate-more get_byte save_nblock n s.state_out_ch (decoded 0 0 zs)
            ∙ (λ i. replicate (all_but_one e i) s.state_out_ch ++ decoded 0 0 zs))
          (Pours-after (quick get_byte save_nblock) (quick-spends get_byte save_nblock) get_byte
            save_nblock n s.state_out_ch (s.state_out_ch ∷ decoded 0 0 zs) k _ room
            (one-Pours get_byte save_nblock addr more
              (record s { state_out_len = s.state_out_len - n }) after zs
              (same_stand get_byte save_nblock s (s.state_out_len - n) zs st) c
              (go _ (
                crc-put_all get_byte save_nblock 1 s.state_out_ch after hc
                  (crc-put_all get_byte save_nblock n s.state_out_ch k hc hk))))))
  ]
    where
      after : Sink
      after = put_all (quick get_byte save_nblock) (replicate n s.state_out_ch) k

      left : after.avail_out ≡ k.avail_out - n
      left =
          avail_out-put_all (quick get_byte save_nblock) (quick-spends get_byte save_nblock)
            (replicate n s.state_out_ch) k
          ∙ ap (λ (m : ℕ). k.avail_out - m) (length-replicate n s.state_out_ch)

      is_zero : (a : ℕ) → (a == 0) ≡ true → a ≡ 0
      is_zero a e = ground (arith, e)

      not_zero : (a : ℕ) → (a == 0) ≡ false → 0 < a
      not_zero a e = ground (arith, e)

      used_up : (after.avail_out == 0) ≡ true → n ≡ k.avail_out
      used_up e = omega (arith, is_zero after.avail_out e, left)

      all_but_one : (after.avail_out == 0) ≡ false → n + 1 ≡ s.state_out_len
      all_but_one e = omega (arith, not_zero after.avail_out e, left, w)

  -- the inner loop
  drained :
      (s : Run Source) (k : Sink)
      → s.state_out_ch < 256
      → k.calculated_block_crc < 2 ^ 32
      → 0 < s.state_out_len
      → (n : ℕ) × (fast_drain get_byte save_nblock addr s k ≡ (
        record s { state_out_len = s.state_out_len - n },
        put_all (quick get_byte save_nblock) (replicate n s.state_out_ch) k,
      ))
        × (n ≤ k.avail_out)
        × (n < s.state_out_len)
        × ((n ≡ k.avail_out) ⊎ (n + 1 ≡ s.state_out_len))
  unfolding fast_drain
  drained s k hc hk h = elim (Bool-cases (k.avail_out == 0 || s.state_out_len == 1)) [
    | inl e ↦ rw e (
      0,
      λ i. (record s { state_out_len = none_off i }, k),
      omega arith,
      h,
      full_or_one k.avail_out s.state_out_len e,
    )
    | inr e ↦
        let n : ℕ =
          if ltb k.avail_out (s.state_out_len - 1) then k.avail_out else s.state_out_len - 1 in
        rw e (
          n,
          batch_lem get_byte save_nblock addr s k n refl hc hk,
          at_most k.avail_out (s.state_out_len - 1),
          smaller k.avail_out s.state_out_len h,
          one_or_other k.avail_out s.state_out_len h,
        )
  ]
    where
      none_off : s.state_out_len ≡ s.state_out_len - 0
      none_off = omega arith

      full_or_one : (a l : ℕ) → (a == 0 || l == 1) ≡ true → (0 ≡ a) ⊎ (0 + 1 ≡ l)
      full_or_one a l e = elim (Bool-cases (a == 0)) [
        | inl z ↦ inl (sym ((==_iff a 0).0 z))
        | inr z ↦ inr (sym ((==_iff l 1).0 (second z e)))
      ]
        where
          second : {b c : Bool} → b ≡ false → (b || c) ≡ true → c ≡ true
          second {c = c} z e = (λ i. sym z i || c) ∙ e

      at_most : (a b : ℕ) → (if ltb a b then a else b) ≤ a
      at_most a b = ground arith

      smaller : (a l : ℕ) → 0 < l → (if ltb a (l - 1) then a else l - 1) < l
      smaller a l h = ground arith

      one_or_other :
          (a l : ℕ)
          → 0 < l
          → ((if ltb a (l - 1) then a else l - 1) ≡ a)
            ⊎ ((if ltb a (l - 1) then a else l - 1) + 1 ≡ l)
      one_or_other a l h = grind arith

  -- a round of the loop
  round-Pours :
      (more : Place → Run Source → Sink → Unrle Source) (p : Place) (s : Run Source) (k : Sink)
      (zs : List ℕ)
      → Stands get_byte save_nblock s zs
      → open_run 0 0 zs < 4
      → s.state_out_ch < 256
      → k.calculated_block_crc < 2 ^ 32
      → AllGo more (length zs)
      → FastPours get_byte save_nblock addr
          (pending get_byte save_nblock addr p s zs)
          k
          (fast_round get_byte save_nblock addr more p s k)
  unfolding fast_round
  round-Pours more one s k zs st c hc hk go =
      one-Pours get_byte save_nblock addr more s k zs st c
        (go _ (crc-put_all get_byte save_nblock 1 s.state_out_ch k hc hk))
  round-Pours more top s k zs st c hc hk go = elim (Bool-cases (ltb 0 s.state_out_len)) [
    | inl e ↦
        let d = drained s k hc hk (is_more s.state_out_len e) in
        rw e (
          subst
            (λ u.
              FastPours get_byte save_nblock addr (pending get_byte save_nblock addr top s zs) k
                (fast_drained get_byte save_nblock more u))
            (sym (d.1)) (drained-Pours more s k zs (d.0) st c hc hk go (d.2) (d.3) d.4))
    | inr e ↦ rw e (
        subst
          (λ m.
            FastPours get_byte save_nblock addr (replicate m s.state_out_ch ++ decoded 0 0 zs) k
              (fast_next get_byte save_nblock more s k))
          (sym (is_zero s.state_out_len e))
          (next-Pours get_byte save_nblock addr more s k zs st c (go k hk)))
  ]
    where
      is_more : (n : ℕ) → ltb 0 n ≡ true → 0 < n
      is_more n e = ground (arith, e)

      is_zero : (n : ℕ) → ltb 0 n ≡ false → n ≡ 0
      is_zero n e = ground (arith, e)

  -- For a block that is not cut off behind four equal bytes, with bytes below 256 and a CRC of 32
  -- digits: the fast loop writes of the pending bytes as much as there is room for.
  pub fast_loop-Pours :
      (rounds : ℕ) (p : Place) (s : Run Source) (k : Sink) (zs : List ℕ)
      → Stands get_byte save_nblock s zs
      → open_run 0 0 zs < 4
      → s.state_out_ch < 256
      → k.calculated_block_crc < 2 ^ 32
      → length zs < rounds
      → FastPours get_byte save_nblock addr
          (pending get_byte save_nblock addr p s zs)
          k
          (fast_loop get_byte save_nblock addr rounds p s k)
  unfolding fast_loop
  fast_loop-Pours zero p s k zs st c hc hk h = absurd (omega arith)
  fast_loop-Pours (suc rounds) p s k zs st c hc hk h =
      round-Pours (fast_loop get_byte save_nblock addr rounds) p s k zs st c hc hk
        (λ u hu q t ws st' c' shorter hc'.
          fast_loop-Pours rounds q t u ws st' c' hc' hu (omega (arith, shorter)))
