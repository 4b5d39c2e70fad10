-- ===== src/Unrle/Slow.antt =====
-- The slow loop writes what the block decodes to.
use mathlib.Core.Path.{subst}
use libqbz.Base.{ℕ, zero, suc, ◌+◌, ◌-◌, ◌≤◌, ◌<◌, List, [], ◌∷◌, ◌++◌, replicate, length}
use libqbz.Base.{◌≡◌, refl, ap, ◌∙◌, sym, arith, Option, some, none, ◌==◌, ltb}
use libqbz.Base.{true, false, ◌⊎◌, inl, inr, length-replicate}
use libqbz.Unrle.{Sink, Run, Unrle, put_byte, drain, slow_next, slow_loop}
use libqbz.Unrle.{on_run, read_run}
use libqbz.Unrle.Decode.{decoded, open_run}
use libqbz.Unrle.Pours.{put_all, avail_out-put_all, Pours, Pours-within, Pours-after, Pours-end}
use libqbz.Unrle.Runs.{Stands, Reads, read_run-Reads}

pub put_byte-spends : (x : ℕ) (k : Sink) → (put_byte x k).avail_out ≡ k.avail_out - 1
unfolding put_byte
put_byte-spends x k = refl

-- the run fits
drain-whole :
    (n ch : ℕ) (k : Sink)
    → n ≤ k.avail_out
    → drain n ch k ≡ (0, put_all put_byte (replicate n ch) k)
unfolding drain
drain-whole zero ch k h = refl
drain-whole (suc n) ch k h =
    rw (room k.avail_out h) (drain-whole n ch (put_byte ch k) (omega (arith, put_byte-spends ch k)))
  where
    room : (a : ℕ) → suc n ≤ a → (a == 0) ≡ false
    room a h = ground arith

-- the run does not fit
drain-part :
    (n ch : ℕ) (k : Sink)
    → k.avail_out ≤ n
    → drain n ch k ≡ (n - k.avail_out, put_all put_byte (replicate k.avail_out ch) k)
unfolding drain
drain-part zero ch k h = λ i. (none_left i, put_all put_byte (replicate (no_room i) ch) k)
  where
    none_left : 0 ≡ 0 - k.avail_out
    none_left = omega arith

    no_room : 0 ≡ k.avail_out
    no_room = omega arith
drain-part (suc n) ch k h = by_room (drain-part n ch (put_byte ch k)) k.avail_out refl h
  where
    by_room :
        ((put_byte ch k).avail_out ≤ n
          → drain n ch (put_byte ch k) ≡ (
            n - (put_byte ch k).avail_out,
            put_all put_byte (replicate (put_byte ch k).avail_out ch) (put_byte ch k),
          ))
        → (a : ℕ) → k.avail_out ≡ a
        → a ≤ suc n
        → drain (suc n) ch k ≡ (suc n - a, put_all put_byte (replicate a ch) k)
    by_room rest zero e h = rw (none_there k.avail_out e) (λ i. (all_left i, k))
      where
        none_there : (b : ℕ) → b ≡ 0 → (b == 0) ≡ true
        none_there b e = ground arith

        all_left : suc n ≡ suc n - 0
        all_left = omega arith
    by_room rest (suc a) e h = rw (room k.avail_out e) (
        rest (omega (arith, put_byte-spends ch k, e))
        ∙ (λ i. (n - less i, put_all put_byte (replicate (less i) ch) (put_byte ch k)))
        ∙ (λ i. (onward i, put_all put_byte (replicate a ch) (put_byte ch k))))
      where
        room : (b : ℕ) → b ≡ suc a → (b == 0) ≡ false
        room b e = ground arith

        onward : n - a ≡ suc n - suc a
        onward = omega arith

        less : (put_byte ch k).avail_out ≡ a
        less = omega (arith, put_byte-spends ch k, e)

module _ {Source : Type 0} (get_byte : Source → Option (ℕ × Source)) (save_nblock : ℕ) where
  abbrev pub SlowPours : List ℕ → Sink → Unrle Source → Type 0
  SlowPours = Pours put_byte put_byte-spends get_byte save_nblock

  -- behind a run that was written whole
  next-Pours :
      (rounds : ℕ) (s : Run Source) (k : Sink) (zs : List ℕ)
      → Stands get_byte save_nblock s zs
      → open_run 0 0 zs < 4
      → s.state_out_len ≡ 0
      → 0 < k.avail_out
      → ((t : Run Source) (ws : List ℕ)
          → Stands get_byte save_nblock t ws
          → open_run 0 0 ws < 4
          → length ws < length zs
          → SlowPours
              (replicate t.state_out_len t.state_out_ch ++ decoded 0 0 ws)
              k
              (slow_loop get_byte save_nblock rounds t k))
      → SlowPours
          (decoded 0 0 zs)
          k
          (slow_next get_byte save_nblock (slow_loop get_byte save_nblock rounds) s k)
  unfolding slow_next
  next-Pours rounds s k [] st c z h go =
      rw (room k.avail_out h, ended st)
        (Pours-end put_byte put_byte-spends get_byte save_nblock k s st z)
    where
      room : (a : ℕ) → 0 < a → (a == 0) ≡ false
      room a h = ground arith

      ended : s.nblock_used ≡ save_nblock + 1 → (s.nblock_used == save_nblock + 1) ≡ true
      ended e = ground arith
  next-Pours rounds s k (x ∷ xs) st c z h go =
      rw (room k.avail_out h, not_ended (omega (arith, st.1)), not_past (omega (arith, st.1)))
        (run_read (read_run get_byte save_nblock s)
          (read_run-Reads get_byte save_nblock x s xs st c))
    where
      room : (a : ℕ) → 0 < a → (a == 0) ≡ false
      room a h = ground arith

      not_ended :
          s.nblock_used + length xs ≡ save_nblock → (s.nblock_used == save_nblock + 1) ≡ false
      not_ended e = ground arith

      not_past :
          s.nblock_used + length xs ≡ save_nblock → ltb (save_nblock + 1) s.nblock_used ≡ false
      not_past e = ground arith

      run_read :
          (o : Option (Run Source))
          → Reads get_byte save_nblock x x 1 xs o
          → SlowPours
              (decoded 0 0 (x ∷ xs))
              k
              (on_run get_byte save_nblock (slow_loop get_byte save_nblock rounds) k o)
      run_read none r = r
      run_read (some t) r =
          subst (λ vs. SlowPours vs k (slow_loop get_byte save_nblock rounds t k))
            ((λ i. replicate t.state_out_len (r.5 i) ++ decoded 0 0 r.0) ∙ r.6)
            (go t r.0 r.1 r.2 (omega (arith, r.3)))

  -- the length of the pending run does not matter
  pub same_stand :
      (s : Run Source) (l : ℕ) (zs : List ℕ)
      → Stands get_byte save_nblock s zs
      → Stands get_byte save_nblock (record s { state_out_len = l }) zs
  same_stand s l [] st = st
  same_stand s l (z ∷ zs) st = st

  -- the room ends within the run
  full-Pours :
      (rounds : ℕ) (s : Run Source) (k : Sink) (zs : List ℕ)
      → Stands get_byte save_nblock s zs
      → open_run 0 0 zs < 4
      → k.avail_out ≤ s.state_out_len
      → SlowPours (replicate s.state_out_len s.state_out_ch ++ decoded 0 0 zs) k (
          slow_next get_byte save_nblock
            (slow_loop get_byte save_nblock rounds)
            (record s { state_out_len = s.state_out_len - k.avail_out })
            (put_all put_byte (replicate k.avail_out s.state_out_ch) k))
  unfolding slow_next
  full-Pours rounds s k zs st c le = rw no_room (
      Pours-within put_byte put_byte-spends get_byte save_nblock s.state_out_len s.state_out_ch zs k
        (record s { state_out_len = s.state_out_len - k.avail_out }) le
        (same_stand s (s.state_out_len - k.avail_out) zs st) c refl refl)
    where
      no_room : ((put_all put_byte (replicate k.avail_out s.state_out_ch) k).avail_out == 0) ≡ true
      no_room = zero_left _ (
          avail_out-put_all put_byte put_byte-spends (replicate k.avail_out s.state_out_ch) k
          ∙ ap (λ (m : ℕ). k.avail_out - m) (length-replicate k.avail_out s.state_out_ch)
          ∙ omega arith)
        where
          zero_left : (a : ℕ) → a ≡ 0 → (a == 0) ≡ true
          zero_left a e = ground arith

  -- On a block that is not cut off behind four equal bytes, and with more rounds than there are
  -- bytes of it left: the slow loop writes of the pending run, and of what the rest decodes to, as
  -- much as there is room for, and pauses with the others to come.
  pub slow_loop-Pours :
      (rounds : ℕ) (s : Run Source) (k : Sink) (zs : List ℕ)
      → Stands get_byte save_nblock s zs
      → open_run 0 0 zs < 4
      → length zs < rounds
      → SlowPours
          (replicate s.state_out_len s.state_out_ch ++ decoded 0 0 zs)
          k
          (slow_loop get_byte save_nblock rounds s k)
  unfolding slow_loop
  slow_loop-Pours zero s k zs st c h = absurd (omega arith)
  slow_loop-Pours (suc rounds) s k zs st c h = elim (le_or_lt k.avail_out s.state_out_len) [
    | inl le ↦
        subst
          (λ d. SlowPours pending k (
            slow_next get_byte save_nblock (slow_loop get_byte save_nblock rounds)
              (record s { state_out_len = d.0 }) d.1))
          (sym (drain-part s.state_out_len s.state_out_ch k le)) (full-Pours rounds s k zs st c le)
    | inr lt ↦
        subst
          (λ d. SlowPours pending k (
            slow_next get_byte save_nblock (slow_loop get_byte save_nblock rounds)
              (record s { state_out_len = d.0 }) d.1))
          (sym (drain-whole s.state_out_len s.state_out_ch k (omega arith)))
          (Pours-after put_byte put_byte-spends get_byte save_nblock s.state_out_len s.state_out_ch
            (decoded 0 0 zs) k _ (omega arith)
            (next-Pours rounds (record s { state_out_len = 0 })
              (put_all put_byte (replicate s.state_out_len s.state_out_ch) k) zs
              (same_stand s 0 zs st) c refl
              (omega (
                arith,
                avail_out-put_all put_byte put_byte-spends
                    (replicate s.state_out_len s.state_out_ch) k,
                length-replicate s.state_out_len s.state_out_ch,
              ))
              (λ t ws st' c' shorter.
                slow_loop-Pours rounds t _ ws st' c' (omega (arith, shorter)))))
  ]
    where
      pending : List ℕ
      pending = replicate s.state_out_len s.state_out_ch ++ decoded 0 0 zs

      le_or_lt : (a n : ℕ) → (a ≤ n) ⊎ (n < a)
      le_or_lt a n = grind arith
