-- ===== src/Unrle/Runs.antt =====
-- One run of a block: from the first byte to the byte after it.
use mathlib.Core.Path.{subst}
use libqbz.Base.{ℕ, zero, suc, ◌+◌, ◌≤◌, ◌<◌, List, [], ◌∷◌, ◌++◌, replicate, length, ◌==◌}
use libqbz.Base.{◌≡◌, refl, ap, ◌∙◌, sym, arith, Bool-cases, inl, inr, true, false}
use libqbz.Base.{Option, some, none}
use libqbz.Crc.Update.{AllBytes}
use libqbz.Unrle.{Run, same, read_count, read_run}
use libqbz.Unrle.Decode.{decoded, open_run, decoded-other}
use libqbz.Unrle.Decode.{open_run-other, decoded-same, open_run-same}

module _ {Source : Type 0} (get_byte : Source → Option (ℕ × Source)) (save_nblock : ℕ) where
  -- The source gives these bytes, and one more at least.
  abbrev pub Feeds : List ℕ → Source → Type 0
  Feeds [] g = (y : ℕ) × (h : Source) × (get_byte g ≡ some (y, h))
  Feeds (x ∷ xs) g = (h : Source) × (get_byte g ≡ some (x, h)) × Feeds xs h

  -- These bytes of the block are left, the first of them in `k0`.
  abbrev pub Stands : Run Source → List ℕ → Type 0
  Stands s [] = s.nblock_used ≡ save_nblock + 1
  Stands s (z ∷ xs) =
      (s.k0 ≡ z) × (s.nblock_used + length xs ≡ save_nblock) × Feeds xs s.source × AllBytes (z ∷ xs)

  -- A run was read: of `run` bytes `z` that were known, and what of `xs` belongs to it.
  abbrev pub Reads : ℕ → ℕ → ℕ → List ℕ → Option (Run Source) → Type 0
  Reads ch z run xs none = ⊥
  Reads ch z run xs (some t) =
      (ws : List ℕ) × Stands t ws
      × (open_run 0 0 ws < 4)
      × (length ws ≤ length xs)
      × (1 ≤ t.state_out_len)
      × (t.state_out_ch ≡ ch)
      × (replicate t.state_out_len z ++ decoded 0 0 ws ≡ replicate run z ++ decoded z run xs)

  pub replicate-more : (n z : ℕ) (xs : List ℕ) → replicate n z ++ z ∷ xs ≡ replicate (n + 1) z ++ xs
  replicate-more zero z xs = refl
  replicate-more (suc n) z xs =
      ap (λ t. z ∷ t) (replicate-more n z xs) ∙ (λ i. replicate (onward n i) z ++ xs)
    where
      onward : (n : ℕ) → suc (n + 1) ≡ suc n + 1
      onward n = omega arith

  replicate-plus :
      (n m z : ℕ) (xs : List ℕ) → replicate n z ++ replicate m z ++ xs ≡ replicate (m + n) z ++ xs
  replicate-plus zero m z xs = λ i. replicate (right i) z ++ xs
    where
      right : m ≡ m + 0
      right = omega arith
  replicate-plus (suc n) m z xs =
      ap (λ t. z ∷ t) (replicate-plus n m z xs) ∙ (λ i. replicate (onward i) z ++ xs)
    where
      onward : suc (m + n) ≡ m + suc n
      onward = omega arith

  read_count-Reads :
      (z : ℕ) (s : Run Source) (xs : List ℕ)
      → Stands s (z ∷ xs)
      → open_run z 4 xs < 4
      → Reads s.state_out_ch z 4 xs (read_count get_byte save_nblock s)
  unfolding read_count
  read_count-Reads z s [] st c = absurd (omega (arith, c))
  read_count-Reads z s (n ∷ []) st c =
      let f = st.2 in
      rw (f.1, f.2.2)
        ([], omega (arith, st.1), c, omega arith, omega arith, refl, sym (replicate-plus 4 n z []))
  read_count-Reads z s (n ∷ w ∷ ws) st c =
      let f = st.2 in
      rw (f.1, f.2.1)
        (
          w ∷ ws,
          (refl, omega (arith, st.1), f.2.2, st.3.1.1),
          c,
          omega arith,
          omega arith,
          refl,
          sym (replicate-plus 4 n z (decoded 0 0 (w ∷ ws))),
        )

  same-Reads :
      (z len ch : ℕ) (more : Run Source → Option (Run Source))
      → len < 4
      → 1 ≤ len
      → ((t : Run Source) (ys : List ℕ)
          → t.state_out_ch ≡ ch
          → Stands t (z ∷ ys)
          → open_run z (len + 1) ys < 4
          → Reads ch z (len + 1) ys (more t))
      → (s : Run Source) (xs : List ℕ) → s.state_out_ch ≡ ch
      → Stands s (z ∷ xs)
      → open_run z len xs < 4
      → Reads ch z len xs (same get_byte save_nblock len more s)
  unfolding same
  same-Reads z len ch more h p go s [] hc st c =
      rw (st.2.2, last (omega (arith, st.1)))
        ([], omega (arith, st.1), omega arith, omega arith, p, hc, refl)
    where
      last : s.nblock_used ≡ save_nblock → (s.nblock_used + 1 == save_nblock + 1) ≡ true
      last e = ground arith
  same-Reads z len ch more h p go s (x ∷ ys) hc st c =
      let f = st.2 in
      elim (Bool-cases (x == s.k0)) [
        | inl e ↦
            rw (f.1, inside (omega (arith, st.1)), e)
              (longer
                (more
                  (record s { state_out_len = len; nblock_used = s.nblock_used + 1; source = f.0 }))
                e
                (go _ ys hc (st.0, omega (arith, st.1), f.2, (st.3.0, st.3.1.1))
                  (subst (λ n. n < 4) (open_run-same z len h p x ys (first e)) c)))
        | inr e ↦
            rw (f.1, inside (omega (arith, st.1)), e)
              (
                x ∷ ys,
                (refl, omega (arith, st.1), f.2, st.3.1),
                subst (λ n. n < 4) (open_run-other z len h x ys (first_not e)) c,
                omega arith,
                p,
                hc,
                ap (λ t. replicate len z ++ t) (sym (decoded-other z len h x ys (first_not e))),
              )
      ]
    where
      inside :
          s.nblock_used + suc (length ys) ≡ save_nblock
          → (s.nblock_used + 1 == save_nblock + 1) ≡ false
      inside e = ground arith

      first : (x == s.k0) ≡ true → (x == z) ≡ true
      first e = (λ i. x == sym st.0 i) ∙ e

      first_not : (x == s.k0) ≡ false → (x == z) ≡ false
      first_not e = (λ i. x == sym st.0 i) ∙ e

      longer :
          (o : Option (Run Source))
          → (x == s.k0) ≡ true
          → Reads ch z (len + 1) ys o
          → Reads ch z len (x ∷ ys) o
      longer none e r = r
      longer (some t) e r = (
        r.0,
        r.1,
        r.2,
        omega (arith, r.3),
        r.4,
        r.5,
        r.6
            ∙ sym (replicate-more len z (decoded z (len + 1) ys))
            ∙ ap (λ t. replicate len z ++ t) (sym (decoded-same z len h p x ys (first e))),
      )

  -- The three equal bytes after the first one, and the count.
  pub same_2-Reads :
      (z ch : ℕ) (s : Run Source) (xs : List ℕ)
      → s.state_out_ch ≡ ch
      → Stands s (z ∷ xs)
      → open_run z 2 xs < 4
      → Reads ch z 2 xs (
          same get_byte save_nblock 2
            (same get_byte save_nblock 3 (read_count get_byte save_nblock))
            s)
  same_2-Reads z ch = same-Reads z 2 ch _ (omega arith) (omega arith) (
      same-Reads z 3 ch _ (omega arith) (omega arith) (λ t ys hc st c.
        subst (λ q. Reads q z 4 ys (read_count get_byte save_nblock t)) hc
          (read_count-Reads z t ys st c)))

  -- A round reads one run.
  pub read_run-Reads :
      (z : ℕ) (s : Run Source) (xs : List ℕ)
      → Stands s (z ∷ xs)
      → open_run 0 0 (z ∷ xs) < 4
      → Reads z z 1 xs (read_run get_byte save_nblock s)
  unfolding read_run
  read_run-Reads z s xs st c =
      same-Reads z 1 z _ (omega arith) (omega arith) (same_2-Reads z z)
        (record s { state_out_ch = s.k0 }) xs st.0 st c
