-- ===== src/Unrle/Pours.antt =====
-- What a call writes of the bytes that are to be written, and what it leaves.
use libqbz.Base.{
  ℕ, zero, suc, ◌+◌, ◌-◌, ◌≤◌, ◌<◌, List, [], ◌∷◌, ◌++◌, replicate, length, take, drop,
}
use libqbz.Base.{◌≡◌, refl, ap, ap₂, ◌∙◌, sym, arith, Option, length-replicate}
use libqbz.Unrle.{Sink, Run, Unrle, paused, corrupt, spent}
use libqbz.Unrle.Decode.{decoded, open_run}
use libqbz.Unrle.Runs.{Stands}

take-short : (a n c : ℕ) (vs : List ℕ) → a ≤ n → take a (replicate n c ++ vs) ≡ replicate a c
take-short zero n c vs h = refl
take-short (suc a) zero c vs h = absurd (omega arith)
take-short (suc a) (suc n) c vs h = ap (λ t. c ∷ t) (take-short a n c vs (omega arith))

drop-short :
    (a n c : ℕ) (vs : List ℕ) → a ≤ n → drop a (replicate n c ++ vs) ≡ replicate (n - a) c ++ vs
drop-short zero n c vs h = λ i. replicate (same i) c ++ vs
  where
    same : n ≡ n - 0
    same = omega arith
drop-short (suc a) zero c vs h = absurd (omega arith)
drop-short (suc a) (suc n) c vs h =
    drop-short a n c vs (omega arith) ∙ (λ i. replicate (less i) c ++ vs)
  where
    less : n - a ≡ suc n - suc a
    less = omega arith

take-long :
    (a n c : ℕ) (vs : List ℕ)
    → n ≤ a
    → take a (replicate n c ++ vs) ≡ replicate n c ++ take (a - n) vs
take-long a zero c vs h = λ i. take (same i) vs
  where
    same : a ≡ a - 0
    same = omega arith
take-long zero (suc n) c vs h = absurd (omega arith)
take-long (suc a) (suc n) c vs h =
    ap (λ t. c ∷ t) (take-long a n c vs (omega arith) ∙ (λ i. replicate n c ++ take (less i) vs))
  where
    less : a - n ≡ suc a - suc n
    less = omega arith

drop-long : (a n c : ℕ) (vs : List ℕ) → n ≤ a → drop a (replicate n c ++ vs) ≡ drop (a - n) vs
drop-long a zero c vs h = λ i. drop (same i) vs
  where
    same : a ≡ a - 0
    same = omega arith
drop-long zero (suc n) c vs h = absurd (omega arith)
drop-long (suc a) (suc n) c vs h = drop-long a n c vs (omega arith) ∙ (λ i. drop (less i) vs)
  where
    less : a - n ≡ suc a - suc n
    less = omega arith

pub take-nil : (a : ℕ) → take {A = ℕ} a [] ≡ []
take-nil zero = refl
take-nil (suc a) = refl

pub drop-nil : (a : ℕ) → drop {A = ℕ} a [] ≡ []
drop-nil zero = refl
drop-nil (suc a) = refl

-- Bytes in a row, written one by one by `put`.
abbrev pub put_all : (ℕ → Sink → Sink) → List ℕ → Sink → Sink
put_all put [] k = k
put_all put (x ∷ xs) k = put_all put xs (put x k)

pub put_all-append :
    (put : ℕ → Sink → Sink) (xs ys : List ℕ) (k : Sink)
    → put_all put (xs ++ ys) k ≡ put_all put ys (put_all put xs k)
put_all-append put [] ys k = refl
put_all-append put (x ∷ xs) ys k = put_all-append put xs ys (put x k)

module _ (put : ℕ → Sink → Sink)
    (spends : (x : ℕ) (k : Sink) → (put x k).avail_out ≡ k.avail_out - 1) where
  pub avail_out-put_all :
      (xs : List ℕ) (k : Sink) → (put_all put xs k).avail_out ≡ k.avail_out - length xs
  avail_out-put_all [] k = omega arith
  avail_out-put_all (x ∷ xs) k = omega (arith, avail_out-put_all xs (put x k), spends x k)

  module _ {Source : Type 0} (get_byte : Source → Option (ℕ × Source)) (save_nblock : ℕ) where
    -- The call pauses, having written as many of the bytes as there is room for, and the run and the
    -- bytes of the block that are left decode to the others.
    abbrev pub Pours : List ℕ → Sink → Unrle Source → Type 0
    Pours ws k (paused s u) =
        (zs : List ℕ) × Stands get_byte save_nblock s zs
        × (open_run 0 0 zs < 4)
        × (u ≡ put_all put (take k.avail_out ws) k)
        × (replicate s.state_out_len s.state_out_ch ++ decoded 0 0 zs ≡ drop k.avail_out ws)
    Pours ws k corrupt = ⊥
    Pours ws k spent = ⊥

    -- The room ends within the run.
    pub Pours-within :
        (n ch : ℕ) (zs : List ℕ) (k : Sink) (s : Run Source)
        → k.avail_out ≤ n
        → Stands get_byte save_nblock s zs
        → open_run 0 0 zs < 4
        → s.state_out_len ≡ n - k.avail_out
        → s.state_out_ch ≡ ch
        → Pours
            (replicate n ch ++ decoded 0 0 zs)
            k
            (paused s (put_all put (replicate k.avail_out ch) k))
    Pours-within n ch zs k s h st c e f = (
      zs,
      st,
      c,
      ap (λ t. put_all put t k) (sym (take-short k.avail_out n ch (decoded 0 0 zs) h)),
      ap₂ (λ m d. replicate m d ++ decoded 0 0 zs) e f
          ∙ sym (drop-short k.avail_out n ch (decoded 0 0 zs) h),
    )

    -- A run that was written whole.
    pub Pours-after :
        (n ch : ℕ) (vs : List ℕ) (k : Sink) (o : Unrle Source)
        → n ≤ k.avail_out
        → Pours vs (put_all put (replicate n ch) k) o
        → Pours (replicate n ch ++ vs) k o
    Pours-after n ch vs k (paused s u) h p =
        let left : (put_all put (replicate n ch) k).avail_out ≡ k.avail_out - n =
          avail_out-put_all (replicate n ch) k
          ∙ ap (λ (m : ℕ). k.avail_out - m) (length-replicate n ch) in
        (
          p.0,
          p.1,
          p.2,
          p.3
              ∙ (λ i. put_all put (take (left i) vs) (put_all put (replicate n ch) k))
              ∙ sym (put_all-append put (replicate n ch) (take (k.avail_out - n) vs) k)
              ∙ ap (λ t. put_all put t k) (sym (take-long k.avail_out n ch vs h)),
          p.4 ∙ (λ i. drop (left i) vs) ∙ sym (drop-long k.avail_out n ch vs h),
        )
    Pours-after n ch vs k corrupt h p = p
    Pours-after n ch vs k spent h p = p

    -- At the end of the block.
    pub Pours-end :
        (k : Sink) (s : Run Source)
        → s.nblock_used ≡ save_nblock + 1
        → s.state_out_len ≡ 0
        → Pours [] k (paused s k)
    Pours-end k s e z = (
      [],
      e,
      omega arith,
      ap (λ t. put_all put t k) (sym (take-nil k.avail_out)),
      (λ i. replicate (z i) s.state_out_ch ++ []) ∙ sym (drop-nil k.avail_out),
    )
