-- ===== src/Unrle/Decode.antt =====
-- The decoding of a block, from one run to the next.
use mathlib.Core.List.{append_assoc, append-nil}
use libqbz.Base.{ℕ, ◌+◌, ◌≤◌, ◌<◌, List, [], ◌∷◌, ◌++◌, replicate, ◌==◌, leb, ◌&&◌}
use libqbz.Base.{if◌then◌else◌, ◌≡◌, refl, ◌∙◌, sym, arith, Bool-cases, inl, inr, true, false}
use libqbz.Rle.Decode.{Decoder, decode, decode_byte}

-- what the bytes decode to, where `run` bytes `prev` were read
abbrev pub decoded : ℕ → ℕ → List ℕ → List ℕ
decoded prev run [] = []
decoded prev run (b ∷ bs) =
    if run == 4
    then replicate b prev ++ decoded prev 0 bs
    else b ∷ decoded b (if leb 1 run && b == prev then run + 1 else 1) bs

-- the run that is open behind the bytes
abbrev pub open_run : ℕ → ℕ → List ℕ → ℕ
open_run prev run [] = run
open_run prev run (b ∷ bs) =
    if run == 4
    then open_run prev 0 bs
    else open_run b (if leb 1 run && b == prev then run + 1 else 1) bs

pub decode-decoded :
    (d : Decoder) (bs : List ℕ)
    → ((decode d bs).out ≡ d.out ++ decoded d.prev d.run bs)
      × ((decode d bs).run ≡ open_run d.prev d.run bs)
unfolding decode decode_byte
decode-decoded d [] = (sym (append-nil d.out), refl)
decode-decoded d (b ∷ bs) = elim (Bool-cases (d.run == 4)) [
  | inl e ↦
      rw (e, decode, decode_byte)
        (let rest = decode-decoded (record d { run = 0; out = d.out ++ replicate b d.prev }) bs in
          (rest.0 ∙ append_assoc d.out (replicate b d.prev) (decoded d.prev 0 bs), rest.1))
  | inr e ↦
      rw (e, decode, decode_byte)
        (let rest =
            decode-decoded
              (record {
                prev = b;
                run = if leb 1 d.run && b == d.prev then d.run + 1 else 1;
                out = d.out ++ b ∷ [];
              })
              bs in
          (
            rest.0
                ∙ append_assoc d.out (b ∷ [])
                    (decoded b (if leb 1 d.run && b == d.prev then d.run + 1 else 1) bs),
            rest.1,
          ))
]

-- Where no run is open, it does not matter which byte was the last.
pub decoded-fresh : (p q : ℕ) (bs : List ℕ) → decoded p 0 bs ≡ decoded q 0 bs
decoded-fresh p q [] = refl
decoded-fresh p q (b ∷ bs) = refl

pub open_run-fresh : (p q : ℕ) (bs : List ℕ) → open_run p 0 bs ≡ open_run q 0 bs
open_run-fresh p q [] = refl
open_run-fresh p q (b ∷ bs) = refl

module _ (z run : ℕ) (short : run < 4) where
  not_four : (run == 4) ≡ false
  not_four = ground arith

  -- another byte ends the run
  pub decoded-other :
      (x : ℕ) (bs : List ℕ) → (x == z) ≡ false → decoded z run (x ∷ bs) ≡ decoded 0 0 (x ∷ bs)
  decoded-other x bs e =
      rw (not_four, e) (elim (Bool-cases (leb 1 run)) [ inl h ↦ rw h refl | inr h ↦ rw h refl ])

  pub open_run-other :
      (x : ℕ) (bs : List ℕ) → (x == z) ≡ false → open_run z run (x ∷ bs) ≡ open_run 0 0 (x ∷ bs)
  open_run-other x bs e =
      rw (not_four, e) (elim (Bool-cases (leb 1 run)) [ inl h ↦ rw h refl | inr h ↦ rw h refl ])

  module _ (some_read : 1 ≤ run) (x : ℕ) (bs : List ℕ) (e : (x == z) ≡ true) where
    positive : leb 1 run ≡ true
    positive = ground arith

    own : x ≡ z
    own = ground (arith, e)

    -- the same byte goes on with it
    pub decoded-same : decoded z run (x ∷ bs) ≡ z ∷ decoded z (run + 1) bs
    decoded-same = rw (not_four, e, positive) (λ i. own i ∷ decoded (own i) (run + 1) bs)

    pub open_run-same : open_run z run (x ∷ bs) ≡ open_run z (run + 1) bs
    open_run-same = rw (not_four, e, positive) (λ i. open_run (own i) (run + 1) bs)
