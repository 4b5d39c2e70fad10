-- ===== src/Unrle/Done.antt =====
-- The test by which BZ2_bzDecompress of src/bzlib.c finds that a block was written out.
use libqbz.Base.{
  ℕ, zero, suc, ◌+◌, List, [], ◌∷◌, ◌++◌, replicate, length, ◌≡◌, refl, ap, arith, ◌==◌,
}
use libqbz.Base.{Bool, true, false, ◌&&◌, Option, ◌↔◌}
use libqbz.Unrle.{Run}
use libqbz.Unrle.Decode.{decoded}
use libqbz.Unrle.Runs.{Stands}

module _ {Source : Type 0} (get_byte : Source → Option (ℕ × Source)) (save_nblock : ℕ) where
  -- `nblock_used == save_nblock+1 && state_out_len == 0`
  unfoldable pub block_done : Run Source → Bool
  block_done s = s.nblock_used == save_nblock + 1 && s.state_out_len == 0

  both : (b c : Bool) → (b && c) ≡ true → (b ≡ true) × (c ≡ true)
  both true c e = (refl, e)
  both false c e = absurd (ground (arith, e))

  -- With the bytes `zs` of the block left, BZ2_bzDecompress takes the block for written out exactly
  -- when the pending run and what these bytes decode to are empty.
  pub block_done_iff :
      (s : Run Source) (zs : List ℕ)
      → Stands get_byte save_nblock s zs
      → (block_done s ≡ true) ↔ (replicate s.state_out_len s.state_out_ch ++ decoded 0 0 zs ≡ [])
  unfolding block_done
  block_done_iff s [] st = (forth, back)
    where
      none_left : (n : ℕ) → (n == 0) ≡ true → n ≡ 0
      none_left n e = ground (arith, e)

      ended : (s.nblock_used == save_nblock + 1) ≡ true
      ended = equal s.nblock_used (save_nblock + 1) st
        where
          equal : (a b : ℕ) → a ≡ b → (a == b) ≡ true
          equal a b e = ground arith

      forth :
          (s.nblock_used == save_nblock + 1 && s.state_out_len == 0) ≡ true
          → replicate s.state_out_len s.state_out_ch ++ [] ≡ []
      forth e = λ i.
          replicate
            (none_left s.state_out_len
              (both (s.nblock_used == save_nblock + 1) (s.state_out_len == 0) e).1 i)
            s.state_out_ch
          ++ []

      empty : (n c : ℕ) → replicate n c ++ [] ≡ [] → (n == 0) ≡ true
      empty zero c e = refl
      empty (suc n) c e = absurd (omega (arith, ap length e))

      back :
          replicate s.state_out_len s.state_out_ch ++ [] ≡ []
          → (s.nblock_used == save_nblock + 1 && s.state_out_len == 0) ≡ true
      back e = rw ended (empty s.state_out_len s.state_out_ch e)
  block_done_iff s (z ∷ zs) st = (
    λ e. absurd (
        used_less s.nblock_used st.1
          (both (s.nblock_used == save_nblock + 1) (s.state_out_len == 0) e).0),
    λ e. absurd (some_left s.state_out_len e),
  )
    where
      used_less : (u : ℕ) → u + length zs ≡ save_nblock → (u == save_nblock + 1) ≡ true → ⊥
      used_less u e h = ground (arith, e, h)

      some_left : (n : ℕ) → replicate n s.state_out_ch ++ decoded 0 0 (z ∷ zs) ≡ [] → ⊥
      some_left zero e = omega (arith, ap length e)
      some_left (suc n) e = omega (arith, ap length e)
