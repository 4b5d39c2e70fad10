-- ===== src/Unrle/Same.antt =====
-- The two output functions write the same, counters included.
use mathlib.Core.Path.{subst}
use libqbz.Base.{
  ℕ, zero, suc, ◌+◌, ◌-◌, ◌%◌, ◌≤◌, ◌<◌, ◌^◌, List, [], ◌∷◌, ◌++◌, replicate, length, take,
}
use libqbz.Base.{◌≡◌, refl, ◌∙◌, sym, arith, Option, ◌==◌, ltb, if◌then◌else◌}
use libqbz.Unrle.{Sink, Run, Unrle, top, paused, corrupt, spent, put_byte, quick_byte, slow_loop}
use libqbz.Unrle.{fast_output, count_out}
use libqbz.Unrle.Decode.{decoded, open_run}
use libqbz.Unrle.Fast.{quick, quick-spends, FastPours}
use libqbz.Unrle.FastLoop.{fast_loop-Pours}
use libqbz.Unrle.Pours.{put_all, avail_out-put_all}
use libqbz.Unrle.Runs.{Stands}
use libqbz.Unrle.Slow.{SlowPours, slow_loop-Pours}

length-take-le : (n : ℕ) (xs : List ℕ) → length (take n xs) ≤ n
length-take-le zero xs = omega arith
length-take-le (suc n) [] = omega arith
length-take-le (suc n) (x ∷ xs) = omega (arith, length-take-le n xs)

-- the counter of 64 digits, in two words
abbrev low : ℕ → ℕ → ℕ
low lo n = (lo + n) % 2 ^ 32

abbrev high : ℕ → ℕ → ℕ → ℕ
high lo hi n = if ltb (low lo n) lo then (hi + 1) % 2 ^ 32 else hi

abbrev first_high : ℕ → ℕ → ℕ
first_high lo hi = if (lo + 1) % 2 ^ 32 == 0 then (hi + 1) % 2 ^ 32 else hi

low-suc : (lo n : ℕ) → low ((lo + 1) % 2 ^ 32) n ≡ low lo (suc n)
low-suc lo n = omega arith

high-suc :
    (lo hi n : ℕ)
    → lo < 2 ^ 32
    → suc n < 2 ^ 32
    → high ((lo + 1) % 2 ^ 32) (first_high lo hi) n ≡ high lo hi (suc n)
high-suc lo hi n hl hn = ground arith

module _ {Source : Type 0} (get_byte : Source → Option (ℕ × Source)) (save_nblock : ℕ) where
  -- the fast loop's bytes leave the totals alone
  quick-totals :
      (xs : List ℕ) (k : Sink) (lo hi : ℕ)
      → put_all
          (quick get_byte save_nblock)
          xs
          (record k { total_out_lo32 = lo; total_out_hi32 = hi })
        ≡ record (put_all (quick get_byte save_nblock) xs k) {
          total_out_lo32 = lo;
          total_out_hi32 = hi;
        }
  unfolding quick_byte
  quick-totals [] k lo hi = refl
  quick-totals (x ∷ xs) k lo hi = quick-totals xs (quick get_byte save_nblock x k) lo hi

  put_all-quick :
      (xs : List ℕ) (k : Sink)
      → k.total_out_lo32 < 2 ^ 32
      → length xs < 2 ^ 32
      → put_all put_byte xs k ≡ record (put_all (quick get_byte save_nblock) xs k) {
        total_out_lo32 = low k.total_out_lo32 (length xs);
        total_out_hi32 = high k.total_out_lo32 k.total_out_hi32 (length xs);
      }
  unfolding put_byte quick_byte
  put_all-quick [] k hl hn =
      λ i. record k { total_out_lo32 = same_low hl i; total_out_hi32 = same_high hl i }
    where
      same_low : k.total_out_lo32 < 2 ^ 32 → k.total_out_lo32 ≡ low k.total_out_lo32 0
      same_low h = omega arith

      same_high :
          k.total_out_lo32 < 2 ^ 32 → k.total_out_hi32 ≡ high k.total_out_lo32 k.total_out_hi32 0
      same_high h = ground arith
  put_all-quick (x ∷ xs) k hl hn =
      put_all-quick xs (put_byte x k) (omega arith) (omega arith) ∙ (λ i.
        record (quick-totals xs (quick get_byte save_nblock x k) ((k.total_out_lo32 + 1) % 2 ^ 32)
          (first_high k.total_out_lo32 k.total_out_hi32) i) {
            total_out_lo32 = low-suc k.total_out_lo32 (length xs) i;
            total_out_hi32 = high-suc k.total_out_lo32 k.total_out_hi32 (length xs) hl hn i;
          })

  counted :
      (ws : List ℕ) (k : Sink) (o : Unrle Source) (addr : Sink → ℕ)
      → k.total_out_lo32 < 2 ^ 32
      → k.avail_out < 2 ^ 32
      → FastPours get_byte save_nblock addr ws k o
      → SlowPours get_byte save_nblock ws k (count_out get_byte save_nblock k o)
  unfolding count_out
  counted ws k (paused s u) addr hl ha p = (
    p.0,
    p.1,
    p.2,
    (λ i. record (p.3 i) {
      total_out_lo32 = low k.total_out_lo32 (k.avail_out - (p.3 i).avail_out);
      total_out_hi32 = high k.total_out_lo32 k.total_out_hi32 (k.avail_out - (p.3 i).avail_out);
    })
        ∙ (λ i. record (put_all (quick get_byte save_nblock) (take k.avail_out ws) k) {
          total_out_lo32 = low k.total_out_lo32 (written i);
          total_out_hi32 = high k.total_out_lo32 k.total_out_hi32 (written i);
        })
        ∙ sym (
            put_all-quick (take k.avail_out ws) k hl
              (omega (arith, length-take-le k.avail_out ws))),
    p.4,
  )
    where
      written :
          k.avail_out - (put_all (quick get_byte save_nblock) (take k.avail_out ws) k).avail_out
          ≡ length (take k.avail_out ws)
      written = omega (
        arith,
        avail_out-put_all (quick get_byte save_nblock) (quick-spends get_byte save_nblock)
            (take k.avail_out ws) k,
        length-take-le k.avail_out ws,
      )
  counted ws k corrupt addr hl ha p = p
  counted ws k spent addr hl ha p = p

  -- On a block of bytes that is not cut off behind four equal ones, with a CRC and a total of 32
  -- digits, room for fewer than 2 ^ 32 bytes, and more rounds than there are bytes of the block left:
  -- unRLE_obuf_to_output_FAST, with its batches and its totals at the end, writes of the pending run
  -- and of what the rest decodes to as much as there is room for, and pauses with the others to come.
  pub fast_output-Pours :
      (addr : Sink → ℕ) (rounds : ℕ) (s : Run Source) (k : Sink) (zs : List ℕ)
      → Stands get_byte save_nblock s zs
      → open_run 0 0 zs < 4
      → s.state_out_ch < 256
      → k.calculated_block_crc < 2 ^ 32
      → k.total_out_lo32 < 2 ^ 32
      → k.avail_out < 2 ^ 32
      → length zs < rounds
      → SlowPours get_byte save_nblock
          (replicate s.state_out_len s.state_out_ch ++ decoded 0 0 zs)
          k
          (fast_output get_byte save_nblock addr rounds s k)
  unfolding fast_output
  fast_output-Pours addr rounds s k zs st c hc hk hl ha h =
      counted _ k _ addr hl ha
        (fast_loop-Pours get_byte save_nblock addr rounds top s k zs st c hc hk h)

-- Both pause, and wrote the same, with the same CRC and the same totals.
abbrev pub Agree : {S T : Type 0} → Unrle S → Unrle T → Type 0
Agree (paused s u) (paused t v) = u ≡ v
Agree _ _ = ⊥

module _ {S T : Type 0} (get_small : S → Option (ℕ × S)) (get_fast : T → Option (ℕ × T))
    (save_nblock : ℕ) where
  agree :
      (ws : List ℕ) (k : Sink) (o : Unrle S) (p : Unrle T)
      → SlowPours get_small save_nblock ws k o
      → SlowPours get_fast save_nblock ws k p
      → Agree o p
  agree ws k (paused s u) (paused t v) a b = a.3 ∙ sym b.3
  agree ws k (paused s u) corrupt a b = b
  agree ws k (paused s u) spent a b = b
  agree ws k corrupt p a b = absurd a
  agree ws k spent p a b = absurd a

  -- Where the sources of both give the same block of bytes, which is not cut off behind four equal
  -- ones, and the pending runs are the same, with a CRC and a total of 32 digits, room for fewer than
  -- 2 ^ 32 bytes, and more rounds than there are bytes of the block left: the slow loop and the fast one
  -- both pause, having written the same bytes, with the same CRC and the same totals.
  pub output-Agree :
      (addr : Sink → ℕ) (rounds : ℕ) (s : Run S) (t : Run T) (k : Sink) (zs : List ℕ)
      → Stands get_small save_nblock s zs
      → Stands get_fast save_nblock t zs
      → s.state_out_len ≡ t.state_out_len
      → s.state_out_ch ≡ t.state_out_ch
      → open_run 0 0 zs < 4
      → t.state_out_ch < 256
      → k.calculated_block_crc < 2 ^ 32
      → k.total_out_lo32 < 2 ^ 32
      → k.avail_out < 2 ^ 32
      → length zs < rounds
      → Agree
          (slow_loop get_small save_nblock rounds s k)
          (fast_output get_fast save_nblock addr rounds t k)
  output-Agree addr rounds s t k zs st su el ec c hc hk hl ha h =
      agree (replicate t.state_out_len t.state_out_ch ++ decoded 0 0 zs) k _ _
        (subst
          (λ ws. SlowPours get_small save_nblock ws k (slow_loop get_small save_nblock rounds s k))
          (λ i. replicate (el i) (ec i) ++ decoded 0 0 zs)
          (slow_loop-Pours get_small save_nblock rounds s k zs st c h))
        (fast_output-Pours get_fast save_nblock addr rounds t k zs su c hc hk hl ha h)
