-- ===== src/Huffman/Fast/Pull.antt =====
-- The next symbol within a group: what the tables hold, or what GET_MTF_VAL reads.
use libqbz.Base.{ℕ, zero, suc, ◌+◌, ◌≤◌, ◌<◌, ◌^◌, List, ◌++◌, get_or}
use libqbz.Base.{
  ◌≡◌, refl, ap, ◌∙◌, sym, arith, ◌==◌, leb, true, false, Bool-cases, inl, inr, ◌-◌, ◌/◌, ◌%◌,
}
use libqbz.Bits.{bits}
use libqbz.Bits.Reader.{Reader}
use libqbz.Bits.Reader.Laws.{contents, IsValid}
use libqbz.Huffman.Decode.{Cursor, Pulled, symbol, wait_code, wait_digit, bad_code, get_mtf_val}
use libqbz.Huffman.Decode.{step_group, max_alpha_size}
use libqbz.Base.Ints.{ℤ, pos, negsuc}
use libqbz.Huffman.Fast.{
  pull, look_fast, on_entry, on_overflow, hit, refill_some, window, table_bits,
}
use libqbz.Huffman.Fast.{code_length, symbol_of, extra_of, place_of}
use libqbz.Huffman.Fast.Sound.{Holds, Sound, leb_le, refill_some-contents, beyond, front-contents}
use libqbz.Huffman.Fast.Sound.{wider, window-contents}
use libqbz.Huffman.Symbol.{Yields}
use libqbz.Unmtf.{Symbols, at_top, in_run, ended, bad_data}
use libqbz.Huffman.Tabled.{table_of, min_len_of, code_of, Usable, from_code-reads}

module _ (perm : ℕ → ℕ → ℕ) (lens : ℕ → List ℕ) (selector : List ℕ) (alpha : ℕ)
    (ok : (g : ℕ) → Usable alpha (lens g)) (ha : alpha ≤ max_alpha_size) (fast overflow : ℕ → ℕ → ℤ)
    (sound : Sound lens (code_of lens) alpha fast overflow) where
  -- One reader yields one symbol.
  same-Yields :
      (v w : ℕ) (c : Cursor) (rest more : List ℕ) (p : Pulled)
      → Yields v c rest p
      → Yields w c more p
      → (w ≡ v) × (more ≡ rest)
  same-Yields v w c rest more (symbol x u r) a b = (sym b.0 ∙ a.0, sym b.4 ∙ a.4)
  same-Yields v w c rest more (wait_code u r) a b = absurd a
  same-Yields v w c rest more (wait_digit u r) a b = absurd a
  same-Yields v w c rest more (bad_code u r) a b = absurd a

  -- The cursor behind a symbol of the group.
  abbrev pub onward : Cursor → Cursor
  onward c = step_group (table_of perm lens) (min_len_of lens) selector c

  -- The code of `v` in the group of `c` stands in front of `rest`.
  abbrev pub Ready : ℕ → Cursor → Reader → List ℕ → Type 0
  Ready v c r rest =
      (v < alpha)
      × ((c.group_pos == 0) ≡ false)
      × IsValid r
      × (contents r ≡ bits (get_or (lens c.g_sel) v 0) (code_of lens c.g_sel v) ++ rest)

  hit-Yields :
      (n x e v : ℕ) (c : Cursor) (r : Reader) (rest : List ℕ)
      → x ≡ window n r
      → n ≤ r.bs_live
      → Holds (lens c.g_sel) (code_of lens c.g_sel) alpha n x e
      → Ready v c r rest
      → Yields v (onward c) rest (hit e c r)
  unfolding hit
  hit-Yields n x e v c r rest ex hn h a =
      let front =
        front-contents n (code_length e) (code_of lens c.g_sel (symbol_of e)) r a.2 hn h.within
          h.fits (h.front ∙ ap (λ t. t / 2 ^ (n - code_length e)) ex) in
      let both =
        same-Yields v (symbol_of e) (onward c) rest (contents (beyond (code_length e) r)) _
          (from_code-reads perm lens selector alpha ok ha v (onward c) r rest a.0 refl a.2 a.3)
          (from_code-reads perm lens selector alpha ok ha (symbol_of e) (onward c) r
            (contents (beyond (code_length e) r)) h.known refl a.2
            (front
              ∙ ap
                  (λ l.
                    bits l (code_of lens c.g_sel (symbol_of e))
                    ++ contents (beyond (code_length e) r))
                  (sym h.own_length))) in
      (
        both.0,
        refl,
        refl,
        refl,
        both.1,
        record { live = omega (arith, (a.2).live); bytes = (a.2).bytes },
      )

  miss-Yields :
      (v : ℕ) (c : Cursor) (r : Reader) (rest : List ℕ)
      → Ready v c r rest
      → Yields v (onward c) rest (get_mtf_val (table_of perm lens) (min_len_of lens) selector c r)
  unfolding get_mtf_val
  miss-Yields v c r rest a =
      rw a.1 (from_code-reads perm lens selector alpha ok ha v (onward c) r rest a.0 refl a.2 a.3)

  overflow-Yields :
      (z : ℤ) (m v : ℕ) (c : Cursor) (r : Reader) (rest : List ℕ)
      → fast c.g_sel (window table_bits r) ≡ negsuc m
      → overflow c.g_sel
          (place_of m (r.bs_buff / 2 ^ (r.bs_live - (table_bits + extra_of m)) % 2 ^ extra_of m))
        ≡ z
      → table_bits + extra_of m ≤ r.bs_live
      → Ready v c r rest
      → Yields v
          (onward c)
          rest
          (on_overflow (table_of perm lens) (min_len_of lens) selector fast overflow z c r)
  unfolding on_overflow
  overflow-Yields (pos zero) m v c r rest q p hn a = miss-Yields v c r rest a
  overflow-Yields (negsuc n) m v c r rest q p hn a = miss-Yields v c r rest a
  overflow-Yields (pos (suc e)) m v c r rest q p hn a =
      let wide = wider table_bits (extra_of m) r a.2 hn in
      hit-Yields (table_bits + extra_of m) (window (table_bits + extra_of m) r) (suc e) v c r rest
        refl hn
        (sound.long c.g_sel (window (table_bits + extra_of m) r) m e
          (window-contents (table_bits + extra_of m) r a.2 hn).1 (ap (fast c.g_sel) wide.0 ∙ q)
          (ap (λ t. overflow c.g_sel (place_of m t)) wide.1 ∙ p))
        a

  entry-Yields :
      (z : ℤ) (v : ℕ) (c : Cursor) (r : Reader) (rest : List ℕ)
      → fast c.g_sel (window table_bits r) ≡ z
      → table_bits ≤ r.bs_live
      → Ready v c r rest
      → Yields v
          (onward c)
          rest
          (on_entry (table_of perm lens) (min_len_of lens) selector fast overflow z c r)
  unfolding on_entry
  entry-Yields (pos zero) v c r rest q hn a = miss-Yields v c r rest a
  entry-Yields (pos (suc e)) v c r rest q hn a =
      hit-Yields table_bits (window table_bits r) (suc e) v c r rest refl hn
        (sound.short c.g_sel (window table_bits r) e (window-contents table_bits r a.2 hn).1 q) a
  entry-Yields (negsuc m) v c r rest q hn a =
      elim (Bool-cases (leb (table_bits + extra_of m) r.bs_live)) [
        | inl h ↦ rw h (overflow-Yields _ m v c r rest q refl (leb_le _ _ h) a)
        | inr h ↦ rw h (miss-Yields v c r rest a)
      ]

  look-Yields :
      (v : ℕ) (c : Cursor) (r : Reader) (rest : List ℕ)
      → Ready v c r rest
      → Yields v
          (onward c)
          rest
          (look_fast (table_of perm lens) (min_len_of lens) selector fast overflow c r)
  unfolding look_fast
  look-Yields v c r rest a = elim (Bool-cases (leb table_bits r.bs_live)) [
    | inl h ↦ rw h (entry-Yields _ v c r rest refl (leb_le _ _ h) a)
    | inr h ↦ rw h (miss-Yields v c r rest a)
  ]

  -- Within a group the next symbol is read, by the tables or by GET_MTF_VAL.
  pub pull-Yields :
      (st : Symbols) (v : ℕ) (c : Cursor) (r : Reader) (rest : List ℕ)
      → Ready v c r rest
      → Yields v
          (onward c)
          rest
          (pull (table_of perm lens) (min_len_of lens) selector fast overflow st c r)
  unfolding pull
  pull-Yields (at_top s) v c r rest a =
      let filled = refill_some-contents r.next_in r refl a.2 in
      rw a.1 (look-Yields v c (refill_some r.next_in r) rest (a.0, a.1, filled.0, filled.1 ∙ a.3))
  pull-Yields (in_run es n s) v c r rest a = miss-Yields v c r rest a
  pull-Yields (ended s) v c r rest a = miss-Yields v c r rest a
  pull-Yields bad_data v c r rest a = miss-Yields v c r rest a

  -- Between groups it is GET_MTF_VAL.
  pub pull_first :
      (st : Symbols) (c : Cursor) (r : Reader)
      → (c.group_pos == 0) ≡ true
      → pull (table_of perm lens) (min_len_of lens) selector fast overflow st c r
        ≡ get_mtf_val (table_of perm lens) (min_len_of lens) selector c r
  unfolding pull
  pull_first (at_top s) c r e = rw e refl
  pull_first (in_run es n s) c r e = refl
  pull_first (ended s) c r e = refl
  pull_first bad_data c r e = refl
