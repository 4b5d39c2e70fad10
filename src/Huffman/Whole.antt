-- ===== src/Huffman/Whole.antt =====
-- The loop over the symbols of a block, on the digits that sendMTFValues writes.
use mathlib.Core.List.{append_assoc}
use mathlib.Core.Path.{subst}
use libqbz.Base.{ℕ, zero, suc, ◌+◌, ◌*◌, ◌≤◌, ◌<◌, List, [], ◌∷◌, ◌++◌, drop, get_or}
use libqbz.Base.{◌≡◌, refl, ap, ◌∙◌, sym, arith, length, ◌==◌, leb, true, false}
use libqbz.Bits.{bits}
use libqbz.Bits.Reader.{Reader}
use libqbz.Bits.Reader.Laws.{contents, IsValid}
use libqbz.Huffman.Body.{Body, first_cursor, settle, on_pulled, decode_loop, Finds, AtSymbol}
use libqbz.Huffman.Decode.{Cursor, Pulled, symbol, wait_code, wait_digit, bad_code, get_mtf_val}
use libqbz.Huffman.Decode.{from_code, step_group, next_group, max_alpha_size, g_size}
use libqbz.Base.Ints.{ℤ}
use libqbz.Huffman.Fast.{pull}
use libqbz.Huffman.Fast.Sound.{Sound}
use libqbz.Huffman.Send.{coded, AllBelow}
use libqbz.Huffman.Symbol.{Yields}
use libqbz.Unmtf.{Symbols, at_top, in_run, ended, bad_data, next_symbol, symbols_loop}
use libqbz.Huffman.Tabled.{table_of, min_len_of, code_of, Usable, from_code-reads}
use libqbz.Huffman.Fast.Pull.{pull-Yields, pull_first}

drop-first :
    (xs hs : List ℕ) (n h : ℕ)
    → drop n xs ≡ h ∷ hs
    → (get_or xs n 0 ≡ h) × (drop (n + 1) xs ≡ hs) × (n < length xs)
drop-first [] hs zero h e = absurd (omega (arith, ap length e))
drop-first [] hs (suc n) h e = absurd (omega (arith, ap length e))
drop-first (x ∷ xs) hs zero h e = (ap (λ t. get_or t 0 0) e, ap (drop 1) e, omega arith)
drop-first (x ∷ xs) hs (suc n) h e =
    let rest = drop-first xs hs n h e in
    (rest.0, (λ t. drop (onward t) (x ∷ xs)) ∙ rest.1, omega (arith, rest.2))
  where
    onward : suc n + 1 ≡ suc (n + 1)
    onward = omega arith

-- The loop is over.
abbrev pub Over : Symbols → Type 0
Over t = AtSymbol t → ⊥

module _ (perm : ℕ → ℕ → ℕ) (lens : ℕ → List ℕ) (selector seqs : List ℕ) (alpha eob max : ℕ)
    (ok : (g : ℕ) → Usable alpha (lens g)) (ha : alpha ≤ max_alpha_size) (fast overflow : ℕ → ℕ → ℤ)
    (sound : Sound lens (code_of lens) alpha fast overflow) where
  settle-Finds :
      (more : Symbols → Cursor → Reader → Body) (vs : List ℕ) (s t : Symbols) (c : Cursor)
      (r : Reader)
      → symbols_loop seqs eob max s vs ≡ t
      → (AtSymbol s → Finds t (more s c r))
      → Finds t (
          settle
            (table_of perm lens)
            (min_len_of lens)
            selector
            seqs
            eob
            max
            fast
            overflow
            more
            s
            c
            r)
  unfolding settle symbols_loop next_symbol
  settle-Finds more vs (at_top s) t c r e go = go tt
  settle-Finds more vs (in_run es n s) t c r e go = go tt
  settle-Finds more vs (ended s) t c r e go = sym (stays vs) ∙ e
    where
      stays : (vs : List ℕ) → symbols_loop seqs eob max (ended s) vs ≡ ended s
      stays [] = refl
      stays (v ∷ vs) = stays vs
  settle-Finds more vs bad_data t c r e go = sym (stays vs) ∙ e
    where
      stays : (vs : List ℕ) → symbols_loop seqs eob max bad_data vs ≡ bad_data
      stays [] = refl
      stays (v ∷ vs) = stays vs

  pulled-Finds :
      (more : Symbols → Cursor → Reader → Body) (v : ℕ) (vs : List ℕ) (st t : Symbols) (c : Cursor)
      (rest : List ℕ) (p : Pulled)
      → symbols_loop seqs eob max (next_symbol seqs eob max st v) vs ≡ t
      → Yields v c rest p
      → ((u : Cursor) (r : Reader)
          → (u.groups_begun ≡ c.groups_begun) × (u.group_pos ≡ c.group_pos) × (u.g_sel ≡ c.g_sel)
          → contents r ≡ rest
          → IsValid r
          → AtSymbol (next_symbol seqs eob max st v)
          → Finds t (more (next_symbol seqs eob max st v) u r))
      → Finds t (
          on_pulled
            (table_of perm lens)
            (min_len_of lens)
            selector
            seqs
            eob
            max
            fast
            overflow
            more
            st
            p)
  unfolding on_pulled
  pulled-Finds more v vs st t c rest (symbol x u r) e y go =
      subst
        (λ x. Finds t (
          settle (table_of perm lens) (min_len_of lens) selector seqs eob max fast overflow more
            (next_symbol seqs eob max st x) u r))
        (sym y.0)
        (settle-Finds more vs (next_symbol seqs eob max st v) t u r e
          (go u r (y.1, y.2, y.3) y.4 y.5))
  pulled-Finds more v vs st t c rest (wait_code u r) e y go = absurd y
  pulled-Finds more v vs st t c rest (wait_digit u r) e y go = absurd y
  pulled-Finds more v vs st t c rest (bad_code u r) e y go = absurd y

  loop-Finds :
      (vs : List ℕ) (rounds left g : ℕ) (sels : List ℕ) (st t : Symbols) (c : Cursor) (r : Reader)
      (rest : List ℕ)
      → AtSymbol st
      → symbols_loop seqs eob max st vs ≡ t
      → Over t
      → length vs ≤ rounds
      → length vs ≤ left + g_size * length sels
      → AllBelow alpha vs
      → c.group_pos ≡ left
      → c.g_sel ≡ g
      → drop c.groups_begun selector ≡ sels
      → IsValid r
      → contents r ≡ coded lens (code_of lens) g left sels vs ++ rest
      → Finds t (
          decode_loop
            (table_of perm lens)
            (min_len_of lens)
            selector
            seqs
            eob
            max
            fast
            overflow
            rounds
            st
            c
            r)
  unfolding symbols_loop decode_loop get_mtf_val
  loop-Finds [] rounds left g sels st t c r rest a e o hn hs h hp hg hd k f =
      absurd (o (subst AtSymbol e a))
  loop-Finds (v ∷ vs) zero left g sels st t c r rest a e o hn hs h hp hg hd k f =
      absurd (omega arith)
  loop-Finds (v ∷ vs) (suc rounds) zero g [] st t c r rest a e o hn hs h hp hg hd k f =
      absurd (omega arith)
  loop-Finds (v ∷ vs) (suc rounds) zero g (s ∷ ss) st t c r rest a e o hn hs h hp hg hd k f =
      rw
        (
          pull_first perm lens selector alpha ok ha fast overflow sound st c r zero_pos,
          zero_pos,
          begins,
        )
        (pulled-Finds
          (decode_loop (table_of perm lens) (min_len_of lens) selector seqs eob max fast overflow
            rounds)
          v vs st t u (coded lens (code_of lens) s 49 ss vs ++ rest)
          (from_code (table_of perm lens) (min_len_of lens) selector u r) e
          (from_code-reads perm lens selector alpha ok ha v u r
            (coded lens (code_of lens) s 49 ss vs ++ rest) h.0 refl k digits)
          (λ w t' facts ew kw at.
            loop-Finds vs rounds 49 s ss (next_symbol seqs eob max st v) t w t' rest at e o
              (omega arith) (omega (arith, hs)) h.1 facts.1 (facts.2 ∙ parts.0)
              ((λ i. drop (facts.0 i) selector) ∙ parts.1) kw ew))
    where
      u : Cursor
      u =
          step_group (table_of perm lens) (min_len_of lens) selector
            (next_group (table_of perm lens) (min_len_of lens) selector c)

      parts :
          (get_or selector c.groups_begun 0 ≡ s)
          × (drop (c.groups_begun + 1) selector ≡ ss)
          × (c.groups_begun < length selector)
      parts = drop-first selector ss c.groups_begun s hd

      zero_pos : (c.group_pos == 0) ≡ true
      zero_pos = equal c.group_pos hp
        where
          equal : (n : ℕ) → n ≡ 0 → (n == 0) ≡ true
          equal n e = ground arith

      begins : leb (length selector) c.groups_begun ≡ false
      begins = below (length selector) c.groups_begun parts.2
        where
          below : (n m : ℕ) → m < n → leb n m ≡ false
          below n m h = ground arith

      digits :
          contents r
          ≡ bits (get_or (lens u.g_sel) v 0) (code_of lens u.g_sel v)
            ++ (coded lens (code_of lens) s 49 ss vs ++ rest)
      digits =
          f
          ∙ append_assoc (bits (get_or (lens s) v 0) (code_of lens s v))
              (coded lens (code_of lens) s 49 ss vs) rest
          ∙ (λ i.
              bits (get_or (lens (sym parts.0 i)) v 0) (code_of lens (sym parts.0 i) v)
              ++ (coded lens (code_of lens) s 49 ss vs ++ rest))
  loop-Finds (v ∷ vs) (suc rounds) (suc left) g sels st t c r rest a e o hn hs h hp hg hd k f =
      pulled-Finds
        (decode_loop (table_of perm lens) (min_len_of lens) selector seqs eob max fast overflow
          rounds)
        v vs st t (step_group (table_of perm lens) (min_len_of lens) selector c)
        (coded lens (code_of lens) g left sels vs ++ rest)
        (pull (table_of perm lens) (min_len_of lens) selector fast overflow st c r) e
        (pull-Yields perm lens selector alpha ok ha fast overflow sound st v c r
          (coded lens (code_of lens) g left sels vs ++ rest) (h.0, inside, k, digits))
        (λ w t' facts ew kw at.
          loop-Finds vs rounds left g sels (next_symbol seqs eob max st v) t w t' rest at e o
            (omega arith) (omega (arith, hs)) h.1 (omega (arith, facts.1, hp)) (facts.2 ∙ hg)
            ((λ i. drop (facts.0 i) selector) ∙ hd) kw ew)
    where
      inside : (c.group_pos == 0) ≡ false
      inside = more_left c.group_pos hp
        where
          more_left : (n : ℕ) → n ≡ suc left → (n == 0) ≡ false
          more_left n e = ground arith

      digits :
          contents r
          ≡ bits (get_or (lens c.g_sel) v 0) (code_of lens c.g_sel v)
            ++ (coded lens (code_of lens) g left sels vs ++ rest)
      digits =
          f
          ∙ append_assoc (bits (get_or (lens g) v 0) (code_of lens g v))
              (coded lens (code_of lens) g left sels vs) rest
          ∙ (λ i.
              bits (get_or (lens (sym hg i)) v 0) (code_of lens (sym hg i) v)
              ++ (coded lens (code_of lens) g left sels vs ++ rest))

  -- For code lengths of 1 to 20 whose codes fit, look-up tables with codes in their places, and a
  -- selector for every 50 symbols: where the
  -- symbols bring the decoder to EOB or to an error, the loop of BZ2_decompress, on the digits of the
  -- symbols by the codes of their groups, comes to the same end, with any fuel from the number of
  -- the symbols on.
  pub decode_loop-Finds :
      (vs : List ℕ) (rounds : ℕ) (st t : Symbols) (r : Reader) (rest : List ℕ)
      → AtSymbol st
      → symbols_loop seqs eob max st vs ≡ t
      → Over t
      → length vs ≤ rounds
      → length vs ≤ g_size * length selector
      → AllBelow alpha vs
      → IsValid r
      → contents r ≡ coded lens (code_of lens) 0 0 selector vs ++ rest
      → Finds t (
          decode_loop
            (table_of perm lens)
            (min_len_of lens)
            selector
            seqs
            eob
            max
            fast
            overflow
            rounds
            st
            first_cursor
            r)
  decode_loop-Finds vs rounds st t r rest a e o hn hs h k f =
      loop-Finds vs rounds 0 0 selector st t first_cursor r rest a e o hn (omega (arith, hs)) h refl
        refl refl k f
