-- ===== src/Huffman/Symbol.antt =====
-- GET_MTF_VAL on the code of a symbol.
use mathlib.Core.List.{append_assoc}
use mathlib.Core.Path.{subst}
use native.Mathlib.Nat.{pow-le-pow_right, div-le_self, div-lt_iff_lt-mul, div-add-mod', mod-lt}
use libqbz.Base.{ℕ, zero, suc, ◌+◌, ◌-◌, ◌*◌, ◌/◌, ◌%◌, ◌^◌, ◌≤◌, ◌<◌, ◌≡◌, refl, ap, ap₂, ◌∙◌, sym}
use libqbz.Base.{List, [], ◌∷◌, ◌++◌, length, get_or, bit_or, arith, ltb, leb, true, false}
use libqbz.Base.Ints.{pos, ◌-ℤ◌, leb_ℤ, leb_ℤ-minus, gt_ℤ-minus, minus_le}
use libqbz.Base.Power.{pow-pos, pow-add}
use libqbz.Bits.{bits}
use libqbz.Bits.Laws.{bits-append}
use libqbz.Bits.Reader.{Reader, Fetch, got, starved, get_bits}
use libqbz.Bits.Reader.Laws.{contents, IsValid, bits_mod}
use libqbz.Bits.RoundTrip.{Returns, get_bits-Returns}
use libqbz.Huffman.{Tables}
use libqbz.Huffman.Counts.{count, shorter, first_code, rank, rank-lt, canonical, shorter-suc}
use libqbz.Huffman.Counts.{shorter-first_code}
use libqbz.Huffman.Decode.{Cursor, Pulled, symbol, wait_code, wait_digit, bad_code}
use libqbz.Huffman.Decode.{look_up, on_digit, code_loop, on_code, from_code, max_alpha_size}
use libqbz.Huffman.Fits.{Fits}
use libqbz.Huffman.Prefix.{prefix_codes, le_div, next_digit}
use libqbz.Huffman.Range.{AllWithin, AllWithin-at, AllWithin-AllAtLeast}

-- The symbol `i` was read in the group of `c`, and the digits `rest` are left.
abbrev pub Yields : ℕ → Cursor → List ℕ → Pulled → Type 0
Yields i c rest (symbol x u r) =
    (x ≡ i)
    × (u.groups_begun ≡ c.groups_begun)
    × (u.group_pos ≡ c.group_pos)
    × (u.g_sel ≡ c.g_sel)
    × (contents r ≡ rest)
    × IsValid r
Yields i c rest (wait_code u r) = ⊥
Yields i c rest (wait_digit u r) = ⊥
Yields i c rest (bad_code u r) = ⊥

shorter-le-length : (n : ℕ) (ls : List ℕ) → shorter n ls ≤ length ls
shorter-le-length n [] = omega arith
shorter-le-length n (l ∷ ls) = ground (arith, shorter-le-length n ls)

not_above : (n : ℕ) → n ≤ 20 → ltb 20 n ≡ false
not_above n h = ground arith

code_small : (v l d : ℕ) → v < 2 ^ l → l ≤ 20 → v / 2 ^ d < 2 ^ 31
code_small v l d h hl =
    let low : 2 ^ l ≤ 2 ^ 20 = pow-le-pow_right (omega arith) hl in
    omega (arith, low, div-le_self v (2 ^ d))

-- the first `m` digits of a number of `m + d`
pub bits-split : (m d v : ℕ) → bits (m + d) v ≡ bits m (v / 2 ^ d) ++ bits d v
bits-split m d v =
    ap (bits (m + d)) (sym (div-add-mod' v (2 ^ d)))
    ∙ bits-append m d (v / 2 ^ d) (v % 2 ^ d) (mod-lt v (pow-pos d))
    ∙ ap (λ t. bits m (v / 2 ^ d) ++ t) (bits_mod d d v (omega arith))

pub top_small : (v m d : ℕ) → v < 2 ^ (m + d) → v / 2 ^ d < 2 ^ m
top_small v m d h = (div-lt_iff_lt-mul (pow-pos d)).1 (subst (λ t. v < t) (pow-add m d) h)

module _ (tables : ℕ → Tables) (min_lens : ℕ → ℕ) (selector lens : List ℕ) (least most : ℕ)
    (w : AllWithin least most lens) (hm : most ≤ 20) (ha : length lens ≤ max_alpha_size) where
  found_in_table :
      (c : Cursor) (r : Reader) (i : ℕ) (rest : List ℕ)
      → i < length lens
      → Fits lens least most (tables c.g_sel)
      → c.zn ≡ get_or lens i 0
      → c.zvec ≡ canonical lens least i
      → contents r ≡ rest
      → IsValid r
      → Yields i c rest
          (look_up tables min_lens selector (pos c.zvec -ℤ (tables c.g_sel).base c.zn) c r)
  unfolding look_up
  found_in_table c r i rest h f hz hv e k =
      subst (λ z. Yields i c rest (look_up tables min_lens selector z c r))
        (sym (place_of c f hz hv)) (rw inside (f.1 i h, refl, refl, refl, e, k))
    where
      bounds : (least ≤ get_or lens i 0) × (get_or lens i 0 ≤ most)
      bounds = AllWithin-at least most lens i w h

      room : shorter (get_or lens i 0) lens ≤ first_code lens least (get_or lens i 0 - least)
      room = omega (
        arith,
        shorter-first_code lens least (get_or lens i 0 - least)
            (AllWithin-AllAtLeast least most lens w),
        ap (λ m. shorter m lens) there,
      )
        where
          there : least + (get_or lens i 0 - least) ≡ get_or lens i 0
          there = omega (arith, bounds)

      place_of :
          (c : Cursor)
          → Fits lens least most (tables c.g_sel)
          → c.zn ≡ get_or lens i 0
          → c.zvec ≡ canonical lens least i
          → pos c.zvec -ℤ (tables c.g_sel).base c.zn
            ≡ pos (shorter (get_or lens i 0) lens + rank lens i)
      place_of c f hz hv =
          ap₂ (λ a b. pos a -ℤ b) hv
            ((λ t. (tables c.g_sel).base (hz t)) ∙ (f.0 (get_or lens i 0) bounds.0 bounds.1).1)
          ∙ minus_le _ _ (omega arith)
          ∙ ap pos (omega (arith, room))

      inside : leb max_alpha_size (shorter (get_or lens i 0) lens + rank lens i) ≡ false
      inside = too_small _ (
          omega (
            arith,
            rank-lt lens i h,
            shorter-suc (get_or lens i 0) lens,
            shorter-le-length (get_or lens i 0 + 1) lens,
            ha,
          ))
        where
          too_small : (n : ℕ) → n < max_alpha_size → leb max_alpha_size n ≡ false
          too_small n h = ground arith

  first :
      (i : ℕ) (c : Cursor) (rest : List ℕ) (v : ℕ) (later : List ℕ)
      → (f : Fetch) → Returns v later f
      → ((x : ℕ) (t : Reader)
          → x ≡ v
          → contents t ≡ later
          → IsValid t
          → Yields i c rest
              (code_loop tables min_lens selector (21 - c.zn) (record c { zvec = x }) t))
      → Yields i c rest (on_code tables min_lens selector c f)
  unfolding on_code
  first i c rest v later (got x t) q go = go x t q.0 q.1 q.2
  first i c rest v later (starved t) q go = absurd q

  digit :
      (i : ℕ) (c u : Cursor) (v : ℕ) (rest later : List ℕ) (more : Cursor → Reader → Pulled)
      → (f : Fetch) → Returns v later f
      → ((zj : ℕ) (t : Reader)
          → zj ≡ v
          → contents t ≡ later
          → IsValid t
          → Yields i c rest (more (record u { zvec = bit_or (u.zvec * 2 % 2 ^ 32) zj }) t))
      → Yields i c rest (on_digit tables min_lens selector more u f)
  unfolding on_digit
  digit i c u v rest later more (got zj t) q go = go zj t q.0 q.1 q.2
  digit i c u v rest later more (starved t) q go = absurd q

  code_loop-Yields :
      (d rounds i : ℕ) (c : Cursor) (r : Reader) (rest : List ℕ)
      → i < length lens
      → Fits lens least most (tables c.g_sel)
      → canonical lens least i < 2 ^ get_or lens i 0
      → c.zn + d ≡ get_or lens i 0
      → least ≤ c.zn
      → c.zvec ≡ canonical lens least i / 2 ^ d
      → rounds + c.zn ≡ 21
      → IsValid r
      → contents r ≡ bits d (canonical lens least i) ++ rest
      → Yields i c rest (code_loop tables min_lens selector rounds c r)
  unfolding code_loop bits
  code_loop-Yields d zero i c r rest h f hc hz hl hv hr k e =
      absurd (omega (arith, AllWithin-at least most lens i w h))
  code_loop-Yields zero (suc rounds) i c r rest h f hc hz hl hv hr k e =
      rw (in_range, ends) (found_in_table c r i rest h f own (hv ∙ omega arith) e k)
    where
      bounds : (least ≤ get_or lens i 0) × (get_or lens i 0 ≤ most)
      bounds = AllWithin-at least most lens i w h

      own : c.zn ≡ get_or lens i 0
      own = omega (arith, hz)

      in_range : ltb 20 c.zn ≡ false
      in_range = not_above _ (omega (arith, bounds, own))

      ends : leb_ℤ (pos c.zvec) ((tables c.g_sel).limit c.zn) ≡ true
      ends =
          ap (leb_ℤ (pos c.zvec))
            ((λ t. (tables c.g_sel).limit (own t)) ∙ (f.0 (get_or lens i 0) bounds.0 bounds.1).0)
          ∙ leb_ℤ-minus c.zvec
              (first_code lens least (get_or lens i 0 - least) + count (get_or lens i 0) lens)
              (omega (arith, hv, rank-lt lens i h))
  code_loop-Yields (suc d) (suc rounds) i c r rest h f hc hz hl hv hr k e =
      rw (in_range, goes_on)
        (digit i c (record c { zn = c.zn + 1 }) (canonical lens least i / 2 ^ d % 2) rest
          (bits d (canonical lens least i) ++ rest) (code_loop tables min_lens selector rounds)
          (get_bits 1 r)
          (get_bits-Returns 1 (canonical lens least i / 2 ^ d % 2)
            (bits d (canonical lens least i) ++ rest) r (omega arith) (omega arith) k
            (e
              ∙ ap (λ x. x ∷ (bits d (canonical lens least i) ++ rest))
                  (one_digit (canonical lens least i / 2 ^ d))))
          (λ zj t ez et kt.
            code_loop-Yields d rounds i
              (record c { zn = c.zn + 1; zvec = bit_or (c.zvec * 2 % 2 ^ 32) zj }) t rest h f hc
              (omega (arith, hz)) (omega (arith, hl))
              (ap₂ (λ a b. bit_or (a * 2 % 2 ^ 32) b) hv ez
                ∙ next_digit (canonical lens least i) d (
                    code_small (canonical lens least i) (get_or lens i 0) d hc
                      (omega (arith, bounds))))
              (omega (arith, hr)) kt et))
    where
      bounds : (least ≤ get_or lens i 0) × (get_or lens i 0 ≤ most)
      bounds = AllWithin-at least most lens i w h

      in_range : ltb 20 c.zn ≡ false
      in_range = not_above _ (omega (arith, bounds, hz))

      one_digit : (x : ℕ) → x % 2 ≡ x % 2 / 2 ^ 0 % 2
      one_digit x = omega arith

      longer :
          (first_code lens least (c.zn - least) + count c.zn lens) * 2 ^ suc d
          ≤ canonical lens least i
      longer =
          subst
            (λ m.
              (first_code lens least (c.zn - least) + count m lens) * 2 ^ suc d
              ≤ canonical lens least i)
            there
            (omega
              (arith, prefix_codes lens least (c.zn - least) d, ap (first_code lens least) far))
        where
          there : least + (c.zn - least) ≡ c.zn
          there = omega (arith, hl)

          far : c.zn - least + suc d ≡ get_or lens i 0 - least
          far = omega (arith, hl, hz)

      goes_on : leb_ℤ (pos c.zvec) ((tables c.g_sel).limit c.zn) ≡ false
      goes_on =
          ap (leb_ℤ (pos c.zvec)) (f.0 c.zn hl (omega (arith, hz, bounds))).0
          ∙ gt_ℤ-minus c.zvec (first_code lens least (c.zn - least) + count c.zn lens) (
              omega (
                arith,
                hv,
                le_div (first_code lens least (c.zn - least) + count c.zn lens)
                    (canonical lens least i) (suc d) longer,
              ))

  -- In a group whose tables fit the code lengths, GET_MTF_VAL reads the canonical code of a symbol.
  pub from_code-Yields :
      (i : ℕ) (c : Cursor) (r : Reader) (rest : List ℕ)
      → i < length lens
      → Fits lens least most (tables c.g_sel)
      → canonical lens least i < 2 ^ get_or lens i 0
      → c.zn ≡ least
      → IsValid r
      → contents r ≡ bits (get_or lens i 0) (canonical lens least i) ++ rest
      → Yields i c rest (from_code tables min_lens selector c r)
  unfolding from_code
  from_code-Yields i c r rest h f hc hz k e =
      first i c rest (canonical lens least i / 2 ^ d) (bits d (canonical lens least i) ++ rest)
        (get_bits c.zn r)
        (get_bits-Returns c.zn (canonical lens least i / 2 ^ d)
          (bits d (canonical lens least i) ++ rest) r (omega (arith, bounds))
          (top_small (canonical lens least i) c.zn d
            (subst (λ m. canonical lens least i < 2 ^ m) (sym split) hc))
          k
          (e
            ∙ ap (λ t. t ++ rest)
                ((λ t. bits (sym split t) (canonical lens least i))
                  ∙ bits-split c.zn d (canonical lens least i))
            ∙ append_assoc (bits c.zn (canonical lens least i / 2 ^ d))
                (bits d (canonical lens least i)) rest))
        (λ v t ev et kt.
          code_loop-Yields d (21 - c.zn) i (record c { zvec = v }) t rest h f hc split
            (omega (arith, hz)) ev (omega (arith, bounds, hz)) kt et)
    where
      bounds : (least ≤ get_or lens i 0) × (get_or lens i 0 ≤ most)
      bounds = AllWithin-at least most lens i w h

      d : ℕ
      d = get_or lens i 0 - c.zn

      split : c.zn + d ≡ get_or lens i 0
      split = omega (arith, bounds, hz)
