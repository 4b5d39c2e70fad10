-- ===== src/Unmtf/RoundTrip.antt =====
-- The decoder gives back the bytes whose symbols generateMTFValues writes.
use mathlib.Core.List.{append_assoc, append-nil}
use mathlib.Core.Path.{subst}
use libqbz.Base.{ℕ, zero, suc, ◌+◌, ◌-◌, ◌≤◌, ◌<◌, List, [], ◌∷◌, ◌++◌, true, false}
use libqbz.Base.{◌≡◌, refl, sym, ap, ◌∙◌, inl, inr, arith, Bool-cases, ◌==◌}
use libqbz.Base.{length, get_or, replicate, take, drop, length-append}
use libqbz.Base.{length-replicate, ==_iff}
use libqbz.Mtf.{map_seq}
use libqbz.Mtf.Front.{index_of, remove, Found, index_of-lt, get_or-index_of, take-drop-remove}
use libqbz.Mtf.Front.{index_of-append, remove-append, length-remove, Found-append}
use libqbz.Mtf.Codes.{zero_runs, codes, AllIn, AllIn-front}
use libqbz.Unmtf.{Unmtf, at_top, is_run, count_in}
use libqbz.Unmtf.{top_symbol, next_symbol, symbols_loop, pull_front}
use libqbz.Unmtf.Runs.{run_limit}
use libqbz.Unmtf.Reads.{
  Counted, Ends, byte_at, grown, grown-out, grown-Counted, grown-mtfa, run_read,
}
use libqbz.Unmtf.Reads.{index_read, count_in-replicate}

replicate-append_one : (n a : ℕ) → replicate n a ++ a ∷ [] ≡ replicate (suc n) a
replicate-append_one zero a = refl
replicate-append_one (suc n) a = ap (λ t. a ∷ t) (replicate-append_one n a)

self_equal : (x : ℕ) → (x == x) ≡ true
self_equal x = ground arith

not_run : (y : ℕ) → 2 ≤ y → is_run y ≡ false
not_run y h = ground arith

not_equal : (x y : ℕ) → x < y → (x == y) ≡ false
not_equal x y h = ground arith

one_more : (z u v : ℕ) (m : List ℕ) → u ≡ v → replicate (z + 1) u ++ m ≡ replicate z u ++ v ∷ m
one_more zero u v m e = ap (λ t. t ∷ m) e
one_more (suc z) u v m e =
    let shift : suc z + 1 ≡ suc (z + 1) = omega arith in
    rw shift (ap (λ t. u ∷ t) (one_more z u v m e))

other_place : (b p : ℕ) (ps : List ℕ) → (p == b) ≡ false → Found b (p ∷ ps) → Found b ps
other_place b p ps h (inl e) = absurd (ground (arith, e, h))
other_place b p ps h (inr f) = f

module _ (seqs : List ℕ) (eob max : ℕ) (limit : max < run_limit) where
  abbrev pub unseq : ℕ → ℕ
  unseq b = get_or seqs b 0

  -- The list in front of the decoder's is that of the encoder, and all bytes to come are in it.
  pub record Follows (p : ℕ) (ps behind : List ℕ) (bs : List ℕ) (z : ℕ) (s : Unmtf) : Type 0 where
    pub same : s.mtfa ≡ p ∷ ps ++ behind
    pub all_in : AllIn bs (p ∷ ps)
    pub last : eob ≡ length (p ∷ ps) + 1
    pub room : length s.out + z + length bs ≤ max
    pub counted : Counted s

  end_read :
      (s : Unmtf) (w : List ℕ)
      → is_run eob ≡ false
      → s.out ≡ w
      → Counted s
      → Ends w (symbols_loop seqs eob max (at_top s) (eob ∷ []))
  unfolding symbols_loop next_symbol top_symbol
  end_read s w nr e c = rw (self_equal eob, top_symbol) (e, c)

  first_byte :
      (p : ℕ) (ps behind : List ℕ) (s : Unmtf)
      → s.mtfa ≡ p ∷ ps ++ behind
      → byte_at seqs eob max s 0 ≡ unseq p
  first_byte p ps behind s e = ap (λ m. unseq (get_or m 0 0)) e

  -- the state after a byte that is not at the front
  abbrev after : ℕ → ℕ → List ℕ → List ℕ → ℕ → Unmtf → Unmtf
  after b p ps behind z s = record {
    mtfa = b ∷ p ∷ remove b ps ++ behind;
    out = (grown seqs eob max z s).out ++ unseq b ∷ [];
    unzftab = count_in (grown seqs eob max z s).unzftab (unseq b) 1;
  }

  module _ (b p : ℕ) (ps behind bs : List ℕ) (z : ℕ) (s : Unmtf)
      (k : Follows p ps behind (b ∷ bs) z s) (ne : (p == b) ≡ false) where
    place : Found b ps
    place = other_place b p ps ne k.all_in.0

    length-grown : length (grown seqs eob max z s).out ≡ length s.out + z
    length-grown =
        ap length (grown-out seqs eob max z s)
        ∙ length-append s.out _
        ∙ ap (λ (t : ℕ). length s.out + t) (length-replicate z _)

    after-Follows : Follows b (p ∷ remove b ps) behind bs 0 (after b p ps behind z s)
    after-Follows = record {
      same = refl;
      all_in = subst (λ t. AllIn bs (b ∷ t)) front (AllIn-front b bs (p ∷ ps) k.all_in.1);
      last = omega (arith, k.last, length-remove b ps place);
      room =
          omega (
            arith,
            k.room,
            length-grown,
            length-append (grown seqs eob max z s).out (unseq b ∷ []),
          );
      counted =
          count_in-replicate (grown seqs eob max z s) (unseq b) 1
            (grown-Counted seqs eob max z s k.counted);
    }
      where
        front : remove b (p ∷ ps) ≡ p ∷ remove b ps
        front = rw ne refl

    pulled :
        (i : ℕ)
        → i ≡ suc (index_of b ps)
        → pull_front (p ∷ ps ++ behind) i ≡ b ∷ p ∷ remove b ps ++ behind
    unfolding pull_front
    pulled i e =
        let there = Found-append b ps behind place in
        rw (e ∙ ap suc (sym (index_of-append b ps behind place))) (λ j.
          get_or-index_of b 0 (ps ++ behind) there j
          ∷ p
          ∷ (ap (λ t. take at ps_behind ++ drop t (p ∷ ps_behind)) two_more
                ∙ take-drop-remove b ps_behind there
                ∙ remove-append b ps behind place)
              j)
      where
        ps_behind : List ℕ
        ps_behind = ps ++ behind

        at : ℕ
        at = index_of b (ps ++ behind)

        two_more : suc at + 1 ≡ suc (suc at)
        two_more = omega arith

    -- the run before the byte, and its symbol
    other_read :
        (y : ℕ) (cs : List ℕ) (w : List ℕ)
        → y ≡ suc (index_of b ps) + 1
        → Ends w (symbols_loop seqs eob max (at_top (after b p ps behind z s)) cs)
        → Ends w (symbols_loop seqs eob max (at_top s) (zero_runs z ++ y ∷ cs))
    unfolding symbols_loop pull_front
    other_read y cs w e h =
        let g = grown seqs eob max z s in
        let mtfa = grown-mtfa seqs eob max z s ∙ k.same in
        let below : suc (index_of b ps) < eob - 1 = omega (arith, k.last, index_of-lt b ps place) in
        let at : y - 1 ≡ suc (index_of b ps) = omega (arith, e) in
        subst (Ends w)
          (sym (
            run_read seqs eob max z y s cs (not_run y (omega (arith, e))) (omega (arith, k.last))
              (omega (arith, k.room)) limit
            ∙ ap (λ t. symbols_loop seqs eob max t cs)
                (index_read seqs eob max y (unseq b) (b ∷ p ∷ remove b ps ++ behind) g
                  (not_equal y eob (omega (arith, e, below))) (not_run y (omega (arith, e)))
                  (omega (arith, length-grown, k.room))
                  (ap (λ m. unseq (get_or m (y - 1) 0)) mtfa
                    ∙ ap (λ t. unseq t) (ap {B = ℕ} (λ l. get_or l 0 0) (pulled (y - 1) at)))
                  (ap (λ m. pull_front m (y - 1)) mtfa ∙ pulled (y - 1) at))))
          h

  -- what has been written after a byte that is not at the front
  after-out :
      (b p : ℕ) (ps behind : List ℕ) (z : ℕ) (s : Unmtf) (m : List ℕ)
      → s.mtfa ≡ p ∷ ps ++ behind
      → (after b p ps behind z s).out ++ m ≡ s.out ++ (replicate z (unseq p) ++ unseq b ∷ m)
  after-out b p ps behind z s m e =
      append_assoc (grown seqs eob max z s).out (unseq b ∷ []) m
      ∙ ap (λ t. t ++ unseq b ∷ m)
          (grown-out seqs eob max z s
            ∙ ap (λ u. s.out ++ replicate z u) (first_byte p ps behind s e))
      ∙ append_assoc s.out (replicate z (unseq p)) (unseq b ∷ m)

  pub codes_read :
      (bs : List ℕ) (p : ℕ) (ps ahead behind : List ℕ) (z : ℕ) (s : Unmtf)
      → Follows p ps behind bs z s
      → Ends
          (s.out ++ (replicate z (unseq p) ++ map_seq unseq bs))
          (symbols_loop seqs eob max (at_top s) (codes bs (p ∷ ps ++ ahead) z ++ eob ∷ []))
  unfolding codes map_seq
  codes_read [] p ps ahead behind z s k =
      let eob_not_run = not_run eob (omega (arith, k.last)) in
      subst (Ends _)
        (sym (
          run_read seqs eob max z eob s [] eob_not_run (omega (arith, k.last))
            (omega (arith, k.room)) limit))
        (end_read (grown seqs eob max z s) _ eob_not_run
          (grown-out seqs eob max z s
            ∙ ap (λ u. s.out ++ replicate z u) (first_byte p ps behind s k.same)
            ∙ ap (λ t. s.out ++ t) (sym (append-nil _)))
          (grown-Counted seqs eob max z s k.counted))
  codes_read (b ∷ bs) p ps ahead behind z s k = elim (Bool-cases (p == b)) [
    | inl e ↦ rw e (
        subst
          (λ w.
            Ends (s.out ++ w) (
              symbols_loop seqs eob max (at_top s)
                (codes bs (p ∷ ps ++ ahead) (z + 1) ++ eob ∷ [])))
          (one_more z (unseq p) (unseq b) (map_seq unseq bs) (ap unseq ((==_iff p b).0 e)))
          (codes_read bs p ps ahead behind (z + 1) s (record {
            same = k.same;
            all_in = k.all_in.1;
            last = k.last;
            room = omega (arith, k.room);
            counted = k.counted;
          })))
    | inr e ↦ rw e (
        let there = place b p ps behind bs z s k e in
        let w = s.out ++ (replicate z (unseq p) ++ unseq b ∷ map_seq unseq bs) in
        let rest = λ (l : List ℕ). codes bs (b ∷ p ∷ l) 0 ++ eob ∷ [] in
        let y = suc (index_of b (ps ++ ahead)) + 1 in
        let step =
          codes_read bs b (p ∷ remove b ps) ahead behind 0 (after b p ps behind z s)
            (after-Follows b p ps behind bs z s k e) in
        subst (λ l. Ends w (symbols_loop seqs eob max (at_top s) l))
          (sym (
            append_assoc (zero_runs z) (y ∷ codes bs (b ∷ p ∷ remove b (ps ++ ahead)) 0)
              (eob ∷ [])))
          (other_read b p ps behind bs z s k e y (rest (remove b (ps ++ ahead))) w
            (ap (λ (i : ℕ). suc i + 1) (index_of-append b ps ahead there))
            (subst
              (λ l. Ends w (symbols_loop seqs eob max (at_top (after b p ps behind z s)) (rest l)))
              (sym (remove-append b ps ahead there))
              (subst
                (λ t. Ends t (
                  symbols_loop seqs eob max (at_top (after b p ps behind z s))
                    (rest (remove b ps ++ ahead))))
                (after-out b p ps behind z s (map_seq unseq bs) k.same) step))))
  ]
