-- ===== src/Container/Run.antt =====
-- The parser over a row of bytes.
use mathlib.Core.List.{append_assoc, append-nil}
use mathlib.Core.Path.{subst}
use libqbz.Base.{ℕ, ◌+◌, ◌*◌, ◌^◌, ◌≤◌, ◌<◌, List, [], ◌∷◌, ◌++◌, Bool, false}
use libqbz.Base.{◌≡◌, sym, ap, ◌∙◌, arith, length}
use libqbz.Bits.{bits, byte_bits}
use libqbz.Bits.Reader.{Reader, Fetch, got, starved, get_bits}
use libqbz.Bits.Reader.Laws.{contents, IsValid}
use libqbz.Bits.RoundTrip.{Returns, get_bits-Returns}
use libqbz.Bits.Writer.{Writer, put_uchar}
use libqbz.Bits.Writer.Laws as Written
use libqbz.Bits.Writer.Whole.{put_uchar-contents}
use libqbz.Container.{put_bytes}
use libqbz.Crc.Update.{AllBytes}
use libqbz.Decompress.{bits_of, after}
use libqbz.Decompress.Types.{Label, DState, Locals, goto, is_idle}
use libqbz.Decompress.Parse.{parse_loop, switch, enough, on_step, on_fetch}
use libqbz.Decompress.Resume.{seen, loop-Continued, seen-Continued, length-contents, took}

-- bsPutUChar of bytes in a row appends their digits.
pub put_bytes-contents :
    (s : Writer) (bs : List ℕ)
    → Written.IsValid s
    → AllBytes bs
    → Written.IsValid (put_bytes s bs)
      × (Written.contents (put_bytes s bs) ≡ Written.contents s ++ byte_bits bs)
unfolding put_bytes byte_bits
put_bytes-contents s [] k h = (k, sym (append-nil _))
put_bytes-contents s (b ∷ bs) k h =
    let one = put_uchar-contents s b k h.0 in
    let rest = put_bytes-contents (put_uchar s b) bs one.0 h.1 in
    (
      rest.0,
      rest.1
          ∙ ap (λ t. t ++ byte_bits bs) one.1
          ∙ append_assoc (Written.contents s) (bits 8 b) (byte_bits bs),
    )

module _ (alloc : ℕ → Bool) where
  -- The value `n` at the label `l`, once it has been read.
  pub on_value :
      (l : Label) (s : DState) (v : Locals) (r : Reader) (n : ℕ) (rest : List ℕ)
      → IsValid r
      → bits_of l ≤ 30
      → n < 2 ^ bits_of l
      → contents r ≡ bits (bits_of l) n ++ rest
      → (t : Reader) × IsValid t
        × (contents t ≡ rest)
        × (switch alloc l s v r
            ≡ on_step
                (parse_loop alloc (r.bs_live + 8 * length r.next_in))
                (after alloc l n (record s { state = l }) v)
                t)
  unfolding switch parse_loop on_fetch
  on_value l s v r n rest k h b e =
      fetched (get_bits (bits_of l) r) (get_bits-Returns (bits_of l) n rest r h b k e)
    where
      fuel : ℕ
      fuel = r.bs_live + 8 * length r.next_in

      fetched :
          (f : Fetch)
          → Returns n rest f
          → (t : Reader) × IsValid t
            × (contents t ≡ rest)
            × (on_fetch alloc (parse_loop alloc fuel) l (record s { state = l }) v f
                ≡ on_step (parse_loop alloc fuel) (after alloc l n (record s { state = l }) v) t)
      fetched (got w t) q = (
        t,
        q.2,
        q.1,
        ap
            (λ (x : ℕ).
              on_fetch alloc (parse_loop alloc fuel) l (record s { state = l }) v (got x t))
            q.0,
      )
      fetched (starved t) q = absurd q

  -- A label that goes on to another one.
  goes_on :
      (l m : Label) (s u : DState) (v w : Locals) (r : Reader) (n : ℕ) (rest : List ℕ)
      → IsValid r
      → (1 ≤ bits_of l) × (bits_of l ≤ 30)
      → n < 2 ^ bits_of l
      → contents r ≡ bits (bits_of l) n ++ rest
      → after alloc l n (record s { state = l }) v ≡ goto m u w
      → is_idle m ≡ false
      → (t : Reader) × IsValid t
        × (contents t ≡ rest)
        × (seen [] (switch alloc l s v r) ≡ seen [] (switch alloc m u w t))
  unfolding on_step switch
  goes_on l m s u v w r n rest k h b e g idle =
      let f = on_value l s v r n rest k h.1 b e in
      let t = f.0 in
      (
        t,
        f.1,
        f.2,
        ap (seen []) (
              f.3 ∙ ap (λ st. on_step (parse_loop alloc (r.bs_live + 8 * length r.next_in)) st t) g)
            ∙ seen-Continued alloc (λ v. Unit) _ _
                (loop-Continued alloc (λ v. Unit) [] (enough t) (r.bs_live + 8 * length r.next_in) m
                  u w t t (idle, λ q. tt) (omega (arith, length-contents t))
                  (took (bits_of l) n t r (r.bs_live + 8 * length r.next_in) h.0
                    (e ∙ ap (λ z. bits (bits_of l) n ++ z) (sym f.2))
                    (omega (arith, length-contents r)))
                  f.1 f.1 (sym (append-nil _))),
      )

  -- What the code does with a row of bytes: the labels and the states on the way.
  abbrev pub Runs : Label → DState → Locals → List ℕ → Label → DState → Type 0
  Runs l s v [] m u = (l ≡ m) × (s ≡ u)
  Runs l s v (b ∷ bs) m u =
      (l' : Label) × (s' : DState) × (bits_of l ≡ 8)
      × (after alloc l b (record s { state = l }) v ≡ goto l' s' v)
      × (is_idle l' ≡ false)
      × Runs l' s' v bs m u

  -- The parser over a row of bytes, from the first label to the last.
  pub switch-Runs :
      (bs : List ℕ) (l m : Label) (s u : DState) (v : Locals) (r : Reader) (rest : List ℕ)
      → IsValid r
      → AllBytes bs
      → contents r ≡ byte_bits bs ++ rest
      → Runs l s v bs m u
      → (t : Reader) × IsValid t
        × (contents t ≡ rest)
        × (seen [] (switch alloc l s v r) ≡ seen [] (switch alloc m u v t))
  unfolding byte_bits
  switch-Runs [] l m s u v r rest k h e w =
      (r, k, e, λ i. seen [] (switch alloc (w.0 i) (w.1 i) v r))
  switch-Runs (b ∷ bs) l m s u v r rest k h e w =
      let width : bits_of l ≡ 8 = w.2 in
      let one =
        goes_on l w.0 s w.1 v v r b (byte_bits bs ++ rest) k
          (omega (arith, width), omega (arith, width))
          (subst (λ n. b < 2 ^ n) (sym width) (omega (arith, h.0)))
          (e
            ∙ append_assoc (bits 8 b) (byte_bits bs) rest
            ∙ ap (λ n. bits n b ++ (byte_bits bs ++ rest)) (sym width))
          w.3 w.4 in
      let more = switch-Runs bs w.0 m w.1 u v one.0 rest one.1 h.1 one.2 w.5 in
      (more.0, more.1, more.2, one.3 ∙ more.3)
