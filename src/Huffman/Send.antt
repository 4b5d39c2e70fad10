-- ===== src/Huffman/Send.antt =====
-- The last part of sendMTFValues, in src/compress.c: the symbols, in groups of 50, by the codes of
-- the table that each group selects.
use mathlib.Core.List.{append_assoc, append-nil}
use libqbz.Base.{ℕ, zero, suc, ◌≤◌, ◌<◌, ◌^◌, List, [], ◌∷◌, ◌++◌, take, drop, get_or}
use libqbz.Base.{◌≡◌, refl, ap, ◌∙◌, sym, arith}
use libqbz.Bits.{bits}
use libqbz.Bits.Writer.{Writer, write_bits}
use libqbz.Bits.Writer.Laws.{IsValid, contents}
use libqbz.Bits.Writer.Whole.{write_bits-contents}
use libqbz.Huffman.Decode.{g_size}

-- the loop over a group; the unrolled calls for a full group of six tables are the same calls
unfoldable pub send_group : List ℕ → (ℕ → ℕ) → List ℕ → Writer → Writer
send_group lens code [] s = s
send_group lens code (v ∷ vs) s = send_group lens code vs (write_bits s (get_or lens v 0) (code v))

-- the loop over the groups, one for a selector; the last one may be short
unfoldable pub send_groups : (ℕ → List ℕ) → (ℕ → ℕ → ℕ) → List ℕ → List ℕ → Writer → Writer
send_groups lens code selector [] s = s
send_groups lens code [] (v ∷ vs) s = s
send_groups lens code (g ∷ gs) (v ∷ vs) s =
    send_groups lens code gs (drop g_size (v ∷ vs))
      (send_group (lens g) (code g) (take g_size (v ∷ vs)) s)

-- The digits of the symbols, of which `left` still go by the table `g`.
abbrev pub coded : (ℕ → List ℕ) → (ℕ → ℕ → ℕ) → ℕ → ℕ → List ℕ → List ℕ → List ℕ
coded lens code g left selector [] = []
coded lens code g (suc left) selector (v ∷ vs) =
    bits (get_or (lens g) v 0) (code g v) ++ coded lens code g left selector vs
coded lens code g zero [] (v ∷ vs) = []
coded lens code g zero (h ∷ hs) (v ∷ vs) =
    bits (get_or (lens h) v 0) (code h v) ++ coded lens code h 49 hs vs

-- All symbols are below `alpha`.
abbrev pub AllBelow : ℕ → List ℕ → Type 0
AllBelow alpha [] = Unit
AllBelow alpha (v ∷ vs) = (v < alpha) × AllBelow alpha vs

drop-AllBelow : (alpha n : ℕ) (vs : List ℕ) → AllBelow alpha vs → AllBelow alpha (drop n vs)
drop-AllBelow alpha zero vs h = h
drop-AllBelow alpha (suc n) [] h = h
drop-AllBelow alpha (suc n) (v ∷ vs) h = drop-AllBelow alpha n vs h.1

module _ (lens : ℕ → List ℕ) (code : ℕ → ℕ → ℕ) (alpha : ℕ)
    (fit : (g v : ℕ)
      → v < alpha
      → (1 ≤ get_or (lens g) v 0)
        × (get_or (lens g) v 0 ≤ 20)
        × (code g v < 2 ^ get_or (lens g) v 0)) where
  -- the digits of a group, and those of the groups after it
  group-contents :
      (n g : ℕ) (selector vs : List ℕ) (s : Writer)
      → AllBelow alpha vs
      → IsValid s
      → IsValid (send_group (lens g) (code g) (take n vs) s)
        × (contents (send_group (lens g) (code g) (take n vs) s)
              ++ coded lens code g 0 selector (drop n vs)
            ≡ contents s ++ coded lens code g n selector vs)
  unfolding send_group
  group-contents zero g selector vs s h k = (k, refl)
  group-contents (suc n) g selector [] s h k = (k, refl)
  group-contents (suc n) g selector (v ∷ vs) s h k =
      let f = fit g v h.0 in
      let one =
        write_bits-contents s (get_or (lens g) v 0) (code g v) k (f.0) (omega (arith, f.1)) f.2 in
      let rest =
        group-contents n g selector vs (write_bits s (get_or (lens g) v 0) (code g v)) h.1 one.0 in
      (
        rest.0,
        rest.1
            ∙ ap (λ t. t ++ coded lens code g n selector vs) one.1
            ∙ append_assoc (contents s) (bits (get_or (lens g) v 0) (code g v))
                (coded lens code g n selector vs),
      )

  -- sendMTFValues appends the digits of the symbols.
  pub send_groups-contents :
      (g : ℕ) (selector vs : List ℕ) (s : Writer)
      → AllBelow alpha vs
      → IsValid s
      → IsValid (send_groups lens code selector vs s)
        × (contents (send_groups lens code selector vs s)
            ≡ contents s ++ coded lens code g 0 selector vs)
  unfolding send_groups
  send_groups-contents g selector [] s h k = (k, sym (append-nil (contents s)))
  send_groups-contents g [] (v ∷ vs) s h k = (k, sym (append-nil (contents s)))
  send_groups-contents g (t ∷ ts) (v ∷ vs) s h k =
      let group = group-contents g_size t ts (v ∷ vs) s h k in
      let rest =
        send_groups-contents t ts (drop g_size (v ∷ vs))
          (send_group (lens t) (code t) (take g_size (v ∷ vs)) s)
          (drop-AllBelow alpha g_size (v ∷ vs) h) group.0 in
      (rest.0, rest.1 ∙ group.1)
