-- ===== src/Bits/RoundTrip.antt =====
-- What the writer puts, the reader gets.
use libqbz.Base.{ℕ, ◌^◌, ◌≤◌, ◌<◌, ◌≡◌, ap, sym, ◌∙◌}
use libqbz.Base.{List, ◌++◌, arith, length, length-append}
use libqbz.Bits.{bits, byte_bits}
use libqbz.Bits.Laws.{bits-append-injective, length-bits}
use libqbz.Bits.Reader.{Reader, Fetch, got, starved, get_bits}
use libqbz.Bits.Reader.Laws.{IsValid, Answers, contents, get_bits-Answers}

-- `f` returned `v`, and `rest` is left.
abbrev pub Returns : ℕ → List ℕ → Fetch → Type 0
Returns v rest (got w t) = (w ≡ v) × (contents t ≡ rest) × IsValid t
Returns v rest (starved t) = ⊥

got_first :
    (n v : ℕ) (rest : List ℕ) (s : Reader) (f : Fetch)
    → v < 2 ^ n
    → contents s ≡ bits n v ++ rest
    → Answers n s f
    → Returns v rest f
unfolding byte_bits
got_first n v rest s (got w t) h e a =
    let both = bits-append-injective n w v (contents t) rest a.1 h (sym a.2 ∙ e) in
    (both.0, both.1, a.0)
got_first n v rest s (starved t) h e a = absurd (
    omega (
      arith,
      ap length e,
      ap length a.1,
      ap (λ u. length (byte_bits u)) a.3,
      length-append (bits n v) rest,
      length-append (bits t.bs_live t.bs_buff) (byte_bits t.next_in),
      length-bits n v,
      length-bits t.bs_live t.bs_buff,
    ))

-- On a valid reader whose digits begin with the n digits of a number v below 2 ^ n, n at most 30,
-- GET_BITS for n digits returns v and leaves what follows in a valid reader.
pub get_bits-Returns :
    (n v : ℕ) (rest : List ℕ) (s : Reader)
    → n ≤ 30
    → v < 2 ^ n
    → IsValid s
    → contents s ≡ bits n v ++ rest
    → Returns v rest (get_bits n s)
get_bits-Returns n v rest s hn hv k e =
    got_first n v rest s (get_bits n s) hv e (get_bits-Answers n s hn k)
