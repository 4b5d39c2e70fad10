-- ===== src/Decompress/Resume.antt =====
-- The parser may be stopped at every byte of its input: it goes on where it was.
use mathlib.Core.List.{append_assoc, append-nil}
use mathlib.Core.Path.{subst}
use libqbz.Base.{ℕ, zero, suc, ◌+◌, ◌*◌, ◌≤◌, ◌<◌, List, [], ◌∷◌, ◌++◌, Bool, true, false, ◌||◌}
use libqbz.Base.{◌≡◌, refl, sym, ap, ◌∙◌, arith, length, length-append}
use libqbz.Bits.{bits, byte_bits}
use libqbz.Bits.Laws.{length-bits}
use libqbz.Bits.Reader.{Reader, Fetch, got, starved, get_bits}
use libqbz.Bits.Reader.Laws.{contents, IsValid, Answers, get_bits-Answers}
use libqbz.Bits.RoundTrip.{Returns, get_bits-Returns}
use libqbz.Compress.Types.{Code}
use libqbz.Decompress.{bits_of, after}
use libqbz.Decompress.Types.{randbit}
use libqbz.Decompress.Later.{IsLater, Later, after-Later}
use libqbz.Decompress.Types.{Label, DState, Locals, Step, goto, return, tables}
use libqbz.Decompress.Types.{is_idle, is_magic_1}
use libqbz.Decompress.Parse.{Exit, starved_exit, return_exit, tables_exit, exhausted}
use libqbz.Decompress.Parse.{on_step, on_fetch, parse_loop}

pub bits_of-range : (l : Label) → (1 ≤ bits_of l) × (bits_of l ≤ 30)
bits_of-range randbit = omega arith
bits_of-range _ = omega arith

pub length-byte_bits : (bs : List ℕ) → length (byte_bits bs) ≡ 8 * length bs
unfolding byte_bits
length-byte_bits [] = refl
length-byte_bits (b ∷ bs) =
    omega (arith, length-append (bits 8 b) (byte_bits bs), length-bits 8 b, length-byte_bits bs)

pub length-contents : (r : Reader) → length (contents r) ≡ r.bs_live + 8 * length r.next_in
length-contents r = omega (
  arith,
  length-append (bits r.bs_live r.bs_buff) (byte_bits r.next_in),
  length-bits r.bs_live r.bs_buff,
  length-byte_bits r.next_in,
)

-- What two readers that differ by the digits `zs` at the end answer to one request.
abbrev SameFetch : List ℕ → Fetch → Fetch → Type 0
SameFetch zs (got v t) f =
    (u : Reader) × (f ≡ got v u) × IsValid u × (contents u ≡ contents t ++ zs)
SameFetch zs (starved t) f = Unit

got-Same :
    (n : ℕ) (zs : List ℕ) (r r' : Reader) (f : Fetch)
    → n ≤ 30
    → IsValid r'
    → contents r' ≡ contents r ++ zs
    → Answers n r f
    → SameFetch zs f (get_bits n r')
got-Same n zs r r' (starved t) h k e a = tt
got-Same n zs r r' (got v t) h k e a = returned (get_bits n r') (
    get_bits-Returns n v (contents t ++ zs) r' h a.1 k
      (e ∙ ap (λ w. w ++ zs) a.2 ∙ append_assoc (bits n v) (contents t) zs))
  where
    returned :
        (f : Fetch)
        → Returns v (contents t ++ zs) f
        → (u : Reader) × (f ≡ got v u) × IsValid u × (contents u ≡ contents t ++ zs)
    returned (got w u) q = (u, ap (λ (x : ℕ). got x u) q.0, q.2, q.1)
    returned (starved u) q = absurd q

-- Two readers that hold the same digits starve together.
starved-Same :
    (n : ℕ) (r r' t : Reader) (f : Fetch)
    → Answers n r' f
    → contents r' ≡ contents r
    → Answers n r (starved t)
    → (u : Reader) × (f ≡ starved u) × (contents u ≡ contents t) × IsValid u
starved-Same n r r' t (starved u) a e b = (u, refl, sym a.1 ∙ e ∙ b.1, a.0)
starved-Same n r r' t (got v u) a e b = absurd (
    omega (
      arith,
      ap length e,
      ap length a.2,
      ap length b.1,
      length-append (bits n v) (contents u),
      length-bits n v,
      length-contents t,
      ap length b.3,
      b.2,
    ))

-- Where the switch was left, with the digits that are left, wherever they are held.
pub data Seen : Type 0 where
  sees_waiting : DState → Locals → List ℕ → Seen
  sees_stopped : Code → DState → Locals → List ℕ → Seen
  sees_tables : DState → Locals → List ℕ → Seen
  nothing : Seen

abbrev pub seen : List ℕ → Exit → Seen
seen zs (starved_exit s v r) = sees_waiting s v (contents r ++ zs)
seen zs (return_exit c s v r) = sees_stopped c s v (contents r ++ zs)
seen zs (tables_exit s v r) = sees_tables s v (contents r ++ zs)
seen zs exhausted = nothing

-- Only at the label where a call begins may a stream begin; an ended one is never entered.
abbrev pub Entry : (Locals → Type 0) → Label → Locals → Type 0
Entry P l v = (is_idle l ≡ false) × (is_magic_1 l ≡ true → P v)

later_or : (a b : Bool) → (a || b) ≡ false → (a ≡ false) × (b ≡ false)
later_or a b h = ground (arith, h)

later-Entry : (P : Locals → Type 0) (l : Label) (v : Locals) → IsLater l → Entry P l v
later-Entry P l v h =
    let both = later_or (is_magic_1 l) (is_idle l) h in
    (both.1, λ m. absurd (ground (arith, both.0, m)))

pub took :
    (n v : ℕ) (t r : Reader) (fuel : ℕ)
    → 1 ≤ n
    → contents r ≡ bits n v ++ contents t
    → length (contents r) < suc fuel
    → length (contents t) < fuel
took n v t r fuel h e b =
    omega (arith, ap length e, length-append (bits n v) (contents t), length-bits n v, h, b)

took-append :
    (n v : ℕ) (t : Reader) (zs ds : List ℕ)
    → 1 ≤ n
    → ds ≡ bits n v ++ contents t
    → length (contents t ++ zs) < length (ds ++ zs)
took-append n v t zs ds h e = omega (
  arith,
  ap length e,
  length-append (bits n v) (contents t),
  length-append (contents t) zs,
  length-append ds zs,
  length-bits n v,
)

module _ (alloc : ℕ → Bool) (P : Locals → Type 0) where
  -- `o` is what a parse with the digits `zs` more comes to. Where the first one waits, the other one is
  -- at the same label, with what the first one left and the digits `zs`.
  abbrev pub Continued : List ℕ → Exit → Exit → Type 0
  Continued zs (starved_exit s v t) o =
      (fuel : ℕ) × (r : Reader) × (o ≡ parse_loop alloc fuel s.state s v r)
      × (length (contents r) < fuel)
      × IsValid r
      × (contents r ≡ contents t ++ zs)
      × (length (contents t) < bits_of s.state)
      × IsValid t
      × (t.next_in ≡ [])
      × Entry P s.state v
  Continued zs (return_exit c s v t) o = seen [] o ≡ seen zs (return_exit c s v t)
  Continued zs (tables_exit s v t) o = seen [] o ≡ seen zs (tables_exit s v t)
  Continued zs exhausted o = ⊥

  abbrev Loop : Type 0
  Loop = Label → DState → Locals → Reader → Exit

  step-Continued :
      (zs : List ℕ) (more more' : Loop) (st : Step) (t u : Reader)
      → Later st
      → contents u ≡ contents t ++ zs
      → ((l : Label) (s : DState) (v : Locals)
          → Entry P l v
          → Continued zs (more l s v t) (more' l s v u))
      → Continued zs (on_step more st t) (on_step more' st u)
  unfolding on_step
  step-Continued zs more more' (goto l s v) t u h e ih = ih l s v (later-Entry P l v h)
  step-Continued zs more more' (return c s v) t u h e ih =
      ap (sees_stopped c s v) (append-nil _ ∙ e)
  step-Continued zs more more' (tables s v) t u h e ih = ap (sees_tables s v) (append-nil _ ∙ e)

  same_loop :
      (fuel : ℕ) (l : Label) (s : DState) (v : Locals) (r : Reader)
      → s.state ≡ l
      → on_fetch alloc (parse_loop alloc fuel) l s v (get_bits (bits_of l) r)
        ≡ parse_loop alloc (suc fuel) s.state s v r
  unfolding parse_loop
  same_loop fuel l s v r q =
      λ i. on_fetch alloc (parse_loop alloc fuel) (sym q i) s v (get_bits (bits_of (sym q i)) r)

  fetch-Continued :
      (zs : List ℕ) (fuel fuel' : ℕ) (l : Label) (s : DState) (v : Locals) (r r' : Reader)
      (f : Fetch)
      → s.state ≡ l
      → Entry P l v
      → length (contents r) < suc fuel
      → length (contents r') < suc fuel'
      → IsValid r'
      → contents r' ≡ contents r ++ zs
      → Answers (bits_of l) r f
      → ((m : Label) (s : DState) (v : Locals) (t u : Reader)
          → Entry P m v
          → length (contents t) < fuel
          → length (contents u) < fuel'
          → IsValid t
          → IsValid u
          → contents u ≡ contents t ++ zs
          → Continued zs (parse_loop alloc fuel m s v t) (parse_loop alloc fuel' m s v u))
      → Continued zs
          (on_fetch alloc (parse_loop alloc fuel) l s v f)
          (on_fetch alloc (parse_loop alloc fuel') l s v (get_bits (bits_of l) r'))
  unfolding on_fetch
  fetch-Continued zs fuel fuel' l s v r r' (starved t) q n b b' k e a ih = (
    suc fuel',
    r',
    same_loop fuel' l s v r' q,
    b',
    k,
    e ∙ ap (λ w. w ++ zs) a.1,
    subst (λ m. length (contents t) < bits_of m) (sym q)
        (omega (arith, length-contents t, ap length a.3, a.2)),
    a.0,
    a.3,
    subst (λ m. Entry P m v) (sym q) n,
  )
  fetch-Continued zs fuel fuel' l s v r r' (got n t) q w b b' k e a ih =
      let same = got-Same (bits_of l) zs r r' (got n t) (bits_of-range l).1 k e a in
      let u = same.0 in
      let shorter : length (contents t) < fuel =
        took (bits_of l) n t r fuel (bits_of-range l).0 a.2 b in
      let shorter' : length (contents u) < fuel' = omega (
        arith,
        took-append (bits_of l) n t zs (contents r) (bits_of-range l).0 a.2,
        ap length e,
        ap length same.3,
        b',
      ) in
      subst
        (λ f.
          Continued zs (on_step (parse_loop alloc fuel) (after alloc l n s v) t)
            (on_fetch alloc (parse_loop alloc fuel') l s v f))
        (sym same.1)
        (step-Continued zs (parse_loop alloc fuel) (parse_loop alloc fuel') (after alloc l n s v) t
          u (after-Later alloc l n s v) same.3
          (λ l' s' v' h. ih l' s' v' t u h shorter shorter' a.0 same.2 same.3))

  pub loop-Continued :
      (zs : List ℕ) (fuel fuel' : ℕ) (l : Label) (s : DState) (v : Locals) (r r' : Reader)
      → Entry P l v
      → length (contents r) < fuel
      → length (contents r') < fuel'
      → IsValid r
      → IsValid r'
      → contents r' ≡ contents r ++ zs
      → Continued zs (parse_loop alloc fuel l s v r) (parse_loop alloc fuel' l s v r')
  unfolding parse_loop
  loop-Continued zs zero fuel' l s v r r' n b b' k k' e = absurd (omega (arith, b))
  loop-Continued zs (suc fuel) zero l s v r r' n b b' k k' e = absurd (omega (arith, b'))
  loop-Continued zs (suc fuel) (suc fuel') l s v r r' n b b' k k' e =
      fetch-Continued zs fuel fuel' l (record s { state = l }) v r r' (get_bits (bits_of l) r) refl
        n b b' k' e (get_bits-Answers (bits_of l) r (bits_of-range l).1 k)
        (λ m s' v' t u. loop-Continued zs fuel fuel' m s' v' t u)

  -- A parse of fewer digits than the label asks for waits there.
  starved_loop :
      (fuel : ℕ) (l : Label) (s : DState) (v : Locals) (r : Reader)
      → IsValid r
      → length (contents r) < fuel
      → length (contents r) < bits_of l
      → seen [] (parse_loop alloc fuel l s v r)
        ≡ sees_waiting (record s { state = l }) v (contents r)
  unfolding parse_loop
  starved_loop zero l s v r k b h = absurd (omega (arith, b))
  starved_loop (suc fuel) l s v r k b h =
      answered (get_bits (bits_of l) r) (get_bits-Answers (bits_of l) r (bits_of-range l).1 k)
    where
      answered :
          (f : Fetch)
          → Answers (bits_of l) r f
          → seen [] (on_fetch alloc (parse_loop alloc fuel) l (record s { state = l }) v f)
            ≡ sees_waiting (record s { state = l }) v (contents r)
      answered (starved t) a =
          unfold on_fetch in
          ap (sees_waiting (record s { state = l }) v) (append-nil (contents t) ∙ sym a.1)
      answered (got n t) a = absurd (
          omega (
            arith,
            ap length a.2,
            length-append (bits (bits_of l) n) (contents t),
            length-bits (bits_of l) n,
            h,
          ))

  -- Readers that hold the same digits are parsed alike.
  pub seen-Continued : (o o' : Exit) → Continued [] o o' → seen [] o' ≡ seen [] o
  seen-Continued (starved_exit s v t) o c =
      ap (seen []) c.2
      ∙ starved_loop c.0 s.state s v c.1 c.4 c.3
          (omega (arith, ap length c.5, ap length (append-nil (contents t)), c.6))
      ∙ ap (sees_waiting s v) c.5
  seen-Continued (return_exit b s v t) o c = c
  seen-Continued (tables_exit s v t) o c = c
  seen-Continued exhausted o c = absurd c
