-- ===== src/Decompress/Leave.antt =====
-- The end of a call of BZ2_decompress, seen by the digits that it leaves.
use mathlib.Core.List.{append_assoc, append-nil}
use libqbz.Base.{ℕ, zero, suc, ◌+◌, ◌-◌, ◌*◌, ◌/◌, ◌%◌, ◌≤◌, List, [], ◌∷◌, ◌++◌, Bool}
use libqbz.Base.{false, Bool-cases, inl, inr, if◌then◌else◌}
use libqbz.Base.{◌≡◌, refl, sym, ap, ◌∙◌, arith, length, length-append, drop}
use libqbz.Bits.{bits, byte_bits}
use libqbz.Bits.Laws.{length-bits}
use libqbz.Bits.Reader.{Reader, Fetch, got, starved, get_bits}
use libqbz.Bits.Reader.Laws.{contents, IsValid, Answers, get_bits-Answers}
use libqbz.Compress.Types.{Code}
use libqbz.Decompress.{bits_of, after}
use libqbz.Decompress.Types.{Label, DState, Locals, Saved, Step, goto, return, tables}
use libqbz.Decompress.Types.{restore, save_state, is_idle}
use libqbz.Decompress.Parse.{Exit, starved_exit, return_exit, tables_exit, exhausted}
use libqbz.Decompress.Parse.{Outcome, waiting, stopped, at_tables, asserted, spent, is_stream_end}
use libqbz.Decompress.Parse.{on_step, on_fetch, parse_loop, switch, enough, give_back, leave, parse}
use libqbz.Decompress.Parse.{entered}
use libqbz.Decompress.Resume.{Seen, sees_waiting, sees_stopped, sees_tables, nothing, seen}
use libqbz.Decompress.Resume.{length-contents, length-byte_bits, bits_of-range}

drop-nil : (k : ℕ) → drop {A = ℕ} k [] ≡ []
drop-nil zero = refl
drop-nil (suc k) = refl

drop-append_exact : (xs ys : List ℕ) (k : ℕ) → drop (length xs + k) (xs ++ ys) ≡ drop k ys
drop-append_exact [] ys k = ap (λ n. drop n ys) (omega arith)
drop-append_exact (x ∷ xs) ys k =
    ap (λ n. drop n (x ∷ xs ++ ys)) {x = suc (length xs) + k} {y = suc (length xs + k)}
      (omega arith)
    ∙ drop-append_exact xs ys k

drop-append : (k : ℕ) (xs ys : List ℕ) → k ≤ length xs → drop k (xs ++ ys) ≡ drop k xs ++ ys
drop-append zero xs ys h = refl
drop-append (suc k) [] ys h = absurd (omega (arith, h))
drop-append (suc k) (x ∷ xs) ys h = drop-append k xs ys (omega (arith, h))

byte_bits-drop : (k : ℕ) (bs : List ℕ) → byte_bits (drop k bs) ≡ drop (8 * k) (byte_bits bs)
unfolding byte_bits
byte_bits-drop zero bs = refl
byte_bits-drop (suc k) [] = sym (drop-nil (8 * suc k))
byte_bits-drop (suc k) (b ∷ bs) =
    byte_bits-drop k bs
    ∙ sym (drop-append_exact (bits 8 b) (byte_bits bs) (8 * k))
    ∙ ap (λ n. drop n (bits 8 b ++ byte_bits bs)) (omega (arith, length-bits 8 b))

-- What a code leaves of the digits: at the end of a stream, whole bytes.
abbrev pub kept : Code → List ℕ → List ℕ
kept c ds = if is_stream_end c then drop (length ds % 8) ds else ds

-- The bytes that are given back, with the input behind them, are the digits that were left but for
-- the first ones, which fill no byte.
contents-give_back :
    (r t : Reader) (ds : List ℕ)
    → contents r ≡ ds ++ contents t
    → length (contents t) ≤ 8 * length r.next_in
    → contents (give_back r.next_in t) ≡ drop (length (contents t) % 8) (contents t)
unfolding give_back bits
contents-give_back r t ds e h =
    byte_bits-drop (length r.next_in - (length t.next_in + t.bs_live / 8)) r.next_in
    ∙ sym (drop-append_exact (bits r.bs_live r.bs_buff) (byte_bits r.next_in) _)
    ∙ (λ i. drop (same i) (e i))
    ∙ drop-append_exact ds (contents t) (length (contents t) % 8)
  where
    same :
        length (bits r.bs_live r.bs_buff)
          + 8 * (length r.next_in - (length t.next_in + t.bs_live / 8))
        ≡ length ds + length (contents t) % 8
    same = omega (
      arith,
      h,
      ap length e,
      length-append ds (contents t),
      length-bits r.bs_live r.bs_buff,
      length-contents r,
      length-contents t,
    )

-- What the caller of BZ2_decompress sees.
pub data View : Type 0 where
  view_waiting : DState → Saved → List ℕ → View
  view_stopped : Code → DState → Saved → List ℕ → View
  view_inside : DState → Locals → List ℕ → View
  view_asserted : View
  view_spent : View

abbrev pub view : Outcome → View
view (waiting s w r) = view_waiting s w (contents r)
view (stopped c s w r) = view_stopped c s w (contents r)
view (at_tables s v r) = view_inside s v (contents r)
view asserted = view_asserted
view spent = view_spent

-- the same, from where the switch was left
abbrev pub leaves : Seen → View
leaves (sees_waiting s v ds) = view_waiting s (save_state v) ds
leaves (sees_stopped c s v ds) = view_stopped c s (save_state v) (kept c ds)
leaves (sees_tables s v ds) = view_inside s v ds
leaves nothing = view_spent

-- The digits that the switch took off a reader; no more are left than the input of this call holds.
abbrev pub Took : Reader → Exit → Type 0
Took r (return_exit c s v t) =
    (ds : List ℕ) × (contents r ≡ ds ++ contents t) × (length (contents t) ≤ 8 * length r.next_in)
Took r (starved_exit s v t) = Unit
Took r (tables_exit s v t) = Unit
Took r exhausted = Unit

pub kept_lem :
    (c : Code) (r t : Reader) (ds : List ℕ)
    → contents r ≡ ds ++ contents t
    → length (contents t) ≤ 8 * length r.next_in
    → contents (if is_stream_end c then give_back r.next_in t else t) ≡ kept c (contents t)
kept_lem c r t ds e h = elim (Bool-cases (is_stream_end c)) [
  | inl p ↦ rw p (contents-give_back r t ds e h)
  | inr p ↦ rw p refl
]

pub kept-append :
    (c : Code) (ds : List ℕ) (ys : List ℕ) → kept c (ds ++ byte_bits ys) ≡ kept c ds ++ byte_bits ys
kept-append c ds ys = elim (Bool-cases (is_stream_end c)) [
  | inl p ↦ rw p (
      ap (λ n. drop n (ds ++ byte_bits ys)) part
      ∙ drop-append (length ds % 8) ds (byte_bits ys) (omega arith))
  | inr p ↦ rw p refl
]
  where
    part : length (ds ++ byte_bits ys) % 8 ≡ length ds % 8
    part = omega (arith, length-append ds (byte_bits ys), length-byte_bits ys)

pub view-leave : (r : Reader) (o : Exit) → Took r o → view (leave r.next_in o) ≡ leaves (seen [] o)
unfolding leave
view-leave r (starved_exit s v t) k = ap (view_waiting s (save_state v)) (sym (append-nil _))
view-leave r (return_exit c s v t) k =
    ap (view_stopped c s (save_state v))
      (kept_lem c r t k.0 k.1 k.2 ∙ ap (kept c) (sym (append-nil (contents t))))
view-leave r (tables_exit s v t) k = ap (view_inside s v) (sym (append-nil _))
view-leave r exhausted k = refl

module _ (alloc : ℕ → Bool) where
  -- A return comes behind as many digits as the label asks for.
  abbrev Spends : Label → Reader → Exit → Type 0
  Spends l r (return_exit c s v t) =
      (ds : List ℕ) × (contents r ≡ ds ++ contents t) × (bits_of l ≤ length ds)
  Spends l r (starved_exit s v t) = Unit
  Spends l r (tables_exit s v t) = Unit
  Spends l r exhausted = Unit

  further :
      (l m : Label) (n : ℕ) (r t : Reader) (o : Exit)
      → contents r ≡ bits (bits_of l) n ++ contents t
      → Spends m t o
      → Spends l r o
  further l m n r t (return_exit c s v u) e k = (
    bits (bits_of l) n ++ k.0,
    e
        ∙ ap (λ w. bits (bits_of l) n ++ w) k.1
        ∙ sym (append_assoc (bits (bits_of l) n) k.0 (contents u)),
    omega (arith, length-append (bits (bits_of l) n) k.0, length-bits (bits_of l) n),
  )
  further l m n r t (starved_exit s v u) e k = tt
  further l m n r t (tables_exit s v u) e k = tt
  further l m n r t exhausted e k = tt

  step-Spends :
      (fuel : ℕ) (l : Label) (n : ℕ) (st : Step) (r t : Reader)
      → contents r ≡ bits (bits_of l) n ++ contents t
      → ((m : Label) (s : DState) (v : Locals) → Spends m t (parse_loop alloc fuel m s v t))
      → Spends l r (on_step (parse_loop alloc fuel) st t)
  unfolding on_step
  step-Spends fuel l n (goto m s v) r t e ih = further l m n r t _ e (ih m s v)
  step-Spends fuel l n (return c s v) r t e ih =
      (bits (bits_of l) n, e, omega (arith, length-bits (bits_of l) n))
  step-Spends fuel l n (tables s v) r t e ih = tt

  fetch-Spends :
      (fuel : ℕ) (l : Label) (s : DState) (v : Locals) (r : Reader) (f : Fetch)
      → Answers (bits_of l) r f
      → ((m : Label) (s : DState) (v : Locals) (t : Reader)
          → IsValid t
          → Spends m t (parse_loop alloc fuel m s v t))
      → Spends l r (on_fetch alloc (parse_loop alloc fuel) l s v f)
  unfolding on_fetch
  fetch-Spends fuel l s v r (got n t) a ih =
      step-Spends fuel l n (after alloc l n s v) r t a.2 (λ m s' v'. ih m s' v' t a.0)
  fetch-Spends fuel l s v r (starved t) a ih = tt

  loop-Spends :
      (fuel : ℕ) (l : Label) (s : DState) (v : Locals) (r : Reader)
      → IsValid r
      → Spends l r (parse_loop alloc fuel l s v r)
  unfolding parse_loop
  loop-Spends zero l s v r k = tt
  loop-Spends (suc fuel) l s v r k =
      fetch-Spends fuel l (record s { state = l }) v r (get_bits (bits_of l) r)
        (get_bits-Answers (bits_of l) r (bits_of-range l).1 k)
        (λ m s' v' t. loop-Spends fuel m s' v' t)

  Spends-Took :
      (l : Label) (r : Reader) (o : Exit) → r.bs_live ≤ bits_of l → Spends l r o → Took r o
  Spends-Took l r (return_exit c s v t) h k = (
    k.0,
    k.1,
    omega (arith, h, k.2, ap length k.1, length-append k.0 (contents t), length-contents r),
  )
  Spends-Took l r (starved_exit s v t) h k = tt
  Spends-Took l r (tables_exit s v t) h k = tt
  Spends-Took l r exhausted h k = tt

  -- A call, by where the switch is left.
  pub switch-Took :
      (l : Label) (s : DState) (v : Locals) (r : Reader)
      → IsValid r
      → r.bs_live ≤ bits_of l
      → Took r (switch alloc l s v r)
  unfolding switch
  switch-Took l s v r k h =
      Spends-Took l r (switch alloc l s v r) h (loop-Spends (enough r) l s v r k)

  pub parse-view :
      (s : DState) (w : Saved) (r : Reader)
      → is_idle s.state ≡ false
      → IsValid r
      → r.bs_live ≤ bits_of s.state
      → view (parse alloc s w r)
        ≡ leaves (seen [] (switch alloc s.state s (restore (entered s.state w)) r))
  unfolding parse
  parse-view s w r n k h =
      rw n (view-leave r _ (switch-Took s.state s (restore (entered s.state w)) r k h))
