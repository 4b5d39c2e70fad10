-- ===== src/Cycle/Search.antt =====
-- The binary search of BZ2_indexIntoF.
use mathlib.Core.Path.{subst}
use libqbz.Base.{ℕ, zero, suc, ◌+◌, ◌-◌, ◌/◌, ◌≤◌, ◌<◌, ◌≡◌, arith, Option, some, none, leb, ◌==◌}
use libqbz.Base.{if◌then◌else◌, Bool-cases, inl, inr, true, false}
use libqbz.Cycle.{index_loop, index_into_f}

-- The entry was found whose range holds the index.
abbrev pub Holds : (ℕ → ℕ) → ℕ → Option ℕ → Type 0
Holds cftab indx none = ⊥
Holds cftab indx (some nb) = (nb < 256) × (cftab nb ≤ indx) × (indx < cftab (nb + 1))

-- a round that ends, or goes on
settled :
    (cftab : ℕ → ℕ) (indx low high : ℕ) (rest : Option ℕ)
    → low < high
    → high ≤ 256
    → cftab low ≤ indx
    → indx < cftab high
    → (low + 1 < high → Holds cftab indx rest)
    → Holds cftab indx (if high - low == 1 then some low else rest)
settled cftab indx low high rest lt top hl hh go = elim (Bool-cases (high - low == 1)) [
  | inl e ↦ rw e (omega arith, hl, subst (λ n. indx < cftab n) (next high low lt e) hh)
  | inr e ↦ rw e (go (apart high low lt e))
]
  where
    next : (b a : ℕ) → a < b → (b - a == 1) ≡ true → b ≡ a + 1
    next b a h e = ground (arith, e)

    apart : (b a : ℕ) → a < b → (b - a == 1) ≡ false → a + 1 < b
    apart b a h e = ground (arith, e)

index_loop-Holds :
    (rounds indx : ℕ) (cftab : ℕ → ℕ) (nb na : ℕ)
    → nb + 1 < na
    → na ≤ 256
    → na ≤ nb + 1 + rounds
    → cftab nb ≤ indx
    → indx < cftab na
    → Holds cftab indx (index_loop rounds indx cftab nb na)
unfolding index_loop
index_loop-Holds zero indx cftab nb na h t r hb ha = absurd (omega arith)
index_loop-Holds (suc rounds) indx cftab nb na h t r hb ha =
    elim (Bool-cases (leb (cftab ((nb + na) / 2)) indx)) [
      | inl e ↦ rw e (
          settled cftab indx ((nb + na) / 2) na _ (omega arith) t
            (at_most (cftab ((nb + na) / 2)) indx e) ha
            (λ more.
              index_loop-Holds rounds indx cftab ((nb + na) / 2) na more t (omega arith)
                (at_most (cftab ((nb + na) / 2)) indx e) ha))
      | inr e ↦ rw e (
          settled cftab indx nb ((nb + na) / 2) _ (omega arith) (omega arith) hb
            (above (cftab ((nb + na) / 2)) indx e)
            (λ more.
              index_loop-Holds rounds indx cftab nb ((nb + na) / 2) more (omega arith) (omega arith)
                hb (above (cftab ((nb + na) / 2)) indx e)))
    ]
  where
    at_most : (a b : ℕ) → leb a b ≡ true → a ≤ b
    at_most a b e = ground (arith, e)

    above : (a b : ℕ) → leb a b ≡ false → b < a
    above a b e = ground (arith, e)

-- For an index from the first entry of `cftab` on and below its last one, BZ2_indexIntoF ends and
-- returns a byte whose range of indices, from its entry to the next one, holds the index.
pub index_into_f-Holds :
    (indx : ℕ) (cftab : ℕ → ℕ)
    → cftab 0 ≤ indx
    → indx < cftab 256
    → Holds cftab indx (index_into_f indx cftab)
unfolding index_into_f
index_into_f-Holds indx cftab hb ha =
    index_loop-Holds 256 indx cftab 0 256 (omega arith) (omega arith) (omega arith) hb ha
