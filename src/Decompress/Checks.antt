-- ===== src/Decompress/Checks.antt =====
-- What the checks of the parser let through: bounds on the pointer to the original row, on the number
-- of tables and on the code lengths, which the code behind the parser relies on.
use libqbz.Base.{ℕ, zero, suc, ◌+◌, ◌*◌, ◌≤◌, ◌<◌, Bool, true, false, ◌≡◌, refl, arith, Bool-cases}
use libqbz.Base.{inl, inr, ◌⊎◌, ◌&&◌, ◌||◌, ◌==◌, ltb, if◌then◌else◌}
use libqbz.Bits.Reader.{Reader, Fetch, got, starved, get_bits}
use libqbz.Compress.Types.{Code}
use libqbz.Decompress.{after, bits_of, after_trailer, after_magic, alloc_small, alloc_fast}
use libqbz.Decompress.{after_origptr, expect, expect_magic}
use libqbz.Decompress.{after_maps, next_sixteen, after_mapping_1, after_mapping_2, after_selectors}
use libqbz.Decompress.{after_selector_3, check_curr, next_table, next_length, after_coding_2}
use libqbz.Decompress.Types.{Label, DState, Locals, Step, goto, return, tables}
use libqbz.Decompress.Types.{idle, magic_1, magic_2, magic_3, magic_4, blkhdr_1, blkhdr_2}
use libqbz.Decompress.Types.{blkhdr_3, blkhdr_4}
use libqbz.Decompress.Types.{blkhdr_5, blkhdr_6, bcrc_1, bcrc_2, bcrc_3, bcrc_4, randbit, origptr_1}
use libqbz.Decompress.Types.{origptr_2, origptr_3, mapping_1, mapping_2, selector_1, selector_2}
use libqbz.Decompress.Types.{selector_3, coding_1, coding_2, coding_3, endhdr_2, endhdr_3, endhdr_4}
use libqbz.Decompress.Types.{endhdr_5, endhdr_6, ccrc_1, ccrc_2, ccrc_3, ccrc_4}
use libqbz.Decompress.Parse.{Exit, starved_exit, return_exit, tables_exit, exhausted}
use libqbz.Decompress.Parse.{on_step, on_fetch, parse_loop, switch, enough}

abbrev pub Origin : DState → Type 0
Origin s = s.orig_ptr ≤ 10 + 100000 * s.block_size100k

abbrev pub Groups : Locals → Type 0
Groups v = (2 ≤ v.n_groups) × (v.n_groups ≤ 6)

abbrev pub Within : ℕ → Type 0
Within x = (1 ≤ x) × (x ≤ 20)

-- The lengths of the first `t` tables are in range, and those of this table below `i`.
abbrev pub Rows : ℕ → DState → Locals → Type 0
Rows t s v = (g k : ℕ) → g < t → k < v.alpha_size → Within (s.len g k)

abbrev Part : DState → Locals → Type 0
Part s v = (k : ℕ) → k < v.i → Within (s.len v.t k)

-- What holds at a label.
abbrev pub Checked : Label → DState → Locals → Type 0
Checked mapping_1 s v = Origin s
Checked mapping_2 s v = Origin s
Checked selector_1 s v = Origin s
Checked selector_2 s v = Origin s × Groups v
Checked selector_3 s v = Origin s × Groups v
Checked coding_1 s v = Origin s × Groups v × Rows v.t s v
Checked coding_2 s v = Origin s × Groups v × Rows v.t s v × Part s v × Within v.curr
Checked coding_3 s v = Origin s × Groups v × Rows v.t s v × Part s v × Within v.curr
Checked _ s v = Unit

-- What holds at the tables.
abbrev pub AllChecked : DState → Locals → Type 0
AllChecked s v = Origin s × Groups v × Rows v.n_groups s v

data Keeps : Step → Type 0 where
  goes : {l : Label} {s : DState} {v : Locals} → Checked l s v → Keeps (goto l s v)
  returns : {c : Code} {s : DState} {v : Locals} → Keeps (return c s v)
  reads : {s : DState} {v : Locals} → AllChecked s v → Keeps (tables s v)

Keeps-if :
    (b : Bool) (x y : Step)
    → (b ≡ true → Keeps x)
    → (b ≡ false → Keeps y)
    → Keeps (if b then x else y)
Keeps-if true x y h k = h refl
Keeps-if false x y h k = k refl

Keeps-both : (b : Bool) (x y : Step) → Keeps x → Keeps y → Keeps (if b then x else y)
Keeps-both true x y h k = h
Keeps-both false x y h k = k

maps-Keeps : (s : DState) (v : Locals) → Origin s → Keeps (after_maps s v)
unfolding after_maps
maps-Keeps s v o = Keeps-both _ _ _ (returns) (goes o)

sixteen-Keeps : (rounds : ℕ) (s : DState) (v : Locals) → Origin s → Keeps (next_sixteen rounds s v)
unfolding next_sixteen
sixteen-Keeps zero s v o = maps-Keeps s v o
sixteen-Keeps (suc rounds) s v o =
    Keeps-both _ _ _ (goes o) (sixteen-Keeps rounds s (record v { i = v.i + 1 }) o)

in_bounds : (lo hi x : ℕ) → (ltb x lo || ltb hi x) ≡ false → (lo ≤ x) × (x ≤ hi)
in_bounds lo hi x h = ground (arith, h)

ltb_le : (a b : ℕ) → ltb a b ≡ false → b ≤ a
ltb_le a b h = ground (arith, h)

curr-Keeps :
    (s : DState) (v : Locals)
    → Origin s
    → Groups v
    → Rows v.t s v
    → Part s v
    → Keeps (check_curr s v)
unfolding check_curr
curr-Keeps s v o g r p =
    Keeps-if (ltb v.curr 1 || ltb 20 v.curr) _ _ (λ h. returns)
      (λ h. goes (o, g, r, p, in_bounds 1 20 v.curr h))

table-Keeps :
    (s : DState) (v : Locals) → Origin s → Groups v → Rows v.t s v → Keeps (next_table s v)
unfolding next_table
table-Keeps s v o g r =
    Keeps-if (ltb v.t v.n_groups) _ _ (λ h. goes (o, g, r))
      (λ h. reads (o, g, λ a k ha hk. r a k (omega (arith, ltb_le v.t v.n_groups h, ha)) hk))

two_cases : (a b : ℕ) → a < b + 1 → (a < b) ⊎ (a ≡ b)
two_cases a b h = elim (Bool-cases (ltb a b)) [
  | inl e ↦ inl (ground (arith, e))
  | inr e ↦ inr (ground (arith, e, h))
]

length-Keeps :
    (s : DState) (v : Locals)
    → Origin s
    → Groups v
    → Rows v.t s v
    → Part s v
    → Keeps (next_length s v)
unfolding next_length
length-Keeps s v o g r p =
    Keeps-if (ltb v.i v.alpha_size) _ _ (λ h. curr-Keeps s v o g r p)
      (λ h.
        table-Keeps s (record v { t = v.t + 1 }) o g
          (λ a k ha hk. row a k (two_cases a v.t ha) hk (ltb_le v.i v.alpha_size h)))
  where
    row :
        (a k : ℕ)
        → (a < v.t) ⊎ (a ≡ v.t)
        → k < v.alpha_size
        → v.alpha_size ≤ v.i
        → Within (s.len a k)
    row a k (inl l) hk hi = r a k l hk
    row a k (inr e) hk hi = rw e (p k (omega (arith, hk, hi)))

-- A length in range is stored.
stored :
    (len : ℕ → ℕ → ℕ) (t i curr g k : ℕ)
    → Within curr
    → ((g == t && k == i) ≡ false → Within (len g k))
    → Within (if g == t && k == i then curr else len g k)
stored len t i curr g k w h = elim (Bool-cases (g == t && k == i)) [
  | inl e ↦ rw e w
  | inr e ↦ rw e (h e)
]

other_place : (t i k : ℕ) → k < i + 1 → (t == t && k == i) ≡ false → k < i
other_place t i k h e = ground (arith, h, e)

coding_2-Keeps :
    (uc : ℕ) (s : DState) (v : Locals) → Checked coding_2 s v → Keeps (after_coding_2 uc s v)
unfolding after_coding_2
coding_2-Keeps uc s v c = Keeps-both _ _ _ (goes c) (
    length-Keeps
      (record s { len = λ (g k : ℕ). if g == v.t && k == v.i then v.curr else s.len g k })
      (record v { i = v.i + 1 }) c.0 c.1
      (λ g k hg hk. stored s.len v.t v.i v.curr g k c.4 (λ e. c.2 g k hg hk))
      (λ k hk. stored s.len v.t v.i v.curr v.t k c.4 (λ e. c.3 k (other_place v.t v.i k hk e))))

selectors-Keeps : (s : DState) (v : Locals) → Origin s → Groups v → Keeps (after_selectors s v)
unfolding after_selectors
selectors-Keeps s v o g = goes (o, g, λ a k ha hk. absurd (omega (arith, ha)))

selector_3-Keeps :
    (uc : ℕ) (s : DState) (v : Locals) → Checked selector_3 s v → Keeps (after_selector_3 uc s v)
unfolding after_selector_3
selector_3-Keeps uc s v c =
    Keeps-both _ _ _
      (Keeps-both _ _ _ (goes c) (selectors-Keeps _ (record v { i = v.i + 1 }) c.0 c.1))
      (Keeps-both _ _ _ (returns) (goes c))

small-Keeps : (alloc : ℕ → Bool) (s : DState) (v : Locals) → Keeps (alloc_small alloc s v)
unfolding alloc_small
small-Keeps alloc s v = Keeps-both _ _ _ (returns) (goes tt)

fast-Keeps : (alloc : ℕ → Bool) (s : DState) (v : Locals) → Keeps (alloc_fast alloc s v)
unfolding alloc_fast
fast-Keeps alloc s v = Keeps-both _ _ _ (returns) (goes tt)

magic-Keeps :
    (alloc : ℕ → Bool) (size : ℕ) (s : DState) (v : Locals) → Keeps (after_magic alloc size s v)
unfolding after_magic
magic-Keeps alloc size s v =
    Keeps-both _ _ _ (returns) (Keeps-both _ _ _ (small-Keeps alloc _ v) (fast-Keeps alloc _ v))

trailer-Keeps : (l : Label) (uc : ℕ) (s : DState) (v : Locals) → Keeps (after_trailer l uc s v)
unfolding after_trailer expect
trailer-Keeps endhdr_2 uc s v = Keeps-both _ _ _ (returns) (goes tt)
trailer-Keeps endhdr_3 uc s v = Keeps-both _ _ _ (returns) (goes tt)
trailer-Keeps endhdr_4 uc s v = Keeps-both _ _ _ (returns) (goes tt)
trailer-Keeps endhdr_5 uc s v = Keeps-both _ _ _ (returns) (goes tt)
trailer-Keeps endhdr_6 uc s v = Keeps-both _ _ _ (returns) (goes tt)
trailer-Keeps ccrc_1 uc s v = goes tt
trailer-Keeps ccrc_2 uc s v = goes tt
trailer-Keeps ccrc_3 uc s v = goes tt
trailer-Keeps _ uc s v = returns

origptr-Keeps : (s : DState) (v : Locals) → Keeps (after_origptr s v)
unfolding after_origptr
origptr-Keeps s v =
    Keeps-if (ltb (10 + 100000 * s.block_size100k) s.orig_ptr) _ _ (λ h. returns)
      (λ h. goes (ltb_le (10 + 100000 * s.block_size100k) s.orig_ptr h))

after-Keeps :
    (alloc : ℕ → Bool) (l : Label) (uc : ℕ) (s : DState) (v : Locals)
    → Checked l s v
    → Keeps (after alloc l uc s v)
unfolding after expect expect_magic after_mapping_1 after_mapping_2
after-Keeps alloc magic_1 uc s v c = Keeps-both _ _ _ (returns) (goes tt)
after-Keeps alloc magic_2 uc s v c = Keeps-both _ _ _ (returns) (goes tt)
after-Keeps alloc magic_3 uc s v c = Keeps-both _ _ _ (returns) (goes tt)
after-Keeps alloc magic_4 uc s v c = magic-Keeps alloc uc s v
after-Keeps alloc blkhdr_1 uc s v c =
    Keeps-both _ _ _ (goes tt) (Keeps-both _ _ _ (returns) (goes tt))
after-Keeps alloc blkhdr_2 uc s v c = Keeps-both _ _ _ (returns) (goes tt)
after-Keeps alloc blkhdr_3 uc s v c = Keeps-both _ _ _ (returns) (goes tt)
after-Keeps alloc blkhdr_4 uc s v c = Keeps-both _ _ _ (returns) (goes tt)
after-Keeps alloc blkhdr_5 uc s v c = Keeps-both _ _ _ (returns) (goes tt)
after-Keeps alloc blkhdr_6 uc s v c = Keeps-both _ _ _ (returns) (goes tt)
after-Keeps alloc bcrc_1 uc s v c = goes tt
after-Keeps alloc bcrc_2 uc s v c = goes tt
after-Keeps alloc bcrc_3 uc s v c = goes tt
after-Keeps alloc bcrc_4 uc s v c = goes tt
after-Keeps alloc randbit uc s v c = goes tt
after-Keeps alloc origptr_1 uc s v c = goes tt
after-Keeps alloc origptr_2 uc s v c = goes tt
after-Keeps alloc origptr_3 uc s v c = origptr-Keeps _ v
after-Keeps alloc mapping_1 uc s v c = Keeps-both _ _ _ (goes c) (sixteen-Keeps 16 _ _ c)
after-Keeps alloc mapping_2 uc s v c = Keeps-both _ _ _ (goes c) (sixteen-Keeps _ _ _ c)
after-Keeps alloc selector_1 n s v c =
    Keeps-if (ltb n 2 || ltb 6 n) _ _ (λ h. returns) (λ h. goes (c, in_bounds 2 6 n h))
after-Keeps alloc selector_2 n s v c = Keeps-both _ _ _ (returns) (goes c)
after-Keeps alloc selector_3 uc s v c = selector_3-Keeps uc s v c
after-Keeps alloc coding_1 n s v c =
    curr-Keeps s (record v { curr = n; i = 0 }) c.0 c.1 c.2 (λ k hk. absurd (omega (arith, hk)))
after-Keeps alloc coding_2 uc s v c = coding_2-Keeps uc s v c
after-Keeps alloc coding_3 uc s v c = curr-Keeps s _ c.0 c.1 c.2 c.3
after-Keeps alloc idle uc s v c = trailer-Keeps idle uc s v
after-Keeps alloc endhdr_2 uc s v c = trailer-Keeps endhdr_2 uc s v
after-Keeps alloc endhdr_3 uc s v c = trailer-Keeps endhdr_3 uc s v
after-Keeps alloc endhdr_4 uc s v c = trailer-Keeps endhdr_4 uc s v
after-Keeps alloc endhdr_5 uc s v c = trailer-Keeps endhdr_5 uc s v
after-Keeps alloc endhdr_6 uc s v c = trailer-Keeps endhdr_6 uc s v
after-Keeps alloc ccrc_1 uc s v c = trailer-Keeps ccrc_1 uc s v
after-Keeps alloc ccrc_2 uc s v c = trailer-Keeps ccrc_2 uc s v
after-Keeps alloc ccrc_3 uc s v c = trailer-Keeps ccrc_3 uc s v
after-Keeps alloc ccrc_4 uc s v c = trailer-Keeps ccrc_4 uc s v

-- What was checked where the switch is left: at the tables, and at the label of a wait.
abbrev pub ExitChecked : Exit → Type 0
ExitChecked (tables_exit s v r) = AllChecked s v
ExitChecked (starved_exit s v r) = Checked s.state s v
ExitChecked (return_exit c s v r) = Unit
ExitChecked exhausted = Unit

module _ (alloc : ℕ → Bool) where
  -- The label in `state` is of no account for what is checked.
  relabelled :
      (l m : Label) (s : DState) (v : Locals) → Checked l s v → Checked l (record s { state = m }) v
  relabelled mapping_1 m s v c = c
  relabelled mapping_2 m s v c = c
  relabelled selector_1 m s v c = c
  relabelled selector_2 m s v c = c
  relabelled selector_3 m s v c = c
  relabelled coding_1 m s v c = c
  relabelled coding_2 m s v c = c
  relabelled coding_3 m s v c = c
  relabelled _ m s v c = tt

  step-ExitChecked :
      (fuel : ℕ) (st : Step) (r : Reader)
      → Keeps st
      → ((l : Label) (s : DState) (v : Locals)
          → Checked l s v
          → ExitChecked (parse_loop alloc fuel l s v r))
      → ExitChecked (on_step (parse_loop alloc fuel) st r)
  unfolding on_step
  step-ExitChecked fuel _ r (goes {l} {s} {v} c) ih = ih l s v c
  step-ExitChecked fuel _ r returns ih = tt
  step-ExitChecked fuel _ r (reads c) ih = c

  fetch-ExitChecked :
      (fuel : ℕ) (l : Label) (s : DState) (v : Locals) (f : Fetch)
      → Checked l s v
      → ((m : Label) (s : DState) (v : Locals) (r : Reader)
          → Checked m s v
          → ExitChecked (parse_loop alloc fuel m s v r))
      → ExitChecked (on_fetch alloc (parse_loop alloc fuel) l (record s { state = l }) v f)
  unfolding on_fetch
  fetch-ExitChecked fuel l s v (got n r) c ih =
      step-ExitChecked fuel (after alloc l n (record s { state = l }) v) r
        (after-Keeps alloc l n (record s { state = l }) v (relabelled l l s v c))
        (λ m u w. ih m u w r)
  fetch-ExitChecked fuel l s v (starved r) c ih = relabelled l l s v c

  loop-ExitChecked :
      (fuel : ℕ) (l : Label) (s : DState) (v : Locals) (r : Reader)
      → Checked l s v
      → ExitChecked (parse_loop alloc fuel l s v r)
  unfolding parse_loop
  loop-ExitChecked zero l s v r c = tt
  loop-ExitChecked (suc fuel) l s v r c =
      fetch-ExitChecked fuel l s v (get_bits (bits_of l) r) c (loop-ExitChecked fuel)

  -- Whatever the input: from a label at which what was read so far is checked (nothing, up to the
  -- pointer to the original row), BZ2_decompress reaches the tables only with that pointer at most ten
  -- above the size of a block, with 2 to 6 tables, and with every code length of every table from 1
  -- to 20; and where it waits for input before, what was read so far is checked again.
  pub switch-ExitChecked :
      (l : Label) (s : DState) (v : Locals) (r : Reader)
      → Checked l s v
      → ExitChecked (switch alloc l s v r)
  unfolding switch
  switch-ExitChecked l s v r c = loop-ExitChecked (enough r) l s v r c
