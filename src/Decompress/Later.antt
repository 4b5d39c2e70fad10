-- ===== src/Decompress/Later.antt =====
-- No label of the parser leads back to the first one, where a call zeroes the saved locals, nor to
-- the state of an ended stream.
use libqbz.Base.{ℕ, zero, suc, ◌+◌, Bool, true, false, ◌≡◌, refl}
use libqbz.Base.{◌||◌, if◌then◌else◌}
use libqbz.Compress.Types.{Code}
use libqbz.Decompress.{after, after_trailer, after_magic, alloc_small, alloc_fast, after_origptr}
use libqbz.Decompress.{after_maps, next_sixteen, after_mapping_1, after_mapping_2, after_selectors}
use libqbz.Decompress.{
  after_selector_3, check_curr, next_table, next_length, after_coding_2, expect, expect_magic,
}
use libqbz.Decompress.Types.{Label, DState, Locals, Step, goto, return, tables, is_magic_1, is_idle}
use libqbz.Decompress.Types.{idle, magic_1, magic_2, magic_3, magic_4, blkhdr_1, blkhdr_2}
use libqbz.Decompress.Types.{blkhdr_3, blkhdr_4}
use libqbz.Decompress.Types.{blkhdr_5, blkhdr_6, bcrc_1, bcrc_2, bcrc_3, bcrc_4, randbit, origptr_1}
use libqbz.Decompress.Types.{origptr_2, origptr_3, mapping_1, mapping_2, selector_1, selector_2}
use libqbz.Decompress.Types.{selector_3, coding_1, coding_2, coding_3, endhdr_2, endhdr_3, endhdr_4}
use libqbz.Decompress.Types.{endhdr_5, endhdr_6, ccrc_1, ccrc_2, ccrc_3, ccrc_4}

abbrev pub IsLater : Label → Type 0
IsLater l = (is_magic_1 l || is_idle l) ≡ false

abbrev pub Later : Step → Type 0
Later (goto l s v) = IsLater l
Later (return c s v) = Unit
Later (tables s v) = Unit

-- the same by a constructor for each way to go on
data Moves : Step → Type 0 where
  goes : {l : Label} {s : DState} {v : Locals} → IsLater l → Moves (goto l s v)
  returns : {c : Code} {s : DState} {v : Locals} → Moves (return c s v)
  reads : {s : DState} {v : Locals} → Moves (tables s v)

Moves-Later : (st : Step) → Moves st → Later st
Moves-Later _ (goes h) = h
Moves-Later _ returns = tt
Moves-Later _ reads = tt

Moves-if : (b : Bool) (x y : Step) → Moves x → Moves y → Moves (if b then x else y)
Moves-if true x y h k = h
Moves-if false x y h k = k

maps-Moves : (s : DState) (v : Locals) → Moves (after_maps s v)
unfolding after_maps
maps-Moves s v = Moves-if _ _ _ returns (goes refl)

sixteen-Moves : (rounds : ℕ) (s : DState) (v : Locals) → Moves (next_sixteen rounds s v)
unfolding next_sixteen
sixteen-Moves zero s v = maps-Moves s v
sixteen-Moves (suc rounds) s v =
    Moves-if _ _ _ (goes refl) (sixteen-Moves rounds s (record v { i = v.i + 1 }))

curr-Moves : (s : DState) (v : Locals) → Moves (check_curr s v)
unfolding check_curr
curr-Moves s v = Moves-if _ _ _ returns (goes refl)

table-Moves : (s : DState) (v : Locals) → Moves (next_table s v)
unfolding next_table
table-Moves s v = Moves-if _ _ _ (goes refl) reads

length-Moves : (s : DState) (v : Locals) → Moves (next_length s v)
unfolding next_length
length-Moves s v = Moves-if _ _ _ (curr-Moves s v) (table-Moves s _)

small-Moves : (alloc : ℕ → Bool) (s : DState) (v : Locals) → Moves (alloc_small alloc s v)
unfolding alloc_small
small-Moves alloc s v = Moves-if _ _ _ returns (goes refl)

fast-Moves : (alloc : ℕ → Bool) (s : DState) (v : Locals) → Moves (alloc_fast alloc s v)
unfolding alloc_fast
fast-Moves alloc s v = Moves-if _ _ _ returns (goes refl)

magic-Moves :
    (alloc : ℕ → Bool) (size : ℕ) (s : DState) (v : Locals) → Moves (after_magic alloc size s v)
unfolding after_magic
magic-Moves alloc size s v =
    Moves-if _ _ _ returns (Moves-if _ _ _ (small-Moves alloc _ v) (fast-Moves alloc _ v))

trailer-Moves : (l : Label) (uc : ℕ) (s : DState) (v : Locals) → Moves (after_trailer l uc s v)
unfolding after_trailer expect
trailer-Moves endhdr_2 uc s v = Moves-if _ _ _ returns (goes refl)
trailer-Moves endhdr_3 uc s v = Moves-if _ _ _ returns (goes refl)
trailer-Moves endhdr_4 uc s v = Moves-if _ _ _ returns (goes refl)
trailer-Moves endhdr_5 uc s v = Moves-if _ _ _ returns (goes refl)
trailer-Moves endhdr_6 uc s v = Moves-if _ _ _ returns (goes refl)
trailer-Moves ccrc_1 uc s v = goes refl
trailer-Moves ccrc_2 uc s v = goes refl
trailer-Moves ccrc_3 uc s v = goes refl
trailer-Moves _ uc s v = returns

after-Moves :
    (alloc : ℕ → Bool) (l : Label) (uc : ℕ) (s : DState) (v : Locals) → Moves (after alloc l uc s v)
unfolding after expect expect_magic after_origptr after_mapping_1 after_mapping_2 after_selectors
    after_selector_3 after_coding_2
after-Moves alloc magic_1 uc s v = Moves-if _ _ _ returns (goes refl)
after-Moves alloc magic_2 uc s v = Moves-if _ _ _ returns (goes refl)
after-Moves alloc magic_3 uc s v = Moves-if _ _ _ returns (goes refl)
after-Moves alloc magic_4 uc s v = magic-Moves alloc uc s v
after-Moves alloc blkhdr_1 uc s v = Moves-if _ _ _ (goes refl) (Moves-if _ _ _ returns (goes refl))
after-Moves alloc blkhdr_2 uc s v = Moves-if _ _ _ returns (goes refl)
after-Moves alloc blkhdr_3 uc s v = Moves-if _ _ _ returns (goes refl)
after-Moves alloc blkhdr_4 uc s v = Moves-if _ _ _ returns (goes refl)
after-Moves alloc blkhdr_5 uc s v = Moves-if _ _ _ returns (goes refl)
after-Moves alloc blkhdr_6 uc s v = Moves-if _ _ _ returns (goes refl)
after-Moves alloc bcrc_1 uc s v = goes refl
after-Moves alloc bcrc_2 uc s v = goes refl
after-Moves alloc bcrc_3 uc s v = goes refl
after-Moves alloc bcrc_4 uc s v = goes refl
after-Moves alloc randbit uc s v = goes refl
after-Moves alloc origptr_1 uc s v = goes refl
after-Moves alloc origptr_2 uc s v = goes refl
after-Moves alloc origptr_3 uc s v = Moves-if _ _ _ returns (goes refl)
after-Moves alloc mapping_1 uc s v = Moves-if _ _ _ (goes refl) (sixteen-Moves 16 _ _)
after-Moves alloc mapping_2 uc s v = Moves-if _ _ _ (goes refl) (sixteen-Moves _ _ _)
after-Moves alloc selector_1 uc s v = Moves-if _ _ _ returns (goes refl)
after-Moves alloc selector_2 uc s v = Moves-if _ _ _ returns (goes refl)
after-Moves alloc selector_3 uc s v =
    Moves-if _ _ _ (Moves-if _ _ _ (goes refl) (goes refl)) (Moves-if _ _ _ returns (goes refl))
after-Moves alloc coding_1 uc s v = curr-Moves _ _
after-Moves alloc coding_2 uc s v = Moves-if _ _ _ (goes refl) (length-Moves _ _)
after-Moves alloc coding_3 uc s v = curr-Moves _ _
after-Moves alloc idle uc s v = trailer-Moves idle uc s v
after-Moves alloc endhdr_2 uc s v = trailer-Moves endhdr_2 uc s v
after-Moves alloc endhdr_3 uc s v = trailer-Moves endhdr_3 uc s v
after-Moves alloc endhdr_4 uc s v = trailer-Moves endhdr_4 uc s v
after-Moves alloc endhdr_5 uc s v = trailer-Moves endhdr_5 uc s v
after-Moves alloc endhdr_6 uc s v = trailer-Moves endhdr_6 uc s v
after-Moves alloc ccrc_1 uc s v = trailer-Moves ccrc_1 uc s v
after-Moves alloc ccrc_2 uc s v = trailer-Moves ccrc_2 uc s v
after-Moves alloc ccrc_3 uc s v = trailer-Moves ccrc_3 uc s v
after-Moves alloc ccrc_4 uc s v = trailer-Moves ccrc_4 uc s v

-- From every label the code goes on to a label that is neither the first one nor that of an ended
-- stream, or it returns, or it comes to the tables.
pub after-Later :
    (alloc : ℕ → Bool) (l : Label) (uc : ℕ) (s : DState) (v : Locals) → Later (after alloc l uc s v)
after-Later alloc l uc s v = Moves-Later (after alloc l uc s v) (after-Moves alloc l uc s v)
