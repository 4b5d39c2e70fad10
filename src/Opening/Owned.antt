-- ===== src/Opening/Owned.antt =====
-- Which blocks of memory a caller's memory functions have handed out, and how often.
use libqbz.Base.{ℕ, ◌+◌, ◌≤◌, ◌≡◌, ◌∙◌, arith, List, [], ◌∷◌, ◌==◌, if◌then◌else◌}
use libqbz.Base.{Option, some, none}
use libqbz.Opening.{Memory, free_some}

abbrev pub once : ℕ → ℕ → ℕ
once p k = if k == p then 1 else 0

-- how often a block is among the pointers
abbrev pub owned : ℕ → List (Option ℕ) → ℕ
owned k [] = 0
owned k (none ∷ ps) = owned k ps
owned k (some p ∷ ps) = owned k ps + once p k

module _ (M : Memory) (held : M.Heap → ℕ → ℕ) where
  -- An allocation hands out a block more, or nothing.
  abbrev pub Gains : M.Heap → Option ℕ × M.Heap → Type 0
  Gains h (none, u) = (k : ℕ) → held u k ≡ held h k
  Gains h (some p, u) = (k : ℕ) → held u k ≡ held h k + once p k

  -- A block that is handed out can be taken back, once for each time.
  abbrev pub Takes : Type 0
  Takes =
      (h : M.Heap) (p : ℕ) → 1 ≤ held h p → (k : ℕ) → held (M.release h p) k + once p k ≡ held h k

  -- `h` holds what `before` holds, and the blocks of the pointers.
  abbrev pub Owns : M.Heap → List (Option ℕ) → M.Heap → Type 0
  Owns before ps h = (k : ℕ) → held h k ≡ held before k + owned k ps

  pub alloc-Owns :
      (before h : M.Heap) (ps : List (Option ℕ)) (a : Option ℕ × M.Heap)
      → Owns before ps h
      → Gains h a
      → Owns before (a.0 ∷ ps) a.1
  alloc-Owns before h ps (none, u) o g k = g k ∙ o k
  alloc-Owns before h ps (some p, u) o g k = omega (arith, g k, o k)

  once_self : (p : ℕ) → once p p ≡ 1
  once_self p = ground arith

  module _ (takes : Takes) where
    pub release-Owns :
        (before h : M.Heap) (ps : List (Option ℕ)) (p : ℕ)
        → Owns before (some p ∷ ps) h
        → Owns before ps (M.release h p)
    release-Owns before h ps p o k =
        omega (arith, takes h p (omega (arith, o p, once_self p)) k, o k)

    pub free_some-Owns :
        (size_of : ℕ) (before h : M.Heap) (ps : List (Option ℕ)) (p : Option ℕ)
        → Owns before (p ∷ ps) h
        → Owns before ps (free_some M size_of p h)
    free_some-Owns size_of before h ps none o = o
    free_some-Owns size_of before h ps (some p) o = release-Owns before h ps p o
