-- ===== src/Mtf/Front.antt =====
-- Move to front on lists, the reference for the loops of generateMTFValues: where a value stands first
-- and what is left without it.
use libqbz.Base.{ℕ, suc, ◌<◌, List, [], ◌∷◌, ◌++◌, true, false, ◌==◌}
use libqbz.Base.{◌≡◌, refl, sym, ap, ◌∙◌, ◌≢◌, ◌⊎◌, inl, inr, arith}
use libqbz.Base.{if◌then◌else◌, length, get_or, take, drop}

abbrev pub index_of : ℕ → List ℕ → ℕ
index_of v [] = 0
index_of v (x ∷ xs) = if x == v then 0 else suc (index_of v xs)

abbrev pub remove : ℕ → List ℕ → List ℕ
remove v [] = []
remove v (x ∷ xs) = if x == v then xs else x ∷ remove v xs

abbrev pub Found : ℕ → List ℕ → Type 0
Found v [] = ⊥
Found v (x ∷ xs) = (x ≡ v) ⊎ Found v xs

pub eq_cases : (x v : ℕ) → ((x ≡ v) × ((x == v) ≡ true)) ⊎ ((x ≢ v) × ((x == v) ≡ false))
eq_cases x v = ground arith

later : {x v : ℕ} (xs : List ℕ) → x ≢ v → Found v (x ∷ xs) → Found v xs
later xs ne (inl e) = absurd (ne e)
later xs ne (inr f) = f

pub Found-append : (v : ℕ) (xs ys : List ℕ) → Found v xs → Found v (xs ++ ys)
Found-append v [] ys f = absurd f
Found-append v (x ∷ xs) ys (inl e) = inl e
Found-append v (x ∷ xs) ys (inr f) = inr (Found-append v xs ys f)

pub index_of-lt : (v : ℕ) (xs : List ℕ) → Found v xs → index_of v xs < length xs
index_of-lt v [] f = absurd f
index_of-lt v (x ∷ xs) f = elim (eq_cases x v) [
  | inl h ↦ rw (h.1) (omega arith)
  | inr h ↦ rw (h.1) (omega (arith, index_of-lt v xs (later xs h.0 f)))
]

pub index_of-append : (v : ℕ) (xs ys : List ℕ) → Found v xs → index_of v (xs ++ ys) ≡ index_of v xs
index_of-append v [] ys f = absurd f
index_of-append v (x ∷ xs) ys f = elim (eq_cases x v) [
  | inl h ↦ rw (h.1) refl
  | inr h ↦ rw (h.1) (ap suc (index_of-append v xs ys (later xs h.0 f)))
]

pub remove-append : (v : ℕ) (xs ys : List ℕ) → Found v xs → remove v (xs ++ ys) ≡ remove v xs ++ ys
remove-append v [] ys f = absurd f
remove-append v (x ∷ xs) ys f = elim (eq_cases x v) [
  | inl h ↦ rw (h.1) refl
  | inr h ↦ rw (h.1) (ap (λ t. x ∷ t) (remove-append v xs ys (later xs h.0 f)))
]

pub length-remove : (v : ℕ) (xs : List ℕ) → Found v xs → suc (length (remove v xs)) ≡ length xs
length-remove v [] f = absurd f
length-remove v (x ∷ xs) f = elim (eq_cases x v) [
  | inl h ↦ rw (h.1) refl
  | inr h ↦ rw (h.1) (ap suc (length-remove v xs (later xs h.0 f)))
]

pub get_or-index_of : (v d : ℕ) (xs : List ℕ) → Found v xs → get_or xs (index_of v xs) d ≡ v
get_or-index_of v d [] f = absurd f
get_or-index_of v d (x ∷ xs) f = elim (eq_cases x v) [
  | inl h ↦ rw (h.1) (h.0)
  | inr h ↦ rw (h.1) (get_or-index_of v d xs (later xs h.0 f))
]

-- What memmove leaves behind the front.
pub take-drop-remove :
    (v : ℕ) (xs : List ℕ)
    → Found v xs
    → take (index_of v xs) xs ++ drop (suc (index_of v xs)) xs ≡ remove v xs
take-drop-remove v [] f = absurd f
take-drop-remove v (x ∷ xs) f = elim (eq_cases x v) [
  | inl h ↦ rw (h.1) refl
  | inr h ↦ rw (h.1) (ap (λ t. x ∷ t) (take-drop-remove v xs (later xs h.0 f)))
]

Found-remove : (w v : ℕ) (xs : List ℕ) → v ≢ w → Found w xs → Found w (remove v xs)
Found-remove w v [] ne f = absurd f
Found-remove w v (x ∷ xs) ne f = elim (eq_cases x v) [
  | inl h ↦ rw (h.1) (later xs (λ e. ne (sym h.0 ∙ e)) f)
  | inr h ↦ rw (h.1) (kept (Found-remove w v xs ne) f)
]
  where
    kept : (Found w xs → Found w (remove v xs)) → Found w (x ∷ xs) → Found w (x ∷ remove v xs)
    kept step (inl e) = inl e
    kept step (inr g) = inr (step g)

-- Everything in the list is still there once a value is at the front.
pub Found-front : (w v : ℕ) (xs : List ℕ) → Found w xs → Found w (v ∷ remove v xs)
Found-front w v xs f = elim (eq_cases v w) [
  | inl h ↦ inl (h.0)
  | inr h ↦ inr (Found-remove w v xs h.0 f)
]
