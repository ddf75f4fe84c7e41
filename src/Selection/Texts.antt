-- ===== src/Selection/Texts.antt =====
-- Lists of texts with no repetition, for the sets of namespaces and of UIDs of internal/selection.
use kubeseer.Prelude.{String, ◌≡◌, refl, false, ◌||◌, List, [], ◌∷◌, ◌++◌, arith, eq_iff}
use kubeseer.AccessPolicy.Evaluate.{contains}

-- No text stands twice in the list.
abbrev pub DistinctTexts : List String → Type 0
DistinctTexts [] = Unit
DistinctTexts (x ∷ xs) = (contains xs x ≡ false) × DistinctTexts xs

pub contains-append :
    (xs ys : List String) (v : String) → contains (xs ++ ys) v ≡ (contains xs v || contains ys v)
unfolding contains
contains-append [] ys v = refl
contains-append (x ∷ xs) ys v = ground (arith, contains-append xs ys v)

pub DistinctTexts-snoc :
    (xs : List String) (x : String)
    → contains xs x ≡ false
    → DistinctTexts xs
    → DistinctTexts (xs ++ (x ∷ []))
unfolding contains
DistinctTexts-snoc [] x h d = (refl, tt)
DistinctTexts-snoc (y ∷ ys) x h d = (
  rw (contains-append ys (x ∷ []) y) (ground (arith, d.0, h, eq_iff x y, eq_iff y x)),
  DistinctTexts-snoc ys x (ground (arith, h)) d.1,
)

-- A text between the others stands in neither part, and the others are distinct.
pub DistinctTexts-middle :
    (xs ys : List String) (x : String)
    → DistinctTexts (xs ++ (x ∷ ys))
    → (contains xs x ≡ false) × (contains ys x ≡ false) × DistinctTexts (xs ++ ys)
unfolding contains
DistinctTexts-middle [] ys x d = (refl, d.0, d.1)
DistinctTexts-middle (z ∷ zs) ys x d = ground (
  arith,
  d.0,
  DistinctTexts-middle zs ys x d.1,
  contains-append zs (x ∷ ys) z,
  contains-append zs ys z,
  eq_iff z x,
  eq_iff x z,
)
