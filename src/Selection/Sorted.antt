-- ===== src/Selection/Sorted.antt =====
-- The resources of `Execute` of internal/selection/executor.go within its limits, and sorted.
use kubeseer.Prelude.{
  ℕ, suc, ◌+◌, String, ◌≡◌, ◌≢◌, refl, sym, Option, none, some, Bool, List, [], ◌∷◌, map, length,
  All, arith, eq_iff, Bool-cases, inl, inr,
}
use kubeseer.Prelude.Int.{ℤ, pos, ◌≤ℤ◌}
use kubeseer.Prelude.Sort.{insert_sorted, sort_stable}
use kubeseer.AccessPolicy.Evaluate.{contains}
use kubeseer.Extraction.Json.{Fields}
use kubeseer.Selection.Texts.{DistinctTexts}
use kubeseer.Selection.Executor.{SelectedResource, SelectedInput}
use kubeseer.Selection.Execution.Budget.{total, total-nil, total-cons}
use kubeseer.Selection.Execution.Outcome.{uid_of}

module _ (canonical_size : Fields → Option ℕ) where
  abbrev pub size_or_zero : Option ℕ → ℕ
  size_or_zero none = 0
  size_or_zero (some k) = k

  pub total_size : List SelectedResource → ℕ
  total_size [] = 0
  total_size (r ∷ rs) = size_or_zero (canonical_size r.object) + total_size rs

  abbrev pub IsMeasured : SelectedResource → Type 0
  IsMeasured r = canonical_size r.object ≢ none

  -- What the limits of a selection ask for: at most so many resources, of distinct UIDs, each of a
  -- measured size, and at most so many bytes in all.
  pub record AreWithin (max_resources max_input_bytes : ℤ) (rs : List SelectedResource)
      : Type 0 where
    pub count : pos (length rs) ≤ℤ max_resources
    pub distinct : DistinctTexts (map uid_of rs)
    pub measured : All IsMeasured rs
    pub bytes : pos (total_size rs) ≤ℤ max_input_bytes

  module _ (less : SelectedResource → SelectedResource → Bool) where
    insert-length :
        (x : SelectedResource) (ys : List SelectedResource)
        → length (insert_sorted less x ys) ≡ suc (length ys)
    unfolding insert_sorted
    insert-length x [] = refl
    insert-length x (y ∷ ys) = ground (arith, insert-length x ys)

    insert-total_size :
        (x : SelectedResource) (ys : List SelectedResource)
        → total_size (insert_sorted less x ys) ≡ total_size (x ∷ ys)
    unfolding insert_sorted total_size
    insert-total_size x [] = refl
    insert-total_size x (y ∷ ys) = ground (arith, insert-total_size x ys)

    insert-IsMeasured :
        (x : SelectedResource) (ys : List SelectedResource)
        → All IsMeasured (x ∷ ys)
        → All IsMeasured (insert_sorted less x ys)
    unfolding insert_sorted
    insert-IsMeasured x [] h = h
    insert-IsMeasured x (y ∷ ys) h = elim (Bool-cases (less y x)) [
      | inl e ↦ rw e (h.1.0, insert-IsMeasured x ys (h.0, h.1.1))
      | inr e ↦ rw e h
    ]

    insert-contains :
        (x : SelectedResource) (ys : List SelectedResource) (v : String)
        → contains (map uid_of (insert_sorted less x ys)) v ≡ contains (map uid_of (x ∷ ys)) v
    unfolding insert_sorted contains
    insert-contains x [] v = refl
    insert-contains x (y ∷ ys) v = elim (Bool-cases (less y x)) [
      | inl e ↦ rw e (ground (arith, insert-contains x ys v))
      | inr e ↦ rw e refl
    ]

    insert-DistinctTexts :
        (x : SelectedResource) (ys : List SelectedResource)
        → DistinctTexts (map uid_of (x ∷ ys))
        → DistinctTexts (map uid_of (insert_sorted less x ys))
    unfolding insert_sorted contains
    insert-DistinctTexts x [] d = d
    insert-DistinctTexts x (y ∷ ys) d = elim (Bool-cases (less y x)) [
      | inl e ↦ rw e (
        ground (
          arith,
          insert-contains x ys (uid_of y),
          d,
          eq_iff (uid_of x) (uid_of y),
          eq_iff (uid_of y) (uid_of x),
        ),
        insert-DistinctTexts x ys (ground (arith, d), d.1.1),
      )
      | inr e ↦ rw e d
    ]

    sort-length : (xs : List SelectedResource) → length (sort_stable less xs) ≡ length xs
    unfolding sort_stable
    sort-length [] = refl
    sort-length (x ∷ xs) = omega (arith, insert-length x (sort_stable less xs), sort-length xs)

    sort-total_size :
        (xs : List SelectedResource) → total_size (sort_stable less xs) ≡ total_size xs
    unfolding sort_stable total_size
    sort-total_size [] = refl
    sort-total_size (x ∷ xs) =
        rw (insert-total_size x (sort_stable less xs), sort-total_size xs) refl

    sort-IsMeasured :
        (xs : List SelectedResource) → All IsMeasured xs → All IsMeasured (sort_stable less xs)
    unfolding sort_stable
    sort-IsMeasured [] h = tt
    sort-IsMeasured (x ∷ xs) h =
        insert-IsMeasured x (sort_stable less xs) (h.0, sort-IsMeasured xs h.1)

    sort-contains :
        (xs : List SelectedResource) (v : String)
        → contains (map uid_of (sort_stable less xs)) v ≡ contains (map uid_of xs) v
    unfolding sort_stable contains
    sort-contains [] v = refl
    sort-contains (x ∷ xs) v =
        rw (insert-contains x (sort_stable less xs) v, sort-contains xs v) refl

    sort-DistinctTexts :
        (xs : List SelectedResource)
        → DistinctTexts (map uid_of xs)
        → DistinctTexts (map uid_of (sort_stable less xs))
    unfolding sort_stable
    sort-DistinctTexts [] d = tt
    sort-DistinctTexts (x ∷ xs) d =
        insert-DistinctTexts x (sort_stable less xs)
          (rw (sort-contains xs (uid_of x)) d.0, sort-DistinctTexts xs d.1)

    pub sort-AreWithin :
        (a b : ℤ) (xs : List SelectedResource)
        → AreWithin a b xs
        → AreWithin a b (sort_stable less xs)
    sort-AreWithin a b xs w = record {
      count = rw (sort-length xs) w.count;
      distinct = sort-DistinctTexts xs w.distinct;
      measured = sort-IsMeasured xs w.measured;
      bytes = rw (sort-total_size xs) w.bytes;
    }

  pub IsMeasured-sizes :
      (rs : List SelectedResource) (is : List SelectedInput)
      → map (λ r. canonical_size r.object) rs ≡ map (λ i. some i.size) is
      → All IsMeasured rs × (total_size rs ≡ total is)
  unfolding total_size
  IsMeasured-sizes [] [] h = (tt, sym total-nil)
  IsMeasured-sizes [] (i ∷ is) h = cc
  IsMeasured-sizes (r ∷ rs) [] h = cc
  IsMeasured-sizes (r ∷ rs) (i ∷ is) h =
      let head : canonical_size r.object ≡ some i.size = cc in
      let tail : map (λ q. canonical_size q.object) rs ≡ map (λ j. some j.size) is = cc in
      let (m, e) = IsMeasured-sizes rs is tail in ((λ z. cc, m), rw (head, e, total-cons i is) refl)
