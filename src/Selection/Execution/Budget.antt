-- ===== src/Selection/Execution/Budget.antt =====
-- The budget of internal/selection/executor.go along the turns of one target, and a restart.
use mathlib.Core.List.{append-nil, append_assoc}
use kubeseer.Prelude.{
  ℕ, ◌+◌, ◌≤◌, String, ◌≡◌, refl, sym, Option, none, some, false, List, [], ◌∷◌, ◌++◌, map, length,
  length-append, arith, eq_iff,
}
use kubeseer.Prelude.Int.{ℤ, pos, ◌≤ℤ◌, leb_ℤ, max_int64}
use kubeseer.AccessPolicy.Evaluate.{contains}
use kubeseer.Extraction.Json.{Fields}
use kubeseer.Limits.Accountant.{Accountant, add_bytes, release_bytes}
use kubeseer.Selection.Contracts.{SelectionPlan}
use kubeseer.Selection.Texts.{DistinctTexts, DistinctTexts-snoc, DistinctTexts-middle}
use kubeseer.Selection.Executor.{
  Item, Executor, SelectionBudget, SelectedInput, Progress, delete_uid, take_back, selected,
}

delete_uid-absent : (xs : List String) (x : String) → contains xs x ≡ false → delete_uid x xs ≡ xs
unfolding delete_uid contains
delete_uid-absent [] x h = refl
delete_uid-absent (y ∷ ys) x h = ground (arith, h, delete_uid-absent ys x)

delete_uid-middle :
    (xs ys : List String) (x : String)
    → contains xs x ≡ false
    → contains ys x ≡ false
    → delete_uid x (xs ++ (x ∷ ys)) ≡ xs ++ ys
unfolding delete_uid contains
delete_uid-middle [] ys x h k = ground (arith, delete_uid-absent ys x k, eq_iff x x)
delete_uid-middle (z ∷ zs) ys x h k = ground (arith, h, delete_uid-middle zs ys x)

pub total : List SelectedInput → ℕ
total [] = 0
total (i ∷ is) = i.size + total is

abbrev pub uids : List SelectedInput → List String
uids is = map (λ i. i.uid) is

pub total-nil : total [] ≡ 0
unfolding total
total-nil = refl

pub total-cons : (i : SelectedInput) (is : List SelectedInput) → total (i ∷ is) ≡ i.size + total is
unfolding total
total-cons i is = refl

pub total-append : (is js : List SelectedInput) → total (is ++ js) ≡ total is + total js
unfolding total
total-append [] js = omega arith
total-append (i ∷ is) js = omega (arith, total-append is js)

total-snoc :
    (is : List SelectedInput) (i : SelectedInput) → total (is ++ (i ∷ [])) ≡ total is + i.size
unfolding total
total-snoc is i = omega (arith, total-append is (i ∷ []))

pub map-append :
    {A B : Type 0} (f : A → B) (xs ys : List A) → map f (xs ++ ys) ≡ map f xs ++ map f ys
map-append f [] ys = refl
map-append f (x ∷ xs) ys = rw (map-append f xs ys) refl

-- An accountant with `n` bytes in use.
abbrev pub account : ℤ → String → ℕ → Accountant
account c d n = record { ceiling = c; used = pos n; dimension = d }

-- A budget with these UIDs and `n` bytes in use.
abbrev pub budget_of : ℤ → String → List String → ℕ → SelectionBudget
budget_of c d us n = record { seen = us; bytes = some (account c d n) }

pub add_bytes-account :
    (c : ℤ) (d : String) (n k : ℕ) (b : Option Accountant)
    → c ≤ℤ pos max_int64
    → pos n ≤ℤ c
    → k ≤ max_int64
    → add_bytes (some (account c d n)) (pos k) ≡ (b, none)
    → (pos (n + k) ≤ℤ c) × (b ≡ some (account c d (n + k)))
unfolding add_bytes
add_bytes-account c d n k b h w m e = ground arith

release_bytes-account :
    (c : ℤ) (d : String) (n k : ℕ)
    → n + k ≤ max_int64
    → (release_bytes (some (account c d (k + n))) (pos k)).0 ≡ some (account c d n)
unfolding release_bytes
release_bytes-account c d n k h = ground arith

-- Taking back what a target has accepted gives the budget that it began with.
pub take_back-accepted :
    (c : ℤ) (d : String) (us : List String) (n : ℕ) (is : List SelectedInput)
    → DistinctTexts (us ++ uids is)
    → total is + n ≤ max_int64
    → take_back is (budget_of c d (us ++ uids is) (total is + n)) ≡ budget_of c d us n
unfolding take_back total
take_back-accepted c d us n [] h w =
    let zero : 0 + n ≡ n = omega arith in rw (append-nil us, zero) refl
take_back-accepted c d us n (i ∷ is) h w =
    let (a, b, rest) = DistinctTexts-middle us (uids is) i.uid h in
    let assoc : i.size + total is + n ≡ i.size + (total is + n) = omega arith in
    rw
      (
        delete_uid-middle us (uids is) i.uid a b,
        assoc,
        release_bytes-account c d (total is + n) i.size (omega (arith, w)),
      )
      (take_back-accepted c d us n is rest (omega (arith, w)))

module _ (canonical_size : Fields → Option ℕ) (e : Executor) (p : SelectionPlan) where
  -- The progress of a target that began with `us` seen and `n` bytes in use: what it has seen and used
  -- beyond that is just what it has accepted, which belongs to its items one by one.
  pub record IsGrown (d : String) (us : List String) (n : ℕ) (s : Progress) : Type 0 where
    pub budget :
        s.budget ≡ budget_of e.max_input_bytes d (us ++ uids s.accepted) (total s.accepted + n)
    pub distinct : DistinctTexts (us ++ uids s.accepted)
    pub bytes : pos (total s.accepted + n) ≤ℤ e.max_input_bytes
    pub count : pos (length (us ++ uids s.accepted)) ≤ℤ e.max_resources
    pub item_uids : map (λ r. r.provenance.uid) s.items ≡ uids s.accepted
    pub item_sizes : map (λ r. canonical_size r.object) s.items ≡ map (λ i. some i.size) s.accepted

  -- encoding/json returns a slice, whose length is an int.
  abbrev pub AreMeasured : Type 0
  AreMeasured = (v : Fields) (k : ℕ) → canonical_size v ≡ some k → k ≤ max_int64

  module _ (m : AreMeasured) (c64 : e.max_input_bytes ≤ℤ pos max_int64) (d : String)
      (us : List String) (n : ℕ) where
    -- The state with one more item.
    abbrev pub with_item : Item → ℕ → Progress → Option Accountant → Progress
    with_item item k s b = record s {
      items = s.items ++ (selected canonical_size e p item ∷ []);
      accepted = s.accepted ++ (record { uid = item.uid; size = k } ∷ []);
      budget = record { seen = s.budget.seen ++ (item.uid ∷ []); bytes = b };
    }

    pub with_item-IsGrown :
        (item : Item) (k : ℕ) (s : Progress)
        → IsGrown d us n s
        → contains (us ++ uids s.accepted) item.uid ≡ false
        → leb_ℤ e.max_resources (pos (length (us ++ uids s.accepted))) ≡ false
        → canonical_size item.object ≡ some k
        → pos (total s.accepted + n + k) ≤ℤ e.max_input_bytes
        → IsGrown d us n
            (with_item item k s (some (account e.max_input_bytes d (total s.accepted + n + k))))
    with_item-IsGrown item k s g h l z w =
        let i : SelectedInput = record { uid = item.uid; size = k } in
        let grown : us ++ uids (s.accepted ++ (i ∷ []))
            ≡ (us ++ uids s.accepted) ++ (item.uid ∷ []) =
          rw (map-append (λ j. j.uid) s.accepted (i ∷ []))
            (sym (append_assoc us (uids s.accepted) (item.uid ∷ []))) in
        let more : total (s.accepted ++ (i ∷ [])) + n ≡ total s.accepted + n + k =
          omega (arith, total-snoc s.accepted i) in
        record {
          budget = rw (grown, more, g.budget) refl;
          distinct = rw grown (DistinctTexts-snoc (us ++ uids s.accepted) item.uid h g.distinct);
          bytes = rw more w;
          count =
              rw (grown, length-append (us ++ uids s.accepted) (item.uid ∷ [])) (ground (arith, l));
          item_uids =
              rw
                (
                  map-append (λ r. r.provenance.uid) s.items
                      ((selected canonical_size e p item) ∷ []),
                  map-append (λ j. j.uid) s.accepted (i ∷ []),
                  g.item_uids,
                )
                refl;
          item_sizes =
              rw
                (
                  map-append (λ r. canonical_size r.object) s.items
                      ((selected canonical_size e p item) ∷ []),
                  map-append (λ j. some j.size) s.accepted (i ∷ []),
                  g.item_sizes,
                  z,
                )
                refl;
        }
