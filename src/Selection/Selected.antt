-- ===== src/Selection/Selected.antt =====
-- The resources that `Execute` of internal/selection/executor.go returns, after `deduplicateAndSort`.
use mathlib.Core.Path.{subst}
use kubeseer.Prelude.{
  ℕ, String, ◌≡◌, refl, sym, ap, ◌∙◌, Option, some, false, List, [], ◌∷◌, map, length, All, arith,
  eq_iff, Bool-cases, Option-cases, inl, inr,
}
use kubeseer.Prelude.Int.{ℤ, pos, ◌≤ℤ◌, max_int64}
use kubeseer.Prelude.Sort.{sort_stable}
use kubeseer.Prelude.Result.{ok, err≢ok, ok_injective}
use kubeseer.AccessPolicy.Evaluate.{contains}
use kubeseer.Extraction.Json.{Fields}
use kubeseer.Limits.Accountant.{new_accountant}
use kubeseer.Selection.Contracts.{SelectionPlan}
use kubeseer.Selection.Binder.{AuthorizedPlan}
use kubeseer.Selection.Texts.{DistinctTexts}
use kubeseer.Selection.Executor.{
  SelectedResource, Executor, SelectionBudget, new_selection_budget, take_items,
}
use kubeseer.Selection.Execution.{Round, Run, waiting, stopped, finished, list_targets, Collected}
use kubeseer.Selection.Execution.Budget.{total-nil, budget_of, AreMeasured}
use kubeseer.Selection.Execution.Outcome.{
  uid_of, IsCollected, list_targets-IsCollected, finished_injective, waiting≢finished,
}
use kubeseer.Selection.Sorted.{AreWithin, sort-AreWithin, IsMeasured-sizes}
use kubeseer.Selection.Batch.{
  resource_less, unique_resources, deduplicate_and_sort, finish_run, execute_within, execute,
}

unseen_later :
    (u : String) (seen : List String) (rs : List SelectedResource)
    → contains (map uid_of rs) u ≡ false
    → All (λ r. contains seen (uid_of r) ≡ false) rs
    → All (λ r. contains (u ∷ seen) (uid_of r) ≡ false) rs
unfolding contains
unseen_later u seen [] d h = tt
unseen_later u seen (r ∷ rs) d h = (
  ground (arith, d, h.0, eq_iff u (uid_of r), eq_iff (uid_of r) u),
  unseen_later u seen rs (ground (arith, d)) h.1,
)

-- Resources of distinct UIDs all stay.
unique_resources-distinct :
    (seen : List String) (rs : List SelectedResource)
    → DistinctTexts (map uid_of rs)
    → All (λ r. contains seen (uid_of r) ≡ false) rs
    → unique_resources seen rs ≡ rs
unfolding unique_resources
unique_resources-distinct seen [] d h = refl
unique_resources-distinct seen (r ∷ rs) d h =
    rw
      (
        h.0,
        unique_resources-distinct (uid_of r ∷ seen) rs d.1
            (unseen_later (uid_of r) seen rs d.0 h.1),
      )
      refl

pub length-map : {A B : Type 0} (f : A → B) (xs : List A) → length (map f xs) ≡ length xs
length-map f [] = refl
length-map f (x ∷ xs) = rw (length-map f xs) refl

All-unseen : (rs : List SelectedResource) → All (λ r. contains [] (uid_of r) ≡ false) rs
unfolding contains
All-unseen [] = tt
All-unseen (r ∷ rs) = (refl, All-unseen rs)

new_budget_lem :
    (a c : ℤ) (b : SelectionBudget)
    → new_selection_budget a c ≡ some b
    → (pos 0 ≤ℤ a) × (pos 0 ≤ℤ c) × (b ≡ budget_of c "selected-input-bytes" [] 0)
unfolding new_selection_budget new_accountant
new_budget_lem a c b h = ground (arith, h)

module _ (canonical_size : Fields → Option ℕ) (e : Executor) (p : SelectionPlan)
    (m : AreMeasured canonical_size e p) (c64 : e.max_input_bytes ≤ℤ pos max_int64) where
  collected-AreWithin :
      (d : String) (c : Collected)
      → IsCollected canonical_size e p m c64 d c
      → AreWithin canonical_size e.max_resources e.max_input_bytes c.0
  collected-AreWithin d c g =
      let (measured, sum) = IsMeasured-sizes canonical_size c.0 g.inputs g.item_sizes in
      record {
        count =
            subst (λ n. pos n ≤ℤ e.max_resources)
              (sym (ap length g.item_uids) ∙ length-map uid_of c.0) g.count;
        distinct = subst DistinctTexts (sym g.item_uids) g.distinct;
        measured = measured;
        bytes = rw sum g.bytes;
      }

  deduplicate-AreWithin :
      (rs : List SelectedResource)
      → AreWithin canonical_size e.max_resources e.max_input_bytes rs
      → AreWithin canonical_size e.max_resources e.max_input_bytes (deduplicate_and_sort rs)
  unfolding deduplicate_and_sort
  deduplicate-AreWithin rs w =
      let s = sort-AreWithin canonical_size resource_less e.max_resources e.max_input_bytes rs w in
      rw
        (unique_resources-distinct [] (sort_stable resource_less rs) s.distinct
          (All-unseen (sort_stable resource_less rs)))
        s

  new-IsCollected :
      (b : SelectionBudget)
      → new_selection_budget e.max_resources e.max_input_bytes ≡ some b
      → IsCollected canonical_size e p m c64 "selected-input-bytes" ([], b)
  new-IsCollected b h =
      let (r, i, same) = new_budget_lem e.max_resources e.max_input_bytes b h in
      record {
        inputs = [];
        budget = rw (same, total-nil) refl;
        distinct = tt;
        bytes = rw total-nil i;
        count = r;
        item_uids = refl;
        item_sizes = refl;
      }

finish_run-finished :
    (r : Run Collected) (rs : List SelectedResource) (rest : List Round)
    → finish_run r ≡ finished (ok rs) rest
    → (c : Collected) × (left : List Round) × (r ≡ finished c left)
      × (deduplicate_and_sort c.0 ≡ rs)
unfolding finish_run
finish_run-finished (waiting s) rs rest h = absurd (waiting≢finished h)
finish_run-finished (stopped x left) rs rest h = absurd (err≢ok (finished_injective h))
finish_run-finished (finished c left) rs rest h =
    (c, left, refl, ok_injective (finished_injective h))

-- Whatever the API server, the context and the verifier answer, the resources that `Execute` returns for
-- a source are at most as many as its limit, of distinct UIDs and measured sizes, and their sizes
-- together keep within its limit of bytes; for an encoder whose lengths are ints, and a limit of
-- bytes of type int64.
pub execute-AreWithin :
    (canonical_size : Fields → Option ℕ) (e : Executor) (a : AuthorizedPlan)
    (rounds rest : List Round) (rs : List SelectedResource)
    → AreMeasured canonical_size e a.plan
    → e.max_input_bytes ≤ℤ pos max_int64
    → execute canonical_size (some e) a rounds ≡ finished (ok rs) rest
    → AreWithin canonical_size e.max_resources e.max_input_bytes rs
unfolding execute execute_within list_targets take_items
execute-AreWithin canonical_size e a rounds rest rs m c64 q = elim (Bool-cases e.has_lister) [
  | inr l ↦ absurd (err≢ok (finished_injective (rw l at q)))
  | inl l ↦ elim (Option-cases (new_selection_budget e.max_resources e.max_input_bytes)) [
    | inl z ↦ absurd (err≢ok (finished_injective (rw (l, z) at q)))
    | inr (b, z) ↦
        let (c, left, run, same) =
          finish_run-finished (list_targets canonical_size e a.plan a.reads ([], b) rounds) rs rest
            (rw (l, z) at q) in
        subst (AreWithin canonical_size e.max_resources e.max_input_bytes) same (
          deduplicate-AreWithin canonical_size e a.plan m c64 c.0 (
            collected-AreWithin canonical_size e a.plan m c64 "selected-input-bytes" c (
              list_targets-IsCollected canonical_size e a.plan m c64 "selected-input-bytes" a.reads
                ([], b) c rounds left (new-IsCollected canonical_size e a.plan m c64 b z) run)))
  ]
]
