-- ===== src/Selection/Batch.antt =====
-- `Execute` of internal/selection/executor.go, with `deduplicateAndSort`, and `SelectBatch` of batch.go.
use kubeseer.Prelude.{
  ℕ, String, str_eq, Option, none, some, Bool, not, List, [], ◌∷◌, if◌then◌else◌,
}
use kubeseer.Prelude.Text.{str_ltb}
use kubeseer.Prelude.Sort.{sort_stable}
use kubeseer.Prelude.Result.{Result, ok, err}
use kubeseer.AccessPolicy.Evaluate.{contains}
use kubeseer.Extraction.Json.{Fields}
use kubeseer.Selection.Contracts.{
  SelectionError, selection_error, read_interrupted, read_unavailable, selection_limit_exceeded,
}
use kubeseer.Selection.Binder.{AuthorizedPlan}
use kubeseer.Selection.Executor.{
  Provenance, SelectedResource, Executor, SelectionBudget, new_selection_budget,
}
use kubeseer.Selection.Execution.{Round, Run, waiting, stopped, finished, list_targets, Collected}

unfoldable pub provenance_less : Provenance → Provenance → Bool
provenance_less a b =
    if not (str_eq a.namespace b.namespace)
    then str_ltb a.namespace b.namespace
    else if not (str_eq a.name b.name)
    then str_ltb a.name b.name
    else str_ltb a.uid b.uid

unfoldable pub resource_less : SelectedResource → SelectedResource → Bool
unfolding provenance_less
resource_less a b = provenance_less a.provenance b.provenance

-- The loop that keeps the first resource of each UID.
unfoldable pub unique_resources : List String → List SelectedResource → List SelectedResource
unique_resources seen [] = []
unique_resources seen (r ∷ rs) =
    let later = unique_resources seen rs in
    let kept = unique_resources (r.provenance.uid ∷ seen) rs in
    if contains seen r.provenance.uid then later else r ∷ kept

unfoldable pub deduplicate_and_sort : List SelectedResource → List SelectedResource
unfolding resource_less unique_resources
deduplicate_and_sort resources = unique_resources [] (sort_stable resource_less resources)

-- `SelectionOutcome`: the resources, or the error beside none.
pub record SelectionOutcome : Type 0 where
  pub source_id : String
  pub result : Result SelectionError (List SelectedResource)

unfoldable pub finish_run : Run Collected → Run (Result SelectionError (List SelectedResource))
unfolding deduplicate_and_sort
finish_run (waiting s) = waiting s
finish_run (stopped x rest) = finished (err x) rest
finish_run (finished c rest) = finished (ok (deduplicate_and_sort c.0)) rest

module _ (canonical_size : Fields → Option ℕ) where
  unfoldable pub execute_within :
      Executor
      → AuthorizedPlan
      → Option SelectionBudget
      → List Round
      → Run (Result SelectionError (List SelectedResource))
  unfolding finish_run
  execute_within e a none rounds =
      finished
        (err (
          selection_error a.plan.source_id selection_limit_exceeded "selection limits are invalid"))
        rounds
  execute_within e a (some budget) rounds =
      finish_run (list_targets canonical_size e a.plan a.reads ([], budget) rounds)

  -- `Execute`; a nil executor is `none`.
  unfoldable pub execute :
      Option Executor
      → AuthorizedPlan
      → List Round
      → Run (Result SelectionError (List SelectedResource))
  unfolding execute_within
  execute none a rounds =
      finished
        (err (selection_error a.plan.source_id read_unavailable "resource list is unavailable"))
        rounds
  execute (some e) a rounds =
      if e.has_lister
      then execute_within e a (new_selection_budget e.max_resources e.max_input_bytes) rounds
      else finished
          (err (selection_error a.plan.source_id read_unavailable "resource list is unavailable"))
          rounds

  -- One turn of the loop of `SelectBatch`, where `ended` is its call of `Err`.
  unfoldable pub select_one :
      Option Executor
      → AuthorizedPlan
      → Bool
      → List Round
      → Run (Result SelectionError (List SelectedResource))
  unfolding execute
  select_one e a ended rounds =
      if ended
      then finished
          (err (selection_error a.plan.source_id read_interrupted "resource read was interrupted"))
          rounds
      else execute e a rounds

  unfoldable pub select_batch :
      Option Executor → List (AuthorizedPlan × Bool) → List Round → Run (List SelectionOutcome)
  unfolding select_one
  select_batch e [] rounds = finished [] rounds
  select_batch e ((a, ended) ∷ plans) rounds = elim (select_one e a ended rounds) [
    | waiting s ↦ waiting s
    | stopped x rest ↦ stopped x rest
    | finished result rest ↦ elim (select_batch e plans rest) [
      | waiting s ↦ waiting s
      | stopped x left ↦ stopped x left
      | finished outcomes left ↦
          finished (record { source_id = a.plan.source_id; result = result } ∷ outcomes) left
    ]
  ]
