-- ===== src/Examples/Execution.antt =====
-- The bound plan of Examples/Selection executed: a page, an expired continuation, and two pages again.
use kubeseer.Prelude.{
  length, ℕ, ◌≤◌, String, ◌≡◌, refl, Option, none, some, true, false, List, [], ◌∷◌, arith,
}
use kubeseer.Prelude.Int.{pos, ◌≤ℤ◌, max_int64}
use kubeseer.Prelude.Sort.{sort_stable, insert_sorted}
use kubeseer.Prelude.Assoc.{lookup}
use kubeseer.Prelude.Result.{ok}
use kubeseer.AccessPolicy.Evaluate.{
  contains, valid_scope, new_snapshot, evaluate, validate_request, evaluate_valid, contains_key,
  evaluate_namespaced, allowed_namespace, reason_text,
}
use kubeseer.AccessPolicy.Validate.{kind_pattern}
use kubeseer.AccessPolicy.Compile.{compiled, rule_keys}
use kubeseer.Extraction.Json.{Fields, no_fields}
use kubeseer.Limits.Accountant.{new_accountant, add_bytes, release_bytes}
use kubeseer.Reconciliation.Key.{key_beq, key_instance}
use kubeseer.Reconciliation.Tracker.{validate_subject, is_current, is_lease_current, current_state}
use kubeseer.Authorization.Contracts.{
  valid, valid_request, is_policy_decision, is_outcome_allowed, is_capability_current,
}
use kubeseer.Authorization.Enforcer.{record_for, outcome_of, is_allowed}
use kubeseer.Selection.Contracts.{valid_read, request_eq, scope_eq, request_for_target}
use kubeseer.Selection.Executor.{
  Item, SelectedResource, Executor, SelectionBudget, Progress, new_selection_budget, restart,
  take_back, delete_uid, keep, granted, take_item, take_items, selected,
}
use kubeseer.Selection.Execution.{
  Round, page, list_failed, waiting, finished, start, valid_slot, current_slot, on_failure, on_page,
  on_reply, turn, called_turn, list_calls, list_target, list_targets,
}
use kubeseer.Selection.Execution.Budget.{budget_of}
use kubeseer.Selection.Execution.Calls.{AreAllowed, list_calls-AreAllowed}
use kubeseer.Selection.Execution.Permit.{list_target-ends}
use kubeseer.Selection.Sorted.{AreWithin}
use kubeseer.Selection.Selected.{execute-AreWithin}
use kubeseer.Selection.Batch.{
  execute, execute_within, finish_run, deduplicate_and_sort, unique_resources, resource_less,
}
use kubeseer.Examples.AccessPolicy.{names, name_codes}
use kubeseer.Examples.Tracker.{one_lease}
use kubeseer.Examples.Selection.{authorized, planned, target}
use kubeseer.Examples.Authorization.{subject, snapshot}
use kubeseer.Authorization.Minted.{minted}
use kubeseer.Selection.Contracts.{AuthorizedRead}

abbrev ten : Fields → Option ℕ
ten _ = some 10

abbrev executor : Executor
executor = record {
  page_limit = pos 500;
  max_resources = pos 2;
  max_input_bytes = pos 25;
  verified = true;
  has_lister = true;
}

abbrev item : String → Item
item name = record { name = name; uid = name; namespace = "kube-public"; object = no_fields }

abbrev paged : List Item → String → Round
paged items token = record {
  ended = false;
  fresh = is_current one_lease;
  reply = page items token;
  ended_after = false;
  ended_mapped = false;
}

abbrev expired : Round
expired = record (paged [] "") {
  reply = list_failed (record {
    expired = true;
    forbidden = false;
    selection = none;
    interrupted = false;
    rejected = false;
  });
}

abbrev rounds : List Round
rounds =
    paged (item "a" ∷ []) "next"
    ∷ expired
    ∷ paged (item "b" ∷ []) "next"
    ∷ paged (item "a" ∷ item "b" ∷ []) ""
    ∷ []

abbrev resources : List SelectedResource
resources = selected ten executor planned (item "a") ∷ selected ten executor planned (item "b") ∷ []

executed : execute ten (some executor) authorized rounds ≡ finished (ok resources) []
unfolding execute execute_within finish_run list_targets list_target turn called_turn on_reply
    on_page on_failure take_items take_item keep granted restart take_back delete_uid
    new_selection_budget new_accountant add_bytes release_bytes valid_slot current_slot valid_read
    is_capability_current valid valid_request validate_subject is_policy_decision is_outcome_allowed
    record_for outcome_of is_allowed request_eq scope_eq request_for_target contains valid_scope
    is_current is_lease_current current_state lookup key_beq deduplicate_and_sort unique_resources
    resource_less sort_stable insert_sorted evaluate new_snapshot validate_request kind_pattern
    name_codes evaluate_valid contains_key compiled rule_keys evaluate_namespaced allowed_namespace
    reason_text
executed = refl

ten-AreMeasured : (v : Fields) (k : ℕ) → ten v ≡ some k → k ≤ max_int64
ten-AreMeasured v k h = ground (arith, h)

limit-int64 : executor.max_input_bytes ≤ℤ pos max_int64
limit-int64 = ground arith

execute-AreWithin_example : AreWithin ten executor.max_resources executor.max_input_bytes resources
execute-AreWithin_example =
    execute-AreWithin ten executor authorized rounds [] resources ten-AreMeasured limit-int64
      executed

abbrev budget : SelectionBudget
budget = budget_of executor.max_input_bytes "selected-input-bytes" [] 0

abbrev listed : Progress
listed = record {
  items = selected ten executor planned (item "b") ∷ selected ten executor planned (item "a") ∷ [];
  accepted = record { uid = "b"; size = 10 } ∷ record { uid = "a"; size = 10 } ∷ [];
  token = "";
  restarted = true;
  budget = record {
    seen = "b" ∷ "a" ∷ [];
    bytes = some (record { ceiling = pos 25; used = pos 20; dimension = "selected-input-bytes" });
  };
}

abbrev permit : Option AuthorizedRead
permit = some (record {
  target = target;
  capability = minted names subject snapshot (request_for_target target);
})

target_listed : list_target ten executor planned permit (start budget) rounds ≡ finished listed []
unfolding list_target turn called_turn on_reply on_page on_failure take_items take_item keep granted
    restart take_back delete_uid add_bytes release_bytes valid_slot current_slot valid_read
    is_capability_current valid valid_request validate_subject is_policy_decision is_outcome_allowed
    record_for outcome_of is_allowed request_eq scope_eq request_for_target contains valid_scope
    is_current is_lease_current current_state lookup key_beq evaluate new_snapshot validate_request
    kind_pattern name_codes evaluate_valid contains_key compiled rule_keys evaluate_namespaced
    allowed_namespace reason_text
target_listed = refl

list_calls-AreAllowed_example :
    AreAllowed ten executor planned permit
      (start budget)
      (list_calls ten executor planned permit (start budget) rounds)
list_calls-AreAllowed_example =
    list_calls-AreAllowed ten executor planned permit (start budget) rounds

all_called : length (list_calls ten executor planned permit (start budget) rounds) ≡ 4
unfolding list_calls turn called_turn on_reply on_page on_failure take_items take_item keep granted
    restart take_back delete_uid add_bytes release_bytes valid_slot current_slot valid_read
    is_capability_current valid valid_request validate_subject is_policy_decision is_outcome_allowed
    record_for outcome_of is_allowed request_eq scope_eq request_for_target contains valid_scope
    is_current is_lease_current current_state lookup key_beq evaluate new_snapshot validate_request
    kind_pattern name_codes evaluate_valid contains_key compiled rule_keys evaluate_namespaced
    allowed_namespace reason_text
all_called = refl

list_target-ends_example :
    ¬ (list_target ten executor planned permit (start budget) rounds ≡ waiting listed)
list_target-ends_example =
    list_target-ends ten executor planned permit (start budget) listed
      (paged (item "a" ∷ []) "next" ∷ expired ∷ paged (item "b" ∷ []) "next" ∷ []) []
      (paged (item "a" ∷ item "b" ∷ []) "") (λ n. n refl)
