-- ===== src/Examples/Authorization.antt =====
-- A batch of two requests, one of them permitted, and the capability that it gives.
use kubeseer.Prelude.{◌≡◌, ◌↔◌, refl, none, some, true, false, List, [], ◌∷◌, All, get_elem?, arith}
use kubeseer.Prelude.Int.{pos}
use kubeseer.Prelude.Result.{ok}
use kubeseer.Prelude.Assoc.{lookup}
use kubeseer.AccessPolicy.Policy.{Request, scope_namespaced}
use kubeseer.AccessPolicy.Compile.{compiled, rule_keys}
use kubeseer.AccessPolicy.Evaluate.{
  Snapshot, new_snapshot, evaluate, validate_request, evaluate_valid, contains_key,
  evaluate_namespaced, contains, allowed_namespace, reason_text,
}
use kubeseer.AccessPolicy.Validate.{kind_pattern}
use kubeseer.AccessPolicy.Decisions.{Permits}
use kubeseer.Extraction.Json.{check}
use kubeseer.Reconciliation.Key.{key_beq, key_instance}
use kubeseer.Reconciliation.Tracker.{
  Subject, validate_subject, is_current, is_lease_current, current_state,
}
use kubeseer.Reconciliation.Tracker.Invariant.{policy_changed, run, missing}
use kubeseer.Reconciliation.Tracker.Policy.{policy_changes}
use kubeseer.Authorization.Contracts.{
  Capability, DecisionOutcome, has_capability, valid, valid_request, is_policy_decision,
  is_outcome_allowed, is_capability_current,
}
use kubeseer.Authorization.Enforcer.{
  canceled, failed, outcome_for, mint, record_for, evaluate_batch, evaluate_requests, finish_batch,
  context_or_background, is_allowed,
}
use kubeseer.Authorization.Batch.{outcomes_for, evaluate_batch_lem}
use kubeseer.Authorization.Minted.{
  IsTargeted, minted_iff_permitted, minted_is_bound, policy_change_revokes,
}
use kubeseer.Examples.AccessPolicy.{names, policy, request, compile-policy, name_codes}
use kubeseer.Examples.Tracker.{web, one_lease}

abbrev pub subject : Subject
subject = record { key = web; uid = "u1"; generation = pos 1; policy_epoch = 0 }

abbrev pub snapshot : Snapshot
snapshot = new_snapshot (some (compiled policy))

abbrev requests : List Request
requests = request "kube-public" scope_namespaced ∷ request "vault" scope_namespaced ∷ []

abbrev outcomes : List DecisionOutcome
outcomes = outcomes_for names subject snapshot requests

batch_result : (evaluate_batch names subject snapshot none requests).result ≡ ok outcomes
unfolding evaluate_batch validate_subject context_or_background check evaluate_requests finish_batch
batch_result = refl

evaluate_batch_lem_example :
    evaluate_batch names subject snapshot (some (some 2)) requests ≡ failed canceled
unfolding validate_subject context_or_background
evaluate_batch_lem_example = evaluate_batch_lem names subject snapshot (some (some 2)) requests

minted_iff_permitted_example :
    All (λ o. (has_capability o ≡ true) ↔ Permits names policy o.request) outcomes
minted_iff_permitted_example =
    minted_iff_permitted names policy (compiled policy) subject none requests outcomes
      compile-policy batch_result

abbrev first : Request
first = request "kube-public" scope_namespaced

abbrev capability : Capability
capability = record {
  subject = subject;
  request = first;
  evidence = record_for subject first snapshot (evaluate names snapshot first);
}

first_capability : (outcome_for names subject snapshot first).capability ≡ some capability
unfolding outcome_for mint evaluate new_snapshot validate_request kind_pattern name_codes
    evaluate_valid contains_key compiled rule_keys evaluate_namespaced contains allowed_namespace
    is_allowed reason_text
first_capability = refl

minted_is_bound_example :
    (capability.subject ≡ subject)
    × (get_elem? requests 0 ≡ some capability.request)
    × ((valid capability ≡ true) ↔ IsTargeted capability.request)
minted_is_bound_example =
    minted_is_bound names subject snapshot none requests outcomes 0
      (outcome_for names subject snapshot first) capability batch_result refl first_capability

capability_current : is_capability_current (some (is_current one_lease)) capability ≡ true
unfolding is_capability_current valid validate_subject valid_request record_for evaluate
    new_snapshot validate_request kind_pattern name_codes evaluate_valid contains_key compiled
    rule_keys evaluate_namespaced contains allowed_namespace is_allowed reason_text
    is_policy_decision is_outcome_allowed is_current is_lease_current lookup current_state key_beq
capability_current = refl

policy_change_revokes_example :
    is_capability_current
      (some (is_current (run one_lease (policy_changed ∷ missing web ∷ []))))
      capability
    ≡ false
unfolding policy_changes
policy_change_revokes_example =
    policy_change_revokes one_lease (missing web ∷ []) capability (omega arith) capability_current
