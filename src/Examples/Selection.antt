-- ===== src/Examples/Selection.antt =====
-- The source of Examples/Admission planned, authorised and bound.
use kubeseer.Prelude.{String, str_append, ◌≡◌, ◌↔◌, refl, none, some, List, [], ◌∷◌, All}
use kubeseer.Prelude.Sort.{sort_stable, insert_sorted}
use kubeseer.Prelude.Result.{Result, ok}
use kubeseer.AccessPolicy.Policy.{scope_namespaced}
use kubeseer.AccessPolicy.Compile.{compiled, rule_keys}
use kubeseer.AccessPolicy.Evaluate.{
  new_snapshot, evaluate, validate_request, evaluate_valid, contains_key, evaluate_namespaced,
  contains, allowed_namespace, reason_text, valid_scope,
}
use kubeseer.AccessPolicy.Validate.{kind_pattern}
use kubeseer.AccessPolicy.Decisions.{Permits}
use kubeseer.Extraction.Json.{check}
use kubeseer.Reconciliation.Tracker.{validate_subject}
use kubeseer.Authorization.Contracts.{
  DecisionOutcome, valid, valid_request, is_policy_decision, is_outcome_allowed,
}
use kubeseer.Authorization.Enforcer.{
  outcome_for, mint, record_for, evaluate_batch, evaluate_requests, finish_batch,
  context_or_background, is_allowed, outcome_of,
}
use kubeseer.Authorization.Batch.{outcomes_for}
use kubeseer.Authorization.Minted.{minted}
use kubeseer.Selection.Contracts.{
  ReadTarget, SelectionPlan, SourceDescriptor, Resolution, ResolutionError, request_eq, scope_eq,
  request_for_target,
}
use kubeseer.Selection.Planner.{
  Selectors, plan, source_problem, namespaces_problem, targets_of, namespaced_targets,
  derive_targets, read_target, canonical_selectors, complete, selection_result, plan_resolved,
  plan_valid, blank, all_spaces, is_space,
}
use kubeseer.Selection.Binder.{
  AuthorizedPlan, target_keys, bind_capabilities, duplicate_target, has_request, unmatched_outcome,
  outcomes_at, bind_targets, unset, place, target_eq, gvr_eq, authorize_one, authorize_outcome,
  matching_capability,
}
use kubeseer.Selection.Bound.{IsBound, bind_capabilities-IsBound}
use kubeseer.Selection.Planned.{AreExact}
use kubeseer.Selection.Executable.{plan-AreExact, plan-executable_iff}
use kubeseer.Examples.AccessPolicy.{names, policy, compile-policy, name_codes}
use kubeseer.Examples.Authorization.{subject, snapshot}
use kubeseer.Examples.Admission.{source}

abbrev selectors : Selectors String
selectors = record {
  every_label = "";
  every_field = "";
  label_selector = λ labels expressions. some "";
  parse_fields = λ text. some text;
  equals = λ name value. str_append name (str_append "=" value);
  both = λ a b. str_append a (str_append "," b);
  text = λ text. text;
}

abbrev deployments : Resolution
deployments = record {
  source_id = "s1";
  resource = record { group = "apps"; version = "v1"; resource = "deployments" };
  scope = scope_namespaced;
}

abbrev resolver : SourceDescriptor → Result ResolutionError Resolution
resolver descriptor = ok deployments

abbrev pub target : ReadTarget
target = record {
  source_id = "s1";
  gvr = deployments.resource;
  kind = "Deployment";
  scope = scope_namespaced;
  namespace = "kube-public";
}

abbrev pub planned : SelectionPlan
planned = record {
  source_id = "s1";
  api_version = "apps/v1";
  kind = "Deployment";
  targets = target ∷ [];
  label_selector = "";
  field_selector = "";
}

source-planned : plan selectors names (some resolver) "kube-public" source ≡ ok planned
unfolding plan source_problem namespaces_problem targets_of namespaced_targets derive_targets
    read_target canonical_selectors complete selection_result plan_resolved plan_valid blank
    all_spaces is_space name_codes contains valid_scope sort_stable insert_sorted
source-planned = refl

plan-AreExact_example :
    (planned.source_id ≡ "s1") × AreExact "s1" ("kube-public" ∷ []) planned.targets
plan-AreExact_example =
    plan-AreExact selectors names resolver "kube-public" source deployments planned refl
      source-planned

abbrev outcomes : List DecisionOutcome
outcomes = outcomes_for names subject snapshot (target_keys planned.targets)

batch_result :
    (evaluate_batch names subject snapshot none (target_keys planned.targets)).result ≡ ok outcomes
unfolding evaluate_batch validate_subject context_or_background check evaluate_requests finish_batch
    target_keys
batch_result = refl

plan-executable_iff_example :
    ((a : AuthorizedPlan) × (bind_capabilities planned outcomes ≡ ok a))
    ↔ All (λ t. Permits names policy (request_for_target t)) planned.targets
plan-executable_iff_example =
    plan-executable_iff selectors names resolver "kube-public" source deployments planned policy
      (compiled policy) subject none outcomes refl source-planned compile-policy batch_result

abbrev pub authorized : AuthorizedPlan
authorized = record {
  plan = planned;
  reads =
      some (record {
        target = target;
        capability = minted names subject snapshot (request_for_target target);
      })
      ∷ [];
}

bound : bind_capabilities planned outcomes ≡ ok authorized
unfolding bind_capabilities duplicate_target has_request target_keys unmatched_outcome outcomes_at
    bind_targets unset place target_eq gvr_eq authorize_one authorize_outcome matching_capability
    outcome_for mint evaluate new_snapshot validate_request kind_pattern name_codes evaluate_valid
    contains_key compiled rule_keys evaluate_namespaced contains allowed_namespace is_allowed
    reason_text valid valid_request is_policy_decision is_outcome_allowed outcome_of record_for
    request_eq scope_eq request_for_target validate_subject valid_scope
bound = refl

bind_capabilities-IsBound_example :
    (authorized.plan ≡ planned) × IsBound planned.targets authorized.reads
bind_capabilities-IsBound_example = bind_capabilities-IsBound planned outcomes authorized bound
