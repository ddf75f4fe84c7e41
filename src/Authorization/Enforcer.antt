-- ===== src/Authorization/Enforcer.antt =====
-- internal/authorization/enforcer.go. A context is the number of calls of `Err` after which it has ended.
use kubeseer.Prelude.{str_eq, Option, none, some, Bool, ◌&&◌, List, [], ◌∷◌, if◌then◌else◌}
use kubeseer.Prelude.Result.{Result, ok, err, ◌>>=◌}
use kubeseer.AccessPolicy.Policy.{
  NameTests, PolicyReason, policy_missing, policy_invalid, policy_unavailable, Request, Decision,
}
use kubeseer.AccessPolicy.Evaluate.{Snapshot, reason_text, evaluate}
use kubeseer.Extraction.Json.{Context, check}
use kubeseer.Reconciliation.Tracker.{Subject, validate_subject}
use kubeseer.Authorization.Contracts.{
  PolicyState, state_ready, state_missing, state_invalid, state_unavailable, record_policy_decision,
  Outcome, outcome_allowed, outcome_denied, outcome_unavailable, Record, Capability,
  DecisionOutcome, records, reason_invalid_subject, reason_context_canceled, AuthorizationError,
}

-- What a call of `EvaluateBatch` does: its result, and the list that it hands to the recorder if it does.
pub record BatchRun : Type 0 where
  pub result : Result AuthorizationError (List DecisionOutcome)
  pub recorded : Option (List Record)

unfoldable pub policy_state : Option PolicyReason → PolicyState
policy_state (some policy_missing) = state_missing
policy_state (some policy_invalid) = state_invalid
policy_state (some policy_unavailable) = state_unavailable
policy_state _ = state_ready

-- decision.Allowed && decision.Reason == accesspolicy.ReasonAllowed
unfoldable pub is_allowed : Decision → Bool
is_allowed d = d.allowed && str_eq (reason_text d.reason) "Allowed"

unfoldable pub outcome_of : Decision → Outcome
unfolding is_allowed
outcome_of d =
    if is_allowed d
    then outcome_allowed
    else if str_eq (reason_text d.reason) "PolicyUnavailable"
    then outcome_unavailable
    else outcome_denied

unfoldable pub record_for : Subject → Request → Snapshot → Decision → Record
unfolding outcome_of policy_state
record_for subject request snapshot decision = record {
  kind = record_policy_decision;
  subject = subject;
  source_id = request.source_id;
  api_group = request.api_group;
  kind_name = request.kind;
  scope = request.scope;
  namespace = request.namespace;
  policy_state = policy_state snapshot.terminal_reason;
  policy_identity = snapshot.policy_identity;
  outcome = outcome_of decision;
  reason = reason_text decision.reason;
}

abbrev pub canceled : AuthorizationError
canceled = record {
  reason = reason_context_canceled;
  message = "authorization evaluation was canceled";
}

abbrev pub incomplete : AuthorizationError
incomplete = record {
  reason = reason_invalid_subject;
  message = "authorization subject is incomplete";
}

abbrev pub failed : AuthorizationError → BatchRun
failed e = record { result = err e; recorded = none }

-- A nil context is `context.Background()`, which does not end.
unfoldable pub context_or_background : Option Context → Context
context_or_background none = none
context_or_background (some ctx) = ctx

module _ (tests : NameTests) (subject : Subject) (snapshot : Snapshot) where
  unfoldable pub mint : Request → Decision → Option Capability
  unfolding is_allowed
  mint request decision =
      if is_allowed decision
      then some (record {
        subject = subject;
        request = request;
        evidence = record_for subject request snapshot decision;
      })
      else none

  -- The body of the loop, for one request.
  unfoldable pub outcome_for : Request → DecisionOutcome
  unfolding mint
  outcome_for request =
      let decision = evaluate tests snapshot request in
      record {
        request = request;
        decision = decision;
        evidence = record_for subject request snapshot decision;
        capability = mint request decision;
      }

  unfoldable pub evaluate_requests :
      Context → List Request → Result AuthorizationError (List DecisionOutcome)
  unfolding outcome_for
  evaluate_requests ctx [] = ok []
  evaluate_requests ctx (request ∷ requests) = elim (check ctx) [
    | none ↦ err canceled
    | some rest ↦
        evaluate_requests rest requests >>= λ outcomes. ok (outcome_for request ∷ outcomes)
  ]

  unfoldable pub finish_batch : Result AuthorizationError (List DecisionOutcome) → BatchRun
  finish_batch (err e) = failed e
  finish_batch (ok outcomes) = record { result = ok outcomes; recorded = some (records outcomes) }

  unfoldable pub evaluate_checked : Option Context → List Request → BatchRun
  unfolding evaluate_requests finish_batch
  evaluate_checked none requests = failed canceled
  evaluate_checked (some rest) requests = finish_batch (evaluate_requests rest requests)

  unfoldable pub evaluate_batch : Option Context → List Request → BatchRun
  unfolding evaluate_checked context_or_background
  evaluate_batch ctx requests =
      if validate_subject subject
      then evaluate_checked (check (context_or_background ctx)) requests
      else failed incomplete
