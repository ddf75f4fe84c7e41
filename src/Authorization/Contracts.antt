-- ===== src/Authorization/Contracts.antt =====
-- internal/authorization/contracts.go: subjects, evidence records, outcomes and capabilities.
-- A defensive copy of a value is the value. The recorder that a capability carries is left out.
use kubeseer.Prelude.{
  ℕ, String, str_eq, Option, none, some, Bool, true, false, not, ◌&&◌, ◌||◌, List, map,
  if◌then◌else◌,
}
use kubeseer.Prelude.Int.{ℤ}
use kubeseer.AccessPolicy.Policy.{PolicyIdentity, Scope, scope_namespaced, Request, Decision}
use kubeseer.AccessPolicy.Evaluate.{valid_scope}
use kubeseer.Reconciliation.Key.{NamespacedName}
use kubeseer.Reconciliation.Tracker.{Subject, validate_subject}

-- `NewSubject`; `none` is its error.
unfoldable pub new_subject : NamespacedName → String → ℤ → ℕ → Option Subject
new_subject key uid generation policy_epoch =
    let subject : Subject = record {
      key = key;
      uid = uid;
      generation = generation;
      policy_epoch = policy_epoch;
    } in
    if validate_subject subject then some subject else none

pub data PolicyState : Type 0 where
  state_ready state_missing state_invalid state_unavailable : PolicyState

pub data RecordKind : Type 0 where
  record_policy_decision record_read_forbidden : RecordKind

pub data Outcome : Type 0 where
  outcome_allowed outcome_denied outcome_unavailable outcome_forbidden : Outcome

pub record Record : Type 0 where
  pub kind : RecordKind
  pub subject : Subject
  pub source_id : String
  pub api_group : String
  pub kind_name : String
  pub scope : Scope
  pub namespace : String
  pub policy_state : PolicyState
  pub policy_identity : Option PolicyIdentity
  pub outcome : Outcome
  pub reason : String

pub record Capability : Type 0 where
  pub subject : Subject
  pub request : Request
  pub evidence : Record

pub record DecisionOutcome : Type 0 where
  pub request : Request
  pub decision : Decision
  pub evidence : Record
  pub capability : Option Capability

unfoldable pub has_capability : DecisionOutcome → Bool
has_capability o = elim o.capability [ none ↦ false | some _ ↦ true ]

-- `Batch` is its list of outcomes.
abbrev pub evidence_of : DecisionOutcome → Record
evidence_of o = o.evidence

unfoldable pub records : List DecisionOutcome → List Record
records outcomes = map evidence_of outcomes

-- The errors, with the reason and the message of the code; their cause is left out.
pub data AuthorizationReason : Type 0 where
  reason_invalid_subject reason_context_canceled : AuthorizationReason

pub record AuthorizationError : Type 0 where
  pub reason : AuthorizationReason
  pub message : String

unfoldable pub target_namespace : Scope → String → Bool
target_namespace scope_namespaced namespace = not (str_eq namespace "")
target_namespace _ namespace = str_eq namespace ""

unfoldable pub valid_request : Request → Bool
unfolding target_namespace
valid_request r =
    if str_eq r.source_id "" || str_eq r.kind "" || not (valid_scope r.scope)
    then false
    else target_namespace r.scope r.namespace

unfoldable pub is_policy_decision : RecordKind → Bool
is_policy_decision record_policy_decision = true
is_policy_decision record_read_forbidden = false

unfoldable pub is_outcome_allowed : Outcome → Bool
is_outcome_allowed outcome_allowed = true
is_outcome_allowed _ = false

unfoldable pub valid : Capability → Bool
valid c =
    validate_subject c.subject
    && valid_request c.request
    && is_policy_decision c.evidence.kind
    && is_outcome_allowed c.evidence.outcome
    && str_eq c.evidence.reason "Allowed"

-- `IsCurrent`; a nil verifier is `none`.
unfoldable pub is_capability_current : Option (Subject → Bool) → Capability → Bool
is_capability_current none c = false
is_capability_current (some verifier) c = valid c && verifier c.subject
