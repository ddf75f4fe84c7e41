-- ===== src/Selection/Binder.antt =====
-- `BindCapabilities` of internal/selection/binder.go.
use kubeseer.Prelude.{
  String, Option, none, some, Bool, true, false, ◌&&◌, ◌||◌, str_eq, List, [], ◌∷◌, map,
  if◌then◌else◌,
}
use kubeseer.Prelude.Result.{Result, ok, err, ◌>>=◌}
use kubeseer.AccessPolicy.Policy.{Request}
use kubeseer.Authorization.Contracts.{Capability, DecisionOutcome, valid}
use kubeseer.Authorization.Enforcer.{is_allowed}
use kubeseer.Selection.Contracts.{
  SelectionError, selection_error, SelectionErrorReason, authorization_missing,
  authorization_denied, authorization_mismatch, GroupVersionResource, ReadTarget, SelectionPlan,
  scope_eq, request_eq, request_for_target, AuthorizedRead,
}

-- `reads` is the slice of the code, which is made with zero values: `none`.
pub record AuthorizedPlan : Type 0 where
  pub plan : SelectionPlan
  pub reads : List (Option AuthorizedRead)

unfoldable pub has_request : Request → List Request → Bool
has_request request [] = false
has_request request (key ∷ keys) = request_eq key request || has_request request keys

-- The first loop, with the keys of the targets so far.
unfoldable pub duplicate_target : List Request → List ReadTarget → Bool
unfolding has_request
duplicate_target keys [] = false
duplicate_target keys (t ∷ ts) =
    has_request (request_for_target t) keys || duplicate_target (request_for_target t ∷ keys) ts

unfoldable pub target_keys : List ReadTarget → List Request
target_keys targets = map request_for_target targets

-- The second loop: an outcome for none of the targets.
unfoldable pub unmatched_outcome : List Request → List DecisionOutcome → Bool
unfolding has_request
unmatched_outcome keys [] = false
unmatched_outcome keys (o ∷ os) =
    if has_request o.request keys then unmatched_outcome keys os else true

-- The outcomes at `authorizationIndexes[want]`, in order.
unfoldable pub outcomes_at : Request → List DecisionOutcome → List DecisionOutcome
outcomes_at want [] = []
outcomes_at want (o ∷ os) =
    let rest = outcomes_at want os in if request_eq o.request want then o ∷ rest else rest

unfoldable pub gvr_eq : GroupVersionResource → GroupVersionResource → Bool
gvr_eq a b = str_eq a.group b.group && str_eq a.version b.version && str_eq a.resource b.resource

-- The Go `==` on targets.
unfoldable pub target_eq : ReadTarget → ReadTarget → Bool
unfolding gvr_eq
target_eq a b =
    str_eq a.source_id b.source_id
    && gvr_eq a.gvr b.gvr
    && str_eq a.kind b.kind
    && scope_eq a.scope b.scope
    && str_eq a.namespace b.namespace

module _ (source_id : String) where
  abbrev refuse : SelectionErrorReason → String → Result SelectionError Capability
  refuse reason message = err (selection_error source_id reason message)

  unfoldable pub matching_capability :
      Request → Option Capability → Result SelectionError Capability
  matching_capability want none =
      refuse authorization_mismatch "allowed decision has no matching authorization capability"
  matching_capability want (some c) =
      if valid c && request_eq c.request want
      then ok c
      else refuse authorization_mismatch "allowed decision has no matching authorization capability"

  unfoldable pub authorize_outcome : Request → DecisionOutcome → Result SelectionError Capability
  unfolding matching_capability
  authorize_outcome want o =
      if is_allowed o.decision
      then matching_capability want o.capability
      else refuse authorization_denied "exact read target is not allowed by the installation policy"

  unfoldable pub authorize_one : Request → List DecisionOutcome → Result SelectionError Capability
  unfolding authorize_outcome
  authorize_one want [] =
      refuse authorization_missing "authorization is missing for an exact read target"
  authorize_one want (o ∷ []) = authorize_outcome want o
  authorize_one want (_ ∷ _ ∷ _) =
      refuse authorization_mismatch "multiple authorization decisions match one exact read target"

  -- The loop that sets the read at the first target that is equal.
  unfoldable pub place :
      ReadTarget
      → Capability
      → List ReadTarget
      → List (Option AuthorizedRead)
      → List (Option AuthorizedRead)
  unfolding target_eq
  place t c (x ∷ xs) (r ∷ rs) =
      if target_eq x t
      then some (record { target = t; capability = c }) ∷ rs
      else r ∷ place t c xs rs
  place t c _ rs = rs

  -- The third loop, over the targets that are left.
  unfoldable pub bind_targets :
      List DecisionOutcome
      → List ReadTarget
      → List ReadTarget
      → List (Option AuthorizedRead)
      → Result SelectionError (List (Option AuthorizedRead))
  unfolding place authorize_one
  bind_targets outcomes targets [] reads = ok reads
  bind_targets outcomes targets (t ∷ ts) reads =
      authorize_one (request_for_target t) (outcomes_at (request_for_target t) outcomes) >>= λ c.
      bind_targets outcomes targets ts (place t c targets reads)

unfoldable pub unset : List ReadTarget → List (Option AuthorizedRead)
unset [] = []
unset (t ∷ ts) = none ∷ unset ts

unfoldable pub bind_capabilities :
    SelectionPlan → List DecisionOutcome → Result SelectionError AuthorizedPlan
unfolding duplicate_target target_keys unmatched_outcome bind_targets unset
bind_capabilities plan outcomes =
    if duplicate_target [] plan.targets
    then err (
        selection_error plan.source_id authorization_mismatch
          "selection plan contains duplicate exact read targets")
    else if unmatched_outcome (target_keys plan.targets) outcomes
    then err (
        selection_error plan.source_id authorization_mismatch
          "authorization contains a target that does not match the selection plan")
    else (bind_targets plan.source_id outcomes plan.targets plan.targets (unset plan.targets)
        >>= λ reads. ok (record { plan = plan; reads = reads }))
