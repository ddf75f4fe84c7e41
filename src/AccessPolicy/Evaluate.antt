-- ===== src/AccessPolicy/Evaluate.antt =====
-- internal/accesspolicy/evaluator.go: snapshots and their decisions.
use Prim.Native.String.{len}
use kubeseer.Prelude.{
  String, str_eq, str_append, Option, none, some, Bool, true, false, not, ◌&&◌, ◌||◌, List, [], ◌∷◌,
  ltb, if◌then◌else◌,
}
use kubeseer.AccessPolicy.Policy.{
  NameTests, PolicyIdentity, PolicyReason, allowed, policy_missing, policy_invalid,
  policy_unavailable, invalid_request, resource_denied, cluster_scope_denied, namespace_denied,
  other_reason, ResourceKey, CompiledPolicy, Scope, scope_namespaced, scope_cluster, other_scope,
  Request, Decision,
}
use kubeseer.AccessPolicy.Validate.{kind_pattern}

-- `terminal_reason` is `none` where the code's reason is "".
pub record Snapshot : Type 0 where
  pub policy : Option CompiledPolicy
  pub terminal_reason : Option PolicyReason
  pub terminal_message : String
  pub policy_identity : Option PolicyIdentity

unfoldable pub terminal_or_unavailable : PolicyReason → PolicyReason
terminal_or_unavailable policy_missing = policy_missing
terminal_or_unavailable policy_invalid = policy_invalid
terminal_or_unavailable policy_unavailable = policy_unavailable
terminal_or_unavailable _ = policy_unavailable

unfoldable pub deny_all_snapshot : PolicyReason → String → Option PolicyIdentity → Snapshot
unfolding terminal_or_unavailable
deny_all_snapshot reason message identity = record {
  policy = none;
  terminal_reason = some (terminal_or_unavailable reason);
  terminal_message = message;
  policy_identity = identity;
}

unfoldable pub new_snapshot : Option CompiledPolicy → Snapshot
unfolding deny_all_snapshot
new_snapshot none = deny_all_snapshot policy_invalid "compiled policy is unavailable" none
new_snapshot (some policy) = record {
  policy = some policy;
  terminal_reason = none;
  terminal_message = "";
  policy_identity = policy.policy_identity;
}

unfoldable pub new_snapshot_with_identity : Option CompiledPolicy → PolicyIdentity → Snapshot
unfolding new_snapshot
new_snapshot_with_identity policy identity = record (new_snapshot policy) {
  policy_identity = some identity;
}

abbrev deny : PolicyReason → String → Decision
deny reason message = record { allowed = false; reason = reason; message = message }

unfoldable pub allowed_decision : Decision
allowed_decision = record {
  allowed = true;
  reason = allowed;
  message = "request is allowed by the installation policy";
}

unfoldable pub reason_text : PolicyReason → String
reason_text allowed = "Allowed"
reason_text policy_missing = "PolicyMissing"
reason_text policy_invalid = "PolicyInvalid"
reason_text policy_unavailable = "PolicyUnavailable"
reason_text invalid_request = "InvalidRequest"
reason_text resource_denied = "ResourceDenied"
reason_text cluster_scope_denied = "ClusterScopeDenied"
reason_text namespace_denied = "NamespaceDenied"
reason_text (other_reason text) = text

-- `%q`. The code quotes only texts that `validateRequest` has passed, which hold nothing to escape.
quoted : String → String
quoted text = str_append "\"" (str_append text "\"")

unfoldable pub contains : List String → String → Bool
contains [] value = false
contains (x ∷ xs) value = str_eq x value || contains xs value

unfoldable pub contains_key : List ResourceKey → String → String → Bool
contains_key [] group kind = false
contains_key (x ∷ xs) group kind =
    (str_eq x.api_group group && str_eq x.kind kind) || contains_key xs group kind

unfoldable pub valid_scope : Scope → Bool
valid_scope scope_namespaced = true
valid_scope scope_cluster = true
valid_scope (other_scope _) = false

unfoldable pub validate_namespace : NameTests → Scope → String → Option String
validate_namespace tests scope_namespaced namespace =
    if str_eq namespace ""
    then some "request namespace is required for a namespaced resource"
    else if not (tests.is_dns1123_label namespace)
    then some "request namespace is not normalized"
    else none
validate_namespace tests _ namespace = none

-- `none` is the code's "".
unfoldable pub validate_request : NameTests → Request → Option String
unfolding valid_scope validate_namespace
validate_request tests r =
    if not (valid_scope r.scope)
    then some "request scope must be namespaced or cluster"
    else if str_eq r.kind "" || not (kind_pattern r.kind) || ltb 63 (len r.kind)
    then some "request Kind is missing or not normalized"
    else if not (str_eq r.api_group "") && not (tests.is_dns1123_subdomain r.api_group)
    then some "request API group is not normalized"
    else validate_namespace tests r.scope r.namespace

-- The `switch` on the namespace mode.
unfoldable pub allowed_namespace : CompiledPolicy → String → Bool
allowed_namespace p namespace =
    if str_eq p.namespace_mode "Explicit"
    then contains p.included_namespaces namespace
    else if str_eq p.namespace_mode "All"
    then true
    else if str_eq p.namespace_mode "AllNonSystem"
    then (if contains p.included_namespaces namespace
        then true
        else not (contains p.system_namespaces namespace))
    else false

unfoldable pub evaluate_namespaced : CompiledPolicy → Request → Decision
unfolding quoted allowed_decision
evaluate_namespaced p r =
    if contains p.excluded_namespaces r.namespace
    then deny namespace_denied (
        str_append "namespace "
          (str_append (quoted r.namespace) " is excluded by the installation policy"))
    else if allowed_namespace p r.namespace
    then allowed_decision
    else deny namespace_denied (
        str_append "namespace "
          (str_append (quoted r.namespace) " is outside the installation policy"))

unfoldable pub evaluate_scope : CompiledPolicy → Request → Scope → Decision
unfolding allowed_decision
evaluate_scope p r scope_cluster =
    if p.allow_cluster_scoped
    then allowed_decision
    else deny cluster_scope_denied "cluster-scoped access is disabled by the installation policy"
evaluate_scope p r _ = evaluate_namespaced p r

unfoldable pub evaluate_valid : CompiledPolicy → Request → Decision
unfolding evaluate_scope quoted
evaluate_valid p r =
    if contains_key p.allowed_resources r.api_group r.kind
    then evaluate_scope p r r.scope
    else deny resource_denied (
        str_append "resource type " (
          str_append (quoted r.api_group)
            (str_append "/" (str_append (quoted r.kind) " is outside the installation policy"))))

unfoldable pub evaluate_policy : CompiledPolicy → Request → Option String → Decision
evaluate_policy p r (some message) = deny invalid_request message
evaluate_policy p r none = evaluate_valid p r

terminal_text : PolicyReason → String → String
unfolding reason_text
terminal_text reason message =
    if str_eq message ""
    then str_append "observation denied because policy state is " (reason_text reason)
    else message

evaluate_live : NameTests → Option CompiledPolicy → Request → Decision
unfolding evaluate_policy
evaluate_live tests none r =
    deny policy_invalid "observation denied because policy state is PolicyInvalid"
evaluate_live tests (some p) r = evaluate_policy p r (validate_request tests r)

evaluate_terminal : NameTests → Snapshot → Request → Option PolicyReason → Decision
unfolding terminal_text evaluate_live
evaluate_terminal tests s r (some reason) = deny reason (terminal_text reason s.terminal_message)
evaluate_terminal tests s r none = evaluate_live tests s.policy r

-- `Snapshot.Evaluate`.
unfoldable pub evaluate : NameTests → Snapshot → Request → Decision
unfolding evaluate_terminal
evaluate tests s r = evaluate_terminal tests s r s.terminal_reason
