-- ===== src/AccessPolicy/Load.antt =====
-- internal/accesspolicy/loader.go: one read of the policy, as the snapshot that it becomes.
use kubeseer.Prelude.{String, str_eq, str_append, Option, none, some, Bool, true, if◌then◌else◌}
use kubeseer.Prelude.Result.{Result, ok, err}
use kubeseer.AccessPolicy.Policy.{
  NameTests, PolicyIdentity, policy_missing, policy_invalid, policy_unavailable, FacetAccessPolicy,
  PolicyError, CompiledPolicy,
}
use kubeseer.AccessPolicy.Compile.{compile}
use kubeseer.AccessPolicy.Evaluate.{
  Snapshot, deny_all_snapshot, new_snapshot_with_identity, reason_text,
}

-- What `Get` of the source returns; a nil policy is `none`.
pub data SourceReply : Type 0 where
  got : Option FacetAccessPolicy → SourceReply
  not_found : SourceReply
  get_failed : SourceReply

-- `Error` of a PolicyError.
unfoldable pub policy_error_text : PolicyError → String
unfolding reason_text
policy_error_text e =
    if str_eq e.field ""
    then str_append "policy: " (str_append (reason_text e.reason) (str_append ": " e.message))
    else str_append "policy " (
        str_append (reason_text e.reason)
          (str_append " at " (str_append e.field (str_append ": " e.message))))

abbrev pub identity_of : FacetAccessPolicy → PolicyIdentity
identity_of p = record { name = p.name; uid = p.uid; generation = p.generation }

-- `validate(policy)` returns no error; without a callback nothing is asked.
unfoldable pub passes : Option (FacetAccessPolicy → Bool) → FacetAccessPolicy → Bool
passes none policy = true
passes (some validate) policy = validate policy

unfoldable pub load_compiled : FacetAccessPolicy → Result PolicyError CompiledPolicy → Snapshot
unfolding policy_error_text
load_compiled policy (err e) =
    deny_all_snapshot policy_invalid (policy_error_text e) (some (identity_of policy))
load_compiled policy (ok c) = new_snapshot_with_identity (some c) (identity_of policy)

-- A nil source is `none`.
unfoldable pub load_with_validation :
    NameTests → Option SourceReply → Option (FacetAccessPolicy → Bool) → Snapshot
unfolding load_compiled passes
load_with_validation tests none validate =
    deny_all_snapshot policy_unavailable "policy is unavailable; observation denied" none
load_with_validation tests (some not_found) validate =
    deny_all_snapshot policy_missing "policy is missing; observation denied" none
load_with_validation tests (some get_failed) validate =
    deny_all_snapshot policy_unavailable "policy is unavailable; observation denied" none
load_with_validation tests (some (got none)) validate =
    deny_all_snapshot policy_invalid "policy is invalid; observation denied" none
load_with_validation tests (some (got (some policy))) validate =
    if passes validate policy
    then load_compiled policy (compile tests (some policy))
    else deny_all_snapshot policy_invalid "policy is invalid; observation denied"
        (some (identity_of policy))
