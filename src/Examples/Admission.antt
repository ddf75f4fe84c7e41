-- ===== src/Examples/Admission.antt =====
-- Admission at concrete inputs: a Facet of one source, and the policy of Examples/AccessPolicy.
use kubeseer.Prelude.{ℕ, ◌≡◌, ◌↔◌, refl, Option, none, some, [], ◌∷◌}
use kubeseer.Prelude.Int.{pos}
use kubeseer.Prelude.Result.{ok}
use kubeseer.Prelude.Text.{decimal}
use kubeseer.Facet.{FacetSpec, FacetSource, FacetField, value_type_string, operator_exists}
use kubeseer.AccessPolicy.Policy.{FacetAccessPolicy}
use kubeseer.AccessPolicy.Wellformed.{IsWellformed}
use kubeseer.Limits.Profile.{Overrides}
use kubeseer.Limits.Defaults.{default_profile}
use kubeseer.Limits.Resolve.{
  resolve, positive_int64, positive_int, positive_duration, resolve_admission, bounded_admission,
  resolve_aggregation,
}
use kubeseer.Limits.Resolve.Full.{overrides_of}
use kubeseer.Admission.Limits.{
  Limits, limits_from_profile, default_limits, normalize_limits, positive_or,
}
use kubeseer.Admission.Budgets.{
  validate_facet, validate_facet_budgets, validate_facet_budgets_with_limits,
  new_budget_validator_from_profile, new_budget_validator, facet_issues, source_issues,
  cardinality_issue, indexed_issues, spec_size_issue, namespaces_issues, selector_issues,
  field_issues, operator_issues, indexed, decimal_ℤ,
}
use kubeseer.Admission.Fits.{FitsFacet, FitsPolicy, validate_facet_budgets_iff}
use kubeseer.Admission.Resolved.{resolved_budgets_tighten}
use kubeseer.Admission.Contracts.{Class, Issue}
use kubeseer.Admission.Policies.{Validator, budget_validator, webhook_access_policy}
use kubeseer.Admission.Answers.{webhook_access_policy_iff}
use kubeseer.Examples.AccessPolicy.{names, policy}

abbrev image : FacetField
image = record {
  name = "image";
  path = "$.spec.image";
  value_type = value_type_string;
  operators = record { operator = operator_exists; value = none; values = [] } ∷ [];
}

abbrev pub source : FacetSource
source = record {
  id = "s1";
  resource = record { api_version = "apps/v1"; kind = "Deployment" };
  namespaces = none;
  selector = none;
  fields = image ∷ image ∷ [];
  aggregations = [];
}

abbrev spec : FacetSpec
spec = record { sources = source ∷ [] }

abbrev small : FacetSpec → Option ℕ
small _ = some 200

abbrev one_field : Limits
one_field = record default_limits { max_source_fields = pos 1 }

-- Two fields where one is allowed.
one_issue :
    validate_facet_budgets_with_limits small (some spec) one_field
    ≡ record {
      path = "spec.sources[0].fields[1]";
      reason = "ConfigurationBudgetExceeded";
      message = "must contain at most 1 entries";
    }
      ∷ []
unfolding validate_facet_budgets_with_limits normalize_limits positive_or facet_issues source_issues
    cardinality_issue indexed_issues spec_size_issue namespaces_issues selector_issues field_issues
    operator_issues indexed decimal_ℤ decimal default_limits limits_from_profile
one_issue = refl

abbrev tight : Overrides
tight = overrides_of default_profile

resolve-tight : resolve tight ≡ ok default_profile
unfolding resolve positive_int64 positive_int positive_duration resolve_admission bounded_admission
    resolve_aggregation
resolve-tight = refl

admitted :
    validate_facet small (some (new_budget_validator_from_profile default_profile)) (some spec) ≡ []
unfolding validate_facet validate_facet_budgets_with_limits new_budget_validator_from_profile
    new_budget_validator normalize_limits positive_or facet_issues source_issues cardinality_issue
    indexed_issues spec_size_issue namespaces_issues selector_issues field_issues operator_issues
    default_limits limits_from_profile
admitted = refl

validate_facet_budgets_iff_example :
    (validate_facet_budgets_with_limits small (some spec) one_field ≡ [])
    ↔ FitsFacet (normalize_limits one_field) spec (some 200)
validate_facet_budgets_iff_example = validate_facet_budgets_iff small spec one_field

resolved_budgets_tighten_example : validate_facet_budgets small (some spec) ≡ []
resolved_budgets_tighten_example =
    resolved_budgets_tighten tight default_profile small spec resolve-tight admitted

abbrev issue_of : Class → Issue
issue_of class = record { path = "spec"; reason = "r"; message = "m"; class = class }

abbrev validator : Validator
validator = record { budgets = none }

abbrev policy_size : FacetAccessPolicy → Option ℕ
policy_size _ = some 300

webhook_access_policy_iff_example :
    (webhook_access_policy names policy_size (some validator) (some policy) ≡ none) ↔ (
      FitsPolicy (normalize_limits (budget_validator (some validator)).limits) policy (some 300)
      × IsWellformed names policy)
webhook_access_policy_iff_example = webhook_access_policy_iff names policy_size validator policy
