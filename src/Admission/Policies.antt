-- ===== src/Admission/Policies.antt =====
-- The validation of access policies: internal/admission/validator.go, semantic.go and webhook.go.
use kubeseer.Prelude.{ℕ, Option, none, some, List, map, if◌then◌else◌}
use kubeseer.AccessPolicy.Policy.{NameTests, FacetAccessPolicy, PolicyError}
use kubeseer.AccessPolicy.Evaluate.{reason_text}
use kubeseer.AccessPolicy.Validate.{validate}
use kubeseer.Admission.Limits.{default_limits}
use kubeseer.Admission.Budgets.{
  BudgetIssue, BudgetValidator, new_budget_validator, validate_access_policy,
}
use kubeseer.Admission.Contracts.{
  Issue, valid, result, invalid_issue, StatusError, result_error, unavailable_error,
}

unfoldable pub budget_issue : BudgetIssue → Issue
unfolding invalid_issue
budget_issue issue = invalid_issue issue.path issue.reason issue.message

unfoldable pub budget_issues : List BudgetIssue → List Issue
unfolding budget_issue
budget_issues input = map budget_issue input

unfoldable pub failure_issue : PolicyError → Issue
unfolding invalid_issue
failure_issue failure = invalid_issue failure.field (reason_text failure.reason) failure.message

-- `Validator`, as far as the validation of policies reads it.
pub record Validator : Type 0 where
  pub budgets : Option BudgetValidator

unfoldable pub budget_validator : Option Validator → BudgetValidator
budget_validator none = new_budget_validator default_limits
budget_validator (some validator) = elim validator.budgets [
  | none ↦ new_budget_validator default_limits
  | some budgets ↦ budgets
]

module _ (tests : NameTests) where
  unfoldable pub validate_access_policy_semantics : Option FacetAccessPolicy → List Issue
  unfolding failure_issue
  validate_access_policy_semantics object = result (map failure_issue (validate tests object))

  -- Semantic validation runs only where the budgets report nothing.
  unfoldable pub after_budgets : Option FacetAccessPolicy → List Issue → List Issue
  unfolding validate_access_policy_semantics
  after_budgets object issues =
      if valid issues then validate_access_policy_semantics object else result issues

  -- `Validator.ValidateAccessPolicy`.
  unfoldable pub admit_access_policy :
      (FacetAccessPolicy → Option ℕ) → Option Validator → Option FacetAccessPolicy → List Issue
  unfolding after_budgets budget_issues budget_validator
  admit_access_policy encoded_size validator object = after_budgets object (
      budget_issues
        (validate_access_policy encoded_size (some (budget_validator validator)) object))

  -- The webhook's handler; without a validator it answers that validation is unavailable.
  unfoldable pub webhook_access_policy :
      (FacetAccessPolicy → Option ℕ)
      → Option Validator
      → Option FacetAccessPolicy
      → Option StatusError
  unfolding admit_access_policy
  webhook_access_policy encoded_size none object = unavailable_error "FacetAccessPolicy"
  webhook_access_policy encoded_size (some validator) object =
      result_error "FacetAccessPolicy" (admit_access_policy encoded_size (some validator) object)
