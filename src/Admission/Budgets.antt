-- ===== src/Admission/Budgets.antt =====
-- internal/admission/budgets.go. The size of a specification's JSON encoding, by encoding/json, is the
-- parameter `encoded_size`; `none` is an error of the encoder.
use kubeseer.Prelude.{
  ℕ, suc, String, str_append, Option, none, some, List, [], ◌∷◌, ◌++◌, length, if◌then◌else◌,
}
use kubeseer.Prelude.Int.{ℤ, pos, negsuc, leb_ℤ}
use kubeseer.Prelude.Text.{decimal}
use kubeseer.Facet.{
  FacetSpec, FacetSource, FacetField, FacetOperator, FacetAggregation, NamespaceSelection,
  ResourceSelector, LabelSelectorRequirement,
}
use kubeseer.AccessPolicy.Policy.{FacetAccessPolicy, ResourceRule}
use kubeseer.Limits.Profile.{Profile}
use kubeseer.Admission.Limits.{Limits, limits_from_profile, default_limits, normalize_limits}

pub record BudgetIssue : Type 0 where
  pub path : String
  pub reason : String
  pub message : String

-- `%d` of an int.
unfoldable pub decimal_ℤ : ℤ → String
decimal_ℤ (pos n) = decimal n
decimal_ℤ (negsuc n) = str_append "-" (decimal (suc n))

unfoldable pub indexed : String → ℤ → String
unfolding decimal_ℤ
indexed path n = str_append path (str_append "[" (str_append (decimal_ℤ n) "]"))

-- What `appendCardinalityIssue` appends.
unfoldable pub cardinality_issue : String → ℕ → ℤ → List BudgetIssue
unfolding indexed
cardinality_issue path size limit =
    if leb_ℤ (pos size) limit
    then []
    else record {
      path = indexed path limit;
      reason = "ConfigurationBudgetExceeded";
      message = str_append "must contain at most " (str_append (decimal_ℤ limit) " entries");
    }
      ∷ []

-- What `appendSpecSizeIssue` appends, for the size of the encoding.
unfoldable pub spec_size_issue : String → Option ℕ → ℤ → List BudgetIssue
unfolding decimal_ℤ
spec_size_issue path none limit =
    record {
      path = path;
      reason = "ConfigurationBudgetExceeded";
      message = "cannot be encoded within the configuration budget";
    }
    ∷ []
spec_size_issue path (some size) limit =
    if leb_ℤ (pos size) limit
    then []
    else record {
      path = path;
      reason = "ConfigurationBudgetExceeded";
      message =
          str_append "canonical JSON encoding must be at most "
            (str_append (decimal_ℤ limit) " bytes");
    }
      ∷ []

-- The loops of the code: each element's issues, with its index from `n` on.
unfoldable pub indexed_issues :
    {A : Type 0} → (String → A → List BudgetIssue) → String → ℕ → List A → List BudgetIssue
indexed_issues check path n [] = []
indexed_issues check path n (x ∷ xs) =
    check (indexed path (pos n)) x ++ indexed_issues check path (suc n) xs

-- A nil slice of system namespaces has the length 0.
unfoldable pub option_length : Option (List String) → ℕ
option_length none = 0
option_length (some names) = length names

module _ (limits : Limits) where
  unfoldable pub operator_issues : String → FacetOperator → List BudgetIssue
  operator_issues path operator =
      cardinality_issue (str_append path ".values") (length operator.values)
        limits.max_operator_values

  unfoldable pub field_issues : String → FacetField → List BudgetIssue
  unfolding operator_issues
  field_issues path field =
      cardinality_issue (str_append path ".operators") (length field.operators)
        limits.max_field_operators
      ++ indexed_issues operator_issues (str_append path ".operators") 0 field.operators

  unfoldable pub aggregation_issues : String → FacetAggregation → List BudgetIssue
  aggregation_issues path aggregation =
      cardinality_issue (str_append path ".groupBy") (length aggregation.group_by)
        limits.max_aggregation_group_by

  unfoldable pub expression_issues : String → LabelSelectorRequirement → List BudgetIssue
  expression_issues path expression =
      cardinality_issue (str_append path ".values") (length expression.values)
        limits.max_selector_expression_values

  unfoldable pub namespaces_issues : String → Option NamespaceSelection → List BudgetIssue
  namespaces_issues path none = []
  namespaces_issues path (some selection) =
      cardinality_issue (str_append path ".namespaces.names") (length selection.names)
        limits.max_source_namespaces

  unfoldable pub selector_issues : String → Option ResourceSelector → List BudgetIssue
  unfolding expression_issues
  selector_issues path none = []
  selector_issues path (some selector) =
      cardinality_issue (str_append path ".matchExpressions") (length selector.match_expressions)
        limits.max_selector_match_expressions
      ++ cardinality_issue (str_append path ".matchLabels") (length selector.match_labels)
          limits.max_selector_match_labels
      ++ indexed_issues expression_issues (str_append path ".matchExpressions") 0
          selector.match_expressions

  unfoldable pub source_issues : String → FacetSource → List BudgetIssue
  unfolding field_issues aggregation_issues namespaces_issues selector_issues
  source_issues path source =
      namespaces_issues path source.namespaces
      ++ cardinality_issue (str_append path ".fields") (length source.fields)
          limits.max_source_fields
      ++ indexed_issues field_issues (str_append path ".fields") 0 source.fields
      ++ cardinality_issue (str_append path ".aggregations") (length source.aggregations)
          limits.max_source_aggregations
      ++ indexed_issues aggregation_issues (str_append path ".aggregations") 0 source.aggregations
      ++ selector_issues (str_append path ".selector") source.selector

  unfoldable pub facet_issues : FacetSpec → List BudgetIssue
  unfolding source_issues
  facet_issues spec =
      cardinality_issue "spec.sources" (length spec.sources) limits.max_facet_sources
      ++ indexed_issues source_issues "spec.sources" 0 spec.sources

  unfoldable pub rule_issues : String → ResourceRule → List BudgetIssue
  rule_issues path rule =
      cardinality_issue (str_append path ".apiGroups") (length rule.api_groups)
        limits.max_policy_api_groups
      ++ cardinality_issue (str_append path ".kinds") (length rule.kinds) limits.max_policy_kinds

  unfoldable pub policy_issues : FacetAccessPolicy → List BudgetIssue
  unfolding rule_issues option_length
  policy_issues policy =
      cardinality_issue "spec.namespaces.include" (length policy.namespaces.include)
        limits.max_policy_namespace_names
      ++ cardinality_issue "spec.namespaces.exclude" (length policy.namespaces.exclude)
          limits.max_policy_namespace_names
      ++ cardinality_issue "spec.namespaces.systemNamespaces"
          (option_length policy.namespaces.system_namespaces) limits.max_policy_namespace_names
      ++ cardinality_issue "spec.resources" (length policy.resources)
          limits.max_policy_resource_rules
      ++ indexed_issues rule_issues "spec.resources" 0 policy.resources

-- `ValidateFacetBudgetsWithLimits` and `ValidateFacetBudgets`; a nil object is `none`.
module _ (encoded_size : FacetSpec → Option ℕ) where
  unfoldable pub validate_facet_budgets_with_limits : Option FacetSpec → Limits → List BudgetIssue
  unfolding facet_issues
  validate_facet_budgets_with_limits none limits = []
  validate_facet_budgets_with_limits (some spec) limits =
      facet_issues (normalize_limits limits) spec
      ++ spec_size_issue "spec" (encoded_size spec) (normalize_limits limits).max_facet_spec_bytes

  unfoldable pub validate_facet_budgets : Option FacetSpec → List BudgetIssue
  unfolding validate_facet_budgets_with_limits
  validate_facet_budgets object = validate_facet_budgets_with_limits object default_limits

-- The same for access policies.
module _ (encoded_size : FacetAccessPolicy → Option ℕ) where
  unfoldable pub validate_access_policy_budgets_with_limits :
      Option FacetAccessPolicy → Limits → List BudgetIssue
  unfolding policy_issues
  validate_access_policy_budgets_with_limits none limits = []
  validate_access_policy_budgets_with_limits (some policy) limits =
      policy_issues (normalize_limits limits) policy
      ++ spec_size_issue "spec" (encoded_size policy)
          (normalize_limits limits).max_access_policy_spec_bytes

  unfoldable pub validate_access_policy_budgets : Option FacetAccessPolicy → List BudgetIssue
  unfolding validate_access_policy_budgets_with_limits
  validate_access_policy_budgets object =
      validate_access_policy_budgets_with_limits object default_limits

-- A validator; a nil one is `none`.
pub record BudgetValidator : Type 0 where
  pub limits : Limits

unfoldable pub new_budget_validator : Limits → BudgetValidator
new_budget_validator limits = record { limits = normalize_limits limits }

unfoldable pub new_budget_validator_from_profile : Profile → BudgetValidator
unfolding new_budget_validator
new_budget_validator_from_profile profile = new_budget_validator (limits_from_profile profile)

unfoldable pub validator_limits : Option BudgetValidator → Limits
validator_limits none = default_limits
validator_limits (some validator) = validator.limits

unfoldable pub validate_facet :
    (FacetSpec → Option ℕ) → Option BudgetValidator → Option FacetSpec → List BudgetIssue
unfolding validate_facet_budgets validate_facet_budgets_with_limits
validate_facet encoded_size none object = validate_facet_budgets encoded_size object
validate_facet encoded_size (some validator) object =
    validate_facet_budgets_with_limits encoded_size object validator.limits

unfoldable pub validate_access_policy :
    (FacetAccessPolicy → Option ℕ)
    → Option BudgetValidator
    → Option FacetAccessPolicy
    → List BudgetIssue
unfolding validate_access_policy_budgets validate_access_policy_budgets_with_limits
validate_access_policy encoded_size none object = validate_access_policy_budgets encoded_size object
validate_access_policy encoded_size (some validator) object =
    validate_access_policy_budgets_with_limits encoded_size object validator.limits
