-- ===== src/Admission/Limits.antt =====
-- `Limits` of internal/admission/budgets.go, from the profile of limits, and `normalizeLimits`.
use kubeseer.Prelude.{if◌then◌else◌}
use kubeseer.Prelude.Int.{ℤ, pos, leb_ℤ}
use kubeseer.Limits.Profile.{Profile}
use kubeseer.Limits.Defaults.{default_profile}

pub record Limits : Type 0 where
  pub max_facet_sources : ℤ
  pub max_source_namespaces : ℤ
  pub max_source_fields : ℤ
  pub max_field_operators : ℤ
  pub max_operator_values : ℤ
  pub max_source_aggregations : ℤ
  pub max_aggregation_group_by : ℤ
  pub max_selector_match_expressions : ℤ
  pub max_selector_expression_values : ℤ
  pub max_selector_match_labels : ℤ
  pub max_policy_namespace_names : ℤ
  pub max_policy_resource_rules : ℤ
  pub max_policy_api_groups : ℤ
  pub max_policy_kinds : ℤ
  pub max_facet_spec_bytes : ℤ
  pub max_access_policy_spec_bytes : ℤ

unfoldable pub limits_from_profile : Profile → Limits
limits_from_profile profile = record {
  max_facet_sources = profile.admission.max_facet_sources;
  max_source_namespaces = profile.admission.max_source_namespaces;
  max_source_fields = profile.admission.max_source_fields;
  max_field_operators = profile.admission.max_field_operators;
  max_operator_values = profile.admission.max_operator_values;
  max_source_aggregations = profile.admission.max_source_aggregations;
  max_aggregation_group_by = profile.admission.max_aggregation_group_by;
  max_selector_match_expressions = profile.admission.max_selector_match_expressions;
  max_selector_expression_values = profile.admission.max_selector_expression_values;
  max_selector_match_labels = profile.admission.max_selector_match_labels;
  max_policy_namespace_names = profile.admission.max_policy_namespace_names;
  max_policy_resource_rules = profile.admission.max_policy_resource_rules;
  max_policy_api_groups = profile.admission.max_policy_api_groups;
  max_policy_kinds = profile.admission.max_policy_kinds;
  max_facet_spec_bytes = profile.admission.max_facet_spec_bytes;
  max_access_policy_spec_bytes = profile.admission.max_access_policy_spec_bytes;
}

unfoldable pub default_limits : Limits
unfolding limits_from_profile
default_limits = limits_from_profile default_profile

-- One `if` of `normalizeLimits`.
unfoldable pub positive_or : ℤ → ℤ → ℤ
positive_or limit default = if leb_ℤ limit (pos 0) then default else limit

unfoldable pub normalize_limits : Limits → Limits
unfolding positive_or default_limits
normalize_limits limits = record {
  max_facet_sources = positive_or limits.max_facet_sources default_limits.max_facet_sources;
  max_source_namespaces =
      positive_or limits.max_source_namespaces default_limits.max_source_namespaces;
  max_source_fields = positive_or limits.max_source_fields default_limits.max_source_fields;
  max_field_operators = positive_or limits.max_field_operators default_limits.max_field_operators;
  max_operator_values = positive_or limits.max_operator_values default_limits.max_operator_values;
  max_source_aggregations =
      positive_or limits.max_source_aggregations default_limits.max_source_aggregations;
  max_aggregation_group_by =
      positive_or limits.max_aggregation_group_by default_limits.max_aggregation_group_by;
  max_selector_match_expressions =
      positive_or limits.max_selector_match_expressions
        default_limits.max_selector_match_expressions;
  max_selector_expression_values =
      positive_or limits.max_selector_expression_values
        default_limits.max_selector_expression_values;
  max_selector_match_labels =
      positive_or limits.max_selector_match_labels default_limits.max_selector_match_labels;
  max_policy_namespace_names =
      positive_or limits.max_policy_namespace_names default_limits.max_policy_namespace_names;
  max_policy_resource_rules =
      positive_or limits.max_policy_resource_rules default_limits.max_policy_resource_rules;
  max_policy_api_groups =
      positive_or limits.max_policy_api_groups default_limits.max_policy_api_groups;
  max_policy_kinds = positive_or limits.max_policy_kinds default_limits.max_policy_kinds;
  max_facet_spec_bytes =
      positive_or limits.max_facet_spec_bytes default_limits.max_facet_spec_bytes;
  max_access_policy_spec_bytes =
      positive_or limits.max_access_policy_spec_bytes default_limits.max_access_policy_spec_bytes;
}
