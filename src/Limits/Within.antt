-- ===== src/Limits/Within.antt =====
-- The range of a profile of internal/limits/profile.go: positive limits, and budgets below their ceilings.
use kubeseer.Prelude.Int.{pos, ◌≤ℤ◌}
use kubeseer.Limits.Profile.{Profile}
use kubeseer.Limits.Defaults.{
  default_max_facet_sources, default_max_source_namespaces, default_max_source_fields,
  default_max_field_operators, default_max_operator_values, default_max_source_aggregations,
  default_max_aggregation_group_by, default_max_selector_match_expressions,
  default_max_selector_expression_values, default_max_selector_match_labels,
  default_max_policy_namespace_names, default_max_policy_resource_rules,
  default_max_policy_api_groups, default_max_policy_kinds, default_max_canonical_spec_bytes,
}

-- Every limit is positive, and the admission budgets keep below the structural ceilings.
pub record IsWithin (p : Profile) : Type 0 where
  pub page_size : pos 1 ≤ℤ p.page_size
  pub max_matched_resources : pos 1 ≤ℤ p.max_matched_resources
  pub max_selected_input_bytes : pos 1 ≤ℤ p.max_selected_input_bytes
  pub max_produced_value_bytes : pos 1 ≤ℤ p.max_produced_value_bytes
  pub max_status_bytes : pos 1 ≤ℤ p.max_status_bytes
  pub evaluation_timeout : pos 1 ≤ℤ p.evaluation_timeout
  pub max_concurrent_reconciles : pos 1 ≤ℤ p.max_concurrent_reconciles
  pub discovery_cache_entries : pos 1 ≤ℤ p.discovery_cache_entries
  pub discovery_cache_ttl : pos 1 ≤ℤ p.discovery_cache_ttl
  pub max_active_watches : pos 1 ≤ℤ p.max_active_watches
  pub max_pending_triggers : pos 1 ≤ℤ p.max_pending_triggers
  pub max_facet_sources :
      (pos 1 ≤ℤ p.admission.max_facet_sources)
      × (p.admission.max_facet_sources ≤ℤ default_max_facet_sources)
  pub max_source_namespaces :
      (pos 1 ≤ℤ p.admission.max_source_namespaces)
      × (p.admission.max_source_namespaces ≤ℤ default_max_source_namespaces)
  pub max_source_fields :
      (pos 1 ≤ℤ p.admission.max_source_fields)
      × (p.admission.max_source_fields ≤ℤ default_max_source_fields)
  pub max_field_operators :
      (pos 1 ≤ℤ p.admission.max_field_operators)
      × (p.admission.max_field_operators ≤ℤ default_max_field_operators)
  pub max_operator_values :
      (pos 1 ≤ℤ p.admission.max_operator_values)
      × (p.admission.max_operator_values ≤ℤ default_max_operator_values)
  pub max_source_aggregations :
      (pos 1 ≤ℤ p.admission.max_source_aggregations)
      × (p.admission.max_source_aggregations ≤ℤ default_max_source_aggregations)
  pub max_aggregation_group_by :
      (pos 1 ≤ℤ p.admission.max_aggregation_group_by)
      × (p.admission.max_aggregation_group_by ≤ℤ default_max_aggregation_group_by)
  pub max_selector_match_expressions :
      (pos 1 ≤ℤ p.admission.max_selector_match_expressions)
      × (p.admission.max_selector_match_expressions ≤ℤ default_max_selector_match_expressions)
  pub max_selector_expression_values :
      (pos 1 ≤ℤ p.admission.max_selector_expression_values)
      × (p.admission.max_selector_expression_values ≤ℤ default_max_selector_expression_values)
  pub max_selector_match_labels :
      (pos 1 ≤ℤ p.admission.max_selector_match_labels)
      × (p.admission.max_selector_match_labels ≤ℤ default_max_selector_match_labels)
  pub max_policy_namespace_names :
      (pos 1 ≤ℤ p.admission.max_policy_namespace_names)
      × (p.admission.max_policy_namespace_names ≤ℤ default_max_policy_namespace_names)
  pub max_policy_resource_rules :
      (pos 1 ≤ℤ p.admission.max_policy_resource_rules)
      × (p.admission.max_policy_resource_rules ≤ℤ default_max_policy_resource_rules)
  pub max_policy_api_groups :
      (pos 1 ≤ℤ p.admission.max_policy_api_groups)
      × (p.admission.max_policy_api_groups ≤ℤ default_max_policy_api_groups)
  pub max_policy_kinds :
      (pos 1 ≤ℤ p.admission.max_policy_kinds)
      × (p.admission.max_policy_kinds ≤ℤ default_max_policy_kinds)
  pub max_facet_spec_bytes :
      (pos 1 ≤ℤ p.admission.max_facet_spec_bytes)
      × (p.admission.max_facet_spec_bytes ≤ℤ default_max_canonical_spec_bytes)
  pub max_access_policy_spec_bytes :
      (pos 1 ≤ℤ p.admission.max_access_policy_spec_bytes)
      × (p.admission.max_access_policy_spec_bytes ≤ℤ default_max_canonical_spec_bytes)
  pub max_groups : pos 1 ≤ℤ p.aggregation.max_groups
  pub max_contributions : pos 1 ≤ℤ p.aggregation.max_contributions
  pub max_collected_values : pos 1 ≤ℤ p.aggregation.max_collected_values
  pub max_distinct_values : pos 1 ≤ℤ p.aggregation.max_distinct_values
  pub max_provenance_entries : pos 1 ≤ℤ p.aggregation.max_provenance_entries
