-- ===== src/Limits/Profile.antt =====
-- internal/limits/profile.go: the profile of effective limits, its overrides and defaults.
-- A Go `int`, `int64` or `time.Duration` (nanoseconds) is a ℤ; a nil pointer is `none`.
use kubeseer.Prelude.{Option, String}
use kubeseer.Prelude.Int.{ℤ}

pub record AdmissionOverrides : Type 0 where
  pub max_facet_sources : Option ℤ
  pub max_source_namespaces : Option ℤ
  pub max_source_fields : Option ℤ
  pub max_field_operators : Option ℤ
  pub max_operator_values : Option ℤ
  pub max_source_aggregations : Option ℤ
  pub max_aggregation_group_by : Option ℤ
  pub max_selector_match_expressions : Option ℤ
  pub max_selector_expression_values : Option ℤ
  pub max_selector_match_labels : Option ℤ
  pub max_policy_namespace_names : Option ℤ
  pub max_policy_resource_rules : Option ℤ
  pub max_policy_api_groups : Option ℤ
  pub max_policy_kinds : Option ℤ
  pub max_facet_spec_bytes : Option ℤ
  pub max_access_policy_spec_bytes : Option ℤ

pub record AggregationOverrides : Type 0 where
  pub max_groups : Option ℤ
  pub max_contributions : Option ℤ
  pub max_collected_values : Option ℤ
  pub max_distinct_values : Option ℤ
  pub max_provenance_entries : Option ℤ

pub record Overrides : Type 0 where
  pub page_size : Option ℤ
  pub max_matched_resources : Option ℤ
  pub max_selected_input_bytes : Option ℤ
  pub max_produced_value_bytes : Option ℤ
  pub max_status_bytes : Option ℤ
  pub evaluation_timeout : Option ℤ
  pub max_concurrent_reconciles : Option ℤ
  pub discovery_cache_entries : Option ℤ
  pub discovery_cache_ttl : Option ℤ
  pub max_active_watches : Option ℤ
  pub max_pending_triggers : Option ℤ
  pub admission : AdmissionOverrides
  pub aggregation : AggregationOverrides

pub record AdmissionBudgets : Type 0 where
  pub max_facet_sources : ℤ
  pub max_source_namespaces : ℤ
  pub max_source_fields : ℤ
  pub max_field_operators : ℤ
  pub max_operator_values : ℤ
  pub max_source_aggregations : ℤ
  pub max_aggregation_group_by : ℤ
  pub max_selector_match_expressions : ℤ
  pub max_selector_expression_values : ℤ
  pub max_selector_match_labels : ℤ
  pub max_policy_namespace_names : ℤ
  pub max_policy_resource_rules : ℤ
  pub max_policy_api_groups : ℤ
  pub max_policy_kinds : ℤ
  pub max_facet_spec_bytes : ℤ
  pub max_access_policy_spec_bytes : ℤ

pub record AggregationBudgets : Type 0 where
  pub max_groups : ℤ
  pub max_contributions : ℤ
  pub max_collected_values : ℤ
  pub max_distinct_values : ℤ
  pub max_provenance_entries : ℤ

pub record Profile : Type 0 where
  pub page_size : ℤ
  pub max_matched_resources : ℤ
  pub max_selected_input_bytes : ℤ
  pub max_produced_value_bytes : ℤ
  pub max_status_bytes : ℤ
  pub evaluation_timeout : ℤ
  pub max_concurrent_reconciles : ℤ
  pub discovery_cache_entries : ℤ
  pub discovery_cache_ttl : ℤ
  pub max_active_watches : ℤ
  pub max_pending_triggers : ℤ
  pub admission : AdmissionBudgets
  pub aggregation : AggregationBudgets

-- The causes that the code builds with `errors.New`.
pub data Cause : Type 0 where
  must_be_positive exceeds_ceiling : Cause

-- `value` is the number that the code prints into the error's `Value`.
pub record InvalidConfigurationError : Type 0 where
  pub field : String
  pub value : ℤ
  pub cause : Cause
