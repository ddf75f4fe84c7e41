-- ===== src/Limits/Defaults.antt =====
-- internal/limits/profile.go: the approved defaults.
use kubeseer.Prelude.{ℕ, ◌*◌}
use kubeseer.Prelude.Int.{ℤ, pos}
use kubeseer.Limits.Profile.{AdmissionBudgets, AggregationBudgets, Profile}

-- time.Second and time.Minute, in nanoseconds.
abbrev second : ℕ
second = 1000000000

abbrev minute : ℕ
minute = 60 * second

abbrev pub default_page_size : ℤ
default_page_size = pos 500

abbrev pub default_max_matched_resources : ℤ
default_max_matched_resources = pos 1000

abbrev pub default_selected_input_bytes : ℤ
default_selected_input_bytes = pos (8 * 1024 * 1024)

abbrev pub default_produced_value_bytes : ℤ
default_produced_value_bytes = pos (8 * 1024 * 1024)

abbrev pub default_max_status_bytes : ℤ
default_max_status_bytes = pos (512 * 1024)

abbrev pub default_evaluation_timeout : ℤ
default_evaluation_timeout = pos (30 * second)

abbrev pub default_max_concurrent_reconciles : ℤ
default_max_concurrent_reconciles = pos 4

abbrev pub default_discovery_cache_entries : ℤ
default_discovery_cache_entries = pos 1024

abbrev pub default_discovery_cache_ttl : ℤ
default_discovery_cache_ttl = pos (5 * minute)

abbrev pub default_max_active_watches : ℤ
default_max_active_watches = pos 1024

abbrev pub default_max_pending_triggers : ℤ
default_max_pending_triggers = pos 4096

abbrev pub default_max_facet_sources : ℤ
default_max_facet_sources = pos 32

abbrev pub default_max_source_namespaces : ℤ
default_max_source_namespaces = pos 64

abbrev pub default_max_source_fields : ℤ
default_max_source_fields = pos 64

abbrev pub default_max_field_operators : ℤ
default_max_field_operators = pos 16

abbrev pub default_max_operator_values : ℤ
default_max_operator_values = pos 128

abbrev pub default_max_source_aggregations : ℤ
default_max_source_aggregations = pos 32

abbrev pub default_max_aggregation_group_by : ℤ
default_max_aggregation_group_by = pos 16

abbrev pub default_max_selector_match_expressions : ℤ
default_max_selector_match_expressions = pos 64

abbrev pub default_max_selector_expression_values : ℤ
default_max_selector_expression_values = pos 64

abbrev pub default_max_selector_match_labels : ℤ
default_max_selector_match_labels = pos 64

abbrev pub default_max_policy_namespace_names : ℤ
default_max_policy_namespace_names = pos 256

abbrev pub default_max_policy_resource_rules : ℤ
default_max_policy_resource_rules = pos 128

abbrev pub default_max_policy_api_groups : ℤ
default_max_policy_api_groups = pos 64

abbrev pub default_max_policy_kinds : ℤ
default_max_policy_kinds = pos 64

abbrev pub default_max_canonical_spec_bytes : ℤ
default_max_canonical_spec_bytes = pos 262144

abbrev pub default_max_aggregation_groups : ℤ
default_max_aggregation_groups = pos 1000

abbrev pub default_max_aggregation_contributions : ℤ
default_max_aggregation_contributions = pos 10000

abbrev pub default_max_aggregation_collected_values : ℤ
default_max_aggregation_collected_values = pos 10000

abbrev pub default_max_aggregation_distinct_values : ℤ
default_max_aggregation_distinct_values = pos 10000

abbrev pub default_max_aggregation_provenance : ℤ
default_max_aggregation_provenance = pos 10000

abbrev pub default_admission : AdmissionBudgets
default_admission = record {
  max_facet_sources = default_max_facet_sources;
  max_source_namespaces = default_max_source_namespaces;
  max_source_fields = default_max_source_fields;
  max_field_operators = default_max_field_operators;
  max_operator_values = default_max_operator_values;
  max_source_aggregations = default_max_source_aggregations;
  max_aggregation_group_by = default_max_aggregation_group_by;
  max_selector_match_expressions = default_max_selector_match_expressions;
  max_selector_expression_values = default_max_selector_expression_values;
  max_selector_match_labels = default_max_selector_match_labels;
  max_policy_namespace_names = default_max_policy_namespace_names;
  max_policy_resource_rules = default_max_policy_resource_rules;
  max_policy_api_groups = default_max_policy_api_groups;
  max_policy_kinds = default_max_policy_kinds;
  max_facet_spec_bytes = default_max_canonical_spec_bytes;
  max_access_policy_spec_bytes = default_max_canonical_spec_bytes;
}

abbrev pub default_aggregation : AggregationBudgets
default_aggregation = record {
  max_groups = default_max_aggregation_groups;
  max_contributions = default_max_aggregation_contributions;
  max_collected_values = default_max_aggregation_collected_values;
  max_distinct_values = default_max_aggregation_distinct_values;
  max_provenance_entries = default_max_aggregation_provenance;
}

-- `DefaultProfile()`.
abbrev pub default_profile : Profile
default_profile = record {
  page_size = default_page_size;
  max_matched_resources = default_max_matched_resources;
  max_selected_input_bytes = default_selected_input_bytes;
  max_produced_value_bytes = default_produced_value_bytes;
  max_status_bytes = default_max_status_bytes;
  evaluation_timeout = default_evaluation_timeout;
  max_concurrent_reconciles = default_max_concurrent_reconciles;
  discovery_cache_entries = default_discovery_cache_entries;
  discovery_cache_ttl = default_discovery_cache_ttl;
  max_active_watches = default_max_active_watches;
  max_pending_triggers = default_max_pending_triggers;
  admission = default_admission;
  aggregation = default_aggregation;
}
