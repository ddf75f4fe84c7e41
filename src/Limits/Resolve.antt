-- ===== src/Limits/Resolve.antt =====
-- internal/limits/profile.go: `Resolve` and its helpers, and `Valid`.
pub mod Laws
pub mod Accept
pub mod Full
pub mod Range
use kubeseer.Prelude.{String, Option, none, some, Bool, ◌&&◌, if◌then◌else◌}
use kubeseer.Prelude.Int.{ℤ, pos, leb_ℤ, ltb_ℤ}
use kubeseer.Prelude.Result.{Result, ok, err, ◌>>=◌}
use kubeseer.Limits.Profile.{
  AdmissionOverrides, AggregationOverrides, Overrides, AdmissionBudgets, AggregationBudgets,
  Profile, must_be_positive, exceeds_ceiling, InvalidConfigurationError,
}
use kubeseer.Limits.Defaults.{
  default_max_facet_sources, default_max_source_namespaces, default_max_source_fields,
  default_max_field_operators, default_max_operator_values, default_max_source_aggregations,
  default_max_aggregation_group_by, default_max_selector_match_expressions,
  default_max_selector_expression_values, default_max_selector_match_labels,
  default_max_policy_namespace_names, default_max_policy_resource_rules,
  default_max_policy_api_groups, default_max_policy_kinds, default_max_canonical_spec_bytes,
  default_profile,
}

unfoldable pub invalid : String → ℤ → InvalidConfigurationError
invalid field value = record { field = field; value = value; cause = must_be_positive }

unfoldable pub positive_int : String → Option ℤ → ℤ → Result InvalidConfigurationError ℤ
unfolding invalid
positive_int field none fallback = ok fallback
positive_int field (some override) fallback =
    if leb_ℤ override (pos 0) then err (invalid field override) else ok override

unfoldable pub positive_int64 : String → Option ℤ → ℤ → Result InvalidConfigurationError ℤ
unfolding invalid
positive_int64 field none fallback = ok fallback
positive_int64 field (some override) fallback =
    if leb_ℤ override (pos 0) then err (invalid field override) else ok override

unfoldable pub positive_duration : String → Option ℤ → ℤ → Result InvalidConfigurationError ℤ
unfolding invalid
positive_duration field none fallback = ok fallback
positive_duration field (some override) fallback =
    if leb_ℤ override (pos 0) then err (invalid field override) else ok override

unfoldable pub bounded_admission : String → Option ℤ → ℤ → ℤ → Result InvalidConfigurationError ℤ
unfolding positive_int
bounded_admission field override fallback ceiling = do
  value ← positive_int field override fallback
  if ltb_ℤ ceiling value
      then err (record { field = field; value = value; cause = exceeds_ceiling })
      else ok value

unfoldable pub resolve_admission :
    AdmissionOverrides → AdmissionBudgets → Result InvalidConfigurationError AdmissionBudgets
resolve_admission overrides defaults = do
  max_facet_sources ←
      bounded_admission "admission.maxFacetSources" overrides.max_facet_sources
        defaults.max_facet_sources default_max_facet_sources
  max_source_namespaces ←
      bounded_admission "admission.maxSourceNamespaces" overrides.max_source_namespaces
        defaults.max_source_namespaces default_max_source_namespaces
  max_source_fields ←
      bounded_admission "admission.maxSourceFields" overrides.max_source_fields
        defaults.max_source_fields default_max_source_fields
  max_field_operators ←
      bounded_admission "admission.maxFieldOperators" overrides.max_field_operators
        defaults.max_field_operators default_max_field_operators
  max_operator_values ←
      bounded_admission "admission.maxOperatorValues" overrides.max_operator_values
        defaults.max_operator_values default_max_operator_values
  max_source_aggregations ←
      bounded_admission "admission.maxSourceAggregations" overrides.max_source_aggregations
        defaults.max_source_aggregations default_max_source_aggregations
  max_aggregation_group_by ←
      bounded_admission "admission.maxAggregationGroupBy" overrides.max_aggregation_group_by
        defaults.max_aggregation_group_by default_max_aggregation_group_by
  max_selector_match_expressions ←
      bounded_admission "admission.maxSelectorMatchExpressions"
        overrides.max_selector_match_expressions defaults.max_selector_match_expressions
        default_max_selector_match_expressions
  max_selector_expression_values ←
      bounded_admission "admission.maxSelectorExpressionValues"
        overrides.max_selector_expression_values defaults.max_selector_expression_values
        default_max_selector_expression_values
  max_selector_match_labels ←
      bounded_admission "admission.maxSelectorMatchLabels" overrides.max_selector_match_labels
        defaults.max_selector_match_labels default_max_selector_match_labels
  max_policy_namespace_names ←
      bounded_admission "admission.maxPolicyNamespaceNames" overrides.max_policy_namespace_names
        defaults.max_policy_namespace_names default_max_policy_namespace_names
  max_policy_resource_rules ←
      bounded_admission "admission.maxPolicyResourceRules" overrides.max_policy_resource_rules
        defaults.max_policy_resource_rules default_max_policy_resource_rules
  max_policy_api_groups ←
      bounded_admission "admission.maxPolicyAPIGroups" overrides.max_policy_api_groups
        defaults.max_policy_api_groups default_max_policy_api_groups
  max_policy_kinds ←
      bounded_admission "admission.maxPolicyKinds" overrides.max_policy_kinds
        defaults.max_policy_kinds default_max_policy_kinds
  max_facet_spec_bytes ←
      bounded_admission "admission.maxFacetSpecBytes" overrides.max_facet_spec_bytes
        defaults.max_facet_spec_bytes default_max_canonical_spec_bytes
  max_access_policy_spec_bytes ←
      bounded_admission "admission.maxAccessPolicySpecBytes" overrides.max_access_policy_spec_bytes
        defaults.max_access_policy_spec_bytes default_max_canonical_spec_bytes
  ok (record {
    max_facet_sources = max_facet_sources;
    max_source_namespaces = max_source_namespaces;
    max_source_fields = max_source_fields;
    max_field_operators = max_field_operators;
    max_operator_values = max_operator_values;
    max_source_aggregations = max_source_aggregations;
    max_aggregation_group_by = max_aggregation_group_by;
    max_selector_match_expressions = max_selector_match_expressions;
    max_selector_expression_values = max_selector_expression_values;
    max_selector_match_labels = max_selector_match_labels;
    max_policy_namespace_names = max_policy_namespace_names;
    max_policy_resource_rules = max_policy_resource_rules;
    max_policy_api_groups = max_policy_api_groups;
    max_policy_kinds = max_policy_kinds;
    max_facet_spec_bytes = max_facet_spec_bytes;
    max_access_policy_spec_bytes = max_access_policy_spec_bytes;
  })

unfoldable pub resolve_aggregation :
    AggregationOverrides → AggregationBudgets → Result InvalidConfigurationError AggregationBudgets
resolve_aggregation overrides defaults = do
  max_groups ← positive_int "aggregation.maxGroups" overrides.max_groups defaults.max_groups
  max_contributions ←
      positive_int "aggregation.maxContributions" overrides.max_contributions
        defaults.max_contributions
  max_collected_values ←
      positive_int "aggregation.maxCollectedValues" overrides.max_collected_values
        defaults.max_collected_values
  max_distinct_values ←
      positive_int "aggregation.maxDistinctValues" overrides.max_distinct_values
        defaults.max_distinct_values
  max_provenance_entries ←
      positive_int "aggregation.maxProvenanceEntries" overrides.max_provenance_entries
        defaults.max_provenance_entries
  ok (record {
    max_groups = max_groups;
    max_contributions = max_contributions;
    max_collected_values = max_collected_values;
    max_distinct_values = max_distinct_values;
    max_provenance_entries = max_provenance_entries;
  })

unfoldable pub resolve : Overrides → Result InvalidConfigurationError Profile
resolve overrides = do
  let profile = default_profile
  page_size ← positive_int64 "pageSize" overrides.page_size profile.page_size
  max_matched_resources ←
      positive_int "maxMatchedResources" overrides.max_matched_resources
        profile.max_matched_resources
  max_selected_input_bytes ←
      positive_int64 "maxSelectedInputBytes" overrides.max_selected_input_bytes
        profile.max_selected_input_bytes
  max_produced_value_bytes ←
      positive_int64 "maxProducedValueBytes" overrides.max_produced_value_bytes
        profile.max_produced_value_bytes
  max_status_bytes ←
      positive_int64 "maxStatusBytes" overrides.max_status_bytes profile.max_status_bytes
  evaluation_timeout ←
      positive_duration "evaluationTimeout" overrides.evaluation_timeout profile.evaluation_timeout
  max_concurrent_reconciles ←
      positive_int "maxConcurrentReconciles" overrides.max_concurrent_reconciles
        profile.max_concurrent_reconciles
  discovery_cache_entries ←
      positive_int "discoveryCacheEntries" overrides.discovery_cache_entries
        profile.discovery_cache_entries
  discovery_cache_ttl ←
      positive_duration "discoveryCacheTTL" overrides.discovery_cache_ttl
        profile.discovery_cache_ttl
  max_active_watches ←
      positive_int "maxActiveWatches" overrides.max_active_watches profile.max_active_watches
  max_pending_triggers ←
      positive_int "maxPendingTriggers" overrides.max_pending_triggers profile.max_pending_triggers
  admission ← resolve_admission overrides.admission profile.admission
  aggregation ← resolve_aggregation overrides.aggregation profile.aggregation
  ok (record {
    page_size = page_size;
    max_matched_resources = max_matched_resources;
    max_selected_input_bytes = max_selected_input_bytes;
    max_produced_value_bytes = max_produced_value_bytes;
    max_status_bytes = max_status_bytes;
    evaluation_timeout = evaluation_timeout;
    max_concurrent_reconciles = max_concurrent_reconciles;
    discovery_cache_entries = discovery_cache_entries;
    discovery_cache_ttl = discovery_cache_ttl;
    max_active_watches = max_active_watches;
    max_pending_triggers = max_pending_triggers;
    admission = admission;
    aggregation = aggregation;
  })

unfoldable pub valid : Profile → Bool
valid p =
    ltb_ℤ (pos 0) p.page_size
    && ltb_ℤ (pos 0) p.max_matched_resources
    && ltb_ℤ (pos 0) p.max_selected_input_bytes
    && ltb_ℤ (pos 0) p.max_produced_value_bytes
    && ltb_ℤ (pos 0) p.max_status_bytes
    && ltb_ℤ (pos 0) p.evaluation_timeout
    && ltb_ℤ (pos 0) p.max_concurrent_reconciles
    && ltb_ℤ (pos 0) p.discovery_cache_entries
    && ltb_ℤ (pos 0) p.discovery_cache_ttl
    && ltb_ℤ (pos 0) p.max_active_watches
    && ltb_ℤ (pos 0) p.max_pending_triggers
    && ltb_ℤ (pos 0) p.admission.max_facet_sources
    && ltb_ℤ (pos 0) p.aggregation.max_groups
