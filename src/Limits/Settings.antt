-- ===== src/Limits/Settings.antt =====
-- What `Resolve` of internal/limits/profile.go is to do, said independently of it: a list of settings, the first of them that is
-- refused, and the profile that accepted overrides give.
use kubeseer.Prelude.{String, Option, none, some, List, [], ◌∷◌, ◌++◌, if◌then◌else◌}
use kubeseer.Prelude.Int.{ℤ, pos, leb_ℤ, ltb_ℤ}
use kubeseer.Prelude.Result.{Result, ok, err}
use kubeseer.Limits.Profile.{
  AdmissionOverrides, AggregationOverrides, Overrides, AdmissionBudgets, AggregationBudgets,
  Profile, must_be_positive, exceeds_ceiling, InvalidConfigurationError,
}
use kubeseer.Limits.Defaults.{
  default_page_size, default_max_matched_resources, default_selected_input_bytes,
  default_produced_value_bytes, default_max_status_bytes, default_evaluation_timeout,
  default_max_concurrent_reconciles, default_discovery_cache_entries, default_discovery_cache_ttl,
  default_max_active_watches, default_max_pending_triggers, default_max_facet_sources,
  default_max_source_namespaces, default_max_source_fields, default_max_field_operators,
  default_max_operator_values, default_max_source_aggregations, default_max_aggregation_group_by,
  default_max_selector_match_expressions, default_max_selector_expression_values,
  default_max_selector_match_labels, default_max_policy_namespace_names,
  default_max_policy_resource_rules, default_max_policy_api_groups, default_max_policy_kinds,
  default_max_canonical_spec_bytes, default_max_aggregation_groups,
  default_max_aggregation_contributions, default_max_aggregation_collected_values,
  default_max_aggregation_distinct_values, default_max_aggregation_provenance,
}

-- A named override, with the ceiling above it, if it has one.
pub record Setting : Type 0 where
  pub name : String
  pub override : Option ℤ
  pub ceiling : Option ℤ

-- The reason to refuse a value that is set.
unfoldable pub refuse_value : String → ℤ → Option ℤ → Option InvalidConfigurationError
refuse_value name v ceiling =
    if leb_ℤ v (pos 0)
    then some (record { field = name; value = v; cause = must_be_positive })
    else elim ceiling [
      | none ↦ none
      | some c ↦
          if ltb_ℤ c v
          then some (record { field = name; value = v; cause = exceeds_ceiling })
          else none
    ]

unfoldable pub refuse : Setting → Option InvalidConfigurationError
unfolding refuse_value
refuse s = elim s.override [ none ↦ none | some v ↦ refuse_value s.name v s.ceiling ]

unfoldable pub or_else :
    Option InvalidConfigurationError
    → Option InvalidConfigurationError
    → Option InvalidConfigurationError
or_else none r = r
or_else (some e) r = some e

unfoldable pub first_refused : List Setting → Option InvalidConfigurationError
first_refused [] = none
first_refused (s ∷ rest) = or_else (refuse s) (first_refused rest)

abbrev pub outcome {ℓ} :
    {A : Type ℓ} → Option InvalidConfigurationError → A → Result InvalidConfigurationError A
outcome none a = ok a
outcome (some e) a = err e

abbrev pub free : String → Option ℤ → Setting
free name override = record { name = name; override = override; ceiling = none }

abbrev pub capped : String → Option ℤ → ℤ → Setting
capped name override c = record { name = name; override = override; ceiling = some c }

abbrev pub admission_settings : AdmissionOverrides → List Setting
admission_settings o =
    capped "admission.maxFacetSources" o.max_facet_sources default_max_facet_sources
    ∷ capped "admission.maxSourceNamespaces" o.max_source_namespaces default_max_source_namespaces
    ∷ capped "admission.maxSourceFields" o.max_source_fields default_max_source_fields
    ∷ capped "admission.maxFieldOperators" o.max_field_operators default_max_field_operators
    ∷ capped "admission.maxOperatorValues" o.max_operator_values default_max_operator_values
    ∷ capped "admission.maxSourceAggregations" o.max_source_aggregations
        default_max_source_aggregations
    ∷ capped "admission.maxAggregationGroupBy" o.max_aggregation_group_by
        default_max_aggregation_group_by
    ∷ capped "admission.maxSelectorMatchExpressions" o.max_selector_match_expressions
        default_max_selector_match_expressions
    ∷ capped "admission.maxSelectorExpressionValues" o.max_selector_expression_values
        default_max_selector_expression_values
    ∷ capped "admission.maxSelectorMatchLabels" o.max_selector_match_labels
        default_max_selector_match_labels
    ∷ capped "admission.maxPolicyNamespaceNames" o.max_policy_namespace_names
        default_max_policy_namespace_names
    ∷ capped "admission.maxPolicyResourceRules" o.max_policy_resource_rules
        default_max_policy_resource_rules
    ∷ capped "admission.maxPolicyAPIGroups" o.max_policy_api_groups default_max_policy_api_groups
    ∷ capped "admission.maxPolicyKinds" o.max_policy_kinds default_max_policy_kinds
    ∷ capped "admission.maxFacetSpecBytes" o.max_facet_spec_bytes default_max_canonical_spec_bytes
    ∷ capped "admission.maxAccessPolicySpecBytes" o.max_access_policy_spec_bytes
        default_max_canonical_spec_bytes
    ∷ []

abbrev pub aggregation_settings : AggregationOverrides → List Setting
aggregation_settings o =
    free "aggregation.maxGroups" o.max_groups
    ∷ free "aggregation.maxContributions" o.max_contributions
    ∷ free "aggregation.maxCollectedValues" o.max_collected_values
    ∷ free "aggregation.maxDistinctValues" o.max_distinct_values
    ∷ free "aggregation.maxProvenanceEntries" o.max_provenance_entries
    ∷ []

-- Every setting, in the order in which they are checked.
abbrev pub settings : Overrides → List Setting
settings o =
    free "pageSize" o.page_size
    ∷ free "maxMatchedResources" o.max_matched_resources
    ∷ free "maxSelectedInputBytes" o.max_selected_input_bytes
    ∷ free "maxProducedValueBytes" o.max_produced_value_bytes
    ∷ free "maxStatusBytes" o.max_status_bytes
    ∷ free "evaluationTimeout" o.evaluation_timeout
    ∷ free "maxConcurrentReconciles" o.max_concurrent_reconciles
    ∷ free "discoveryCacheEntries" o.discovery_cache_entries
    ∷ free "discoveryCacheTTL" o.discovery_cache_ttl
    ∷ free "maxActiveWatches" o.max_active_watches
    ∷ free "maxPendingTriggers" o.max_pending_triggers
    ∷ (admission_settings o.admission ++ (aggregation_settings o.aggregation ++ []))

abbrev pub or_default : Option ℤ → ℤ → ℤ
or_default none d = d
or_default (some v) d = v

abbrev pub effective_admission : AdmissionOverrides → AdmissionBudgets
effective_admission o = record {
  max_facet_sources = or_default o.max_facet_sources default_max_facet_sources;
  max_source_namespaces = or_default o.max_source_namespaces default_max_source_namespaces;
  max_source_fields = or_default o.max_source_fields default_max_source_fields;
  max_field_operators = or_default o.max_field_operators default_max_field_operators;
  max_operator_values = or_default o.max_operator_values default_max_operator_values;
  max_source_aggregations = or_default o.max_source_aggregations default_max_source_aggregations;
  max_aggregation_group_by = or_default o.max_aggregation_group_by default_max_aggregation_group_by;
  max_selector_match_expressions =
      or_default o.max_selector_match_expressions default_max_selector_match_expressions;
  max_selector_expression_values =
      or_default o.max_selector_expression_values default_max_selector_expression_values;
  max_selector_match_labels =
      or_default o.max_selector_match_labels default_max_selector_match_labels;
  max_policy_namespace_names =
      or_default o.max_policy_namespace_names default_max_policy_namespace_names;
  max_policy_resource_rules =
      or_default o.max_policy_resource_rules default_max_policy_resource_rules;
  max_policy_api_groups = or_default o.max_policy_api_groups default_max_policy_api_groups;
  max_policy_kinds = or_default o.max_policy_kinds default_max_policy_kinds;
  max_facet_spec_bytes = or_default o.max_facet_spec_bytes default_max_canonical_spec_bytes;
  max_access_policy_spec_bytes =
      or_default o.max_access_policy_spec_bytes default_max_canonical_spec_bytes;
}

abbrev pub effective_aggregation : AggregationOverrides → AggregationBudgets
effective_aggregation o = record {
  max_groups = or_default o.max_groups default_max_aggregation_groups;
  max_contributions = or_default o.max_contributions default_max_aggregation_contributions;
  max_collected_values = or_default o.max_collected_values default_max_aggregation_collected_values;
  max_distinct_values = or_default o.max_distinct_values default_max_aggregation_distinct_values;
  max_provenance_entries = or_default o.max_provenance_entries default_max_aggregation_provenance;
}

-- Each override where it is set, and the default elsewhere.
abbrev pub effective : Overrides → Profile
effective o = record {
  page_size = or_default o.page_size default_page_size;
  max_matched_resources = or_default o.max_matched_resources default_max_matched_resources;
  max_selected_input_bytes = or_default o.max_selected_input_bytes default_selected_input_bytes;
  max_produced_value_bytes = or_default o.max_produced_value_bytes default_produced_value_bytes;
  max_status_bytes = or_default o.max_status_bytes default_max_status_bytes;
  evaluation_timeout = or_default o.evaluation_timeout default_evaluation_timeout;
  max_concurrent_reconciles =
      or_default o.max_concurrent_reconciles default_max_concurrent_reconciles;
  discovery_cache_entries = or_default o.discovery_cache_entries default_discovery_cache_entries;
  discovery_cache_ttl = or_default o.discovery_cache_ttl default_discovery_cache_ttl;
  max_active_watches = or_default o.max_active_watches default_max_active_watches;
  max_pending_triggers = or_default o.max_pending_triggers default_max_pending_triggers;
  admission = effective_admission o.admission;
  aggregation = effective_aggregation o.aggregation;
}
