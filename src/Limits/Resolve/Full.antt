-- ===== src/Limits/Resolve/Full.antt =====
-- The overrides of `Resolve` of internal/limits/profile.go that set every field.
use kubeseer.Prelude.{String, ◌≡◌, none, some, All, arith}
use kubeseer.Prelude.Int.{ℤ, pos, ◌≤ℤ◌}
use kubeseer.Limits.Profile.{Overrides, Profile}
use kubeseer.Limits.Settings.{refuse, free, capped, settings}
use kubeseer.Limits.Within.{IsWithin}

free_accepted : (name : String) (v : ℤ) → pos 1 ≤ℤ v → refuse (free name (some v)) ≡ none
unfolding refuse
free_accepted name v h = ground arith

capped_accepted :
    (name : String) (v c : ℤ) → (pos 1 ≤ℤ v) × (v ≤ℤ c) → refuse (capped name (some v) c) ≡ none
unfolding refuse
capped_accepted name v c h = ground arith

-- The overrides that set every field to its value in `p`.
abbrev pub overrides_of : Profile → Overrides
overrides_of p = record {
  page_size = some p.page_size;
  max_matched_resources = some p.max_matched_resources;
  max_selected_input_bytes = some p.max_selected_input_bytes;
  max_produced_value_bytes = some p.max_produced_value_bytes;
  max_status_bytes = some p.max_status_bytes;
  evaluation_timeout = some p.evaluation_timeout;
  max_concurrent_reconciles = some p.max_concurrent_reconciles;
  discovery_cache_entries = some p.discovery_cache_entries;
  discovery_cache_ttl = some p.discovery_cache_ttl;
  max_active_watches = some p.max_active_watches;
  max_pending_triggers = some p.max_pending_triggers;
  admission = record {
    max_facet_sources = some p.admission.max_facet_sources;
    max_source_namespaces = some p.admission.max_source_namespaces;
    max_source_fields = some p.admission.max_source_fields;
    max_field_operators = some p.admission.max_field_operators;
    max_operator_values = some p.admission.max_operator_values;
    max_source_aggregations = some p.admission.max_source_aggregations;
    max_aggregation_group_by = some p.admission.max_aggregation_group_by;
    max_selector_match_expressions = some p.admission.max_selector_match_expressions;
    max_selector_expression_values = some p.admission.max_selector_expression_values;
    max_selector_match_labels = some p.admission.max_selector_match_labels;
    max_policy_namespace_names = some p.admission.max_policy_namespace_names;
    max_policy_resource_rules = some p.admission.max_policy_resource_rules;
    max_policy_api_groups = some p.admission.max_policy_api_groups;
    max_policy_kinds = some p.admission.max_policy_kinds;
    max_facet_spec_bytes = some p.admission.max_facet_spec_bytes;
    max_access_policy_spec_bytes = some p.admission.max_access_policy_spec_bytes;
  };
  aggregation = record {
    max_groups = some p.aggregation.max_groups;
    max_contributions = some p.aggregation.max_contributions;
    max_collected_values = some p.aggregation.max_collected_values;
    max_distinct_values = some p.aggregation.max_distinct_values;
    max_provenance_entries = some p.aggregation.max_provenance_entries;
  };
}

pub IsWithin-accepted :
    (p : Profile) → IsWithin p → All (λ s. refuse s ≡ none) (settings (overrides_of p))
IsWithin-accepted p h = (
  free_accepted _ _ h.page_size,
  (
    free_accepted _ _ h.max_matched_resources,
    (
      free_accepted _ _ h.max_selected_input_bytes,
      (
        free_accepted _ _ h.max_produced_value_bytes,
        (
          free_accepted _ _ h.max_status_bytes,
          (
            free_accepted _ _ h.evaluation_timeout,
            (
              free_accepted _ _ h.max_concurrent_reconciles,
              (
                free_accepted _ _ h.discovery_cache_entries,
                (
                  free_accepted _ _ h.discovery_cache_ttl,
                  (
                    free_accepted _ _ h.max_active_watches,
                    (
                      free_accepted _ _ h.max_pending_triggers,
                      (
                        capped_accepted _ _ _ h.max_facet_sources,
                        (
                          capped_accepted _ _ _ h.max_source_namespaces,
                          (
                            capped_accepted _ _ _ h.max_source_fields,
                            (
                              capped_accepted _ _ _ h.max_field_operators,
                              (
                                capped_accepted _ _ _ h.max_operator_values,
                                (
                                  capped_accepted _ _ _ h.max_source_aggregations,
                                  (
                                    capped_accepted _ _ _ h.max_aggregation_group_by,
                                    (
                                      capped_accepted _ _ _ h.max_selector_match_expressions,
                                      (
                                        capped_accepted _ _ _ h.max_selector_expression_values,
                                        (
                                          capped_accepted _ _ _ h.max_selector_match_labels,
                                          (
                                            capped_accepted _ _ _ h.max_policy_namespace_names,
                                            (
                                              capped_accepted _ _ _ h.max_policy_resource_rules,
                                              (
                                                capped_accepted _ _ _ h.max_policy_api_groups,
                                                (
                                                  capped_accepted _ _ _ h.max_policy_kinds,
                                                  (
                                                    capped_accepted _ _ _ h.max_facet_spec_bytes,
                                                    (
                                                      capped_accepted _ _ _
                                                          h.max_access_policy_spec_bytes,
                                                      (
                                                        free_accepted _ _ h.max_groups,
                                                        (
                                                          free_accepted _ _ h.max_contributions,
                                                          (
                                                            free_accepted _ _
                                                            h.max_collected_values,
                                                            (
                                                            free_accepted _ _ h.max_distinct_values,
                                                            (
                                                            free_accepted _ _
                                                            h.max_provenance_entries,
                                                            (tt),
                                                            ),
                                                            ),
                                                          ),
                                                        ),
                                                      ),
                                                    ),
                                                  ),
                                                ),
                                              ),
                                            ),
                                          ),
                                        ),
                                      ),
                                    ),
                                  ),
                                ),
                              ),
                            ),
                          ),
                        ),
                      ),
                    ),
                  ),
                ),
              ),
            ),
          ),
        ),
      ),
    ),
  ),
)
