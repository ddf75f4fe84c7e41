-- ===== src/Limits/Resolve/Accept.antt =====
-- Settings that `Resolve` of internal/limits/profile.go accepts, and the range of the profile.
use kubeseer.Prelude.{String, ◌≡◌, refl, Option, none, some, List, [], ◌∷◌, All, arith}
use kubeseer.Prelude.Int.{ℤ, pos, ◌≤ℤ◌}
use kubeseer.Limits.Profile.{Overrides, InvalidConfigurationError}
use kubeseer.Limits.Settings.{
  Setting, refuse, or_else, first_refused, free, capped, settings, or_default, effective,
}
use kubeseer.Limits.Within.{IsWithin}

accepted_cons :
    (s : Setting) (rest : List Setting) (r : Option InvalidConfigurationError)
    → refuse s ≡ r
    → or_else r (first_refused rest) ≡ none
    → (refuse s ≡ none) × (first_refused rest ≡ none)
unfolding or_else
accepted_cons s rest none e h = (e, h)
accepted_cons s rest (some x) e h = cc

pub All-accepted : (xs : List Setting) → first_refused xs ≡ none → All (λ s. refuse s ≡ none) xs
unfolding first_refused
All-accepted [] h = tt
All-accepted (s ∷ rest) h =
    let (p, q) = accepted_cons s rest (refuse s) refl h in (p, All-accepted rest q)

pub none_refused : (xs : List Setting) → All (λ s. refuse s ≡ none) xs → first_refused xs ≡ none
unfolding first_refused or_else
none_refused [] h = refl
none_refused (s ∷ rest) h = rw h.0 (none_refused rest h.1)

module _ (d : ℤ) where
  free_positive :
      (f : String) (o : Option ℤ) → refuse (free f o) ≡ none → pos 1 ≤ℤ d → pos 1 ≤ℤ or_default o d
  unfolding refuse
  free_positive f o h k = ground arith

  capped_within :
      (f : String) (o : Option ℤ)
      → refuse (capped f o d) ≡ none
      → pos 1 ≤ℤ d
      → (pos 1 ≤ℤ or_default o d) × (or_default o d ≤ℤ d)
  unfolding refuse
  capped_within f o h k = ground arith

pub accepted-IsWithin :
    (o : Overrides) → All (λ s. refuse s ≡ none) (settings o) → IsWithin (effective o)
accepted-IsWithin o h = record {
  page_size = free_positive _ _ o.page_size h.0 (omega arith);
  max_matched_resources = free_positive _ _ o.max_matched_resources h.1.0 (omega arith);
  max_selected_input_bytes = free_positive _ _ o.max_selected_input_bytes h.1.1.0 (omega arith);
  max_produced_value_bytes = free_positive _ _ o.max_produced_value_bytes h.1.1.1.0 (omega arith);
  max_status_bytes = free_positive _ _ o.max_status_bytes h.1.1.1.1.0 (omega arith);
  evaluation_timeout = free_positive _ _ o.evaluation_timeout h.1.1.1.1.1.0 (omega arith);
  max_concurrent_reconciles =
      free_positive _ _ o.max_concurrent_reconciles h.1.1.1.1.1.1.0 (omega arith);
  discovery_cache_entries =
      free_positive _ _ o.discovery_cache_entries h.1.1.1.1.1.1.1.0 (omega arith);
  discovery_cache_ttl = free_positive _ _ o.discovery_cache_ttl h.1.1.1.1.1.1.1.1.0 (omega arith);
  max_active_watches = free_positive _ _ o.max_active_watches h.1.1.1.1.1.1.1.1.1.0 (omega arith);
  max_pending_triggers =
      free_positive _ _ o.max_pending_triggers h.1.1.1.1.1.1.1.1.1.1.0 (omega arith);
  max_facet_sources =
      capped_within _ _ o.admission.max_facet_sources h.1.1.1.1.1.1.1.1.1.1.1.0 (omega arith);
  max_source_namespaces =
      capped_within _ _ o.admission.max_source_namespaces h.1.1.1.1.1.1.1.1.1.1.1.1.0 (omega arith);
  max_source_fields =
      capped_within _ _ o.admission.max_source_fields h.1.1.1.1.1.1.1.1.1.1.1.1.1.0 (omega arith);
  max_field_operators =
      capped_within _ _ o.admission.max_field_operators h.1.1.1.1.1.1.1.1.1.1.1.1.1.1.0
        (omega arith);
  max_operator_values =
      capped_within _ _ o.admission.max_operator_values h.1.1.1.1.1.1.1.1.1.1.1.1.1.1.1.0
        (omega arith);
  max_source_aggregations =
      capped_within _ _ o.admission.max_source_aggregations h.1.1.1.1.1.1.1.1.1.1.1.1.1.1.1.1.0
        (omega arith);
  max_aggregation_group_by =
      capped_within _ _ o.admission.max_aggregation_group_by h.1.1.1.1.1.1.1.1.1.1.1.1.1.1.1.1.1.0
        (omega arith);
  max_selector_match_expressions =
      capped_within _ _ o.admission.max_selector_match_expressions
        h.1.1.1.1.1.1.1.1.1.1.1.1.1.1.1.1.1.1.0 (omega arith);
  max_selector_expression_values =
      capped_within _ _ o.admission.max_selector_expression_values
        h.1.1.1.1.1.1.1.1.1.1.1.1.1.1.1.1.1.1.1.0 (omega arith);
  max_selector_match_labels =
      capped_within _ _ o.admission.max_selector_match_labels
        h.1.1.1.1.1.1.1.1.1.1.1.1.1.1.1.1.1.1.1.1.0 (omega arith);
  max_policy_namespace_names =
      capped_within _ _ o.admission.max_policy_namespace_names
        h.1.1.1.1.1.1.1.1.1.1.1.1.1.1.1.1.1.1.1.1.1.0 (omega arith);
  max_policy_resource_rules =
      capped_within _ _ o.admission.max_policy_resource_rules
        h.1.1.1.1.1.1.1.1.1.1.1.1.1.1.1.1.1.1.1.1.1.1.0 (omega arith);
  max_policy_api_groups =
      capped_within _ _ o.admission.max_policy_api_groups
        h.1.1.1.1.1.1.1.1.1.1.1.1.1.1.1.1.1.1.1.1.1.1.1.0 (omega arith);
  max_policy_kinds =
      capped_within _ _ o.admission.max_policy_kinds
        h.1.1.1.1.1.1.1.1.1.1.1.1.1.1.1.1.1.1.1.1.1.1.1.1.0 (omega arith);
  max_facet_spec_bytes =
      capped_within _ _ o.admission.max_facet_spec_bytes
        h.1.1.1.1.1.1.1.1.1.1.1.1.1.1.1.1.1.1.1.1.1.1.1.1.1.0 (omega arith);
  max_access_policy_spec_bytes =
      capped_within _ _ o.admission.max_access_policy_spec_bytes
        h.1.1.1.1.1.1.1.1.1.1.1.1.1.1.1.1.1.1.1.1.1.1.1.1.1.1.0 (omega arith);
  max_groups =
      free_positive _ _ o.aggregation.max_groups
        h.1.1.1.1.1.1.1.1.1.1.1.1.1.1.1.1.1.1.1.1.1.1.1.1.1.1.1.0 (omega arith);
  max_contributions =
      free_positive _ _ o.aggregation.max_contributions
        h.1.1.1.1.1.1.1.1.1.1.1.1.1.1.1.1.1.1.1.1.1.1.1.1.1.1.1.1.0 (omega arith);
  max_collected_values =
      free_positive _ _ o.aggregation.max_collected_values
        h.1.1.1.1.1.1.1.1.1.1.1.1.1.1.1.1.1.1.1.1.1.1.1.1.1.1.1.1.1.0 (omega arith);
  max_distinct_values =
      free_positive _ _ o.aggregation.max_distinct_values
        h.1.1.1.1.1.1.1.1.1.1.1.1.1.1.1.1.1.1.1.1.1.1.1.1.1.1.1.1.1.1.0 (omega arith);
  max_provenance_entries =
      free_positive _ _ o.aggregation.max_provenance_entries
        h.1.1.1.1.1.1.1.1.1.1.1.1.1.1.1.1.1.1.1.1.1.1.1.1.1.1.1.1.1.1.1.0 (omega arith);
}
