-- ===== src/Admission/Profiles.antt =====
-- The budgets of internal/admission/budgets.go that come from a profile of internal/limits/profile.go.
use kubeseer.Prelude.{ℕ, ◌≡◌, Option, none, some, All-map, arith, length}
use kubeseer.Prelude.Int.{ℤ, pos, ◌≤ℤ◌}
use kubeseer.Facet.{FacetSpec, FacetSource, FacetField, NamespaceSelection, ResourceSelector}
use kubeseer.AccessPolicy.Policy.{FacetAccessPolicy}
use kubeseer.Limits.Profile.{Profile}
use kubeseer.Limits.Within.{IsWithin}
use kubeseer.Admission.Limits.{
  Limits, limits_from_profile, default_limits, positive_or, normalize_limits,
}
use kubeseer.Admission.Budgets.{option_length}
use kubeseer.Admission.Fits.{
  Encodes, FitsField, FitsNamespaces, FitsSelector, FitsSource, FitsFacet, FitsPolicy,
}

positive_or_lem : (v d : ℤ) → pos 1 ≤ℤ v → positive_or v d ≡ v
unfolding positive_or
positive_or_lem v d h = ground arith

-- Every budget of the first is at most that of the second.
pub record AreWithin (l m : Limits) : Type 0 where
  max_facet_sources : l.max_facet_sources ≤ℤ m.max_facet_sources
  max_source_namespaces : l.max_source_namespaces ≤ℤ m.max_source_namespaces
  max_source_fields : l.max_source_fields ≤ℤ m.max_source_fields
  max_field_operators : l.max_field_operators ≤ℤ m.max_field_operators
  max_operator_values : l.max_operator_values ≤ℤ m.max_operator_values
  max_source_aggregations : l.max_source_aggregations ≤ℤ m.max_source_aggregations
  max_aggregation_group_by : l.max_aggregation_group_by ≤ℤ m.max_aggregation_group_by
  max_selector_match_expressions :
      l.max_selector_match_expressions ≤ℤ m.max_selector_match_expressions
  max_selector_expression_values :
      l.max_selector_expression_values ≤ℤ m.max_selector_expression_values
  max_selector_match_labels : l.max_selector_match_labels ≤ℤ m.max_selector_match_labels
  max_policy_namespace_names : l.max_policy_namespace_names ≤ℤ m.max_policy_namespace_names
  max_policy_resource_rules : l.max_policy_resource_rules ≤ℤ m.max_policy_resource_rules
  max_policy_api_groups : l.max_policy_api_groups ≤ℤ m.max_policy_api_groups
  max_policy_kinds : l.max_policy_kinds ≤ℤ m.max_policy_kinds
  max_facet_spec_bytes : l.max_facet_spec_bytes ≤ℤ m.max_facet_spec_bytes
  max_access_policy_spec_bytes : l.max_access_policy_spec_bytes ≤ℤ m.max_access_policy_spec_bytes

pub IsWithin-normalized :
    (p : Profile) → IsWithin p → normalize_limits (limits_from_profile p) ≡ limits_from_profile p
unfolding normalize_limits limits_from_profile
IsWithin-normalized p w = rw (
  positive_or_lem p.admission.max_facet_sources default_limits.max_facet_sources
      w.max_facet_sources.0,
  positive_or_lem p.admission.max_source_namespaces default_limits.max_source_namespaces
      w.max_source_namespaces.0,
  positive_or_lem p.admission.max_source_fields default_limits.max_source_fields
      w.max_source_fields.0,
  positive_or_lem p.admission.max_field_operators default_limits.max_field_operators
      w.max_field_operators.0,
  positive_or_lem p.admission.max_operator_values default_limits.max_operator_values
      w.max_operator_values.0,
  positive_or_lem p.admission.max_source_aggregations default_limits.max_source_aggregations
      w.max_source_aggregations.0,
  positive_or_lem p.admission.max_aggregation_group_by default_limits.max_aggregation_group_by
      w.max_aggregation_group_by.0,
  positive_or_lem p.admission.max_selector_match_expressions
      default_limits.max_selector_match_expressions w.max_selector_match_expressions.0,
  positive_or_lem p.admission.max_selector_expression_values
      default_limits.max_selector_expression_values w.max_selector_expression_values.0,
  positive_or_lem p.admission.max_selector_match_labels default_limits.max_selector_match_labels
      w.max_selector_match_labels.0,
  positive_or_lem p.admission.max_policy_namespace_names default_limits.max_policy_namespace_names
      w.max_policy_namespace_names.0,
  positive_or_lem p.admission.max_policy_resource_rules default_limits.max_policy_resource_rules
      w.max_policy_resource_rules.0,
  positive_or_lem p.admission.max_policy_api_groups default_limits.max_policy_api_groups
      w.max_policy_api_groups.0,
  positive_or_lem p.admission.max_policy_kinds default_limits.max_policy_kinds w.max_policy_kinds.0,
  positive_or_lem p.admission.max_facet_spec_bytes default_limits.max_facet_spec_bytes
      w.max_facet_spec_bytes.0,
  positive_or_lem p.admission.max_access_policy_spec_bytes
      default_limits.max_access_policy_spec_bytes w.max_access_policy_spec_bytes.0,
)

pub IsWithin-default : (p : Profile) → IsWithin p → AreWithin (limits_from_profile p) default_limits
unfolding limits_from_profile default_limits
IsWithin-default p w = record {
  max_facet_sources = w.max_facet_sources.1;
  max_source_namespaces = w.max_source_namespaces.1;
  max_source_fields = w.max_source_fields.1;
  max_field_operators = w.max_field_operators.1;
  max_operator_values = w.max_operator_values.1;
  max_source_aggregations = w.max_source_aggregations.1;
  max_aggregation_group_by = w.max_aggregation_group_by.1;
  max_selector_match_expressions = w.max_selector_match_expressions.1;
  max_selector_expression_values = w.max_selector_expression_values.1;
  max_selector_match_labels = w.max_selector_match_labels.1;
  max_policy_namespace_names = w.max_policy_namespace_names.1;
  max_policy_resource_rules = w.max_policy_resource_rules.1;
  max_policy_api_groups = w.max_policy_api_groups.1;
  max_policy_kinds = w.max_policy_kinds.1;
  max_facet_spec_bytes = w.max_facet_spec_bytes.1;
  max_access_policy_spec_bytes = w.max_access_policy_spec_bytes.1;
}

≤ℤ-trans : (n : ℕ) (a b : ℤ) → a ≤ℤ b → pos n ≤ℤ a → pos n ≤ℤ b
≤ℤ-trans n a b h k = omega (arith, h, k)

module _ (l m : Limits) (w : AreWithin l m) where
  Encodes-within : (size : Option ℕ) (a b : ℤ) → a ≤ℤ b → Encodes size a → Encodes size b
  Encodes-within none a b h k = k
  Encodes-within (some n) a b h k = ≤ℤ-trans n a b h k

  FitsField-within : (f : FacetField) → FitsField l f → FitsField m f
  FitsField-within f h = (
    ≤ℤ-trans (length f.operators) _ _ w.max_field_operators h.0,
    All-map (λ o. ≤ℤ-trans (length o.values) _ _ w.max_operator_values) f.operators h.1,
  )

  FitsNamespaces-within : (s : Option NamespaceSelection) → FitsNamespaces l s → FitsNamespaces m s
  FitsNamespaces-within none h = h
  FitsNamespaces-within (some s) h = ≤ℤ-trans (length s.names) _ _ w.max_source_namespaces h

  FitsSelector-within : (s : Option ResourceSelector) → FitsSelector l s → FitsSelector m s
  FitsSelector-within none h = h
  FitsSelector-within (some s) ((a, b), c) = (
    (
      ≤ℤ-trans (length s.match_expressions) _ _ w.max_selector_match_expressions a,
      ≤ℤ-trans (length s.match_labels) _ _ w.max_selector_match_labels b,
    ),
    All-map (λ e. ≤ℤ-trans (length e.values) _ _ w.max_selector_expression_values)
        s.match_expressions c,
  )

  FitsSource-within : (s : FacetSource) → FitsSource l s → FitsSource m s
  FitsSource-within s h = record {
    namespaces = FitsNamespaces-within s.namespaces h.namespaces;
    field_count = ≤ℤ-trans (length s.fields) _ _ w.max_source_fields h.field_count;
    each_field = All-map FitsField-within s.fields h.each_field;
    aggregation_count =
        ≤ℤ-trans (length s.aggregations) _ _ w.max_source_aggregations h.aggregation_count;
    each_aggregation =
        All-map (λ a. ≤ℤ-trans (length a.group_by) _ _ w.max_aggregation_group_by) s.aggregations
          h.each_aggregation;
    selector = FitsSelector-within s.selector h.selector;
  }

  pub FitsFacet-within :
      (spec : FacetSpec) (size : Option ℕ) → FitsFacet l spec size → FitsFacet m spec size
  FitsFacet-within spec size h = record {
    source_count = ≤ℤ-trans (length spec.sources) _ _ w.max_facet_sources h.source_count;
    each_source = All-map FitsSource-within spec.sources h.each_source;
    encoded = Encodes-within size _ _ w.max_facet_spec_bytes h.encoded;
  }

  pub FitsPolicy-within :
      (p : FacetAccessPolicy) (size : Option ℕ) → FitsPolicy l p size → FitsPolicy m p size
  FitsPolicy-within p size h = record {
    included = ≤ℤ-trans (length p.namespaces.include) _ _ w.max_policy_namespace_names h.included;
    excluded = ≤ℤ-trans (length p.namespaces.exclude) _ _ w.max_policy_namespace_names h.excluded;
    system =
        ≤ℤ-trans (option_length p.namespaces.system_namespaces) _ _ w.max_policy_namespace_names
          h.system;
    rule_count = ≤ℤ-trans (length p.resources) _ _ w.max_policy_resource_rules h.rule_count;
    each_rule =
        All-map
          (λ r k. (
            ≤ℤ-trans (length r.api_groups) _ _ w.max_policy_api_groups k.0,
            ≤ℤ-trans (length r.kinds) _ _ w.max_policy_kinds k.1,
          ))
          p.resources h.each_rule;
    encoded = Encodes-within size _ _ w.max_access_policy_spec_bytes h.encoded;
  }
