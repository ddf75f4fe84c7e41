-- ===== src/Limits/Resolve/Laws.antt =====
-- `Resolve` of internal/limits/profile.go against its list of settings.
use mathlib.Core.Path.{subst}
use mathlib.Core.List.{append-nil}
use kubeseer.Prelude.{
  String, ◌≡◌, refl, sym, ap, ◌∙◌, Option, none, some, List, [], ◌∷◌, ◌++◌, arith,
}
use kubeseer.Prelude.Int.{ℤ, ◌≤ℤ◌}
use kubeseer.Prelude.Result.{Result, ok, ◌>>=◌}
use kubeseer.Limits.Profile.{
  AdmissionOverrides, AggregationOverrides, Overrides, AdmissionBudgets, AggregationBudgets,
  InvalidConfigurationError,
}
use kubeseer.Limits.Defaults.{default_admission, default_aggregation}
use kubeseer.Limits.Settings.{
  Setting, refuse, or_else, first_refused, outcome, free, capped, admission_settings,
  aggregation_settings, settings, or_default, effective_admission, effective_aggregation, effective,
}
use kubeseer.Limits.Resolve.{
  positive_int, positive_int64, positive_duration, bounded_admission, resolve_admission,
  resolve_aggregation, resolve,
}

module _ (name : String) (o : Option ℤ) (d : ℤ) where
  positive_int_lem : positive_int name o d ≡ outcome (refuse (free name o)) (or_default o d)
  unfolding positive_int refuse
  positive_int_lem = ground arith

  positive_int64_lem : positive_int64 name o d ≡ outcome (refuse (free name o)) (or_default o d)
  unfolding positive_int64 refuse
  positive_int64_lem = ground arith

  positive_duration_lem :
      positive_duration name o d ≡ outcome (refuse (free name o)) (or_default o d)
  unfolding positive_duration refuse
  positive_duration_lem = ground arith

bounded_admission_lem :
    (name : String) (o : Option ℤ) (d c : ℤ)
    → d ≤ℤ c
    → bounded_admission name o d c ≡ outcome (refuse (capped name o c)) (or_default o d)
unfolding bounded_admission refuse
bounded_admission_lem name o d c h = ground arith

-- One checked part in front of a chain of checks.
chain :
    {A B : Type 0} {m : Result InvalidConfigurationError A}
    (f : A → Result InvalidConfigurationError B) (r rest : Option InvalidConfigurationError) (a : A)
    (b : B)
    → m ≡ outcome r a
    → f a ≡ outcome rest b
    → (m >>= f) ≡ outcome (or_else r rest) b
unfolding or_else
chain f none rest a b p q = rw p q
chain f (some e) rest a b p q = rw p

or_else-none : (r : Option InvalidConfigurationError) → or_else r none ≡ r
unfolding or_else
or_else-none none = refl
or_else-none (some e) = refl

or_else_assoc :
    (r s t : Option InvalidConfigurationError) → or_else (or_else r s) t ≡ or_else r (or_else s t)
unfolding or_else
or_else_assoc none s t = refl
or_else_assoc (some e) s t = refl

first_refused-append :
    (xs ys : List Setting)
    → first_refused (xs ++ ys) ≡ or_else (first_refused xs) (first_refused ys)
unfolding first_refused or_else
first_refused-append [] ys = refl
first_refused-append (x ∷ xs) ys =
    ap (or_else (refuse x)) (first_refused-append xs ys)
    ∙ sym (or_else_assoc (refuse x) (first_refused xs) (first_refused ys))

resolve_aggregation_lem :
    (o : AggregationOverrides)
    → resolve_aggregation o default_aggregation
      ≡ outcome (first_refused (aggregation_settings o)) (effective_aggregation o)
unfolding resolve_aggregation first_refused
resolve_aggregation_lem o = chain _ _ _ _ _ (positive_int_lem _ o.max_groups _) (
    chain _ _ _ _ _ (positive_int_lem _ o.max_contributions _) (
      chain _ _ _ _ _ (positive_int_lem _ o.max_collected_values _) (
        chain _ _ _ _ _ (positive_int_lem _ o.max_distinct_values _)
          (chain _ _ _ _ _ (positive_int_lem _ o.max_provenance_entries _) refl))))

resolve_admission_lem :
    (o : AdmissionOverrides)
    → resolve_admission o default_admission
      ≡ outcome (first_refused (admission_settings o)) (effective_admission o)
unfolding resolve_admission first_refused
resolve_admission_lem o =
    chain _ _ _ _ _ (bounded_admission_lem _ o.max_facet_sources _ _ (omega arith)) (
      chain _ _ _ _ _ (bounded_admission_lem _ o.max_source_namespaces _ _ (omega arith)) (
        chain _ _ _ _ _ (bounded_admission_lem _ o.max_source_fields _ _ (omega arith)) (
          chain _ _ _ _ _ (bounded_admission_lem _ o.max_field_operators _ _ (omega arith)) (
            chain _ _ _ _ _ (bounded_admission_lem _ o.max_operator_values _ _ (omega arith)) (
              chain _ _ _ _ _ (bounded_admission_lem _ o.max_source_aggregations _ _ (omega arith))
                (chain _ _ _ _ _
                  (bounded_admission_lem _ o.max_aggregation_group_by _ _ (omega arith))
                  (chain _ _ _ _ _
                    (bounded_admission_lem _ o.max_selector_match_expressions _ _ (omega arith))
                    (chain _ _ _ _ _
                      (bounded_admission_lem _ o.max_selector_expression_values _ _ (omega arith))
                      (chain _ _ _ _ _
                        (bounded_admission_lem _ o.max_selector_match_labels _ _ (omega arith))
                        (chain _ _ _ _ _
                          (bounded_admission_lem _ o.max_policy_namespace_names _ _ (omega arith))
                          (chain _ _ _ _ _
                            (bounded_admission_lem _ o.max_policy_resource_rules _ _ (omega arith))
                            (chain _ _ _ _ _
                              (bounded_admission_lem _ o.max_policy_api_groups _ _ (omega arith))
                              (chain _ _ _ _ _
                                (bounded_admission_lem _ o.max_policy_kinds _ _ (omega arith))
                                (chain _ _ _ _ _
                                  (bounded_admission_lem _ o.max_facet_spec_bytes _ _ (omega arith))
                                  (chain _ _ _ _ _
                                    (bounded_admission_lem _ o.max_access_policy_spec_bytes _ _
                                      (omega arith))
                                    refl)))))))))))))))

budgets_lem :
    {B : Type 0} (a : AdmissionOverrides) (g : AggregationOverrides)
    (f : AdmissionBudgets → AggregationBudgets → B)
    → (resolve_admission a default_admission >>= λ x.
        resolve_aggregation g default_aggregation >>= λ y. ok (f x y))
      ≡ outcome
          (first_refused (admission_settings a ++ (aggregation_settings g ++ [])))
          (f (effective_admission a) (effective_aggregation g))
budgets_lem a g f =
    rw (first_refused-append (admission_settings a) (aggregation_settings g ++ [])) (
      chain _ _ _ _ _ (resolve_admission_lem a) (
        rw (append-nil (aggregation_settings g)) (
          subst
            (λ r.
              (resolve_aggregation g default_aggregation >>= λ y. ok (f (effective_admission a) y))
              ≡ outcome r (f (effective_admission a) (effective_aggregation g)))
            (or_else-none (first_refused (aggregation_settings g)))
            (chain _ _ none _ _ (resolve_aggregation_lem g) refl))))

-- `Resolve` returns the error of the first setting that is refused, in the order of the fields;
-- if none is, the profile has each override where it is set and the default elsewhere.
pub resolve_lem : (o : Overrides) → resolve o ≡ outcome (first_refused (settings o)) (effective o)
unfolding resolve first_refused
resolve_lem o = chain _ _ _ _ _ (positive_int64_lem _ o.page_size _) (
    chain _ _ _ _ _ (positive_int_lem _ o.max_matched_resources _) (
      chain _ _ _ _ _ (positive_int64_lem _ o.max_selected_input_bytes _) (
        chain _ _ _ _ _ (positive_int64_lem _ o.max_produced_value_bytes _) (
          chain _ _ _ _ _ (positive_int64_lem _ o.max_status_bytes _) (
            chain _ _ _ _ _ (positive_duration_lem _ o.evaluation_timeout _) (
              chain _ _ _ _ _ (positive_int_lem _ o.max_concurrent_reconciles _) (
                chain _ _ _ _ _ (positive_int_lem _ o.discovery_cache_entries _) (
                  chain _ _ _ _ _ (positive_duration_lem _ o.discovery_cache_ttl _) (
                    chain _ _ _ _ _ (positive_int_lem _ o.max_active_watches _) (
                      chain _ _ _ _ _ (positive_int_lem _ o.max_pending_triggers _)
                        (budgets_lem o.admission o.aggregation _)))))))))))
