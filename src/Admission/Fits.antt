-- ===== src/Admission/Fits.antt =====
-- internal/admission/budgets.go against what fits the budgets, said of the proposed object.
use kubeseer.Prelude.{
  ℕ, suc, String, ◌≡◌, ◌↔◌, refl, Option, none, some, List, [], ◌∷◌, ◌++◌, length, All, arith,
}
use kubeseer.Prelude.Int.{ℤ, pos, ◌≤ℤ◌}
use kubeseer.Facet.{
  FacetSpec, FacetSource, FacetField, FacetOperator, FacetAggregation, NamespaceSelection,
  ResourceSelector, LabelSelectorRequirement,
}
use kubeseer.AccessPolicy.Policy.{FacetAccessPolicy, ResourceRule}
use kubeseer.Admission.Limits.{Limits, normalize_limits}
use kubeseer.Admission.Budgets.{
  BudgetIssue, indexed, cardinality_issue, spec_size_issue, indexed_issues, option_length,
  operator_issues, field_issues, aggregation_issues, expression_issues, namespaces_issues,
  selector_issues, source_issues, facet_issues, rule_issues, policy_issues,
  validate_facet_budgets_with_limits, validate_access_policy_budgets_with_limits,
}

abbrev Counts : ℕ → ℤ → Type 0
Counts size limit = pos size ≤ℤ limit

abbrev pub Encodes : Option ℕ → ℤ → Type 0
Encodes none limit = ⊥
Encodes (some size) limit = Counts size limit

module _ (l : Limits) where
  abbrev pub FitsOperator : FacetOperator → Type 0
  FitsOperator o = Counts (length o.values) l.max_operator_values

  abbrev pub FitsField : FacetField → Type 0
  FitsField f = Counts (length f.operators) l.max_field_operators × All FitsOperator f.operators

  abbrev pub FitsAggregation : FacetAggregation → Type 0
  FitsAggregation a = Counts (length a.group_by) l.max_aggregation_group_by

  abbrev pub FitsExpression : LabelSelectorRequirement → Type 0
  FitsExpression e = Counts (length e.values) l.max_selector_expression_values

  abbrev pub FitsNamespaces : Option NamespaceSelection → Type 0
  FitsNamespaces none = Unit
  FitsNamespaces (some s) = Counts (length s.names) l.max_source_namespaces

  abbrev pub FitsSelector : Option ResourceSelector → Type 0
  FitsSelector none = Unit
  FitsSelector (some s) =
      (Counts (length s.match_expressions) l.max_selector_match_expressions
        × Counts (length s.match_labels) l.max_selector_match_labels)
      × All FitsExpression s.match_expressions

  pub record FitsSource (s : FacetSource) : Type 0 where
    pub namespaces : FitsNamespaces s.namespaces
    pub field_count : Counts (length s.fields) l.max_source_fields
    pub each_field : All FitsField s.fields
    pub aggregation_count : Counts (length s.aggregations) l.max_source_aggregations
    pub each_aggregation : All FitsAggregation s.aggregations
    pub selector : FitsSelector s.selector

  -- The specification of a Facet and the size of its encoding fit the limits.
  pub record FitsFacet (spec : FacetSpec) (size : Option ℕ) : Type 0 where
    pub source_count : Counts (length spec.sources) l.max_facet_sources
    pub each_source : All FitsSource spec.sources
    pub encoded : Encodes size l.max_facet_spec_bytes

  abbrev pub FitsRule : ResourceRule → Type 0
  FitsRule r =
      Counts (length r.api_groups) l.max_policy_api_groups
      × Counts (length r.kinds) l.max_policy_kinds

  pub record FitsPolicy (p : FacetAccessPolicy) (size : Option ℕ) : Type 0 where
    pub included : Counts (length p.namespaces.include) l.max_policy_namespace_names
    pub excluded : Counts (length p.namespaces.exclude) l.max_policy_namespace_names
    pub system : Counts (option_length p.namespaces.system_namespaces) l.max_policy_namespace_names
    pub rule_count : Counts (length p.resources) l.max_policy_resource_rules
    pub each_rule : All FitsRule p.resources
    pub encoded : Encodes size l.max_access_policy_spec_bytes

append-nil_iff : (xs ys : List BudgetIssue) → (xs ++ ys ≡ []) ↔ ((xs ≡ []) × (ys ≡ []))
append-nil_iff [] ys = (λ h. (refl, h), λ h. h.1)
append-nil_iff (x ∷ xs) ys = (λ h. cc, λ h. cc)

cardinality_issue_iff :
    (path : String) (size : ℕ) (limit : ℤ)
    → (cardinality_issue path size limit ≡ []) ↔ Counts size limit
unfolding cardinality_issue
cardinality_issue_iff path size limit = ground arith

spec_size_issue_iff :
    (path : String) (size : Option ℕ) (limit : ℤ)
    → (spec_size_issue path size limit ≡ []) ↔ Encodes size limit
unfolding spec_size_issue
spec_size_issue_iff path none limit = (λ h. cc, λ h. absurd h)
spec_size_issue_iff path (some size) limit = ground arith

indexed_issues_iff :
    {A : Type 0} {P : A → Type 0} (check : String → A → List BudgetIssue)
    → ((path : String) (x : A) → (check path x ≡ []) ↔ P x)
    → (path : String) (n : ℕ) (xs : List A) → (indexed_issues check path n xs ≡ []) ↔ All P xs
unfolding indexed_issues
indexed_issues_iff check each path n [] = (λ h. tt, λ h. refl)
indexed_issues_iff check each path n (x ∷ xs) =
    let here = each (indexed path (pos n)) x in
    let later = indexed_issues_iff check each path (suc n) xs in
    let both =
      append-nil_iff (check (indexed path (pos n)) x) (indexed_issues check path (suc n) xs) in
    (λ h. let (a, b) = both.0 h in (here.0 a, later.0 b), λ h. both.1 (here.1 h.0, later.1 h.1))

-- Two checks in a row report nothing exactly where neither does.
both_iff :
    {P Q : Type 0} (xs ys : List BudgetIssue)
    → (xs ≡ []) ↔ P
    → (ys ≡ []) ↔ Q
    → (xs ++ ys ≡ []) ↔ (P × Q)
both_iff xs ys p q = (
  λ h. let (a, b) = (append-nil_iff xs ys).0 h in (p.0 a, q.0 b),
  λ h. (append-nil_iff xs ys).1 (p.1 h.0, q.1 h.1),
)

module _ (l : Limits) where
  field_issues_iff : (path : String) (f : FacetField) → (field_issues l path f ≡ []) ↔ FitsField l f
  unfolding field_issues
  field_issues_iff path f = both_iff _ _ (cardinality_issue_iff _ _ _) (
      indexed_issues_iff (operator_issues l)
        (λ p o. unfold operator_issues in cardinality_issue_iff _ _ _) _ _ _)

  namespaces_issues_iff :
      (path : String) (s : Option NamespaceSelection)
      → (namespaces_issues l path s ≡ []) ↔ FitsNamespaces l s
  unfolding namespaces_issues
  namespaces_issues_iff path none = (λ h. tt, λ h. refl)
  namespaces_issues_iff path (some s) = cardinality_issue_iff _ _ _

  selector_issues_iff :
      (path : String) (s : Option ResourceSelector)
      → (selector_issues l path s ≡ []) ↔ FitsSelector l s
  unfolding selector_issues
  selector_issues_iff path none = (λ h. tt, λ h. refl)
  selector_issues_iff path (some s) =
      both_iff _ _ (both_iff _ _ (cardinality_issue_iff _ _ _) (cardinality_issue_iff _ _ _)) (
        indexed_issues_iff (expression_issues l)
          (λ p e. unfold expression_issues in cardinality_issue_iff _ _ _) _ _ _)

  source_issues_iff :
      (path : String) (s : FacetSource) → (source_issues l path s ≡ []) ↔ FitsSource l s
  unfolding source_issues
  source_issues_iff path s =
      let parts =
        both_iff _ _
          (both_iff _ _
            (both_iff _ _
              (both_iff _ _
                (both_iff _ _ (namespaces_issues_iff path s.namespaces)
                  (cardinality_issue_iff _ _ _))
                (indexed_issues_iff (field_issues l) field_issues_iff _ _ _))
              (cardinality_issue_iff _ _ _))
            (indexed_issues_iff (aggregation_issues l)
              (λ p a. unfold aggregation_issues in cardinality_issue_iff _ _ _) _ _ _))
          (selector_issues_iff _ s.selector) in
      (
        λ h.
            let (((((a, b), c), d), e), f) = parts.0 h in
            record {
              namespaces = a;
              field_count = b;
              each_field = c;
              aggregation_count = d;
              each_aggregation = e;
              selector = f;
            },
        λ w. parts.1 (
          (
            (((w.namespaces, w.field_count), w.each_field), w.aggregation_count),
            w.each_aggregation,
          ),
          w.selector,
        ),
      )

  rule_issues_iff : (path : String) (r : ResourceRule) → (rule_issues l path r ≡ []) ↔ FitsRule l r
  unfolding rule_issues
  rule_issues_iff path r = both_iff _ _ (cardinality_issue_iff _ _ _) (cardinality_issue_iff _ _ _)

-- The budget check of a Facet reports nothing exactly where every list and the encoding's size keep within
-- the normalised limits: the sources, and in each source the namespaces, fields, operators and their
-- values, aggregations and their groupings, and the selector's labels, expressions and values.
pub validate_facet_budgets_iff :
    (encoded_size : FacetSpec → Option ℕ) (spec : FacetSpec) (limits : Limits)
    → (validate_facet_budgets_with_limits encoded_size (some spec) limits ≡ [])
      ↔ FitsFacet (normalize_limits limits) spec (encoded_size spec)
unfolding validate_facet_budgets_with_limits facet_issues
validate_facet_budgets_iff encoded_size spec limits =
    let l = normalize_limits limits in
    let parts =
      both_iff _ _
        (both_iff _ _ (cardinality_issue_iff _ _ _)
          (indexed_issues_iff (source_issues l) (source_issues_iff l) _ _ _))
        (spec_size_issue_iff "spec" (encoded_size spec) l.max_facet_spec_bytes) in
    (
      λ h. let (a, b) = parts.0 h in record { source_count = a.0; each_source = a.1; encoded = b },
      λ w. parts.1 ((w.source_count, w.each_source), w.encoded),
    )

-- The budget check of an access policy reports nothing exactly where its lists of namespaces, its rules,
-- the groups and Kinds of each rule, and the encoding's size keep within the normalised limits.
pub validate_access_policy_budgets_iff :
    (encoded_size : FacetAccessPolicy → Option ℕ) (policy : FacetAccessPolicy) (limits : Limits)
    → (validate_access_policy_budgets_with_limits encoded_size (some policy) limits ≡ [])
      ↔ FitsPolicy (normalize_limits limits) policy (encoded_size policy)
unfolding validate_access_policy_budgets_with_limits policy_issues
validate_access_policy_budgets_iff encoded_size policy limits =
    let l = normalize_limits limits in
    let parts =
      both_iff _ _
        (both_iff _ _
          (both_iff _ _
            (both_iff _ _ (both_iff _ _ (cardinality_issue_iff _ _ _) (cardinality_issue_iff _ _ _))
              (cardinality_issue_iff _ _ _))
            (cardinality_issue_iff _ _ _))
          (indexed_issues_iff (rule_issues l) (rule_issues_iff l) _ _ _))
        (spec_size_issue_iff "spec" (encoded_size policy) l.max_access_policy_spec_bytes) in
    (
      λ h.
          let (((((a, b), c), d), e), f) = parts.0 h in
          record {
            included = a;
            excluded = b;
            system = c;
            rule_count = d;
            each_rule = e;
            encoded = f;
          },
      λ w. parts.1 (((((w.included, w.excluded), w.system), w.rule_count), w.each_rule), w.encoded),
    )
