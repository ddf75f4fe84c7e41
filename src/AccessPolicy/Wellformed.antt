-- ===== src/AccessPolicy/Wellformed.antt =====
-- Well-formed policies, for `Validate` and `Compile` of internal/accesspolicy/compiler.go.
use mathlib.Core.Path.{subst}
use mathlib.Core.List.{Perm}
use mathlib.Core.List.Perm
use kubeseer.Prelude.{
  ℕ, suc, String, eq_iff, ◌≡◌, ◌≢◌, ◌↔◌, ◌⊎◌, refl, Option, none, some, List, [], ◌∷◌, map, All,
  All-map, arith,
}
use kubeseer.Prelude.Sort.{sort_stable, sort_stable-perm}
use kubeseer.Prelude.Result.{ok}
use kubeseer.AccessPolicy.Policy.{
  NameTests, installation_access_ceiling_name, ResourceRule, FacetAccessPolicy, PolicyError,
  CompiledPolicy,
}
use kubeseer.AccessPolicy.Validate.{
  ValidationIssue, issue_less, policy_error, groups_issues, kinds_issues, validate_namespace_set,
  validate_resource_groups, validate_kinds, validate_rules, name_issues, mode_issues, system_issues,
  found_issues, validate_policy, validate, namespace_problem, group_problem, kind_problem,
}
use kubeseer.AccessPolicy.Compile.{compiled, compile, compile_checked}
use kubeseer.AccessPolicy.Items.{
  AreDistinct, append-eq-nil, validate_items_iff, IsNamespace, IsGroup, IsKind,
  namespace_problem_iff, group_problem_iff, kind_problem_iff,
}

module _ (tests : NameTests) where
  abbrev pub IsNamespaceSet : List String → Type 0
  IsNamespaceSet values = All (IsNamespace tests) values × AreDistinct values

  abbrev pub IsOptionalSet : Option (List String) → Type 0
  IsOptionalSet none = Unit
  IsOptionalSet (some values) = IsNamespaceSet values

  -- A rule names at least one API group and one Kind, each once.
  pub record IsRule (rule : ResourceRule) : Type 0 where
    pub has_group : rule.api_groups ≢ []
    pub groups : All (IsGroup tests) rule.api_groups × AreDistinct rule.api_groups
    pub has_kind : rule.kinds ≢ []
    pub kinds : All (IsKind tests) rule.kinds × AreDistinct rule.kinds

  abbrev pub IsMode : String → Type 0
  IsMode mode = (mode ≡ "Explicit") ⊎ (mode ≡ "All") ⊎ (mode ≡ "AllNonSystem")

  pub record IsWellformed (p : FacetAccessPolicy) : Type 0 where
    pub named : p.name ≡ installation_access_ceiling_name
    pub mode : IsMode p.namespaces.mode
    pub include : IsNamespaceSet p.namespaces.include
    pub exclude : IsNamespaceSet p.namespaces.exclude
    pub system : IsOptionalSet p.namespaces.system_namespaces
    pub rules : All IsRule p.resources

  IsNamespaceSet-iff :
      (field : String) (values : List String)
      → (validate_namespace_set tests field values ≡ []) ↔ IsNamespaceSet values
  unfolding validate_namespace_set
  IsNamespaceSet-iff field values = (
    λ h.
        let (a, d) = (validate_items_iff (namespace_problem tests) field values).0 h in
        (All-map (λ v. (namespace_problem_iff tests v).0) values a, d),
    λ h.
        (validate_items_iff (namespace_problem tests) field values).1
          (All-map (λ v. (namespace_problem_iff tests v).1) values h.0, h.1),
  )

  groups_iff :
      (field : String) (values : List String)
      → (groups_issues tests field values ≡ [])
        ↔ ((values ≢ []) × (All (IsGroup tests) values × AreDistinct values))
  unfolding groups_issues validate_resource_groups
  groups_iff field [] = (λ h. cc, λ h. absurd (h.0 refl))
  groups_iff field (v ∷ vs) = (
    λ h.
        let (a, d) = (validate_items_iff (group_problem tests) field (v ∷ vs)).0 h in
        (λ e. cc, (All-map (λ w. (group_problem_iff tests w).0) (v ∷ vs) a, d)),
    λ h.
        (validate_items_iff (group_problem tests) field (v ∷ vs)).1
          (All-map (λ w. (group_problem_iff tests w).1) (v ∷ vs) h.1.0, h.1.1),
  )

  kinds_iff :
      (field : String) (values : List String)
      → (kinds_issues tests field values ≡ [])
        ↔ ((values ≢ []) × (All (IsKind tests) values × AreDistinct values))
  unfolding kinds_issues validate_kinds
  kinds_iff field [] = (λ h. cc, λ h. absurd (h.0 refl))
  kinds_iff field (v ∷ vs) = (
    λ h.
        let (a, d) = (validate_items_iff (kind_problem tests) field (v ∷ vs)).0 h in
        (λ e. cc, (All-map (λ w. (kind_problem_iff tests w).0) (v ∷ vs) a, d)),
    λ h.
        (validate_items_iff (kind_problem tests) field (v ∷ vs)).1
          (All-map (λ w. (kind_problem_iff tests w).1) (v ∷ vs) h.1.0, h.1.1),
  )

  rules_iff :
      (n : ℕ) (rules : List ResourceRule) → (validate_rules tests n rules ≡ []) ↔ All IsRule rules
  unfolding validate_rules
  rules_iff n [] = (λ h. tt, λ h. refl)
  rules_iff n (r ∷ rs) = (
    λ h.
        let (head, rest) = (append-eq-nil _ _).0 h in
        let (g, k) = (append-eq-nil _ _).0 head in
        let gs = (groups_iff _ r.api_groups).0 g in
        let ks = (kinds_iff _ r.kinds).0 k in
        (
          record { has_group = gs.0; groups = gs.1; has_kind = ks.0; kinds = ks.1 },
          (rules_iff (suc n) rs).0 rest,
        ),
    λ h. (append-eq-nil _ _).1 (
      (append-eq-nil _ _).1 (
        (groups_iff _ r.api_groups).1 (h.0.has_group, h.0.groups),
        (kinds_iff _ r.kinds).1 (h.0.has_kind, h.0.kinds),
      ),
      (rules_iff (suc n) rs).1 h.1,
    ),
  )

  name_iff : (name : String) → (name_issues name ≡ []) ↔ (name ≡ installation_access_ceiling_name)
  unfolding name_issues
  name_iff name = ground (arith, eq_iff name installation_access_ceiling_name)

  IsMode-iff : (mode : String) → (mode_issues mode ≡ []) ↔ IsMode mode
  unfolding mode_issues
  IsMode-iff mode =
      ground (arith, eq_iff mode "Explicit", eq_iff mode "All", eq_iff mode "AllNonSystem")

  system_iff : (o : Option (List String)) → (system_issues tests o ≡ []) ↔ IsOptionalSet o
  unfolding system_issues
  system_iff none = (λ h. tt, λ h. refl)
  system_iff (some values) = IsNamespaceSet-iff _ values

  found_issues_iff : (p : FacetAccessPolicy) → (found_issues tests p ≡ []) ↔ IsWellformed p
  unfolding found_issues
  found_issues_iff p = (
    λ h.
        let (a, r₁) = (append-eq-nil _ _).0 h in
        let (b, r₂) = (append-eq-nil _ _).0 r₁ in
        let (c, r₃) = (append-eq-nil _ _).0 r₂ in
        let (d, r₄) = (append-eq-nil _ _).0 r₃ in
        let (e, f) = (append-eq-nil _ _).0 r₄ in
        record {
          named = (name_iff p.name).0 a;
          mode = (IsMode-iff p.namespaces.mode).0 b;
          include = (IsNamespaceSet-iff _ p.namespaces.include).0 c;
          exclude = (IsNamespaceSet-iff _ p.namespaces.exclude).0 d;
          system = (system_iff p.namespaces.system_namespaces).0 e;
          rules = (rules_iff 0 p.resources).0 f;
        },
    λ w. (append-eq-nil _ _).1 (
      (name_iff p.name).1 w.named,
      (append-eq-nil _ _).1 (
        (IsMode-iff p.namespaces.mode).1 w.mode,
        (append-eq-nil _ _).1 (
          (IsNamespaceSet-iff _ p.namespaces.include).1 w.include,
          (append-eq-nil _ _).1 (
            (IsNamespaceSet-iff _ p.namespaces.exclude).1 w.exclude,
            (append-eq-nil _ _).1 (
              (system_iff p.namespaces.system_namespaces).1 w.system,
              (rules_iff 0 p.resources).1 w.rules,
            ),
          ),
        ),
      ),
    ),
  )

  sorted-eq-nil : (xs : List ValidationIssue) → (sort_stable issue_less xs ≡ []) ↔ (xs ≡ [])
  sorted-eq-nil xs = (
    λ h. Perm.eq-nil (Perm.symm (rw h at (sort_stable-perm issue_less xs))),
    λ h.
        Perm.eq-nil
          (subst (λ ys. Perm (sort_stable issue_less xs) ys) h (sort_stable-perm issue_less xs)),
  )

  map-eq-nil : (xs : List ValidationIssue) → (map policy_error xs ≡ []) ↔ (xs ≡ [])
  map-eq-nil [] = (λ e. refl, λ e. refl)
  map-eq-nil (x ∷ xs) = (λ e. cc, λ e. cc)

  -- `Validate` reports nothing exactly for the policies that are well formed.
  pub validate_iff : (p : FacetAccessPolicy) → (validate tests (some p) ≡ []) ↔ IsWellformed p
  unfolding validate validate_policy
  validate_iff p = (
    λ h. (found_issues_iff p).0 ((sorted-eq-nil _).0 ((map-eq-nil _).0 h)),
    λ w. (map-eq-nil _).1 ((sorted-eq-nil _).1 ((found_issues_iff p).1 w)),
  )

  compile_checked-ok :
      (es : List PolicyError) (p : FacetAccessPolicy) {c : CompiledPolicy}
      → compile_checked es (some p) ≡ ok c
      → (es ≡ []) × (c ≡ compiled p)
  unfolding compile_checked
  compile_checked-ok [] p h = (refl, cc)
  compile_checked-ok (e ∷ es) p h = cc

  -- `Compile` returns a policy exactly for the policies that are well formed, and it is the compiled one.
  pub compile_iff :
      (p : FacetAccessPolicy) (c : CompiledPolicy)
      → (compile tests (some p) ≡ ok c) ↔ (IsWellformed p × (c ≡ compiled p))
  unfolding compile compile_checked
  compile_iff p c = (
    λ h. let (e, k) = compile_checked-ok (validate tests (some p)) p h in ((validate_iff p).0 e, k),
    λ h. rw ((validate_iff p).1 h.0) (rw h.1),
  )
