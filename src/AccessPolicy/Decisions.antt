-- ===== src/AccessPolicy/Decisions.antt =====
-- The decisions of internal/accesspolicy/evaluator.go against what the policy says.
use kubeseer.Prelude.{
  String, eq_iff, ◌≡◌, ◌≢◌, ◌↔◌, ◌⊎◌, inl, inr, none, some, true, false, List, arith,
}
use kubeseer.Prelude.Result.{ok}
use kubeseer.AccessPolicy.Policy.{
  NameTests, FacetAccessPolicy, allowed, CompiledPolicy, Scope, scope_namespaced, scope_cluster,
  other_scope, Request,
}
use kubeseer.AccessPolicy.Compile.{system_or_default, compiled, compile}
use kubeseer.AccessPolicy.Evaluate.{
  Snapshot, new_snapshot, contains, contains_key, validate_request, allowed_namespace,
  evaluate_namespaced, evaluate_scope, evaluate_valid, evaluate_policy, evaluate,
}
use kubeseer.AccessPolicy.Items.{IsGroup, IsKind}
use kubeseer.AccessPolicy.Wellformed.{compile_iff}
use kubeseer.AccessPolicy.Permits.{Some, In, Names, contains_iff, contains-false_iff, rule_keys_iff}

module _ (tests : NameTests) where
  abbrev pub IsTarget : Scope → String → Type 0
  IsTarget scope_namespaced namespace = (namespace ≢ "") × (tests.is_dns1123_label namespace ≡ true)
  IsTarget scope_cluster namespace = Unit
  IsTarget (other_scope _) namespace = ⊥

  -- A request in normal form.
  pub record IsRequest (r : Request) : Type 0 where
    pub kind : (r.kind ≢ "") × IsKind tests r.kind
    pub group : IsGroup tests r.api_group
    pub target : IsTarget r.scope r.namespace

-- The namespaces that the policy opens: never an excluded one.
pub record IsOpen (p : FacetAccessPolicy) (namespace : String) : Type 0 where
  pub not_excluded : ¬ In namespace p.namespaces.exclude
  pub by_mode :
      ((p.namespaces.mode ≡ "Explicit") × In namespace p.namespaces.include)
      ⊎ (p.namespaces.mode ≡ "All")
      ⊎ ((p.namespaces.mode ≡ "AllNonSystem")
          × (In namespace p.namespaces.include
              ⊎ ¬ In namespace (system_or_default p.namespaces.system_namespaces)))

abbrev pub IsInScope : FacetAccessPolicy → Scope → String → Type 0
IsInScope p scope_cluster namespace = p.allow_cluster_scoped ≡ true
IsInScope p scope_namespaced namespace = IsOpen p namespace
IsInScope p (other_scope _) namespace = ⊥

pub record Permits (tests : NameTests) (p : FacetAccessPolicy) (r : Request) : Type 0 where
  pub request : IsRequest tests r
  pub rule : Some (Names r.api_group r.kind) p.resources
  pub scope : IsInScope p r.scope r.namespace

module _ (tests : NameTests) where
  pub validate_request_iff : (r : Request) → (validate_request tests r ≡ none) ↔ IsRequest tests r
  unfolding validate_request
  validate_request_iff r =
      ground (arith, eq_iff r.kind "", eq_iff r.api_group "", eq_iff r.namespace "")

-- The same over the tests of the code, with the namespace mode as a variable.
module _ (mode : String) (include system : List String) (namespace : String) where
  abbrev ModeTests : Type 0
  ModeTests =
      ((mode ≡ "Explicit") × (contains include namespace ≡ true))
      ⊎ (mode ≡ "All")
      ⊎ ((mode ≡ "AllNonSystem")
          × ((contains include namespace ≡ true) ⊎ (contains system namespace ≡ false)))

  abbrev Modes : Type 0
  Modes =
      ((mode ≡ "Explicit") × In namespace include)
      ⊎ (mode ≡ "All")
      ⊎ ((mode ≡ "AllNonSystem") × (In namespace include ⊎ ¬ In namespace system))

  modes_of_tests : ModeTests → Modes
  modes_of_tests (inl (e, h)) = inl (e, (contains_iff include namespace).0 h)
  modes_of_tests (inr (inl e)) = inr (inl e)
  modes_of_tests (inr (inr (e, inl h))) = inr (inr (e, inl ((contains_iff include namespace).0 h)))
  modes_of_tests (inr (inr (e, inr h))) =
      inr (inr (e, inr ((contains-false_iff system namespace).0 h)))

  tests_of_modes : Modes → ModeTests
  tests_of_modes (inl (e, h)) = inl (e, (contains_iff include namespace).1 h)
  tests_of_modes (inr (inl e)) = inr (inl e)
  tests_of_modes (inr (inr (e, inl h))) = inr (inr (e, inl ((contains_iff include namespace).1 h)))
  tests_of_modes (inr (inr (e, inr h))) =
      inr (inr (e, inr ((contains-false_iff system namespace).1 h)))

module _ (c : CompiledPolicy) (r : Request) where
  allowed_namespace_iff :
      (allowed_namespace c r.namespace ≡ true)
      ↔ ModeTests c.namespace_mode c.included_namespaces c.system_namespaces r.namespace
  unfolding allowed_namespace
  allowed_namespace_iff = ground (
    arith,
    eq_iff c.namespace_mode "Explicit",
    eq_iff c.namespace_mode "All",
    eq_iff c.namespace_mode "AllNonSystem",
    eq_iff "Explicit" "All",
    eq_iff "Explicit" "AllNonSystem",
    eq_iff "All" "AllNonSystem",
  )

  evaluate_namespaced_tests : ((evaluate_namespaced c r).allowed ≡ true) ↔ (
      (contains c.excluded_namespaces r.namespace ≡ false)
      × (allowed_namespace c r.namespace ≡ true))
  unfolding evaluate_namespaced
  evaluate_namespaced_tests = ground arith

  evaluate_valid_tests : ((evaluate_valid c r).allowed ≡ true) ↔ (
      (contains_key c.allowed_resources r.api_group r.kind ≡ true)
      × ((evaluate_scope c r r.scope).allowed ≡ true))
  unfolding evaluate_valid
  evaluate_valid_tests = ground arith

module _ (tests : NameTests) (p : FacetAccessPolicy) where
  evaluate_namespaced_iff :
      (r : Request) → ((evaluate_namespaced (compiled p) r).allowed ≡ true) ↔ IsOpen p r.namespace
  unfolding compiled
  evaluate_namespaced_iff r = (
    λ h.
        let (x, m) = (evaluate_namespaced_tests (compiled p) r).0 h in
        record {
          not_excluded = (contains-false_iff p.namespaces.exclude r.namespace).0 x;
          by_mode = modes_of_tests _ _ _ _ ((allowed_namespace_iff (compiled p) r).0 m);
        },
    λ o. (evaluate_namespaced_tests (compiled p) r).1 (
      (contains-false_iff p.namespaces.exclude r.namespace).1 o.not_excluded,
      (allowed_namespace_iff (compiled p) r).1 (tests_of_modes _ _ _ _ o.by_mode),
    ),
  )

  evaluate_scope_iff :
      (r : Request) (scope : Scope)
      → IsTarget tests scope r.namespace
      → ((evaluate_scope (compiled p) r scope).allowed ≡ true) ↔ IsInScope p scope r.namespace
  unfolding evaluate_scope
  evaluate_scope_iff r scope_cluster h = unfold compiled in ground arith
  evaluate_scope_iff r scope_namespaced h = evaluate_namespaced_iff r
  evaluate_scope_iff r (other_scope _) h = absurd h

  evaluate_policy_tests :
      (r : Request)
      → ((evaluate_policy (compiled p) r (validate_request tests r)).allowed ≡ true)
        ↔ ((validate_request tests r ≡ none) × ((evaluate_valid (compiled p) r).allowed ≡ true))
  unfolding evaluate_policy
  evaluate_policy_tests r = ground arith

  -- A compiled policy allows exactly the requests that the policy as it is written permits: requests in
  -- normal form, for a group and Kind that one rule names, and, in a namespace, never an excluded one
  -- and one that the mode opens; for cluster scope, only where the policy allows that.
  pub evaluate_iff :
      (r : Request)
      → ((evaluate tests (new_snapshot (some (compiled p))) r).allowed ≡ true) ↔ Permits tests p r
  unfolding evaluate new_snapshot
  evaluate_iff r = (
    λ h.
        let (v, e) = (evaluate_policy_tests r).0 h in
        let (k, s) = (evaluate_valid_tests (compiled p) r).0 e in
        let q = (validate_request_iff tests r).0 v in
        record {
          request = q;
          rule = (rule_keys_iff p.resources r.api_group r.kind).0 (unfold compiled in k);
          scope = (evaluate_scope_iff r r.scope q.target).0 s;
        },
    λ w. (evaluate_policy_tests r).1 (
      (validate_request_iff tests r).1 w.request,
      (evaluate_valid_tests (compiled p) r).1 (
        unfold compiled in (rule_keys_iff p.resources r.api_group r.kind).1 w.rule,
        (evaluate_scope_iff r r.scope w.request.target).1 w.scope,
      ),
    ),
  )

  -- Where `Compile` returns a policy, a snapshot of it allows exactly the requests that the written policy
  -- permits: they are normalised, a rule names their group and Kind, and their scope is open, which for a
  -- namespace means that it is not excluded and that the mode, the includes and the system namespaces
  -- let it in.
  pub compile-evaluate :
      (c : CompiledPolicy) (r : Request)
      → compile tests (some p) ≡ ok c
      → ((evaluate tests (new_snapshot (some c)) r).allowed ≡ true) ↔ Permits tests p r
  compile-evaluate c r h = rw (((compile_iff tests p c).0 h).1) (evaluate_iff r)

-- Where the decision on a request allows it, the snapshot has a policy and no terminal reason, and the
-- decision's reason is `Allowed`.
pub evaluate_fails_closed :
    (tests : NameTests) (s : Snapshot) (r : Request)
    → (evaluate tests s r).allowed ≡ true
    → (s.terminal_reason ≡ none) × (s.policy ≢ none) × ((evaluate tests s r).reason ≡ allowed)
unfolding evaluate evaluate_policy evaluate_valid evaluate_scope evaluate_namespaced
evaluate_fails_closed tests s r h = ground arith
