-- ===== src/Selection/Executable.antt =====
-- From a source to an executable plan: internal/selection/planner.go, internal/authorization/enforcer.go and
-- internal/selection/binder.go together.
use mathlib.Core.Path.{subst}
use kubeseer.Prelude.{
  String, ◌≡◌, ◌≢◌, ◌↔◌, refl, Option, none, some, true, List, All, arith, eq_iff, Bool-cases,
  Option-cases, inl, inr,
}
use kubeseer.Prelude.Result.{Result, ok, Result-cases, err≢ok, ok_injective}
use kubeseer.Facet.{FacetSource, NamespaceSelection}
use kubeseer.AccessPolicy.Policy.{
  NameTests, FacetAccessPolicy, CompiledPolicy, Scope, scope_namespaced, scope_cluster, other_scope,
}
use kubeseer.AccessPolicy.Compile.{compile}
use kubeseer.AccessPolicy.Evaluate.{new_snapshot, valid_scope}
use kubeseer.AccessPolicy.Decisions.{Permits}
use kubeseer.Extraction.Json.{Context}
use kubeseer.Reconciliation.Tracker.{Subject}
use kubeseer.Authorization.Contracts.{DecisionOutcome}
use kubeseer.Authorization.Enforcer.{evaluate_batch}
use kubeseer.Selection.Contracts.{
  ReadTarget, SelectionPlan, SourceDescriptor, Resolution, ResolutionError, request_for_target,
}
use kubeseer.Selection.Planner.{
  Selectors, source_problem, derive_targets, canonical_selectors, complete, selection_result,
  plan_resolved, plan_valid, plan,
}
use kubeseer.Selection.Binder.{AuthorizedPlan, target_keys, bind_capabilities}
use kubeseer.Selection.Permitted.{bind_capabilities_iff}
use kubeseer.Selection.Planned.{AreExact, declared, namespaced-AreExact, cluster-AreExact}

derive-AreExact :
    (tests : NameTests) (id kind : String) (r : Resolution) (owner : String)
    (selection : Option NamespaceSelection) (ts : List ReadTarget) (scope : Scope)
    → id ≢ ""
    → r.scope ≡ scope
    → valid_scope scope ≡ true
    → derive_targets tests id kind r scope owner selection ≡ ok ts
    → AreExact id (declared scope owner selection) ts
unfolding derive_targets valid_scope
derive-AreExact tests id kind r owner selection ts scope_namespaced h s v e =
    namespaced-AreExact tests id kind r h owner selection ts s e
derive-AreExact tests id kind r owner selection ts scope_cluster h s v e =
    cluster-AreExact tests id kind r h selection ts e
derive-AreExact tests id kind r owner selection ts (other_scope _) h s v e = cc

source_problem-none :
    (tests : NameTests) (source : FacetSource) → source_problem tests source ≡ none → source.id ≢ ""
unfolding source_problem
source_problem-none tests source h = ground (arith, h, eq_iff source.id "")

-- The descriptor that `Plan` resolves.
abbrev pub descriptor : FacetSource → SourceDescriptor
descriptor source = record {
  source_id = source.id;
  api_version = source.resource.api_version;
  kind = source.resource.kind;
}

abbrev IsPlanFor : Resolution → String → FacetSource → SelectionPlan → Type 0
IsPlanFor r owner source p =
    (p.source_id ≡ source.id)
    × AreExact source.id (declared r.scope owner source.namespaces) p.targets

complete-scope : (r : Resolution) → complete r ≡ true → valid_scope r.scope ≡ true
unfolding complete
complete-scope r h = ground (arith, h)

module _ {F : Type 0} (selectors : Selectors F) (tests : NameTests) where
  plan_resolved-IsPlanFor :
      (owner : String) (source : FacetSource) (r : Resolution) (p : SelectionPlan)
      → source.id ≢ ""
      → plan_resolved selectors tests owner source r ≡ ok p
      → IsPlanFor r owner source p
  unfolding plan_resolved complete selection_result
  plan_resolved-IsPlanFor owner source r p h e = elim (Bool-cases (complete r)) [
    | inr c ↦ absurd (err≢ok (rw c at e))
    | inl c ↦ elim (Result-cases (canonical_selectors selectors source.id source.selector)) [
      | inr (x, q) ↦ absurd (err≢ok (rw (c, q) at e))
      | inl (texts, q) ↦
          elim (Result-cases (
            derive_targets tests source.id source.resource.kind r r.scope owner
              source.namespaces)) [
                | inr (x, d) ↦ absurd (err≢ok (rw (c, q, d) at e))
                | inl (ts, d) ↦
                    subst (IsPlanFor r owner source) (ok_injective (rw (c, q, d) at e)) (
                      refl,
                      derive-AreExact tests source.id source.resource.kind r owner source.namespaces
                          ts r.scope h refl (complete-scope r c) d,
                    )
              ]
    ]
  ]

  -- A plan that `Plan` returns has the source's ID, and its targets are exact: with distinct requests, each
  -- with the source's ID, without a namespace in cluster scope, and for just the namespaces that the
  -- source declares, which is the owner's where it names none.
  pub plan-AreExact :
      (resolve : SourceDescriptor → Result ResolutionError Resolution) (owner : String)
      (source : FacetSource) (r : Resolution) (p : SelectionPlan)
      → resolve (descriptor source) ≡ ok r
      → plan selectors tests (some resolve) owner source ≡ ok p
      → (p.source_id ≡ source.id)
        × AreExact source.id (declared r.scope owner source.namespaces) p.targets
  unfolding plan plan_valid
  plan-AreExact resolve owner source r p q e = elim (Option-cases (source_problem tests source)) [
    | inr (m, n) ↦ absurd (err≢ok (rw (n, plan) at e))
    | inl n ↦
        plan_resolved-IsPlanFor owner source r p (source_problem-none tests source n)
          (rw (n, plan, q, plan_valid) at e)
  ]

  -- From the source to the reads: for a plan that `Plan` returns, a policy that `Compile` accepts and a batch
  -- over the plan's requests that returns outcomes, `BindCapabilities` returns a plan to execute
  -- exactly where the policy as it is written permits the request of every target.
  pub plan-executable_iff :
      (resolve : SourceDescriptor → Result ResolutionError Resolution) (owner : String)
      (source : FacetSource) (r : Resolution) (p : SelectionPlan) (policy : FacetAccessPolicy)
      (c : CompiledPolicy) (subject : Subject) (ctx : Option Context) (os : List DecisionOutcome)
      → resolve (descriptor source) ≡ ok r
      → plan selectors tests (some resolve) owner source ≡ ok p
      → compile tests (some policy) ≡ ok c
      → (evaluate_batch tests subject (new_snapshot (some c)) ctx (target_keys p.targets)).result
        ≡ ok os
      → ((a : AuthorizedPlan) × (bind_capabilities p os ≡ ok a))
        ↔ All (λ t. Permits tests policy (request_for_target t)) p.targets
  plan-executable_iff resolve owner source r p policy c subject ctx os q e h b =
      let exact = (plan-AreExact resolve owner source r p q e).1 in
      bind_capabilities_iff tests policy c subject ctx p os h exact.distinct exact.targeted b
