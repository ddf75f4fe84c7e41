-- ===== src/Selection/Permitted.antt =====
-- A plan of internal/selection/planner.go, authorised by internal/authorization/enforcer.go and bound by
-- internal/selection/binder.go.
use kubeseer.Prelude.{
  String, ◌≡◌, ◌↔◌, refl, ◌∙◌, Option, some, true, false, List, [], ◌∷◌, All, All-zip, All-iff,
  arith, inl, inr, iff_trans,
}
use kubeseer.Prelude.Result.{ok, Result-cases, err≢ok}
use kubeseer.AccessPolicy.Policy.{NameTests, FacetAccessPolicy, CompiledPolicy, Request}
use kubeseer.AccessPolicy.Compile.{compile}
use kubeseer.AccessPolicy.Evaluate.{Snapshot, new_snapshot, evaluate}
use kubeseer.AccessPolicy.Decisions.{Permits, compile-evaluate}
use kubeseer.Extraction.Json.{Context}
use kubeseer.Reconciliation.Tracker.{Subject, validate_subject}
use kubeseer.Authorization.Contracts.{Capability, DecisionOutcome, valid}
use kubeseer.Authorization.Enforcer.{is_allowed, outcome_for, evaluate_batch}
use kubeseer.Authorization.Batch.{outcomes_for}
use kubeseer.Authorization.Minted.{
  IsTargeted, is_allowed_lem, minted, minted-valid_iff, evaluate_batch-outcomes,
}
use kubeseer.Selection.Contracts.{ReadTarget, SelectionPlan, request_for_target, AuthorizedRead}
use kubeseer.Selection.Binder.{
  AuthorizedPlan, has_request, target_keys, unmatched_outcome, outcomes_at, matching_capability,
  authorize_outcome, authorize_one, bind_capabilities,
}
use kubeseer.Selection.Distinct.{Distinct, has_request_iff, request_eq_iff, authorize_each}
use kubeseer.Selection.Bound.{bind_capabilities-each}

module _ (tests : NameTests) (subject : Subject) (snapshot : Snapshot) where
  abbrev outcome : Request → DecisionOutcome
  outcome r = outcome_for tests subject snapshot r

  abbrev outcomes : List Request → List DecisionOutcome
  outcomes rs = outcomes_for tests subject snapshot rs

  outcomes_at-none :
      (r : Request) (rs : List Request)
      → has_request r rs ≡ false
      → outcomes_at r (outcomes rs) ≡ []
  unfolding outcomes_at outcome_for has_request
  outcomes_at-none r [] h = refl
  outcomes_at-none r (q ∷ qs) h = ground (arith, outcomes_at-none r qs, h)

  -- Among the outcomes of distinct targets just one is for a target's request.
  outcomes_at-one :
      (ts : List ReadTarget)
      → Distinct (target_keys ts)
      → All
          (λ t.
            outcomes_at (request_for_target t) (outcomes (target_keys ts))
            ≡ outcome (request_for_target t) ∷ [])
          ts
  unfolding outcomes_at outcome_for target_keys
  outcomes_at-one [] d = tt
  outcomes_at-one (t ∷ ts) d = (
    rw
        (
          (request_eq_iff _ _).1 (refl {a = request_for_target t}),
          outcomes_at-none (request_for_target t) (target_keys ts) d.0,
        )
        refl,
    All-zip (λ u one differs. rw differs one) ts (outcomes_at-one ts d.1)
        ((has_request_iff (request_for_target t) ts).0 d.0),
  )

  unmatched_outcome-matched :
      (keys rs : List Request)
      → All (λ r. has_request r keys ≡ true) rs
      → unmatched_outcome keys (outcomes rs) ≡ false
  unfolding unmatched_outcome outcome_for
  unmatched_outcome-matched keys [] h = refl
  unmatched_outcome-matched keys (r ∷ rs) h = rw (h.0) (unmatched_outcome-matched keys rs h.1)

  keys_later :
      (q : Request) (keys rs : List Request)
      → All (λ r. has_request r keys ≡ true) rs
      → All (λ r. has_request r (q ∷ keys) ≡ true) rs
  unfolding has_request
  keys_later q keys [] h = tt
  keys_later q keys (r ∷ rs) h = (ground (arith, h.0), keys_later q keys rs h.1)

  each_key : (keys : List Request) → All (λ r. has_request r keys ≡ true) keys
  unfolding has_request
  each_key [] = tt
  each_key (r ∷ rs) =
      (ground (arith, (request_eq_iff r r).1 refl), keys_later r rs rs (each_key rs))

  matching_capability-valid :
      (source_id : String) (r : Request) (c : Capability)
      → valid c ≡ true
      → c.request ≡ r
      → matching_capability source_id r (some c) ≡ ok c
  unfolding matching_capability
  matching_capability-valid source_id r c v e = rw (v, (request_eq_iff c.request r).1 e) refl

  -- With a complete subject, the outcome for a targeted request that is allowed gives its capability.
  authorize_outcome-minted :
      (source_id : String) (r : Request)
      → validate_subject subject ≡ true
      → IsTargeted r
      → (evaluate tests snapshot r).allowed ≡ true
      → authorize_outcome source_id r (outcome r) ≡ ok (minted tests subject snapshot r)
  unfolding authorize_outcome outcome_for
  authorize_outcome-minted source_id r v g e =
      let a : is_allowed (evaluate tests snapshot r) ≡ true =
        is_allowed_lem tests subject snapshot r ∙ e in
      rw a (
        matching_capability-valid source_id r (minted tests subject snapshot r)
          ((minted-valid_iff tests subject snapshot r v e).1 g) refl)

  authorize_outcome-ok :
      (source_id : String) (r : Request) (c : Capability)
      → authorize_outcome source_id r (outcome r) ≡ ok c
      → (evaluate tests snapshot r).allowed ≡ true
  unfolding authorize_outcome outcome_for
  authorize_outcome-ok source_id r c h = ground (arith, h, is_allowed_lem tests subject snapshot r)

  abbrev Alone : List DecisionOutcome → ReadTarget → Type 0
  Alone os t = outcomes_at (request_for_target t) os ≡ outcome (request_for_target t) ∷ []

  abbrev Allowed : ReadTarget → Type 0
  Allowed t = (evaluate tests snapshot (request_for_target t)).allowed ≡ true

  authorize_each-Allowed :
      (source_id : String) (os : List DecisionOutcome) (ts : List ReadTarget)
      → validate_subject subject ≡ true
      → All (λ t. IsTargeted (request_for_target t)) ts
      → All (Alone os) ts
      → All Allowed ts
      → (rs : List (Option AuthorizedRead)) × (authorize_each source_id os ts ≡ ok rs)
  unfolding authorize_each authorize_one
  authorize_each-Allowed source_id os [] v g alone h = ([], refl)
  authorize_each-Allowed source_id os (t ∷ ts) v g alone h =
      let (rs, e) = authorize_each-Allowed source_id os ts v g.1 alone.1 h.1 in
      (
        some (record {
          target = t;
          capability = minted tests subject snapshot (request_for_target t);
        })
            ∷ rs,
        rw (alone.0, authorize_outcome-minted source_id (request_for_target t) v g.0 h.0, e) refl,
      )

  authorize_each-ok :
      (source_id : String) (os : List DecisionOutcome) (ts : List ReadTarget)
      (rs : List (Option AuthorizedRead))
      → All (Alone os) ts
      → authorize_each source_id os ts ≡ ok rs
      → All Allowed ts
  unfolding authorize_each authorize_one
  authorize_each-ok source_id os [] rs alone h = tt
  authorize_each-ok source_id os (t ∷ ts) rs alone h =
      elim (Result-cases
        (authorize_outcome source_id (request_for_target t) (outcome (request_for_target t)))) [
          | inr (x, e) ↦ absurd (err≢ok (rw (alone.0, e) at h))
          | inl (c, e) ↦ elim (Result-cases (authorize_each source_id os ts)) [
            | inr (x, f) ↦ absurd (err≢ok (rw (alone.0, e, f) at h))
            | inl (qs, f) ↦ (
              authorize_outcome-ok source_id (request_for_target t) c e,
              authorize_each-ok source_id os ts qs alone.1 f,
            )
          ]
        ]

  -- A plan whose targets are distinct and targeted binds to the outcomes of its own requests exactly where
  -- each is allowed.
  bind_outcomes_iff :
      (p : SelectionPlan)
      → validate_subject subject ≡ true
      → Distinct (target_keys p.targets)
      → All (λ t. IsTargeted (request_for_target t)) p.targets
      → ((a : AuthorizedPlan) × (bind_capabilities p (outcomes (target_keys p.targets)) ≡ ok a))
        ↔ All Allowed p.targets
  bind_outcomes_iff p v d g =
      let os = outcomes (target_keys p.targets) in
      let each = bind_capabilities-each p os d (
        unmatched_outcome-matched (target_keys p.targets) (target_keys p.targets)
          (each_key (target_keys p.targets))) in
      let alone = outcomes_at-one p.targets d in
      (
        λ h. elim (Result-cases (authorize_each p.source_id os p.targets)) [
          | inr (x, f) ↦ absurd (err≢ok (rw (each, f) at h.1))
          | inl (rs, f) ↦ authorize_each-ok p.source_id os p.targets rs alone f
        ],
        λ h.
            let (rs, f) = authorize_each-Allowed p.source_id os p.targets v g alone h in
            (record { plan = p; reads = rs }, rw (each, f) refl),
      )

-- The plan of a source becomes executable exactly where the written policy permits each of its targets:
-- for a policy that `Compile` accepts, a plan with distinct targets that have a source ID and, in cluster
-- scope, no namespace, and a batch over the plan's requests that returns outcomes, `BindCapabilities`
-- of these outcomes returns a plan if and only if every target's request is permitted.
pub bind_capabilities_iff :
    (tests : NameTests) (policy : FacetAccessPolicy) (c : CompiledPolicy) (subject : Subject)
    (ctx : Option Context) (p : SelectionPlan) (os : List DecisionOutcome)
    → compile tests (some policy) ≡ ok c
    → Distinct (target_keys p.targets)
    → All (λ t. IsTargeted (request_for_target t)) p.targets
    → (evaluate_batch tests subject (new_snapshot (some c)) ctx (target_keys p.targets)).result
      ≡ ok os
    → ((a : AuthorizedPlan) × (bind_capabilities p os ≡ ok a))
      ↔ All (λ t. Permits tests policy (request_for_target t)) p.targets
bind_capabilities_iff tests policy c subject ctx p os h d g e =
    let (v, same) =
      evaluate_batch-outcomes tests subject (new_snapshot (some c)) ctx (target_keys p.targets) os
        e in
    rw same (
      iff_trans (bind_outcomes_iff tests subject (new_snapshot (some c)) p v d g)
        (All-iff (λ t. compile-evaluate tests policy c (request_for_target t) h) p.targets))
