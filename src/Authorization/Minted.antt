-- ===== src/Authorization/Minted.antt =====
-- The capabilities that `EvaluateBatch` of internal/authorization/enforcer.go mints: for which requests,
-- which are valid, and when they are current against the tracker.
use kubeseer.Prelude.{
  suc, ◌+◌, ◌<◌, ◌≡◌, ◌≢◌, ◌↔◌, refl, sym, Option, some, true, false, List, [], ◌∷◌, arith,
  Bool-cases, inl, inr, eq_iff, All, ◌⊎◌, ℕ, zero, get_elem?, and-true,
}
use kubeseer.Prelude.Int.{two64}
use kubeseer.Prelude.Result.{ok}
use kubeseer.AccessPolicy.Policy.{
  NameTests, FacetAccessPolicy, CompiledPolicy, scope_namespaced, Request,
}
use kubeseer.AccessPolicy.Compile.{compile}
use kubeseer.AccessPolicy.Evaluate.{
  Snapshot, new_snapshot, reason_text, valid_scope, evaluate, evaluate_policy,
}
use kubeseer.AccessPolicy.Decisions.{
  Permits, IsRequest, validate_request_iff, compile-evaluate, evaluate_fails_closed,
}
use kubeseer.Extraction.Json.{Context}
use kubeseer.Reconciliation.Tracker.{
  Subject, validate_subject, is_current, next_epoch, invalidate_all, is_lease_current,
}
use kubeseer.Reconciliation.TrackedState.{Tracker, Lease}
use kubeseer.Reconciliation.Tracker.Invariant.{Event, policy_changed, run, step}
use kubeseer.Reconciliation.Tracker.Policy.{policy_changes, stale_stays_stale}
use kubeseer.Reconciliation.Tracker.Freshness.{current-epoch}
use kubeseer.Authorization.Contracts.{
  DecisionOutcome, Capability, has_capability, valid_request, valid, is_policy_decision,
  is_outcome_allowed, is_capability_current,
}
use kubeseer.Authorization.Enforcer.{
  is_allowed, outcome_of, record_for, mint, outcome_for, evaluate_batch,
}
use kubeseer.Authorization.Batch.{outcomes_for, evaluate_batch_lem}

abbrev lease_of : Subject → Lease
lease_of s = record {
  key = s.key;
  uid = s.uid;
  generation = s.generation;
  policy_epoch = s.policy_epoch;
}

module _ (tests : NameTests) (subject : Subject) (snapshot : Snapshot) where
  pub is_allowed_lem :
      (r : Request) → is_allowed (evaluate tests snapshot r) ≡ (evaluate tests snapshot r).allowed
  unfolding is_allowed reason_text
  is_allowed_lem r = elim (Bool-cases (evaluate tests snapshot r).allowed) [
    | inl e ↦ rw (e, (evaluate_fails_closed tests snapshot r e).2) refl
    | inr e ↦ rw e refl
  ]

  outcome_for-capability :
      (r : Request)
      → has_capability (outcome_for tests subject snapshot r) ≡ (evaluate tests snapshot r).allowed
  unfolding outcome_for has_capability mint
  outcome_for-capability r = elim (Bool-cases (evaluate tests snapshot r).allowed) [
    | inl e ↦ rw (is_allowed_lem r, e) refl
    | inr e ↦ rw (is_allowed_lem r, e) refl
  ]

  -- The capability that an allowed decision on the request gives.
  abbrev pub minted : Request → Capability
  minted r = record {
    subject = subject;
    request = r;
    evidence = record_for subject r snapshot (evaluate tests snapshot r);
  }

  outcome_for-minted :
      (r : Request) (c : Capability)
      → (outcome_for tests subject snapshot r).capability ≡ some c
      → ((evaluate tests snapshot r).allowed ≡ true) × (c ≡ minted r)
  unfolding outcome_for mint
  outcome_for-minted r c h = elim (Bool-cases (evaluate tests snapshot r).allowed) [
    | inl e ↦ (e, ground (arith, is_allowed_lem r, e, h))
    | inr e ↦ absurd (ground (arith, is_allowed_lem r, e, h))
  ]

  -- What a batch returns are the outcomes of its requests.
  pub evaluate_batch-outcomes :
      (ctx : Option Context) (requests : List Request) (os : List DecisionOutcome)
      → (evaluate_batch tests subject snapshot ctx requests).result ≡ ok os
      → (validate_subject subject ≡ true) × (os ≡ outcomes_for tests subject snapshot requests)
  evaluate_batch-outcomes ctx requests os h =
      ground (arith, evaluate_batch_lem tests subject snapshot ctx requests, h)

  allowed_request : (r : Request) → (evaluate tests snapshot r).allowed ≡ true → IsRequest tests r
  unfolding evaluate evaluate_policy
  allowed_request r h = (validate_request_iff tests r).0 (ground (arith, h))

  valid-minted :
      (r : Request)
      → validate_subject subject ≡ true
      → (evaluate tests snapshot r).allowed ≡ true
      → valid (minted r) ≡ valid_request r
  unfolding valid record_for outcome_of reason_text is_policy_decision is_outcome_allowed
  valid-minted r v h =
      let e = is_allowed_lem r in
      let f = evaluate_fails_closed tests snapshot r h in rw (e, h, v, f.2) (ground arith)

-- Beyond what an allowed decision has tested, a capability's own test asks for a source ID and that a
-- cluster-scoped target has no namespace.
abbrev pub IsTargeted : Request → Type 0
IsTargeted r = (r.source_id ≢ "") × ((r.scope ≡ scope_namespaced) ⊎ (r.namespace ≡ ""))

valid_request_iff :
    (tests : NameTests) (r : Request) → IsRequest tests r → (valid_request r ≡ true) ↔ IsTargeted r
unfolding valid_request valid_scope
valid_request_iff tests r q =
    ground (arith, q.kind, q.target, eq_iff r.source_id "", eq_iff r.kind "", eq_iff r.namespace "")

-- For a complete subject, a capability that an allowed decision gives is valid exactly for a request
-- that is targeted.
pub minted-valid_iff :
    (tests : NameTests) (subject : Subject) (snapshot : Snapshot) (r : Request)
    → validate_subject subject ≡ true
    → (evaluate tests snapshot r).allowed ≡ true
    → (valid (minted tests subject snapshot r) ≡ true) ↔ IsTargeted r
minted-valid_iff tests subject snapshot r v h =
    rw (valid-minted tests subject snapshot r v h)
      (valid_request_iff tests r (allowed_request tests subject snapshot r h))

outcome_for_iff :
    (tests : NameTests) (p : FacetAccessPolicy) (c : CompiledPolicy) (subject : Subject)
    (r : Request)
    → compile tests (some p) ≡ ok c
    → (has_capability (outcome_for tests subject (new_snapshot (some c)) r) ≡ true)
      ↔ Permits tests p r
outcome_for_iff tests p c subject r h =
    rw (outcome_for-capability tests subject (new_snapshot (some c)) r)
      (compile-evaluate tests p c r h)

outcomes_for_iff :
    (tests : NameTests) (p : FacetAccessPolicy) (c : CompiledPolicy) (subject : Subject)
    (requests : List Request)
    → compile tests (some p) ≡ ok c
    → All
        (λ o. (has_capability o ≡ true) ↔ Permits tests p o.request)
        (outcomes_for tests subject (new_snapshot (some c)) requests)
outcomes_for_iff tests p c subject [] h = tt
outcomes_for_iff tests p c subject (r ∷ rs) h = (
  unfold outcome_for in outcome_for_iff tests p c subject r h,
  outcomes_for_iff tests p c subject rs h,
)

-- In a batch over a policy that `Compile` accepts, an outcome has a capability exactly where the written
-- policy permits its request.
pub minted_iff_permitted :
    (tests : NameTests) (p : FacetAccessPolicy) (c : CompiledPolicy) (subject : Subject)
    (ctx : Option Context) (requests : List Request) (os : List DecisionOutcome)
    → compile tests (some p) ≡ ok c
    → (evaluate_batch tests subject (new_snapshot (some c)) ctx requests).result ≡ ok os
    → All (λ o. (has_capability o ≡ true) ↔ Permits tests p o.request) os
minted_iff_permitted tests p c subject ctx requests os h e =
    rw ((evaluate_batch-outcomes tests subject (new_snapshot (some c)) ctx requests os e).1)
      (outcomes_for_iff tests p c subject requests h)

outcomes_for-at :
    (tests : NameTests) (subject : Subject) (snapshot : Snapshot) (requests : List Request) (i : ℕ)
    (o : DecisionOutcome)
    → get_elem? (outcomes_for tests subject snapshot requests) i ≡ some o
    → (r : Request) × (get_elem? requests i ≡ some r) × (outcome_for tests subject snapshot r ≡ o)
outcomes_for-at tests subject snapshot [] i o h = cc
outcomes_for-at tests subject snapshot (r ∷ rs) zero o h = (r, refl, cc)
outcomes_for-at tests subject snapshot (r ∷ rs) (suc i) o h =
    outcomes_for-at tests subject snapshot rs i o h

-- A capability that a batch mints is bound to the subject and to the request that stands at its outcome's
-- place, and it is valid exactly where that request has a source ID and is namespaced or has no
-- namespace.
pub minted_is_bound :
    (tests : NameTests) (subject : Subject) (snapshot : Snapshot) (ctx : Option Context)
    (requests : List Request) (os : List DecisionOutcome) (i : ℕ) (o : DecisionOutcome)
    (c : Capability)
    → (evaluate_batch tests subject snapshot ctx requests).result ≡ ok os
    → get_elem? os i ≡ some o
    → o.capability ≡ some c
    → (c.subject ≡ subject)
      × (get_elem? requests i ≡ some c.request)
      × ((valid c ≡ true) ↔ IsTargeted c.request)
minted_is_bound tests subject snapshot ctx requests os i o c e at h =
    let (v, same) = evaluate_batch-outcomes tests subject snapshot ctx requests os e in
    let (r, here, made) = outcomes_for-at tests subject snapshot requests i o (rw (sym same) at) in
    let (granted, m) = outcome_for-minted tests subject snapshot r c (rw made h) in
    rw m (
      refl,
      here,
      rw (valid-minted tests subject snapshot r v granted)
          (valid_request_iff tests r (allowed_request tests subject snapshot r granted)),
    )

current_before : (t : Tracker) (s : Subject) → is_current t s ≡ true → s.policy_epoch ≡ t.epoch
unfolding is_current
current_before t s h =
    current-epoch t (lease_of s)
      (and-true (validate_subject s) (is_lease_current t (lease_of s)) h).1

-- After a policy change and any further calls, a subject of the epoch before it is not current.
changed_policy-stale :
    (t : Tracker) (es : List Event) (s : Subject)
    → t.epoch + suc (policy_changes es) < two64
    → s.policy_epoch ≡ t.epoch
    → is_current (run t (policy_changed ∷ es)) s ≡ false
unfolding is_current run step invalidate_all next_epoch
changed_policy-stale t es s h e =
    rw
      (stale_stays_stale (invalidate_all t).0 es (lease_of s) (omega (arith, e, h))
        (omega (arith, h)))
      (ground arith)

-- A capability that is current is not current any more once the policy has changed, whatever else the
-- tracker is called with then, while the count of policy changes stays below 2^64.
pub policy_change_revokes :
    (t : Tracker) (es : List Event) (c : Capability)
    → t.epoch + suc (policy_changes es) < two64
    → is_capability_current (some (is_current t)) c ≡ true
    → is_capability_current (some (is_current (run t (policy_changed ∷ es)))) c ≡ false
unfolding is_capability_current
policy_change_revokes t es c h e =
    let held = (and-true (valid c) (is_current t c.subject) e).1 in
    rw (changed_policy-stale t es c.subject h (current_before t c.subject held)) (ground arith)
