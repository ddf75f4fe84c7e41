-- ===== src/Selection/Bound.antt =====
-- What `BindCapabilities` of internal/selection/binder.go returns.
use mathlib.Core.Path.{subst}
use kubeseer.Prelude.{
  String, ◌≡◌, refl, Option, some, true, false, List, [], ◌∷◌, map, All, arith, Bool-cases, inl,
  inr,
}
use kubeseer.Prelude.Result.{ok, ◌>>=◌, Result-cases, err≢ok, ok_injective}
use kubeseer.AccessPolicy.Policy.{Request}
use kubeseer.AccessPolicy.Evaluate.{valid_scope}
use kubeseer.Authorization.Contracts.{Capability, DecisionOutcome, valid, valid_request}
use kubeseer.Selection.Contracts.{
  ReadTarget, SelectionPlan, request_eq, request_for_target, AuthorizedRead, valid_read,
}
use kubeseer.Selection.Binder.{
  AuthorizedPlan, has_request, duplicate_target, target_keys, unmatched_outcome, outcomes_at,
  matching_capability, authorize_outcome, authorize_one, bind_capabilities,
}
use kubeseer.Selection.Distinct.{
  Distinct, IsNew, duplicate_target_iff, request_eq_iff, authorize_each, bind_targets-each,
}

abbrev target_of : AuthorizedRead → ReadTarget
target_of r = r.target

-- The slots hold reads, each valid, of just the targets and in their order.
pub record IsBound (ts : List ReadTarget) (slots : List (Option AuthorizedRead)) : Type 0 where
  pub reads : List AuthorizedRead
  pub filled : slots ≡ map some reads
  pub targets : map target_of reads ≡ ts
  pub each_valid : All (λ r. valid_read r ≡ true) reads

valid-scope : (c : Capability) → valid c ≡ true → valid_scope c.request.scope ≡ true
unfolding valid valid_request
valid-scope c v = ground (arith, v)

authorized-valid :
    (t : ReadTarget) (c : Capability)
    → valid c ≡ true
    → request_eq c.request (request_for_target t) ≡ true
    → valid_read (record { target = t; capability = c }) ≡ true
unfolding valid_read request_for_target
authorized-valid t c v e =
    let same : c.request ≡ request_for_target t = (request_eq_iff _ _).0 e in
    let scope : valid_scope t.scope ≡ true =
      subst (λ r. valid_scope r.scope ≡ true) same (valid-scope c v) in
    rw (scope, v, e) refl

module _ (source_id : String) where
  authorize_one-ok :
      (want : Request) (os : List DecisionOutcome) (c : Capability)
      → authorize_one source_id want os ≡ ok c
      → (valid c ≡ true) × (request_eq c.request want ≡ true)
  unfolding authorize_one authorize_outcome matching_capability
  authorize_one-ok want [] c h = cc
  authorize_one-ok want (o ∷ []) c h = ground (arith, h)
  authorize_one-ok want (_ ∷ _ ∷ _) c h = cc

  cons-IsBound :
      (t : ReadTarget) (c : Capability) (ts : List ReadTarget) (rs : List (Option AuthorizedRead))
      → valid_read (record { target = t; capability = c }) ≡ true
      → IsBound ts rs
      → IsBound (t ∷ ts) (some (record { target = t; capability = c }) ∷ rs)
  cons-IsBound t c ts rs v b = record {
    reads = record { target = t; capability = c } ∷ b.reads;
    filled = rw b.filled refl;
    targets = rw b.targets refl;
    each_valid = (v, b.each_valid);
  }

  authorize_each-IsBound :
      (os : List DecisionOutcome) (ts : List ReadTarget) (rs : List (Option AuthorizedRead))
      → authorize_each source_id os ts ≡ ok rs
      → IsBound ts rs
  unfolding authorize_each
  authorize_each-IsBound os [] rs h = record {
    reads = [];
    filled = cc;
    targets = refl;
    each_valid = tt;
  }
  authorize_each-IsBound os (t ∷ ts) rs h =
      elim (Result-cases
        (authorize_one source_id (request_for_target t) (outcomes_at (request_for_target t) os))) [
          | inr (x, e) ↦ absurd (err≢ok (rw e at h))
          | inl (c, e) ↦ elim (Result-cases (authorize_each source_id os ts)) [
            | inr (x, f) ↦ absurd (err≢ok (rw (e, f) at h))
            | inl (qs, f) ↦
                let (v, same) = authorize_one-ok (request_for_target t) _ c e in
                subst (IsBound (t ∷ ts)) (ok_injective (rw (e, f) at h)) (
                  cons-IsBound t c ts qs (authorized-valid t c v same)
                    (authorize_each-IsBound os ts qs f))
          ]
        ]

All-IsNew : (ts : List ReadTarget) → All (IsNew []) ts
unfolding has_request
All-IsNew [] = tt
All-IsNew (t ∷ ts) = (refl, All-IsNew ts)

pub bind_capabilities-each :
    (p : SelectionPlan) (os : List DecisionOutcome)
    → Distinct (target_keys p.targets)
    → unmatched_outcome (target_keys p.targets) os ≡ false
    → bind_capabilities p os
      ≡ (authorize_each p.source_id os p.targets >>= λ rs. ok (record { plan = p; reads = rs }))
unfolding bind_capabilities
bind_capabilities-each p os d u =
    rw
      (
        (duplicate_target_iff [] p.targets).1 (d, All-IsNew p.targets),
        u,
        bind_targets-each p.source_id os p.targets d,
      )
      refl

read-IsBound :
    (p : SelectionPlan) (os : List DecisionOutcome) (a : AuthorizedPlan)
    → (authorize_each p.source_id os p.targets >>= λ rs. ok (record { plan = p; reads = rs }))
      ≡ ok a
    → (a.plan ≡ p) × IsBound p.targets a.reads
read-IsBound p os a h = elim (Result-cases (authorize_each p.source_id os p.targets)) [
  | inr (x, e) ↦ absurd (err≢ok (rw e at h))
  | inl (rs, e) ↦
      subst (λ b. (b.plan ≡ p) × IsBound p.targets b.reads) (ok_injective (rw e at h))
        (refl, authorize_each-IsBound p.source_id os p.targets rs e)
]

-- Where the binding succeeds, the plan is unchanged, and every slot of the reads is filled: the reads are
-- valid ones, of just the plan's targets and in their order. No target is left without a capability
-- for exactly its request.
pub bind_capabilities-IsBound :
    (p : SelectionPlan) (os : List DecisionOutcome) (a : AuthorizedPlan)
    → bind_capabilities p os ≡ ok a
    → (a.plan ≡ p) × IsBound p.targets a.reads
unfolding bind_capabilities
bind_capabilities-IsBound p os a h = elim (Bool-cases (duplicate_target [] p.targets)) [
  | inl e ↦ absurd (err≢ok (rw e at h))
  | inr e ↦ elim (Bool-cases (unmatched_outcome (target_keys p.targets) os)) [
    | inl u ↦ absurd (err≢ok (rw (e, u) at h))
    | inr u ↦
        let d = ((duplicate_target_iff [] p.targets).0 e).0 in
        read-IsBound p os a (rw (bind_capabilities-each p os d u) at h)
  ]
]
