-- ===== src/Selection/Distinct.antt =====
-- The slots of `BindCapabilities` of internal/selection/binder.go where the targets are distinct.
use kubeseer.Prelude.{
  String, ◌≡◌, ◌↔◌, refl, Option, some, true, false, List, [], ◌∷◌, All, arith, eq_iff, inl, inr,
}
use kubeseer.Prelude.Result.{Result, ok, ◌>>=◌, Result-cases}
use kubeseer.AccessPolicy.Policy.{Scope, scope_namespaced, scope_cluster, other_scope, Request}
use kubeseer.Authorization.Contracts.{DecisionOutcome}
use kubeseer.Selection.Contracts.{
  SelectionError, GroupVersionResource, ReadTarget, scope_eq, request_eq, request_for_target,
  AuthorizedRead,
}
use kubeseer.Selection.Binder.{
  has_request, duplicate_target, target_keys, outcomes_at, gvr_eq, target_eq, authorize_one, place,
  bind_targets, unset,
}

scope_eq_iff : (a b : Scope) → (scope_eq a b ≡ true) ↔ (a ≡ b)
unfolding scope_eq
scope_eq_iff scope_namespaced b = ground arith
scope_eq_iff scope_cluster b = ground arith
scope_eq_iff (other_scope a) scope_namespaced = ground arith
scope_eq_iff (other_scope a) scope_cluster = ground arith
scope_eq_iff (other_scope a) (other_scope b) = ground (arith, eq_iff a b)

pub request_eq_iff : (a b : Request) → (request_eq a b ≡ true) ↔ (a ≡ b)
unfolding request_eq
request_eq_iff a b = ground (
  arith,
  eq_iff a.source_id b.source_id,
  eq_iff a.api_group b.api_group,
  eq_iff a.kind b.kind,
  eq_iff a.namespace b.namespace,
  scope_eq_iff a.scope b.scope,
)

gvr_eq_iff : (a b : GroupVersionResource) → (gvr_eq a b ≡ true) ↔ (a ≡ b)
unfolding gvr_eq
gvr_eq_iff a b =
    ground (arith, eq_iff a.group b.group, eq_iff a.version b.version, eq_iff a.resource b.resource)

target_eq_iff : (a b : ReadTarget) → (target_eq a b ≡ true) ↔ (a ≡ b)
unfolding target_eq
target_eq_iff a b = ground (
  arith,
  eq_iff a.source_id b.source_id,
  gvr_eq_iff a.gvr b.gvr,
  eq_iff a.kind b.kind,
  scope_eq_iff a.scope b.scope,
  eq_iff a.namespace b.namespace,
)

-- No request stands twice in the list.
abbrev pub Distinct : List Request → Type 0
Distinct [] = Unit
Distinct (r ∷ rs) = (has_request r rs ≡ false) × Distinct rs

-- The target's request differs from that of `r`.
abbrev pub Differs : Request → ReadTarget → Type 0
Differs r t = request_eq r (request_for_target t) ≡ false

abbrev pub IsNew : List Request → ReadTarget → Type 0
IsNew keys t = has_request (request_for_target t) keys ≡ false

pub has_request_iff :
    (r : Request) (ts : List ReadTarget)
    → (has_request r (target_keys ts) ≡ false) ↔ All (Differs r) ts
unfolding has_request target_keys
has_request_iff r [] = (λ h. tt, λ h. refl)
has_request_iff r (t ∷ ts) = ground (
  arith,
  request_eq_iff r (request_for_target t),
  request_eq_iff (request_for_target t) r,
  has_request_iff r ts,
)

IsNew-cons :
    (r : Request) (keys : List Request) (ts : List ReadTarget)
    → All (IsNew (r ∷ keys)) ts ↔ (All (Differs r) ts × All (IsNew keys) ts)
unfolding has_request
IsNew-cons r keys [] = (λ h. (tt, tt), λ h. tt)
IsNew-cons r keys (t ∷ ts) = ground (arith, IsNew-cons r keys ts)

pub duplicate_target_iff :
    (keys : List Request) (ts : List ReadTarget)
    → (duplicate_target keys ts ≡ false) ↔ (Distinct (target_keys ts) × All (IsNew keys) ts)
unfolding duplicate_target target_keys
duplicate_target_iff keys [] = (λ h. (tt, tt), λ h. refl)
duplicate_target_iff keys (t ∷ ts) = ground (
  arith,
  duplicate_target_iff (request_for_target t ∷ keys) ts,
  IsNew-cons (request_for_target t) keys ts,
  has_request_iff (request_for_target t) ts,
)

Differs-target :
    (x : ReadTarget) (ts : List ReadTarget)
    → All (Differs (request_for_target x)) ts
    → All (λ t. target_eq x t ≡ false) ts
Differs-target x [] h = tt
Differs-target x (t ∷ ts) h = (
  ground
      (arith, h.0, target_eq_iff x t, request_eq_iff (request_for_target x) (request_for_target t)),
  Differs-target x ts h.1,
)

module _ (source_id : String) (os : List DecisionOutcome) where
  -- What the loop places in front of a slot of another target stays in front of it.
  bind_skip :
      (x : ReadTarget) (xs : List ReadTarget) (r : Option AuthorizedRead)
      (rs : List (Option AuthorizedRead)) (ts : List ReadTarget)
      → All (λ t. target_eq x t ≡ false) ts
      → bind_targets source_id os (x ∷ xs) ts (r ∷ rs)
        ≡ (bind_targets source_id os xs ts rs >>= λ qs. ok (r ∷ qs))
  unfolding bind_targets place
  bind_skip x xs r rs [] h = refl
  bind_skip x xs r rs (t ∷ ts) h =
      elim (Result-cases
        (authorize_one source_id (request_for_target t) (outcomes_at (request_for_target t) os))) [
          | inl (c, e) ↦ rw (e, h.0) (bind_skip x xs r (place source_id t c xs rs) ts h.1)
          | inr (x', e) ↦ rw e refl
        ]

  -- The reads of the targets one by one.
  unfoldable pub authorize_each :
      List ReadTarget → Result SelectionError (List (Option AuthorizedRead))
  authorize_each [] = ok []
  authorize_each (t ∷ ts) =
      authorize_one source_id (request_for_target t) (outcomes_at (request_for_target t) os)
      >>= λ c. authorize_each ts >>= λ rs. ok (some (record { target = t; capability = c }) ∷ rs)

  pub bind_targets-each :
      (ts : List ReadTarget)
      → Distinct (target_keys ts)
      → bind_targets source_id os ts ts (unset ts) ≡ authorize_each ts
  unfolding bind_targets place unset authorize_each target_keys
  bind_targets-each [] h = refl
  bind_targets-each (t ∷ ts) h =
      elim (Result-cases
        (authorize_one source_id (request_for_target t) (outcomes_at (request_for_target t) os))) [
          | inl (c, e) ↦
              rw
                (
                  e,
                  (target_eq_iff t t).1 refl,
                  bind_skip t ts (some (record { target = t; capability = c })) (unset ts) ts
                      (Differs-target t ts ((has_request_iff (request_for_target t) ts).0 h.0)),
                  bind_targets-each ts h.1,
                )
                refl
          | inr (x, e) ↦ rw e refl
        ]
