-- ===== src/Reconciliation/Tracker/Policy.antt =====
-- `InvalidateAll` of internal/reconciliation/tracker.go: leases of an older epoch, and active ones.
use kubeseer.Prelude.{
  ℕ, suc, ◌+◌, ◌<◌, ◌≡◌, refl, some, true, false, List, [], ◌∷◌, ◌++◌, arith, Bool-cases,
  Option-cases, inl, inr,
}
use kubeseer.Prelude.Int.{two64}
use kubeseer.Prelude.Assoc.{lookup}
use kubeseer.Reconciliation.Key.{NamespacedName, key_beq, key_instance}
use kubeseer.Reconciliation.TrackedState.{
  Lease, ActiveLease, TrackedState, Tracker, ensure_state, changed_identity, active_context,
}
use kubeseer.Reconciliation.Tracker.{
  observe, observe_delete, mark_absent, next_epoch, invalidate_all, active_contexts, acquire,
  member, drop_at, release, is_lease_current,
}
use kubeseer.Reconciliation.Tracker.Invariant.{
  Event, observed, deleted, missing, policy_changed, acquired, released, step, run,
}
use kubeseer.Reconciliation.Tracker.Freshness.{current-epoch}

-- The number of policy changes among the calls.
unfoldable pub policy_changes : List Event → ℕ
policy_changes [] = 0
policy_changes (policy_changed ∷ es) = suc (policy_changes es)
policy_changes (_ ∷ es) = policy_changes es

abbrev bump : Event → ℕ → ℕ
bump policy_changed n = next_epoch n
bump _ n = n

step-epoch : (t : Tracker) (e : Event) → (step t e).epoch ≡ bump e t.epoch
unfolding step observe observe_delete mark_absent invalidate_all acquire release
step-epoch t (observed o) =
    elim (Bool-cases
      (changed_identity (ensure_state t o.key) o.uid o.generation o.deleting false)) [
        | inl e ↦ rw e
        | inr e ↦ rw e
      ]
step-epoch t (deleted key uid) = refl
step-epoch t (missing key) = refl
step-epoch t policy_changed = refl
step-epoch t (acquired key uid g) = elim (Option-cases (ensure_state t key).active) [
  | inl e ↦ rw (e, step, acquire)
  | inr (a, e) ↦ rw (e, step, acquire)
]
step-epoch t (released g) = elim (Bool-cases (member g.context t.released)) [
  | inl e ↦ rw (e, step, release)
  | inr e ↦
      rw (e, step, release)
        (elim (Option-cases (lookup g.lease.key t.states)) [
          | inl n ↦ rw (n, drop_at)
          | inr (s, m) ↦ rw (m, drop_at)
        ])
]

run-epoch :
    (t : Tracker) (es : List Event)
    → t.epoch + policy_changes es < two64
    → (run t es).epoch ≡ t.epoch + policy_changes es
unfolding run policy_changes next_epoch
run-epoch t [] h = omega arith
run-epoch t (policy_changed ∷ es) h =
    let e = step-epoch t policy_changed in
    omega (arith, e, run-epoch (step t policy_changed) es (omega (arith, e)))
run-epoch t (c ∷ es) h =
    let e = step-epoch t c in omega (arith, e, run-epoch (step t c) es (omega (arith, e)))

-- A lease of an epoch that has passed is never current again, whatever is called, while the count of
-- policy changes stays below 2^64.
pub stale_stays_stale :
    (t : Tracker) (es : List Event) (l : Lease)
    → l.policy_epoch < t.epoch
    → t.epoch + policy_changes es < two64
    → is_lease_current (run t es) l ≡ false
stale_stays_stale t es l h k = elim (Bool-cases (is_lease_current (run t es) l)) [
  | inl e ↦ absurd (omega (arith, current-epoch (run t es) l e, run-epoch t es k))
  | inr e ↦ e
]

-- Every lease that is current before a policy change is not current after it, for an epoch below 2^64.
pub invalidate_all-stale :
    (t : Tracker) (l : Lease)
    → t.epoch < two64
    → is_lease_current t l ≡ true
    → is_lease_current (invalidate_all t).0 l ≡ false
invalidate_all-stale t l h c = elim (Bool-cases (is_lease_current (invalidate_all t).0 l)) [
  | inl e ↦ absurd (
      unfold invalidate_all next_epoch in
      omega (arith, current-epoch t l c, current-epoch (invalidate_all t).0 l e))
  | inr e ↦ e
]

member-append-left : (n : ℕ) (xs ys : List ℕ) → member n xs ≡ true → member n (xs ++ ys) ≡ true
unfolding member
member-append-left n [] ys h = cc
member-append-left n (x ∷ xs) ys h = ground (arith, member-append-left n xs ys)

member-append-right : (n : ℕ) (xs ys : List ℕ) → member n ys ≡ true → member n (xs ++ ys) ≡ true
unfolding member
member-append-right n [] ys h = h
member-append-right n (x ∷ xs) ys h = ground (arith, member-append-right n xs ys h)

active-member :
    (states : List (NamespacedName × TrackedState)) (key : NamespacedName) (s : TrackedState)
    (a : ActiveLease)
    → lookup key states ≡ some s
    → s.active ≡ some a
    → member a.cancel (active_contexts states) ≡ true
unfolding lookup active_contexts
active-member [] key s a m e = cc
active-member ((j, r) ∷ rest) key s a m e = elim (Bool-cases (key_beq j key)) [
  | inl same ↦
      member-append-left a.cancel (active_context r) (active_contexts rest)
        (unfold active_context member in ground arith)
  | inr other ↦
      member-append-right a.cancel (active_context r) (active_contexts rest)
        (active-member rest key s a (ground arith) e)
]

-- A policy change cancels the context of every active lease.
pub invalidate_all-cancels :
    (t : Tracker) (key : NamespacedName) (s : TrackedState) (a : ActiveLease)
    → lookup key t.states ≡ some s
    → s.active ≡ some a
    → member a.cancel (invalidate_all t).0.cancelled ≡ true
unfolding invalidate_all
invalidate_all-cancels t key s a m e =
    member-append-left a.cancel (active_contexts t.states) t.cancelled
      (active-member t.states key s a m e)
