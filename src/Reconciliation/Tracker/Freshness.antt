-- ===== src/Reconciliation/Tracker/Freshness.antt =====
-- `IsLeaseCurrent` of internal/reconciliation/tracker.go after each of the other calls.
use kubeseer.Prelude.{
  ℕ, String, ◌≡◌, refl, sym, ap, ◌∙◌, Option, none, some, Bool, true, false, not, List, ◌&&◌, arith,
  str_eq, ◌==◌, Bool-cases, Option-cases, inl, inr, if◌then◌else◌,
}
use kubeseer.Prelude.Int.{eq_ℤ}
use kubeseer.Prelude.Assoc.{lookup, insert, lookup-insert}
use kubeseer.Reconciliation.Key.{NamespacedName, key_beq, key_beq_iff, key_instance}
use kubeseer.Reconciliation.TrackedState.{
  Lease, TrackedState, Tracker, FacetIdentity, ensure_state, changed_identity,
}
use kubeseer.Reconciliation.Tracker.{
  observe, observe_delete, mark_absent, Grant, drop_lease, member, drop_at, release,
  is_lease_current, current_state,
}

pub inserted-current :
    (n : ℕ) (states : List (NamespacedName × TrackedState)) (key : NamespacedName)
    (s : TrackedState) (l : Lease)
    → current_state n l (lookup l.key (insert key s states)) ≡ (
        if key_beq key l.key
        then current_state n l (some s)
        else current_state n l (lookup l.key states))
inserted-current n states key s l = rw lookup-insert (go (key_beq key l.key))
  where
    go :
        (b : Bool)
        → current_state n l (if b then some s else lookup l.key states)
          ≡ (if b then current_state n l (some s) else current_state n l (lookup l.key states))
    go true = refl
    go false = refl

-- After `Observe`, a lease on the observed key is current exactly where the object is not being
-- deleted and the lease has its UID, its generation and the tracker's epoch; leases on other keys are
-- as before.
pub observe-current :
    (t : Tracker) (o : FacetIdentity) (l : Lease)
    → is_lease_current (observe t o) l ≡ (
        if key_beq o.key l.key
        then str_eq o.uid l.uid
          && eq_ℤ o.generation l.generation
          && not o.deleting
          && t.epoch == l.policy_epoch
        else is_lease_current t l)
unfolding observe is_lease_current
observe-current t o l =
    elim (Bool-cases
      (changed_identity (ensure_state t o.key) o.uid o.generation o.deleting false)) [
        | inl e ↦ rw (e, inserted-current) (unfold current_state in ground arith)
        | inr e ↦ rw (e, inserted-current) (unfold current_state in ground arith)
      ]

-- After `MarkAbsent` no lease on the key is current, and leases on other keys are as before.
pub mark_absent-current :
    (t : Tracker) (key : NamespacedName) (l : Lease)
    → is_lease_current (mark_absent t key) l
      ≡ (if key_beq key l.key then false else is_lease_current t l)
unfolding mark_absent is_lease_current
mark_absent-current t key l = rw inserted-current (unfold current_state in ground arith)

-- After `ObserveDelete` no lease on the key is current, and leases on other keys are as before.
pub observe_delete-current :
    (t : Tracker) (key : NamespacedName) (uid : String) (l : Lease)
    → is_lease_current (observe_delete t key uid) l
      ≡ (if key_beq key l.key then false else is_lease_current t l)
unfolding observe_delete is_lease_current
observe_delete-current t key uid l = rw inserted-current (unfold current_state in ground arith)

current_state-epoch :
    (n : ℕ) (l : Lease) (o : Option TrackedState) → current_state n l o ≡ true → l.policy_epoch ≡ n
unfolding current_state
current_state-epoch n l none h = cc
current_state-epoch n l (some s) h = ground arith

-- A current lease has the tracker's epoch.
pub current-epoch :
    (t : Tracker) (l : Lease) → is_lease_current t l ≡ true → l.policy_epoch ≡ t.epoch
unfolding is_lease_current
current-epoch t l h = current_state-epoch t.epoch l (lookup l.key t.states) h

drop_lease-current :
    (n : ℕ) (k l : Lease) (s : TrackedState)
    → current_state n l (some (drop_lease k s)) ≡ current_state n l (some s)
unfolding current_state drop_lease
drop_lease-current n k l s = ground arith

-- A release changes which lease is active, and not which leases are current.
pub release-current :
    (t : Tracker) (g : Grant) (l : Lease) → is_lease_current (release t g) l ≡ is_lease_current t l
unfolding release is_lease_current
release-current t g l = elim (Bool-cases (member g.context t.released)) [
  | inl e ↦ rw e
  | inr e ↦ rw e (elim (Option-cases (lookup g.lease.key t.states)) [
    | inl n ↦ rw (n, drop_at)
    | inr (s, m) ↦
        rw (m, drop_at)
          (rw (inserted-current t.epoch t.states g.lease.key (drop_lease g.lease s) l)
            (elim (Bool-cases (key_beq g.lease.key l.key)) [
              | inl same ↦
                  rw (same, drop_lease-current)
                    (ap (current_state t.epoch l) (
                      sym m ∙ ap (λ k. lookup k t.states) ((key_beq_iff g.lease.key l.key).0 same)))
              | inr other ↦ rw other
            ]))
  ])
]
