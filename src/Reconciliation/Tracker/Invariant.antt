-- ===== src/Reconciliation/Tracker/Invariant.antt =====
-- Sequences of calls of internal/reconciliation/tracker.go, and the active leases after them.
use mathlib.Core.Path.{subst}
use kubeseer.Prelude.{
  ℕ, String, ◌≡◌, refl, Option, none, some, Bool, true, false, List, [], ◌∷◌, arith, eq_iff,
  Bool-cases, Option-cases, inl, inr, if◌then◌else◌,
}
use kubeseer.Prelude.Int.{ℤ, eq_ℤ_iff}
use kubeseer.Prelude.Assoc.{lookup, lookup-insert, lookup-map_values}
use kubeseer.Reconciliation.Key.{NamespacedName, key_beq, key_beq_iff, key_instance}
use kubeseer.Reconciliation.TrackedState.{
  Lease, ActiveLease, TrackedState, Tracker, new_tracker, FacetIdentity, ensure_state, fresh_state,
  changed_identity, store,
}
use kubeseer.Reconciliation.Tracker.{
  observe, observe_delete, mark_absent, invalidate_state, invalidate_all, Grant, acquire,
  drop_lease, release, is_lease_current, current_state, next_epoch, member, drop_at,
}

-- `a` is a lease on what the state of `key` says now.
pub record Owns (epoch : ℕ) (key : NamespacedName) (s : TrackedState) (a : ActiveLease)
    : Type 0 where
  pub of_key : a.lease.key ≡ key
  pub of_uid : s.uid ≡ a.lease.uid
  pub of_generation : s.generation ≡ a.lease.generation
  pub of_epoch : epoch ≡ a.lease.policy_epoch
  pub at_epoch : s.policy_epoch ≡ epoch
  pub not_deleting : s.deleting ≡ false
  pub not_absent : s.absent ≡ false

abbrev pub IsOwned : ℕ → NamespacedName → TrackedState → Type 0
IsOwned epoch key s = (a : ActiveLease) → s.active ≡ some a → Owns epoch key s a

abbrev pub IsOwnedAt : ℕ → NamespacedName → Option TrackedState → Type 0
IsOwnedAt epoch key none = Unit
IsOwnedAt epoch key (some s) = IsOwned epoch key s

-- Every active lease is on what the state of its key says now.
pub record IsSoundMap (epoch : ℕ) (states : List (NamespacedName × TrackedState)) : Type 0 where
  pub owned : (key : NamespacedName) → IsOwnedAt epoch key (lookup key states)

abbrev pub IsSound : Tracker → Type 0
IsSound t = IsSoundMap t.epoch t.states

module _ (t : Tracker) (key : NamespacedName) where
  -- Storing an owned state keeps the invariant.
  store-IsSound : (s : TrackedState) → IsSound t → IsOwned t.epoch key s → IsSound (store t key s)
  unfolding store
  store-IsSound s h k = record { owned = λ j. rw lookup-insert (pick j (key_beq key j) refl) }
    where
      pick :
          (j : NamespacedName) (b : Bool)
          → key_beq key j ≡ b
          → IsOwnedAt t.epoch j (if b then some s else lookup j t.states)
      pick j true e = subst (λ i. IsOwned t.epoch i s) ((key_beq_iff key j).0 e) k
      pick j false e = h.owned j

  ensure_state-IsOwned : IsSound t → IsOwned t.epoch key (ensure_state t key)
  unfolding ensure_state
  ensure_state-IsOwned h = go (lookup key t.states) (h.owned key)
    where
      go :
          (o : Option TrackedState)
          → IsOwnedAt t.epoch key o
          → IsOwned t.epoch key (elim o [ none ↦ fresh_state t.epoch | some state ↦ state ])
      go none h = λ a e. cc
      go (some s) h = h

-- A state whose identity did not change keeps its lease.
unchanged-IsOwned :
    (epoch : ℕ) (o : FacetIdentity) (s : TrackedState)
    → changed_identity s o.uid o.generation o.deleting false ≡ false
    → IsOwned epoch o.key s
    → IsOwned epoch o.key (record s {
      uid = o.uid;
      generation = o.generation;
      deleting = o.deleting;
      absent = false;
      policy_epoch = epoch;
    })
unfolding changed_identity
unchanged-IsOwned epoch o s same h a e =
    ground (arith, h a e, eq_iff s.uid o.uid, eq_ℤ_iff s.generation o.generation)

drop_lease_fields :
    {epoch : ℕ} (key : NamespacedName) (l : Lease) (s : TrackedState) (a : ActiveLease)
    → (drop_lease l s).active ≡ some a
    → (s.active ≡ some a → Owns epoch key s a)
    → Owns epoch key (drop_lease l s) a
unfolding drop_lease
drop_lease_fields key l s a e k = ground arith

module _ (t : Tracker) (h : IsSound t) where
  observe-IsSound : (o : FacetIdentity) → IsSound (observe t o)
  unfolding observe
  observe-IsSound o =
      elim (Bool-cases
        (changed_identity (ensure_state t o.key) o.uid o.generation o.deleting false)) [
          | inl e ↦ rw e (store-IsSound t o.key _ h (λ a p. cc))
          | inr e ↦ rw e (
              store-IsSound t o.key _ h (
                unchanged-IsOwned t.epoch o (ensure_state t o.key) e
                  (ensure_state-IsOwned t o.key h)))
        ]

  observe_delete-IsSound :
      (key : NamespacedName) (uid : String) → IsSound (observe_delete t key uid)
  unfolding observe_delete
  observe_delete-IsSound key uid = store-IsSound t key _ h (λ a p. cc)

  mark_absent-IsSound : (key : NamespacedName) → IsSound (mark_absent t key)
  unfolding mark_absent
  mark_absent-IsSound key = store-IsSound t key _ h (λ a p. cc)

  invalidate_all-IsSound : IsSound (invalidate_all t).0
  unfolding invalidate_all
  invalidate_all-IsSound = record {
    owned = λ key. rw lookup-map_values (go key (lookup key t.states));
  }
    where
      go :
          (key : NamespacedName) (o : Option TrackedState)
          → IsOwnedAt
              (next_epoch t.epoch)
              key
              (elim o [ none ↦ none | some s ↦ some (invalidate_state (next_epoch t.epoch) s) ])
      go key none = tt
      go key (some s) = unfold invalidate_state in λ a p. cc

  acquire-IsSound : (key : NamespacedName) (uid : String) (g : ℤ) → IsSound (acquire t key uid g).0
  unfolding acquire
  acquire-IsSound key uid g = elim (Option-cases (ensure_state t key).active) [
    | inl e ↦ rw (e, acquire) (store-IsSound t key _ h (λ a p. ground arith))
    | inr (a, e) ↦ rw (e, acquire) (store-IsSound t key _ h (ensure_state-IsOwned t key h))
  ]

  drop_lease-IsOwned :
      (key : NamespacedName) (l : Lease) (s : TrackedState)
      → IsOwned t.epoch key s
      → IsOwned t.epoch key (drop_lease l s)
  unfolding drop_lease
  drop_lease-IsOwned key l s k a e = drop_lease_fields key l s a e (k a)

  release-IsSound : (g : Grant) → IsSound (release t g)
  unfolding release
  release-IsSound g = elim (Bool-cases (member g.context t.released)) [
    | inl e ↦ rw e h
    | inr e ↦ rw e (elim (Option-cases (lookup g.lease.key t.states)) [
      | inl n ↦ rw (n, drop_at) h
      | inr (s, m) ↦
          rw (m, drop_at)
            (store-IsSound t g.lease.key (drop_lease g.lease s) h (
              drop_lease-IsOwned g.lease.key g.lease s
                (subst (IsOwnedAt t.epoch g.lease.key) m (h.owned g.lease.key))))
    ])
  ]

-- A call of a method, as one of the callers makes it.
pub data Event : Type 0 where
  observed : FacetIdentity → Event
  deleted : NamespacedName → String → Event
  missing : NamespacedName → Event
  policy_changed : Event
  acquired : NamespacedName → String → ℤ → Event
  released : Grant → Event

unfoldable pub step : Tracker → Event → Tracker
step t (observed o) = observe t o
step t (deleted key uid) = observe_delete t key uid
step t (missing key) = mark_absent t key
step t policy_changed = (invalidate_all t).0
step t (acquired key uid generation) = (acquire t key uid generation).0
step t (released g) = release t g

unfoldable pub run : Tracker → List Event → Tracker
run t [] = t
run t (e ∷ es) = run (step t e) es

step-IsSound : (t : Tracker) (e : Event) → IsSound t → IsSound (step t e)
unfolding step
step-IsSound t (observed o) h = observe-IsSound t h o
step-IsSound t (deleted key uid) h = observe_delete-IsSound t h key uid
step-IsSound t (missing key) h = mark_absent-IsSound t h key
step-IsSound t policy_changed h = invalidate_all-IsSound t h
step-IsSound t (acquired key uid g) h = acquire-IsSound t h key uid g
step-IsSound t (released g) h = release-IsSound t h g

pub run-IsSound : (t : Tracker) (es : List Event) → IsSound t → IsSound (run t es)
unfolding run
run-IsSound t [] h = h
run-IsSound t (e ∷ es) h = run-IsSound (step t e) es (step-IsSound t e h)

pub new_tracker-IsSound : IsSound new_tracker
unfolding lookup
new_tracker-IsSound = record { owned = λ key. tt }

Owns-current :
    (t : Tracker) {key : NamespacedName} {s : TrackedState} {a : ActiveLease}
    → lookup key t.states ≡ some s
    → Owns t.epoch key s a
    → is_lease_current t a.lease ≡ true
unfolding is_lease_current current_state
Owns-current t {key} {s} {a} m o =
    rw (o.of_key, m)
      (ground (arith, eq_iff s.uid a.lease.uid, eq_ℤ_iff s.generation a.lease.generation))

-- After any calls, releases of any leases included, a lease that the tracker holds as active passes
-- `IsLeaseCurrent`.
pub active_is_current :
    (es : List Event) (key : NamespacedName) {s : TrackedState} {a : ActiveLease}
    → lookup key (run new_tracker es).states ≡ some s
    → s.active ≡ some a
    → is_lease_current (run new_tracker es) a.lease ≡ true
active_is_current es key {s} {a} m e =
    let t = run new_tracker es in
    Owns-current t m (
      subst (IsOwnedAt t.epoch key) m ((run-IsSound new_tracker es new_tracker-IsSound).owned key) a
        e)
