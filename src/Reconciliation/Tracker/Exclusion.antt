-- ===== src/Reconciliation/Tracker/Exclusion.antt =====
-- How long a lease that `Acquire` of internal/reconciliation/tracker.go grants keeps others out.
use kubeseer.Prelude.{String, ◌≡◌, false, List, [], ◌∷◌}
use kubeseer.Prelude.Int.{ℤ}
use kubeseer.Reconciliation.Key.{NamespacedName, key_beq, key_instance}
use kubeseer.Reconciliation.TrackedState.{ActiveLease, TrackedState, Tracker, FacetIdentity}
use kubeseer.Reconciliation.Tracker.{Grant, lease_eq}
use kubeseer.Reconciliation.Tracker.Invariant.{
  Event, observed, deleted, missing, acquired, released,
}

-- A call that is not meant to end the lease: any `Acquire`, the release of another lease, and an
-- observation of another object.
pub data Spares (key : NamespacedName) (a : ActiveLease) : Event → Type 0 where
  by_acquire :
      (k : NamespacedName) (uid : String) (generation : ℤ)
      → Spares key a (acquired k uid generation)
  by_release : (g : Grant) → lease_eq a.lease g.lease ≡ false → Spares key a (released g)
  by_observe : (o : FacetIdentity) → key_beq o.key key ≡ false → Spares key a (observed o)
  by_delete :
      (k : NamespacedName) (uid : String) → key_beq k key ≡ false → Spares key a (deleted k uid)
  by_absence : (k : NamespacedName) → key_beq k key ≡ false → Spares key a (missing k)

pub data AreSparing (key : NamespacedName) (a : ActiveLease) : List Event → Type 0 where
  no_call : AreSparing key a []
  one_more :
      (e : Event) (es : List Event)
      → Spares key a e
      → AreSparing key a es
      → AreSparing key a (e ∷ es)
