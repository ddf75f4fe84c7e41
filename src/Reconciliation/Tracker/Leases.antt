-- ===== src/Reconciliation/Tracker/Leases.antt =====
-- `Acquire` of internal/reconciliation/tracker.go, and the closure that it returns.
use mathlib.Core.Path.{subst₂}
use kubeseer.Prelude.{
  ℕ, String, ◌≡◌, ◌≢◌, refl, sym, ap, ◌∙◌, Option, none, some, true, false, List, arith, eq_iff,
  Bool-cases, Option-cases, inl, inr,
}
use kubeseer.Prelude.Int.{ℤ, eq_ℤ_iff}
use kubeseer.Prelude.Assoc.{lookup, insert, lookup-insert}
use kubeseer.Reconciliation.Key.{NamespacedName, key_beq_refl, key_instance}
use kubeseer.Reconciliation.TrackedState.{
  Lease, ActiveLease, TrackedState, Tracker, ensure_state, store,
}
use kubeseer.Reconciliation.Tracker.{
  Grant, grant_lease, acquire, drop_lease, member, drop_at, release, is_lease_current,
  current_state, lease_eq,
}
use kubeseer.Reconciliation.Tracker.Freshness.{release-current}

-- The key has this active lease.
pub record IsHeld (t : Tracker) (key : NamespacedName) (a : ActiveLease) : Type 0 where
  pub state : TrackedState
  pub found : lookup key t.states ≡ some state
  pub active : state.active ≡ some a

-- What a granted lease brings about.
pub record IsGranted (t t' : Tracker) (key : NamespacedName) (g : Grant) : Type 0 where
  pub of_key : g.lease.key ≡ key
  pub of_epoch : g.lease.policy_epoch ≡ t.epoch
  pub current : is_lease_current t' g.lease ≡ true
  pub fresh_context : g.context ≡ t.contexts
  pub same_cancelled : t'.cancelled ≡ t.cancelled
  pub held : IsHeld t' key (record { lease = g.lease; cancel = g.context })

grant_injective : {g h : Grant} → ◌≡◌ {A = Option Grant} (some g) (some h) → g ≡ h
grant_injective e = cc

absurd_grant :
    {r : Tracker × Option Grant} {t' : Tracker} {g : Grant} → r.1 ≡ none → r ≡ (t', some g) → ⊥
absurd_grant e h = cc

module _ (t : Tracker) (key : NamespacedName) (uid : String) (generation : ℤ) where
  -- `Acquire` refuses exactly where the key has an active lease.
  pub acquire_refuses :
      {a : ActiveLease}
      → (ensure_state t key).active ≡ some a
      → (acquire t key uid generation).1 ≡ none
  unfolding acquire
  acquire_refuses e = rw (e, acquire)

  acquire-granted :
      (ensure_state t key).active ≡ none
      → acquire t key uid generation ≡ grant_lease t key uid generation (ensure_state t key)
  unfolding acquire grant_lease
  acquire-granted e = rw (e, acquire)

lookup-insert_self :
    (key : NamespacedName) (s : TrackedState) (states : List (NamespacedName × TrackedState))
    → lookup key (insert key s states) ≡ some s
lookup-insert_self key s states = rw (lookup-insert, key_beq_refl)

-- The state that a key has once it is looked up.
pub ensure_state_found :
    (t : Tracker) (key : NamespacedName) (s : TrackedState)
    → lookup key t.states ≡ some s
    → ensure_state t key ≡ s
unfolding ensure_state
ensure_state_found t key s e = rw (e, ensure_state)

module _ (t : Tracker) (key : NamespacedName) (uid : String) (generation : ℤ)
    (s : TrackedState) where
  abbrev granted : Lease
  granted = record { key = key; uid = uid; generation = generation; policy_epoch = t.epoch }

  grant_lease-IsGranted :
      IsGranted t
        (grant_lease t key uid generation s).0
        key
        (record { lease = granted; context = t.contexts })
  unfolding grant_lease
  grant_lease-IsGranted = record {
    of_key = refl;
    of_epoch = refl;
    current =
        unfold is_lease_current in
        rw (lookup-insert_self)
          (unfold current_state in ground (arith, eq_iff uid uid, eq_ℤ_iff generation generation));
    fresh_context = refl;
    same_cancelled = refl;
    held = record {
      state = record {
        uid = uid;
        generation = generation;
        deleting = false;
        absent = false;
        policy_epoch = t.epoch;
        active = some (record { lease = granted; cancel = t.contexts });
      };
      found = lookup-insert_self key _ t.states;
      active = refl;
    };
  }

-- A lease that `Acquire` grants is current, on the key, of the tracker's epoch, with a context of its
-- own, and it is the key's active lease.
pub acquire-IsGranted :
    (t t' : Tracker) (key : NamespacedName) (uid : String) (generation : ℤ) (g : Grant)
    → acquire t key uid generation ≡ (t', some g)
    → IsGranted t t' key g
unfolding grant_lease
acquire-IsGranted t t' key uid generation g h = elim (Option-cases (ensure_state t key).active) [
  | inr (a, e) ↦ absurd (absurd_grant (acquire_refuses t key uid generation e) h)
  | inl e ↦
      let p = sym (acquire-granted t key uid generation e) ∙ h in
      subst₂ (λ u l. IsGranted t u key l) (ap (λ (r : Tracker × Option Grant). r.0) p)
        (grant_injective (ap (λ (r : Tracker × Option Grant). r.1) p))
        (grant_lease-IsGranted t key uid generation (ensure_state t key))
]

-- Releasing a lease leaves the key's state as it is where another lease is active there.
pub release-keeps_other :
    (t : Tracker) (g : Grant) (s : TrackedState) (a : ActiveLease)
    → lookup g.lease.key t.states ≡ some s
    → s.active ≡ some a
    → lease_eq a.lease g.lease ≡ false
    → lookup g.lease.key (release t g).states ≡ some s
unfolding release
release-keeps_other t g s a m e d = elim (Bool-cases (member g.context t.released)) [
  | inl y ↦ rw y m
  | inr n ↦
      rw (n, m, drop_at)
        (unfold store drop_lease in rw (lookup-insert_self) (rw (e, drop_lease) (ground arith)))
]

lease_eq_refl : (l k : Lease) → l ≡ k → lease_eq l k ≡ true
lease_eq_refl l k e = rw e (
    unfold lease_eq in
    ground (arith, key_beq_refl k.key, eq_iff k.uid k.uid, eq_ℤ_iff k.generation k.generation))

drop_lease-equal :
    (s : TrackedState) (a : ActiveLease) (l : Lease)
    → s.active ≡ some a
    → lease_eq a.lease l ≡ true
    → drop_lease l s ≡ record s { active = none }
unfolding drop_lease
drop_lease-equal s a l e h = ground arith

release-cancelled :
    (t : Tracker) (g : Grant) (n : ℕ)
    → n ≢ g.context
    → member g.context t.released ≡ false
    → member n t.cancelled ≡ false
    → member n (release t g).cancelled ≡ false
unfolding release member
release-cancelled t g n d r c = ground arith

-- Where the key was acquired again with an equal lease, and neither is the first grant released nor the
-- second one's context cancelled, a late release of the first takes the second one's lease out of the
-- key's state, so that another `Acquire` is possible, although the second lease stays as current as it
-- was and its context is not cancelled.
pub release-drops_later :
    (t : Tracker) (g : Grant) (s : TrackedState) (a : ActiveLease)
    → lookup g.lease.key t.states ≡ some s
    → s.active ≡ some a
    → a.lease ≡ g.lease
    → a.cancel ≢ g.context
    → member g.context t.released ≡ false
    → member a.cancel t.cancelled ≡ false
    → ((ensure_state (release t g) g.lease.key).active ≡ none)
      × (is_lease_current (release t g) a.lease ≡ is_lease_current t a.lease)
      × (member a.cancel (release t g).cancelled ≡ false)
release-drops_later t g s a m e same other n c = (
  ap (λ (r : TrackedState). r.active)
      (ensure_state_found (release t g) g.lease.key (record s { active = none })
        (unfold release in
          rw (n, m, drop_at)
            (unfold store in
              rw (
                lookup-insert_self,
                drop_lease-equal s a g.lease e (lease_eq_refl a.lease g.lease same),
              )))),
  release-current t g a.lease,
  release-cancelled t g a.cancel other n c,
)
