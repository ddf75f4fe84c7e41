-- ===== src/Reconciliation/Tracker.antt =====
-- internal/reconciliation/tracker.go: the methods of `FreshnessTracker`. Each runs under the
-- tracker's mutex, so a method is one step on the whole state.
pub mod Invariant
pub mod Freshness
pub mod Policy
pub mod Leases
pub mod Exclusion
use kubeseer.Prelude.{
  ℕ, ◌+◌, ◌%◌, String, Option, none, some, Bool, true, false, not, List, [], ◌∷◌, ◌++◌, ◌&&◌, ◌||◌,
  str_eq, ◌==◌, if◌then◌else◌,
}
use kubeseer.Prelude.Int.{ℤ, pos, two64, leb_ℤ, eq_ℤ}
use kubeseer.Prelude.Assoc.{lookup, map_values}
use kubeseer.Reconciliation.Key.{NamespacedName, key_beq, key_instance}
use kubeseer.Reconciliation.TrackedState.{
  Lease, ActiveLease, TrackedState, Tracker, FacetIdentity, ensure_state, changed_identity,
  active_context, without_active, cancel_active, store,
}

unfoldable pub observe : Tracker → FacetIdentity → Tracker
unfolding cancel_active store
observe t object =
    let state = ensure_state t object.key in
    let (t', state') =
      if changed_identity state object.uid object.generation object.deleting false
      then cancel_active t state
      else (t, state) in
    store t' object.key (record state' {
      uid = object.uid;
      generation = object.generation;
      deleting = object.deleting;
      absent = false;
      policy_epoch = t.epoch;
    })

unfoldable pub observe_delete : Tracker → NamespacedName → String → Tracker
unfolding cancel_active store
observe_delete t key uid =
    let (t', state) = cancel_active t (ensure_state t key) in
    store t' key (record state {
      uid = if str_eq uid "" then state.uid else uid;
      deleting = true;
      absent = true;
      policy_epoch = t.epoch;
    })

unfoldable pub mark_absent : Tracker → NamespacedName → Tracker
unfolding cancel_active store
mark_absent t key =
    let (t', state) = cancel_active t (ensure_state t key) in
    store t' key (record state { absent = true; deleting = true; policy_epoch = t.epoch })

unfoldable pub invalidate_state : ℕ → TrackedState → TrackedState
unfolding without_active
invalidate_state epoch state = record (without_active state) { policy_epoch = epoch }

unfoldable pub active_contexts : List (NamespacedName × TrackedState) → List ℕ
unfolding active_context
active_contexts [] = []
active_contexts ((key, state) ∷ rest) = active_context state ++ active_contexts rest

-- `t.epoch++` on a uint64.
unfoldable pub next_epoch : ℕ → ℕ
next_epoch epoch = (epoch + 1) % two64

unfoldable pub invalidate_all : Tracker → Tracker × ℕ
unfolding next_epoch
invalidate_all t =
    let epoch = next_epoch t.epoch in
    (
      record t {
        epoch = epoch;
        states = map_values (invalidate_state epoch) t.states;
        cancelled = active_contexts t.states ++ t.cancelled;
      },
      epoch,
    )

-- What `Acquire` returns: the lease, the child context and the closure that releases both.
pub record Grant : Type 0 where
  pub lease : Lease
  pub context : ℕ

unfoldable pub grant_lease :
    Tracker → NamespacedName → String → ℤ → TrackedState → Tracker × Option Grant
unfolding store
grant_lease t key uid generation state =
    let lease : Lease = record {
      key = key;
      uid = uid;
      generation = generation;
      policy_epoch = t.epoch;
    } in
    (
      store (record t { contexts = t.contexts + 1 }) key
          (record {
            uid = uid;
            generation = generation;
            deleting = false;
            absent = false;
            policy_epoch = t.epoch;
            active = some (record { lease = lease; cancel = t.contexts });
          }),
      some (record { lease = lease; context = t.contexts }),
    )

-- `none` is the refusal of a second lease for the key; the key's state is made even then.
unfoldable pub acquire : Tracker → NamespacedName → String → ℤ → Tracker × Option Grant
unfolding store grant_lease
acquire t key uid generation =
    let state = ensure_state t key in
    elim state.active [
      | some a ↦ (store t key state, none)
      | none ↦ grant_lease t key uid generation state
    ]

unfoldable pub lease_eq : Lease → Lease → Bool
lease_eq a b =
    key_beq a.key b.key
    && str_eq a.uid b.uid
    && eq_ℤ a.generation b.generation
    && a.policy_epoch == b.policy_epoch

unfoldable pub member : ℕ → List ℕ → Bool
member n [] = false
member n (m ∷ ms) = n == m || member n ms

-- Drops the active lease of a state where it equals `lease`.
unfoldable pub drop_lease : Lease → TrackedState → TrackedState
drop_lease lease state = elim state.active [
  | none ↦ state
  | some a ↦ if lease_eq a.lease lease then record state { active = none } else state
]

unfoldable pub drop_at : Tracker → Lease → Tracker
unfolding store
drop_at t lease = elim (lookup lease.key t.states) [
  | none ↦ t
  | some state ↦ store t lease.key (drop_lease lease state)
]

-- The closure that `Acquire` returns.
unfoldable pub release : Tracker → Grant → Tracker
unfolding drop_at
release t g = if member g.context t.released then t else record (drop_at t g.lease) {
  cancelled = g.context ∷ t.cancelled;
  released = g.context ∷ t.released;
}

unfoldable pub current_state : ℕ → Lease → Option TrackedState → Bool
current_state epoch lease none = false
current_state epoch lease (some state) =
    str_eq state.uid lease.uid
    && eq_ℤ state.generation lease.generation
    && not state.deleting
    && not state.absent
    && state.policy_epoch == lease.policy_epoch
    && epoch == lease.policy_epoch

unfoldable pub is_lease_current : Tracker → Lease → Bool
is_lease_current t lease = current_state t.epoch lease (lookup lease.key t.states)

-- authorization.Subject, with its `Validate`.
pub record Subject : Type 0 where
  pub key : NamespacedName
  pub uid : String
  pub generation : ℤ
  pub policy_epoch : ℕ

unfoldable pub validate_subject : Subject → Bool
validate_subject s =
    not (str_eq s.key.namespace "" || str_eq s.key.name "")
    && not (str_eq s.uid "")
    && not (leb_ℤ s.generation (pos 0))

unfoldable pub is_current : Tracker → Subject → Bool
unfolding validate_subject
is_current t s =
    validate_subject s
    && is_lease_current t (record {
      key = s.key;
      uid = s.uid;
      generation = s.generation;
      policy_epoch = s.policy_epoch;
    })
