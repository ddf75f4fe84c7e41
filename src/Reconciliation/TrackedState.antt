-- ===== src/Reconciliation/TrackedState.antt =====
-- internal/reconciliation/tracker.go: the state of `FreshnessTracker` and the helpers on the state of
-- one key. The cancellable contexts that `Acquire` makes are numbered in the order of their creation;
-- `cancelled` holds those that are cancelled, and `released` those whose release closure has run.
use kubeseer.Prelude.{
  ℕ, String, Option, none, some, Bool, false, not, differs, List, [], ◌∷◌, ◌++◌, ◌||◌, str_eq,
}
use kubeseer.Prelude.Int.{ℤ, pos, eq_ℤ}
use kubeseer.Prelude.Assoc.{lookup, insert}
use kubeseer.Reconciliation.Key.{NamespacedName, key_instance}

pub record Lease : Type 0 where
  pub key : NamespacedName
  pub uid : String
  pub generation : ℤ
  pub policy_epoch : ℕ

-- `cancel` is the context that the lease's cancel function ends.
pub record ActiveLease : Type 0 where
  pub lease : Lease
  pub cancel : ℕ

pub record TrackedState : Type 0 where
  pub uid : String
  pub generation : ℤ
  pub deleting : Bool
  pub absent : Bool
  pub policy_epoch : ℕ
  pub active : Option ActiveLease

pub record Tracker : Type 0 where
  pub epoch : ℕ
  pub states : List (NamespacedName × TrackedState)
  pub contexts : ℕ
  pub cancelled : List ℕ
  pub released : List ℕ

abbrev pub new_tracker : Tracker
new_tracker = record { epoch = 0; states = []; contexts = 0; cancelled = []; released = [] }

-- The part of a Facet object that the tracker reads; `deleting` says that it has a deletion time.
pub record FacetIdentity : Type 0 where
  pub key : NamespacedName
  pub uid : String
  pub generation : ℤ
  pub deleting : Bool

abbrev pub fresh_state : ℕ → TrackedState
fresh_state epoch = record {
  uid = "";
  generation = pos 0;
  deleting = false;
  absent = false;
  policy_epoch = epoch;
  active = none;
}

-- The state of a key, a new one where there is none. Every caller stores what it makes of it.
unfoldable pub ensure_state : Tracker → NamespacedName → TrackedState
ensure_state t key = elim (lookup key t.states) [ none ↦ fresh_state t.epoch | some state ↦ state ]

unfoldable pub changed_identity : TrackedState → String → ℤ → Bool → Bool → Bool
changed_identity state uid generation deleting absent =
    not (str_eq state.uid uid)
    || not (eq_ℤ state.generation generation)
    || differs state.deleting deleting
    || differs state.absent absent

-- The contexts that `cancelActive` ends, and the state that it leaves.
unfoldable pub active_context : TrackedState → List ℕ
active_context state = elim state.active [ none ↦ [] | some a ↦ a.cancel ∷ [] ]

unfoldable pub without_active : TrackedState → TrackedState
without_active state = record state { active = none }

unfoldable pub cancel_active : Tracker → TrackedState → Tracker × TrackedState
unfolding active_context without_active
cancel_active t state =
    (record t { cancelled = active_context state ++ t.cancelled }, without_active state)

unfoldable pub store : Tracker → NamespacedName → TrackedState → Tracker
store t key state = record t { states = insert key state t.states }
