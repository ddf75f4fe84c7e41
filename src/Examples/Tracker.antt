-- ===== src/Examples/Tracker.antt =====
-- The freshness tracker at concrete inputs.
use kubeseer.Prelude.{◌≡◌, refl, none, some, true, false, List, [], ◌∷◌, arith}
use kubeseer.Prelude.Int.{pos}
use kubeseer.Prelude.Assoc.{lookup, insert}
use kubeseer.Reconciliation.Key.{NamespacedName, key_beq, key_instance}
use kubeseer.Reconciliation.TrackedState.{
  Lease, TrackedState, Tracker, new_tracker, FacetIdentity, ensure_state,
}
use kubeseer.Reconciliation.Tracker.{
  observe, mark_absent, invalidate_all, acquire, release, is_lease_current, member, current_state,
}
use kubeseer.Reconciliation.Tracker.Invariant.{
  Event, observed, missing, policy_changed, acquired, run, step, active_is_current,
}
use kubeseer.Reconciliation.Tracker.Freshness.{observe-current}
use kubeseer.Reconciliation.Tracker.Policy.{stale_stays_stale, policy_changes, invalidate_all-stale}
use kubeseer.Reconciliation.Tracker.Leases.{IsGranted, acquire-IsGranted, release-drops_later}

abbrev pub web : NamespacedName
web = record { namespace = "apps"; name = "web" }

abbrev first_lease : Lease
first_lease = record { key = web; uid = "u1"; generation = pos 1; policy_epoch = 0 }

abbrev seen : FacetIdentity
seen = record { key = web; uid = "u1"; generation = pos 2; deleting = false }

abbrev held : TrackedState
held = record {
  uid = "u1";
  generation = pos 1;
  deleting = false;
  absent = false;
  policy_epoch = 0;
  active = some (record { lease = first_lease; cancel = 0 });
}

abbrev pub one_lease : Tracker
one_lease = record {
  epoch = 0;
  states = (web, held) ∷ [];
  contexts = 1;
  cancelled = [];
  released = [];
}

acquire-one :
    acquire new_tracker web "u1" (pos 1)
    ≡ (one_lease, some (record { lease = first_lease; context = 0 }))
unfolding acquire lookup insert ensure_state
acquire-one = refl

acquire-IsGranted_example :
    IsGranted new_tracker one_lease web (record { lease = first_lease; context = 0 })
acquire-IsGranted_example =
    acquire-IsGranted new_tracker one_lease web "u1" (pos 1)
      (record { lease = first_lease; context = 0 }) acquire-one

abbrev one_call : List Event
one_call = acquired web "u1" (pos 1) ∷ []

active_is_current_example : is_lease_current (run new_tracker one_call) first_lease ≡ true
unfolding run step acquire lookup insert ensure_state key_beq
active_is_current_example =
    active_is_current one_call web {s = held} {a = record { lease = first_lease; cancel = 0 }} refl
      refl

observe-current_example : is_lease_current (observe one_lease seen) first_lease ≡ false
unfolding key_beq
observe-current_example = observe-current one_lease seen first_lease

invalidate_all-stale_example : is_lease_current (invalidate_all one_lease).0 first_lease ≡ false
unfolding is_lease_current current_state lookup key_beq
invalidate_all-stale_example = invalidate_all-stale one_lease first_lease (omega arith) refl

abbrev later : Tracker
later = record one_lease { epoch = 1 }

abbrev more_calls : List Event
more_calls = observed seen ∷ policy_changed ∷ missing web ∷ []

stale_stays_stale_example : is_lease_current (run later more_calls) first_lease ≡ false
unfolding policy_changes
stale_stays_stale_example =
    stale_stays_stale later more_calls first_lease (omega arith) (omega arith)

-- The key was acquired, found missing, and acquired again with the same identity.
abbrev acquired_again : Tracker
acquired_again = record {
  epoch = 0;
  states = (web, record held { active = some (record { lease = first_lease; cancel = 1 }) }) ∷ [];
  contexts = 2;
  cancelled = 0 ∷ [];
  released = [];
}

acquired_again_reached :
    run new_tracker (acquired web "u1" (pos 1) ∷ missing web ∷ acquired web "u1" (pos 1) ∷ [])
    ≡ acquired_again
unfolding run step acquire mark_absent lookup insert ensure_state key_beq
acquired_again_reached = refl

release-drops_later_example :
    let t = release acquired_again (record { lease = first_lease; context = 0 }) in
    ((ensure_state t web).active ≡ none)
    × (is_lease_current t first_lease ≡ is_lease_current acquired_again first_lease)
    × (member 1 t.cancelled ≡ false)
unfolding lookup key_beq member
release-drops_later_example =
    release-drops_later acquired_again (record { lease = first_lease; context = 0 })
      (record held { active = some (record { lease = first_lease; cancel = 1 }) })
      (record { lease = first_lease; cancel = 1 }) refl refl refl (omega arith) refl refl

abbrev other_object : NamespacedName
other_object = record { namespace = "apps"; name = "db" }

abbrev others : List Event
others = acquired web "u2" (pos 9) ∷ missing other_object ∷ []
