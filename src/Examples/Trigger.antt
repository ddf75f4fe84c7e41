-- ===== src/Examples/Trigger.antt =====
-- The trigger source with room for one key, and two triggers.
use kubeseer.Prelude.{◌≡◌, ◌≢◌, refl, true, false, eq_iff, [], ◌∷◌, arith}
use kubeseer.Prelude.Int.{pos}
use kubeseer.Reconciliation.Key.{NamespacedName, key_beq}
use kubeseer.Reconciliation.Trigger.{
  Source, new_source, enqueue, enqueue_named, enqueue_new, capacity_or_default, has_key, seen_name,
  enqueue_all,
}
use kubeseer.Reconciliation.Trigger.Steps.{Steps, here, more, enqueues}
use kubeseer.Reconciliation.Trigger.Wakeups.{IsServed, source-IsServed}
use kubeseer.Reconciliation.Trigger.Capacity.{IsWithinCapacity, source-IsWithinCapacity}
use kubeseer.Reconciliation.Trigger.Recovery.{
  TriggerFate, is_recorded, with_empty_queue, trigger_is_kept,
}
use kubeseer.Reconciliation.Trigger.Listing.{enqueue_all_covers}

abbrev web : NamespacedName
web = record { namespace = "apps"; name = "web" }

abbrev db : NamespacedName
db = record { namespace = "apps"; name = "db" }

abbrev one_key : Source
one_key = enqueue (new_source (pos 1)) web

abbrev full : Source
full = enqueue one_key db

filled : Steps (new_source (pos 1)) full
filled = more (more here (enqueues web)) (enqueues db)

full_recorded : is_recorded full ≡ true
unfolding enqueue enqueue_named enqueue_new capacity_or_default has_key key_beq
full_recorded = refl

full_started : full.started ≡ false
unfolding enqueue enqueue_named enqueue_new capacity_or_default has_key key_beq
full_started = refl

web_named : web.name ≢ ""
web_named h = ground (arith, h, eq_iff "web" "")

db_named : db.name ≢ ""
db_named h = ground (arith, h, eq_iff "db" "")

web_placed : web.namespace ≢ ""
web_placed h = ground (arith, h, eq_iff "apps" "")

listed : has_key (db ∷ web ∷ []) web ≡ true
unfolding has_key key_beq
listed = refl

source-IsServed_example : IsServed full
source-IsServed_example = source-IsServed (pos 1) full filled

source-IsWithinCapacity_example : IsWithinCapacity full
source-IsWithinCapacity_example = source-IsWithinCapacity (pos 1) full filled

trigger_is_kept_example :
    TriggerFate (with_empty_queue one_key) (enqueue (enqueue (with_empty_queue one_key) db) db) db
trigger_is_kept_example =
    trigger_is_kept (pos 1) one_key (enqueue (enqueue (with_empty_queue one_key) db) db) db
      (more here (enqueues web)) db_named (more here (enqueues db))

enqueue_all_covers_example :
    seen_name (enqueue_all (db ∷ web ∷ []) 0 (record full { queue = [] })).queue web ≡ true
enqueue_all_covers_example =
    enqueue_all_covers (db ∷ web ∷ []) 0 full web listed web_named web_placed
