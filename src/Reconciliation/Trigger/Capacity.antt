-- ===== src/Reconciliation/Trigger/Capacity.antt =====
-- The pending set of internal/reconciliation/trigger.go, and its capacity.
use kubeseer.Prelude.{◌≡◌, Bool, true, false, ◌||◌, List, [], ◌∷◌, length, arith}
use kubeseer.Prelude.Int.{ℤ, pos, leb_ℤ}
use kubeseer.Reconciliation.Key.{NamespacedName}
use kubeseer.Reconciliation.Trigger.{
  Source, new_source, has_key, capacity_or_default, enqueue_new, enqueue_named, enqueue,
  receive_wake, take_pending, hand_over, finish_drain, request_enqueue_all, start_enqueue_worker,
  next_intent, enqueue_all, retry_intent, give_up, begin_start, start_drainer, finish_start,
  fail_start,
}
use kubeseer.Reconciliation.Trigger.Steps.{
  Step, enqueues, wakes, takes, hands, ends, requests, starts_worker, loops, lists, retries,
  gives_up, begins, drains, boots, fails, cancels, Steps, here, more,
}

abbrev pub has_duplicate : List NamespacedName → Bool
has_duplicate [] = false
has_duplicate (k ∷ ks) = has_key ks k || has_duplicate ks

pub record IsWithinCapacity (s : Source) : Type 0 where
  pub distinct : has_duplicate s.pending ≡ false
  pub fits : leb_ℤ (pos (length s.pending)) (capacity_or_default s.pending_capacity) ≡ true

capacity_or_default_idem :
    (n : ℤ) → capacity_or_default (capacity_or_default n) ≡ capacity_or_default n
unfolding capacity_or_default
capacity_or_default_idem n = ground arith

capacity_or_default_positive : (n : ℤ) → leb_ℤ (pos 1) (capacity_or_default n) ≡ true
unfolding capacity_or_default
capacity_or_default_positive n = ground arith

enqueue-IsWithinCapacity :
    (s : Source) (key : NamespacedName) → IsWithinCapacity s → IsWithinCapacity (enqueue s key)
unfolding enqueue enqueue_named enqueue_new
enqueue-IsWithinCapacity s key h = ground (arith, h, capacity_or_default_idem s.pending_capacity)

Step-IsWithinCapacity : (s t : Source) → IsWithinCapacity s → Step s t → IsWithinCapacity t
unfolding receive_wake take_pending hand_over finish_drain request_enqueue_all start_enqueue_worker
    next_intent enqueue_all retry_intent give_up begin_start start_drainer finish_start fail_start
Step-IsWithinCapacity s t h (enqueues key) = enqueue-IsWithinCapacity s key h
Step-IsWithinCapacity s t h (wakes e w) = ground (arith, h)
Step-IsWithinCapacity s t h (takes e) =
    ground (arith, capacity_or_default_positive s.pending_capacity)
Step-IsWithinCapacity s t h (hands key keys o e) = ground (arith, h)
Step-IsWithinCapacity s t h (ends o e) = ground (arith, h)
Step-IsWithinCapacity s t h requests = ground (arith, h)
Step-IsWithinCapacity s t h (starts_worker n e) = ground (arith, h)
Step-IsWithinCapacity s t h (loops n e) = ground (arith, h)
Step-IsWithinCapacity s t h (lists n items e) = ground (arith, h)
Step-IsWithinCapacity s t h (retries n e) = ground (arith, h)
Step-IsWithinCapacity s t h (gives_up n e c) = ground (arith, h)
Step-IsWithinCapacity s t h (begins e) =
    ground (arith, h, capacity_or_default_idem s.pending_capacity)
Step-IsWithinCapacity s t h (drains e) = ground (arith, h)
Step-IsWithinCapacity s t h (boots e) = ground (arith, h)
Step-IsWithinCapacity s t h (fails e) = ground (arith, h)
Step-IsWithinCapacity s t h cancels = ground (arith, h)

Steps-IsWithinCapacity : (s t : Source) → IsWithinCapacity s → Steps s t → IsWithinCapacity t
Steps-IsWithinCapacity s t h here = h
Steps-IsWithinCapacity s t h (more {t = u} before step) =
    Step-IsWithinCapacity u t (Steps-IsWithinCapacity s u h before) step

new_source-IsWithinCapacity : (capacity : ℤ) → IsWithinCapacity (new_source capacity)
unfolding capacity_or_default
new_source-IsWithinCapacity capacity = ground arith

-- Whatever the goroutines and the callers do, no key is pending twice, and the keys that are pending
-- number at most the capacity, which is the default where the configured one is not positive.
pub source-IsWithinCapacity :
    (capacity : ℤ) (t : Source) → Steps (new_source capacity) t → IsWithinCapacity t
source-IsWithinCapacity capacity t steps =
    Steps-IsWithinCapacity (new_source capacity) t (new_source-IsWithinCapacity capacity) steps
