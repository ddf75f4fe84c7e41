-- ===== src/Reconciliation/Trigger/Wakeups.antt =====
-- What waits in internal/reconciliation/trigger.go, and the goroutines that are on their way to it, under
-- every interleaving.
use kubeseer.Prelude.{
  ◌+◌, ◌≤◌, ◌<◌, ◌≡◌, ◌⊎◌, inl, inr, Bool, true, false, not, ◌&&◌, ◌||◌, List, [], ◌∷◌, arith,
  Bool-cases, if◌then◌else◌,
}
use kubeseer.Prelude.Int.{ℤ}
use kubeseer.Reconciliation.Key.{NamespacedName}
use kubeseer.Reconciliation.Trigger.{
  Source, Drainer, absent, woken, new_source, enqueue_new, enqueue_named, enqueue, receive_wake,
  take_pending, hand_over, finish_drain, request_enqueue_all, start_enqueue_worker, next_intent,
  enqueue_all, retry_intent, give_up, begin_start, start_drainer, finish_start, fail_start,
}
use kubeseer.Reconciliation.Trigger.Steps.{
  Step, enqueues, wakes, takes, hands, ends, requests, starts_worker, loops, lists, retries,
  gives_up, begins, drains, boots, fails, cancels, Steps, here, more,
}

abbrev pub is_woken : Drainer → Bool
is_woken woken = true
is_woken _ = false

abbrev pub is_empty : List NamespacedName → Bool
is_empty [] = true
is_empty (_ ∷ _) = false

-- At most one worker, and just while `running` says so; a signal for what is pending and for an
-- overflow; and a worker, or someone about to start one, for a request.
pub record IsServed (s : Source) : Type 0 where
  pub one_worker : s.looping + s.listing ≡ (if s.running then 1 else 0)
  pub served_begun : s.served ≤ s.begun
  pub boot_started : (s.booting ≡ false) ⊎ (s.started ≡ true)
  pub ask_started : (s.asking ≡ false) ⊎ (s.started ≡ true)
  pub drainer_booted : (s.drainer ≡ absent) ⊎ ((s.started ≡ true) × (s.booting ≡ false))
  pub signal :
      ((not (is_empty s.pending) || s.overloaded) ≡ false) ⊎ ((s.wake || is_woken s.drainer) ≡ true)
  pub request :
      ((s.requested && s.started) ≡ false)
      ⊎ ((s.cancelled || s.start_failed) ≡ true)
      ⊎ ((s.running || s.booting || s.asking) ≡ true)
      ⊎ (0 < s.starters)

pub enqueue-IsServed : (s : Source) (key : NamespacedName) → IsServed s → IsServed (enqueue s key)
unfolding enqueue enqueue_named enqueue_new
enqueue-IsServed s key h = ground (arith, h)

boots-IsServed : (s : Source) → IsServed s → s.asking ≡ true → IsServed (finish_start s)
unfolding finish_start request_enqueue_all
boots-IsServed s h e = elim (Bool-cases s.asked) [
  | inl a ↦ rw (finish_start, a) (ground (arith, h, e))
  | inr a ↦ rw (finish_start, a) (ground (arith, h, e))
]

Step-IsServed : (s t : Source) → IsServed s → Step s t → IsServed t
unfolding receive_wake take_pending hand_over finish_drain request_enqueue_all start_enqueue_worker
    next_intent enqueue_all retry_intent give_up begin_start start_drainer finish_start fail_start
Step-IsServed s t h (enqueues key) = enqueue-IsServed s key h
Step-IsServed s t h (wakes e w) = ground (arith, h, e, w)
Step-IsServed s t h (takes e) = ground (arith, h, e)
Step-IsServed s t h (hands key keys o e) = ground (arith, h, e)
Step-IsServed s t h (ends o e) = ground (arith, h, e)
Step-IsServed s t h requests = ground (arith, h)
Step-IsServed s t h (starts_worker n e) = ground (arith, h, e)
Step-IsServed s t h (loops n e) = ground (arith, h, e)
Step-IsServed s t h (lists n items e) = ground (arith, h, e)
Step-IsServed s t h (retries n e) = ground (arith, h, e)
Step-IsServed s t h (gives_up n e c) = ground (arith, h, e, c)
Step-IsServed s t h (begins e) = ground (arith, h, e)
Step-IsServed s t h (drains e) = ground (arith, h, e)
Step-IsServed s t h (boots e) = boots-IsServed s h e
Step-IsServed s t h (fails e) = ground (arith, h, e)
Step-IsServed s t h cancels = ground (arith, h)

pub Steps-IsServed : (s t : Source) → IsServed s → Steps s t → IsServed t
Steps-IsServed s t h here = h
Steps-IsServed s t h (more {t = u} before step) =
    Step-IsServed u t (Steps-IsServed s u h before) step

new_source-IsServed : (capacity : ℤ) → IsServed (new_source capacity)
new_source-IsServed capacity = ground arith

-- In every state that the goroutines can reach from a new source: at most one worker lists the objects,
-- and just while `running` says so; where keys are pending or an overflow is recorded, the wake signal
-- is set or the drainer has just received it; and where an enqueue-all request is recorded in a started
-- source, a worker runs, or `Start` or a call of `RequestEnqueueAll` is about to start one, unless the
-- context has ended or `Start` has failed.
pub source-IsServed : (capacity : ℤ) (t : Source) → Steps (new_source capacity) t → IsServed t
source-IsServed capacity t steps =
    Steps-IsServed (new_source capacity) t (new_source-IsServed capacity) steps
