-- ===== src/Reconciliation/Trigger/Steps.antt =====
-- The interleavings of the goroutines of internal/reconciliation/trigger.go.
use kubeseer.Prelude.{ℕ, suc, ◌≡◌, Bool, true, false, List, [], ◌∷◌}
use kubeseer.Reconciliation.Key.{NamespacedName}
use kubeseer.Reconciliation.Trigger.{
  Source, waiting, woken, handing, enqueue, receive_wake, take_pending, hand_over, finish_drain,
  request_enqueue_all, start_enqueue_worker, next_intent, enqueue_all, retry_intent, give_up,
  begin_start, start_drainer, finish_start, fail_start,
}

-- One step of one goroutine or of a caller, with the place at which it has to stand.
pub data Step (s : Source) : Source → Type 0 where
  enqueues : (key : NamespacedName) → Step s (enqueue s key)
  wakes : s.drainer ≡ waiting → s.wake ≡ true → Step s (receive_wake s)
  takes : s.drainer ≡ woken → Step s (take_pending s)
  hands :
      (key : NamespacedName) (keys : List NamespacedName) (overloaded : Bool)
      → s.drainer ≡ handing (key ∷ keys) overloaded
      → Step s (hand_over key keys overloaded s)
  ends :
      (overloaded : Bool) → s.drainer ≡ handing [] overloaded → Step s (finish_drain overloaded s)
  requests : Step s (request_enqueue_all s)
  starts_worker : (n : ℕ) → s.starters ≡ suc n → Step s (start_enqueue_worker n s)
  loops : (n : ℕ) → s.looping ≡ suc n → Step s (next_intent n s)
  lists : (n : ℕ) (items : List NamespacedName) → s.listing ≡ suc n → Step s (enqueue_all items n s)
  retries : (n : ℕ) → s.listing ≡ suc n → Step s (retry_intent n s)
  gives_up : (n : ℕ) → s.listing ≡ suc n → s.cancelled ≡ true → Step s (give_up n s)
  begins : s.started ≡ false → Step s (begin_start s)
  drains : s.booting ≡ true → Step s (start_drainer s)
  boots : s.asking ≡ true → Step s (finish_start s)
  fails : s.booting ≡ true → Step s (fail_start s)
  cancels : Step s (record s { cancelled = true })

pub data Steps (s : Source) : Source → Type 0 where
  here : Steps s s
  more : {t u : Source} → Steps s t → Step t u → Steps s u
