-- ===== src/Reconciliation/Trigger/Recovery.antt =====
-- What becomes of a trigger in internal/reconciliation/trigger.go, accepted or refused by a full set.
use kubeseer.Prelude.{
  ℕ, length, ◌≤◌, ◌<◌, ◌≡◌, ◌≢◌, ◌⊎◌, inl, inr, refl, Bool, true, false, ◌||◌, List, [], ◌∷◌,
  eq_iff, arith, Bool-cases,
}
use kubeseer.Prelude.Int.{ℤ, pos, ◌≤ℤ◌, leb_ℤ}
use kubeseer.Prelude.Sort.{insert_sorted, sort_stable}
use kubeseer.Reconciliation.Key.{NamespacedName, key_beq, key_beq_refl}
use kubeseer.Reconciliation.Trigger.{
  Source, Drainer, handing, new_source, capacity_or_default, has_key, key_less, enqueue_new,
  enqueue_named, enqueue, receive_wake, take_pending, hand_over, finish_drain, request_enqueue_all,
  start_enqueue_worker, next_intent, enqueue_all, retry_intent, give_up, begin_start, start_drainer,
  finish_start, fail_start, add_all, distinct_keys,
}
use kubeseer.Reconciliation.Trigger.Steps.{
  Step, enqueues, wakes, takes, hands, ends, requests, starts_worker, loops, lists, retries,
  gives_up, begins, drains, boots, fails, cancels, Steps, here, more,
}
use kubeseer.Reconciliation.Trigger.Wakeups.{
  IsServed, source-IsServed, Steps-IsServed, enqueue-IsServed,
}

has_key-insert_sorted :
    (x : NamespacedName) (ys : List NamespacedName) (k : NamespacedName)
    → has_key (insert_sorted key_less x ys) k ≡ (key_beq x k || has_key ys k)
unfolding insert_sorted has_key
has_key-insert_sorted x [] k = refl
has_key-insert_sorted x (y ∷ ys) k = ground (arith, has_key-insert_sorted x ys k)

has_key-sort_stable :
    (xs : List NamespacedName) (k : NamespacedName)
    → has_key (sort_stable key_less xs) k ≡ has_key xs k
unfolding sort_stable has_key
has_key-sort_stable [] k = refl
has_key-sort_stable (x ∷ xs) k =
    ground (arith, has_key-sort_stable xs k, has_key-insert_sorted x (sort_stable key_less xs) k)

has_key-add_all :
    (keys queue : List NamespacedName) (k : NamespacedName)
    → has_key (add_all keys queue) k ≡ (has_key keys k || has_key queue k)
unfolding add_all has_key
has_key-add_all [] queue k = refl
has_key-add_all (key ∷ keys) queue k = ground (arith, has_key-add_all keys (key ∷ queue) k)

abbrev pub handed : Drainer → List NamespacedName
handed (handing keys _) = keys
handed _ = []

abbrev pub recovers : Drainer → Bool
recovers (handing _ overloaded) = overloaded
recovers _ = false

-- The key is pending, or the drainer is about to add it, or it was added to the queue.
abbrev pub on_its_way : Source → NamespacedName → Bool
on_its_way s key = has_key s.pending key || has_key (handed s.drainer) key || has_key s.queue key

-- An enqueue-all is recorded: by an overflow, by the drainer that has read it, or as a request.
abbrev pub is_recorded : Source → Bool
is_recorded s = s.overloaded || recovers s.drainer || s.requested

-- After round `n` of `enqueueAll`: one is recorded, or a later round is under way or has succeeded, or
-- the context has ended.
pub record IsOwed (n : ℕ) (s : Source) : Type 0 where
  pub later : n ≤ s.begun
  pub owed :
      (is_recorded s ≡ true)
      ⊎ ((0 < s.listing) × (n < s.begun))
      ⊎ (n < s.served)
      ⊎ (s.cancelled ≡ true)

Step-on_its_way :
    (s t : Source) (k : NamespacedName)
    → IsServed s
    → on_its_way s k ≡ true
    → Step s t
    → on_its_way t k ≡ true
unfolding enqueue enqueue_named enqueue_new receive_wake take_pending hand_over finish_drain
    request_enqueue_all start_enqueue_worker next_intent enqueue_all retry_intent give_up
    begin_start start_drainer finish_start fail_start has_key
Step-on_its_way s t k i h (enqueues key) = ground (arith, h)
Step-on_its_way s t k i h (wakes e w) = ground (arith, h, e)
Step-on_its_way s t k i h (takes e) = ground (arith, h, e, has_key-sort_stable s.pending k)
Step-on_its_way s t k i h (hands key keys o e) = ground (arith, h, e)
Step-on_its_way s t k i h (ends o e) = ground (arith, h, e)
Step-on_its_way s t k i h requests = ground (arith, h)
Step-on_its_way s t k i h (starts_worker n e) = ground (arith, h)
Step-on_its_way s t k i h (loops n e) = ground (arith, h)
Step-on_its_way s t k i h (lists n items e) =
    ground (arith, h, has_key-add_all (sort_stable key_less (distinct_keys [] items)) s.queue k)
Step-on_its_way s t k i h (retries n e) = ground (arith, h)
Step-on_its_way s t k i h (gives_up n e c) = ground (arith, h)
Step-on_its_way s t k i h (begins e) = ground (arith, h)
Step-on_its_way s t k i h (drains e) = ground (arith, h, e, i)
Step-on_its_way s t k i h (boots e) = elim (Bool-cases s.asked) [
  | inl a ↦ rw (finish_start, a) (ground (arith, h, e, i))
  | inr a ↦ rw (finish_start, a) (ground (arith, h, e, i))
]
Step-on_its_way s t k i h (fails e) = ground (arith, h)
Step-on_its_way s t k i h cancels = ground (arith, h)

Step-IsOwed : (n : ℕ) (s t : Source) → IsServed s → IsOwed n s → Step s t → IsOwed n t
unfolding enqueue enqueue_named enqueue_new receive_wake take_pending hand_over finish_drain
    request_enqueue_all start_enqueue_worker next_intent enqueue_all retry_intent give_up
    begin_start start_drainer finish_start fail_start
Step-IsOwed n s t i h (enqueues key) = ground (arith, h)
Step-IsOwed n s t i h (wakes e w) = ground (arith, h, e)
Step-IsOwed n s t i h (takes e) = ground (arith, h, e)
Step-IsOwed n s t i h (hands key keys o e) = ground (arith, h, e)
Step-IsOwed n s t i h (ends o e) = ground (arith, h, e)
Step-IsOwed n s t i h requests = ground (arith, h)
Step-IsOwed n s t i h (starts_worker m e) = ground (arith, h)
Step-IsOwed n s t i h (loops m e) = ground (arith, h)
Step-IsOwed n s t i h (lists m items e) = ground (arith, h, e, i)
Step-IsOwed n s t i h (retries m e) = ground (arith, h, e)
Step-IsOwed n s t i h (gives_up m e c) = ground (arith, h, e, c)
Step-IsOwed n s t i h (begins e) = ground (arith, h)
Step-IsOwed n s t i h (drains e) = ground (arith, h)
Step-IsOwed n s t i h (boots e) = ground (arith, h)
Step-IsOwed n s t i h (fails e) = ground (arith, h)
Step-IsOwed n s t i h cancels = ground (arith, h)

Steps-on_its_way :
    (s t : Source) (k : NamespacedName)
    → IsServed s
    → on_its_way s k ≡ true
    → Steps s t
    → on_its_way t k ≡ true
Steps-on_its_way s t k i h here = h
Steps-on_its_way s t k i h (more {t = u} before step) =
    Step-on_its_way u t k (Steps-IsServed s u i before) (Steps-on_its_way s u k i h before) step

Steps-IsOwed : (n : ℕ) (s t : Source) → IsServed s → IsOwed n s → Steps s t → IsOwed n t
Steps-IsOwed n s t i h here = h
Steps-IsOwed n s t i h (more {t = u} before step) =
    Step-IsOwed n u t (Steps-IsServed s u i before) (Steps-IsOwed n s u i h before) step

-- Where an enqueue-all is recorded in a state that the goroutines can reach, by an overflow or by a
-- request, then later it is still recorded, or a round of `enqueueAll` that began after that state is
-- under way, or one has succeeded, or the context has ended.
pub recorded-IsOwed :
    (capacity : ℤ) (s t : Source)
    → Steps (new_source capacity) s
    → is_recorded s ≡ true
    → Steps s t
    → IsOwed s.begun t
recorded-IsOwed capacity s t reached h later =
    Steps-IsOwed s.begun s t (source-IsServed capacity s reached) (ground (arith, h)) later

-- `Enqueue` takes the key: it is pending already, or the pending set has room for it.
pub data IsAccepted (s : Source) (key : NamespacedName) : Type 0 where
  pending_already : has_key s.pending key ≡ true → IsAccepted s key
  has_room : ¬ (capacity_or_default s.pending_capacity ≤ℤ pos (length s.pending)) → IsAccepted s key

-- The pending set is full, and the key is not in it.
pub record IsRefused (s : Source) (key : NamespacedName) : Type 0 where
  pub not_pending : has_key s.pending key ≡ false
  pub full : capacity_or_default s.pending_capacity ≤ℤ pos (length s.pending)

-- What becomes of a trigger for `key` that comes in state `s`, in the later state `t`.
pub data TriggerFate (s t : Source) (key : NamespacedName) : Type 0 where
  accepted : IsAccepted s key → on_its_way t key ≡ true → TriggerFate s t key
  refused : IsRefused s key → IsOwed s.begun t → TriggerFate s t key

data Enqueued (s t : Source) (key : NamespacedName) : Type 0 where
  taken : IsAccepted s key → on_its_way t key ≡ true → Enqueued s t key
  overflowed : IsRefused s key → is_recorded t ≡ true → Enqueued s t key

enqueue-Enqueued :
    (s : Source) (key : NamespacedName) → key.name ≢ "" → Enqueued s (enqueue s key) key
unfolding enqueue enqueue_named enqueue_new has_key
enqueue-Enqueued s key h = elim (Bool-cases (has_key s.pending key)) [
  | inl b ↦ taken (pending_already b) (ground (arith, h, b, eq_iff key.name ""))
  | inr b ↦
      elim (Bool-cases (leb_ℤ (capacity_or_default s.pending_capacity) (pos (length s.pending)))) [
        | inl c ↦
            overflowed (record { not_pending = b; full = ground (arith, c) })
              (ground (arith, h, b, c, eq_iff key.name ""))
        | inr c ↦
            taken (has_room (λ d. ground (arith, c, d)))
              (ground (arith, h, b, c, eq_iff key.name "", key_beq_refl key))
      ]
]

enqueue-begun : (s : Source) (key : NamespacedName) → (enqueue s key).begun ≡ s.begun
unfolding enqueue enqueue_named enqueue_new
enqueue-begun s key = ground arith

-- The same state with nothing in the record of the calls of `queue.Add`, which no step reads.
abbrev pub with_empty_queue : Source → Source
with_empty_queue s = record s { queue = [] }

with_empty_queue-IsServed : (s : Source) → IsServed s → IsServed (with_empty_queue s)
with_empty_queue-IsServed s h = ground (arith, h)

-- A trigger is not lost. After `Enqueue` of a key with a name, in a state that the goroutines can reach:
-- where the key was pending or the pending set had room, the key is at any later time pending, or the
-- drainer is about to add it, or it was added to the queue since the call. Where the set was full, at any
-- later time an enqueue-all is recorded, or a round of `enqueueAll` that began after the call is under
-- way, or one has succeeded, or the context has ended.
pub trigger_is_kept :
    (capacity : ℤ) (s t : Source) (key : NamespacedName)
    → Steps (new_source capacity) s
    → key.name ≢ ""
    → Steps (enqueue (with_empty_queue s) key) t
    → TriggerFate (with_empty_queue s) t key
trigger_is_kept capacity s t key reached named later =
    let before = with_empty_queue s in
    let served =
      enqueue-IsServed before key
        (with_empty_queue-IsServed s (source-IsServed capacity s reached)) in
    elim (enqueue-Enqueued before key named) [
      | taken a way ↦ accepted a (Steps-on_its_way (enqueue before key) t key served way later)
      | overflowed f recorded ↦ refused f (
          Steps-IsOwed s.begun (enqueue before key) t served
            (ground (arith, recorded, enqueue-begun before key)) later)
    ]
