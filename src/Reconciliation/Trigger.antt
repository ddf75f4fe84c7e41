-- ===== src/Reconciliation/Trigger.antt =====
-- internal/reconciliation/trigger.go: the state of `TriggerSource` and what its goroutines do to it
-- between two uses of the mutex or of a channel.
pub mod Steps
pub mod Wakeups
pub mod Recovery
pub mod Capacity
pub mod Listing
use kubeseer.Prelude.{
  ℕ, zero, suc, ◌+◌, ◌-◌, ◌*◌, ◌/◌, String, str_eq, str_append, Option, none, some, Bool, true,
  false, not, ◌&&◌, ◌||◌, List, [], ◌∷◌, ◌++◌, length, ltb, leb, ◌==◌, if◌then◌else◌,
}
use kubeseer.Prelude.Int.{ℤ, pos, leb_ℤ}
use kubeseer.Prelude.Text.{str_ltb}
use kubeseer.Prelude.Sort.{sort_stable}
use kubeseer.Limits.Defaults.{default_max_pending_triggers}
use kubeseer.Reconciliation.Key.{NamespacedName, key_beq}

-- `drainPending`: not started, at its `select`, behind it, and with keys to add and the flag
-- `overloaded` that it read.
pub data Drainer : Type 0 where
  absent waiting woken : Drainer
  handing : List NamespacedName → Bool → Drainer

-- `pending_capacity` to `requested` are the fields of `TriggerSource`; the wake channel has room for one
-- signal, so it is a Boolean, and `queue` lists the calls of `queue.Add`, the last one first. The rest is
-- where the goroutines stand: a `Start` between its lock and the start of the drainer (`booting`, with what
-- it read of `requested` in `asked`) and then in front of its call of `RequestEnqueueAll` (`asking`),
-- `RequestEnqueueAll` between its two locks (`starters`), `drainPending`, `drainEnqueueIntents` in front
-- of its lock (`looping`) and in `enqueueAll` or its pause (`listing`). `begun` numbers the rounds of
-- `enqueueAll`, and `served` is the last round that succeeded. The source comes from `NewTriggerSource`,
-- so that its map and its channel are set.
pub record Source : Type 0 where
  pub pending_capacity : ℤ
  pub pending : List NamespacedName
  pub wake : Bool
  pub overloaded : Bool
  pub started : Bool
  pub running : Bool
  pub requested : Bool
  pub queue : List NamespacedName
  pub cancelled : Bool
  pub booting : Bool
  pub asking : Bool
  pub start_failed : Bool
  pub asked : Bool
  pub starters : ℕ
  pub drainer : Drainer
  pub looping : ℕ
  pub listing : ℕ
  pub begun : ℕ
  pub served : ℕ

abbrev pub new_source : ℤ → Source
new_source capacity = record {
  pending_capacity = capacity;
  pending = [];
  wake = false;
  overloaded = false;
  started = false;
  running = false;
  requested = false;
  queue = [];
  cancelled = false;
  booting = false;
  asking = false;
  start_failed = false;
  asked = false;
  starters = 0;
  drainer = absent;
  looping = 0;
  listing = 0;
  begun = 0;
  served = 0;
}

unfoldable pub has_key : List NamespacedName → NamespacedName → Bool
has_key [] key = false
has_key (k ∷ ks) key = key_beq k key || has_key ks key

unfoldable pub capacity_or_default : ℤ → ℤ
capacity_or_default n = if leb_ℤ n (pos 0) then default_max_pending_triggers else n

unfoldable pub enqueue_new : Source → NamespacedName → Source
enqueue_new s key =
    if leb_ℤ s.pending_capacity (pos (length s.pending))
    then record s { overloaded = true; wake = true }
    else record s { pending = key ∷ s.pending; wake = true }

unfoldable pub enqueue_named : Source → NamespacedName → Source
unfolding enqueue_new
enqueue_named s key = if has_key s.pending key then s else enqueue_new s key

unfoldable pub enqueue : Source → NamespacedName → Source
unfolding enqueue_named
enqueue s key =
    if str_eq key.name ""
    then s
    else enqueue_named (record s { pending_capacity = capacity_or_default s.pending_capacity }) key

abbrev pub key_less : NamespacedName → NamespacedName → Bool
key_less a b =
    if str_eq a.namespace b.namespace
    then str_ltb a.name b.name
    else str_ltb a.namespace b.namespace

unfoldable pub receive_wake : Source → Source
receive_wake s = record s { wake = false; drainer = woken }

-- The drainer's lock, and the sort of the keys behind it.
unfoldable pub take_pending : Source → Source
take_pending s = record s {
  pending = [];
  overloaded = false;
  drainer = handing (sort_stable key_less s.pending) s.overloaded;
}

unfoldable pub hand_over : NamespacedName → List NamespacedName → Bool → Source → Source
hand_over key keys overloaded s = record s {
  queue = key ∷ s.queue;
  drainer = handing keys overloaded;
}

-- The first lock of `RequestEnqueueAll`.
unfoldable pub request_enqueue_all : Source → Source
request_enqueue_all s = record s {
  requested = true;
  starters = if s.started then suc s.starters else s.starters;
}

unfoldable pub finish_drain : Bool → Source → Source
unfolding request_enqueue_all
finish_drain overloaded s =
    if overloaded
    then request_enqueue_all (record s { drainer = waiting })
    else record s { drainer = waiting }

-- `startEnqueueWorker`, as the second half of a call by one of the starters.
unfoldable pub start_enqueue_worker : ℕ → Source → Source
start_enqueue_worker starters s =
    if not s.started || s.running
    then record s { starters = starters }
    else record s { starters = starters; running = true; looping = suc s.looping }

-- The lock at the head of the loop of `drainEnqueueIntents`.
unfoldable pub next_intent : ℕ → Source → Source
next_intent looping s =
    if not s.requested then record s { running = false; looping = looping } else record s {
      requested = false;
      looping = looping;
      listing = suc s.listing;
      begun = suc s.begun;
    }

-- The keys of a list, by `namespace + "\x00" + name`.
abbrev pub listed_name : NamespacedName → String
listed_name key = str_append key.namespace (str_append "\0" key.name)

unfoldable pub seen_name : List NamespacedName → NamespacedName → Bool
seen_name [] key = false
seen_name (k ∷ ks) key = str_eq (listed_name k) (listed_name key) || seen_name ks key

-- The loop of `enqueueAll`; `seen` holds the keys that were taken.
unfoldable pub distinct_keys : List NamespacedName → List NamespacedName → List NamespacedName
unfolding seen_name
distinct_keys seen [] = []
distinct_keys seen (item ∷ items) =
    let skipped = distinct_keys seen items in
    let taken = item ∷ distinct_keys (item ∷ seen) items in
    if str_eq item.name "" || str_eq item.namespace ""
    then skipped
    else if seen_name seen item
    then skipped
    else taken

unfoldable pub add_all : List NamespacedName → List NamespacedName → List NamespacedName
add_all [] queue = queue
add_all (key ∷ keys) queue = add_all keys (key ∷ queue)

-- `enqueueAll` on the items that the reader listed, and the way back to the loop.
unfoldable pub enqueue_all : List NamespacedName → ℕ → Source → Source
unfolding distinct_keys add_all
enqueue_all items listing s = record s {
  queue = add_all (sort_stable key_less (distinct_keys [] items)) s.queue;
  listing = listing;
  looping = suc s.looping;
  served = s.begun;
}

-- The list failed, and the pause is over.
unfoldable pub retry_intent : ℕ → Source → Source
retry_intent listing s = record s { requested = true; listing = listing; looping = suc s.looping }

-- The list failed or the pause was cut short, with a context that is done.
unfoldable pub give_up : ℕ → Source → Source
give_up listing s = record s { running = false; listing = listing }

-- The lock of `Start`.
unfoldable pub begin_start : Source → Source
begin_start s = record s {
  started = true;
  pending_capacity = capacity_or_default s.pending_capacity;
  asked = s.requested;
  booting = true;
}

-- The route registry is started, and `Start` starts the drainer.
unfoldable pub start_drainer : Source → Source
start_drainer s = record s { booting = false; asking = true; drainer = waiting }

-- The rest of `Start`: `RequestEnqueueAll`, and a worker for a request from before.
unfoldable pub finish_start : Source → Source
unfolding request_enqueue_all
finish_start s =
    let t = request_enqueue_all (record s { asking = false }) in
    if s.asked then record t { starters = suc t.starters } else t

unfoldable pub fail_start : Source → Source
fail_start s = record s { booting = false; start_failed = true }

-- `nextBackoff`; the durations are not negative, by `Options.normalized`.
unfoldable pub next_backoff : ℕ → ℕ → ℕ
next_backoff current maximum =
    if current == 0
    then maximum
    else if leb (maximum / 2) current || ltb (maximum - current) current
    then maximum
    else current * 2
