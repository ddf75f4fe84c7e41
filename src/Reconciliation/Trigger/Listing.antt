-- ===== src/Reconciliation/Trigger/Listing.antt =====
-- internal/reconciliation/trigger.go: what a round of `enqueueAll` adds, and the pause after a failed one.
use mathlib.Core.Path.{subst}
use kubeseer.Prelude.{
  sym, ℕ, ◌*◌, ◌≤◌, ◌<◌, ◌≡◌, ◌≢◌, ◌⊎◌, inl, inr, refl, true, ◌||◌, List, [], ◌∷◌, eq_iff, arith,
  Bool-cases,
}
use kubeseer.Prelude.Sort.{insert_sorted, sort_stable}
use kubeseer.Reconciliation.Key.{NamespacedName, key_beq, key_beq_iff}
use kubeseer.Reconciliation.Trigger.{
  Source, has_key, key_less, listed_name, seen_name, distinct_keys, add_all, enqueue_all,
  next_backoff,
}

seen_name-insert_sorted :
    (x : NamespacedName) (ys : List NamespacedName) (k : NamespacedName)
    → seen_name (insert_sorted key_less x ys) k ≡ seen_name (x ∷ ys) k
unfolding insert_sorted seen_name
seen_name-insert_sorted x [] k = refl
seen_name-insert_sorted x (y ∷ ys) k = ground (arith, seen_name-insert_sorted x ys k)

seen_name-sort_stable :
    (xs : List NamespacedName) (k : NamespacedName)
    → seen_name (sort_stable key_less xs) k ≡ seen_name xs k
unfolding sort_stable seen_name
seen_name-sort_stable [] k = refl
seen_name-sort_stable (x ∷ xs) k =
    ground
      (arith, seen_name-sort_stable xs k, seen_name-insert_sorted x (sort_stable key_less xs) k)

seen_name-add_all :
    (keys queue : List NamespacedName) (k : NamespacedName)
    → seen_name (add_all keys queue) k ≡ (seen_name keys k || seen_name queue k)
unfolding add_all seen_name
seen_name-add_all [] queue k = refl
seen_name-add_all (key ∷ keys) queue k = ground (arith, seen_name-add_all keys (key ∷ queue) k)

-- An item that is met with both names is taken, or was seen.
distinct_keys-head :
    (seen : List NamespacedName) (k : NamespacedName) (items : List NamespacedName)
    → k.name ≢ ""
    → k.namespace ≢ ""
    → (seen_name seen k || seen_name (distinct_keys seen (k ∷ items)) k) ≡ true
unfolding distinct_keys seen_name
distinct_keys-head seen k items n m =
    ground (arith, eq_iff k.name "", eq_iff k.namespace "", eq_iff (listed_name k) (listed_name k))

distinct_keys-tail :
    (seen : List NamespacedName) (x k : NamespacedName) (items : List NamespacedName)
    → (seen_name seen k || seen_name (distinct_keys seen items) k) ≡ true
    → (seen_name (x ∷ seen) k || seen_name (distinct_keys (x ∷ seen) items) k) ≡ true
    → (seen_name seen k || seen_name (distinct_keys seen (x ∷ items)) k) ≡ true
unfolding distinct_keys seen_name
distinct_keys-tail seen x k items h g = ground (arith, h, g)

seen_name-distinct_keys :
    (seen items : List NamespacedName) (k : NamespacedName)
    → k.name ≢ ""
    → k.namespace ≢ ""
    → has_key items k ≡ true
    → (seen_name seen k || seen_name (distinct_keys seen items) k) ≡ true
unfolding has_key
seen_name-distinct_keys seen [] k n m h = ground (arith, h)
seen_name-distinct_keys seen (x ∷ xs) k n m h = elim (Bool-cases (key_beq x k)) [
  | inl e ↦
      let same = (key_beq_iff x k).0 e in
      subst (λ y. (seen_name seen k || seen_name (distinct_keys seen (y ∷ xs)) k) ≡ true) (sym same)
        (distinct_keys-head seen k xs n m)
  | inr e ↦
      let rest : has_key xs k ≡ true = ground (arith, h, e) in
      distinct_keys-tail seen x k xs (seen_name-distinct_keys seen xs k n m rest)
        (seen_name-distinct_keys (x ∷ seen) xs k n m rest)
]

covered :
    (items : List NamespacedName) (k : NamespacedName)
    → (seen_name [] k || seen_name (distinct_keys [] items) k) ≡ true
    → (seen_name (distinct_keys [] items) k || seen_name [] k) ≡ true
unfolding seen_name
covered items k e = ground (arith, e)

-- A round of `enqueueAll` leaves no object out: for every listed item with a name and a namespace it adds
-- a key with the same `namespace + "\x00" + name`.
pub enqueue_all_covers :
    (items : List NamespacedName) (n : ℕ) (s : Source) (k : NamespacedName)
    → has_key items k ≡ true
    → k.name ≢ ""
    → k.namespace ≢ ""
    → seen_name (enqueue_all items n (record s { queue = [] })).queue k ≡ true
unfolding enqueue_all
enqueue_all_covers items n s k h name namespace =
    rw
      (
        seen_name-add_all (sort_stable key_less (distinct_keys [] items)) [] k,
        seen_name-sort_stable (distinct_keys [] items) k,
      )
      (covered items k (seen_name-distinct_keys [] items k name namespace h))

-- From a positive pause of at most the maximum, the next one is not shorter, does not pass the maximum,
-- and is either the maximum or twice the one before.
pub next_backoff_lem :
    (current maximum : ℕ)
    → 0 < current
    → current ≤ maximum
    → (current ≤ next_backoff current maximum)
      × (next_backoff current maximum ≤ maximum)
      × ((next_backoff current maximum ≡ maximum) ⊎ (next_backoff current maximum ≡ current * 2))
unfolding next_backoff
next_backoff_lem current maximum positive le = ground (arith, positive, le)
