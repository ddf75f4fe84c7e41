-- ===== src/Discovery/Capacity.antt =====
-- The cache of internal/discovery/resolver.go keeps within its capacity.
use kubeseer.Prelude.{
  ℕ, suc, ◌+◌, ◌%◌, ◌≡◌, refl, Option, none, some, Bool, true, false, not, ◌||◌, List, [], ◌∷◌,
  length, ltb, ◌==◌, arith, Bool-cases, inl, inr, if◌then◌else◌,
}
use kubeseer.Prelude.Int.{ℤ, pos, ◌≤ℤ◌, leb_ℤ, two64}
use kubeseer.Prelude.Assoc.{lookup}
use kubeseer.Prelude.Result.{Result, ok, err}
use kubeseer.Selection.Contracts.{ResolutionError}
use kubeseer.Discovery.Key.{CacheKey, cache_key_instance, same_version}
use kubeseer.Discovery.Cache.{
  CacheEntry, RefreshState, Resolver, remove, next_access, store, serve, fresh_cache_entry,
  own_refresh, join_refresh, begin_refresh_with, begin_refresh, lru_victim_from, retain_in,
  retain_entry, retain_result, finish_current, finish_refresh, invalidate_group_version,
  invalidate_resource, invalidate_every, version_of,
}
use kubeseer.Discovery.Events.{
  Event, look_up, begin, finish, group_version_changed, resource_changed, everything_changed,
  after_event, after_events,
}
use kubeseer.Discovery.Victims.{
  has, length-remove, length-remove-has, length-insert, length-insert-has, lookup-has,
  length-renumber, has-renumber, length-drop_under, victim-has,
}

-- The capacity is still `c`, and the cache within it.
pub record IsWithinCapacity (c : ℤ) (r : Resolver) : Type 0 where
  pub capacity : r.cache_capacity ≡ c
  pub size : pos (length r.cache) ≤ℤ c

next_access-cache :
    (r : Resolver)
    → ((next_access r).cache_capacity ≡ r.cache_capacity)
      × (length (next_access r).cache ≡ length r.cache)
      × ((key : CacheKey) → has key (next_access r).cache ≡ has key r.cache)
unfolding next_access
next_access-cache r = elim (Bool-cases ((r.access_sequence + 1) % two64 == 0)) [
  | inl z ↦ rw z (refl, length-renumber 0 r.cache, λ key. has-renumber key 0 r.cache)
  | inr z ↦ rw z (refl, refl, λ key. refl)
]

module _ (c : ℤ) where
  store-IsWithinCapacity :
      (key : CacheKey) (e : CacheEntry) (r : Resolver)
      → r.cache_capacity ≡ c
      → pos (suc (length r.cache)) ≤ℤ c
      → IsWithinCapacity c (store key e r).1
  unfolding store
  store-IsWithinCapacity key e r h l =
      let (a, b, _) = next_access-cache r in
      let i = length-insert key (store key e r).0 (next_access r).cache in
      record { capacity = rw (a, h) refl; size = omega (arith, b, i, l) }

  touch-IsWithinCapacity :
      (key : CacheKey) (e : CacheEntry) (r : Resolver)
      → IsWithinCapacity c r
      → has key r.cache ≡ true
      → IsWithinCapacity c (store key e r).1
  unfolding store
  touch-IsWithinCapacity key e r w h =
      let (a, b, g) = next_access-cache r in
      let i = length-insert-has key (store key e r).0 (next_access r).cache (rw (g key) h) in
      record { capacity = rw (a, w.capacity) refl; size = rw (i, b) w.size }

  remove-IsWithinCapacity :
      (key : CacheKey) (r : Resolver)
      → IsWithinCapacity c r
      → IsWithinCapacity c (record r { cache = remove key r.cache })
  remove-IsWithinCapacity key r w = record {
    capacity = w.capacity;
    size = omega (arith, w.size, length-remove key r.cache);
  }

  -- The capacity and the cache are all that is read.
  same-IsWithinCapacity :
      (r s : Resolver)
      → IsWithinCapacity c r
      → s.cache_capacity ≡ r.cache_capacity
      → s.cache ≡ r.cache
      → IsWithinCapacity c s
  same-IsWithinCapacity r s w a b = record {
    capacity = rw (a, w.capacity) refl;
    size = rw b w.size;
  }

  serve-IsWithinCapacity :
      (key : CacheKey) (now : ℕ) (found : Option CacheEntry) (r : Resolver)
      → lookup key r.cache ≡ found
      → IsWithinCapacity c r
      → IsWithinCapacity c (serve key now found r).1
  unfolding serve
  serve-IsWithinCapacity key now none r h w = w
  serve-IsWithinCapacity key now (some e) r h w =
      elim (Bool-cases (same_version e.version (version_of key r))) [
        | inr a ↦ rw a (remove-IsWithinCapacity key r w)
        | inl a ↦ elim (Bool-cases (ltb now e.expires_at)) [
          | inr b ↦ rw (a, b) w
          | inl b ↦ rw (a, b) (touch-IsWithinCapacity key e r w (lookup-has key e r.cache h))
        ]
      ]

  join_refresh-IsWithinCapacity :
      (key : CacheKey) (found : Option RefreshState) (r : Resolver)
      → IsWithinCapacity c r
      → IsWithinCapacity c (join_refresh key found r).1
  unfolding join_refresh own_refresh
  join_refresh-IsWithinCapacity key none r w = same-IsWithinCapacity r _ w refl refl
  join_refresh-IsWithinCapacity key (some state) r w =
      elim (Bool-cases (same_version state.version (version_of key r))) [
        | inl a ↦ rw a w
        | inr a ↦ rw a (same-IsWithinCapacity r _ w refl refl)
      ]

  begin-IsWithinCapacity :
      (key : CacheKey) (found : Option CacheEntry × Resolver)
      → IsWithinCapacity c found.1
      → IsWithinCapacity c (begin_refresh_with key found).1
  unfolding begin_refresh_with
  begin-IsWithinCapacity key (some e, r) w = w
  begin-IsWithinCapacity key (none, r) w =
      join_refresh-IsWithinCapacity key (lookup key r.refreshing) r w

  retain_in-IsWithinCapacity :
      (key : CacheKey) (e : CacheEntry) (victim : Option (CacheKey × CacheEntry)) (r : Resolver)
      → lru_victim_from r.refreshing none r.cache ≡ victim
      → IsWithinCapacity c r
      → IsWithinCapacity c (retain_in key e victim r)
  unfolding retain_in
  retain_in-IsWithinCapacity key e none r h w = w
  retain_in-IsWithinCapacity key e (some victim) r h w =
      let there =
        elim (victim-has r.refreshing none r.cache victim h) as (λ _. has victim.0 r.cache ≡ true) [
          | inl x ↦ ground (arith, x)
          | inr x ↦ x
        ] in
      store-IsWithinCapacity key e (record r { cache = remove victim.0 r.cache }) w.capacity
        (omega (arith, w.size, length-remove-has victim.0 r.cache there))

  retain_entry-IsWithinCapacity :
      (key : CacheKey) (e : CacheEntry) (state : RefreshState) (r : Resolver)
      → IsWithinCapacity c r
      → IsWithinCapacity c (retain_entry key e state r)
  unfolding retain_entry
  retain_entry-IsWithinCapacity key e state r w =
      let cleared : Resolver = record r { cache = remove key r.cache } in
      let fits = remove-IsWithinCapacity key r w in
      elim (Bool-cases
        (leb_ℤ r.cache_capacity (pos 0) || not (same_version state.version (version_of key r)))) [
          | inl a ↦ rw a w
          | inr a ↦ elim (Bool-cases (leb_ℤ r.cache_capacity (pos (length cleared.cache)))) [
            | inl b ↦
                rw (a, b)
                  (retain_in-IsWithinCapacity key e
                    (lru_victim_from cleared.refreshing none cleared.cache) cleared refl fits)
            | inr b ↦
                rw (a, b)
                  (store-IsWithinCapacity key e cleared w.capacity (ground (arith, b, w.capacity)))
          ]
        ]

  if-IsWithinCapacity :
      (b : Bool) (r s : Resolver)
      → IsWithinCapacity c r
      → IsWithinCapacity c s
      → IsWithinCapacity c (if b then r else s)
  if-IsWithinCapacity true r s v w = v
  if-IsWithinCapacity false r s v w = w

  retain_result-IsWithinCapacity :
      (key : CacheKey) (state : RefreshState) (result : Result ResolutionError CacheEntry)
      (r : Resolver)
      → IsWithinCapacity c r
      → IsWithinCapacity c (retain_result key state result r)
  unfolding retain_result
  retain_result-IsWithinCapacity key state (err x) r w = w
  retain_result-IsWithinCapacity key state (ok e) r w =
      if-IsWithinCapacity (same_version state.version (version_of key r)) _ r
        (retain_entry-IsWithinCapacity key (record e { version = state.version }) state r w) w

  finish_current-IsWithinCapacity :
      (key : CacheKey) (state : RefreshState) (result : Result ResolutionError CacheEntry)
      (found : Option RefreshState) (r : Resolver)
      → IsWithinCapacity c r
      → IsWithinCapacity c (finish_current key state result found r)
  unfolding finish_current
  finish_current-IsWithinCapacity key state result none r w = w
  finish_current-IsWithinCapacity key state result (some current) r w =
      if-IsWithinCapacity (current.pointer == state.pointer) _ r
        (same-IsWithinCapacity (retain_result key state result r) _
          (retain_result-IsWithinCapacity key state result r w) refl refl)
        w

  after_event-IsWithinCapacity :
      (e : Event) (r : Resolver) → IsWithinCapacity c r → IsWithinCapacity c (after_event e r)
  unfolding after_event fresh_cache_entry begin_refresh finish_refresh invalidate_group_version
      invalidate_resource invalidate_every
  after_event-IsWithinCapacity (look_up key now) r w =
      serve-IsWithinCapacity key now (lookup key r.cache) r refl w
  after_event-IsWithinCapacity (begin key now) r w =
      begin-IsWithinCapacity key (fresh_cache_entry key now r)
        (serve-IsWithinCapacity key now (lookup key r.cache) r refl w)
  after_event-IsWithinCapacity (finish key state result) r w =
      same-IsWithinCapacity (finish_current key state result (lookup key r.refreshing) r) _
        (finish_current-IsWithinCapacity key state result (lookup key r.refreshing) r w) refl refl
  after_event-IsWithinCapacity (group_version_changed g) r w = record {
    capacity = w.capacity;
    size = omega (arith, w.size, length-drop_under g r.cache);
  }
  after_event-IsWithinCapacity (resource_changed key) r w = record {
    capacity = w.capacity;
    size = omega (arith, w.size, length-remove key r.cache);
  }
  after_event-IsWithinCapacity everything_changed r w = record {
    capacity = w.capacity;
    size = ground (arith, w.size);
  }

  -- The cache of discovered resources never holds more entries than its capacity, whatever lookups,
  -- refreshes and invalidations come in which order, from any cache that is within it.
  pub after_events-IsWithinCapacity :
      (es : List Event) (r : Resolver)
      → IsWithinCapacity c r
      → IsWithinCapacity c (after_events es r)
  unfolding after_events
  after_events-IsWithinCapacity [] r w = w
  after_events-IsWithinCapacity (e ∷ es) r w =
      after_events-IsWithinCapacity es (after_event e r) (after_event-IsWithinCapacity e r w)
