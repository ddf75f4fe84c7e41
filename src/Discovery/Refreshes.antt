-- ===== src/Discovery/Refreshes.antt =====
-- Where the refreshes come from that one use of internal/discovery/resolver.go leaves running.
use mathlib.Core.Path.{subst}
use kubeseer.Prelude.{
  ℕ, ◌+◌, ◌%◌, ◌≡◌, ◌⊎◌, refl, ap, Option, none, some, Bool, true, false, not, ◌||◌, length, ltb,
  ◌==◌, Bool-cases, inl, inr, if◌then◌else◌,
}
use kubeseer.Prelude.Int.{pos, leb_ℤ, two64}
use kubeseer.Prelude.Assoc.{lookup, lookup-insert}
use kubeseer.Prelude.Result.{Result, ok, err}
use kubeseer.Selection.Contracts.{ResolutionError}
use kubeseer.Discovery.Key.{
  CacheKey, cache_key_instance, same_cache_key, same_version, same_cache_key_iff,
}
use kubeseer.Discovery.Cache.{
  CacheEntry, RefreshState, Resolver, remove, next_access, store, serve, fresh_cache_entry, owned,
  own_refresh, join_refresh, begin_refresh_with, begin_refresh, lru_victim_from, retain_in,
  retain_entry, retain_result, finish_current, finish_refresh, invalidate_group_version,
  invalidate_resource, invalidate_every, version_of,
}
use kubeseer.Discovery.Events.{
  Event, look_up, begin, finish, group_version_changed, resource_changed, everything_changed,
  after_event,
}
use kubeseer.Discovery.Victims.{some_injective}
use kubeseer.Discovery.Contents.{lookup-remove}

-- A refresh that ran before, or that this use has begun.
pub data Runs (key : CacheKey) (e : Event) (r : Resolver) (state : RefreshState) : Type 0 where
  ran : lookup key r.refreshing ≡ some state → Runs key e r state
  began :
      (now : ℕ) → e ≡ begin key now → (begin_refresh key now r).0 ≡ owned state → Runs key e r state

store-refreshing :
    (k : CacheKey) (e : CacheEntry) (r : Resolver) → (store k e r).1.refreshing ≡ r.refreshing
unfolding store next_access
store-refreshing k e r = elim (Bool-cases ((r.access_sequence + 1) % two64 == 0)) [
  | inl z ↦ rw z refl
  | inr z ↦ rw z refl
]

serve-refreshing :
    (k : CacheKey) (now : ℕ) (found : Option CacheEntry) (r : Resolver)
    → (serve k now found r).1.refreshing ≡ r.refreshing
unfolding serve
serve-refreshing k now none r = refl
serve-refreshing k now (some e) r = elim (Bool-cases (same_version e.version (version_of k r))) [
  | inr a ↦ rw a refl
  | inl a ↦ elim (Bool-cases (ltb now e.expires_at)) [
    | inr b ↦ rw (a, b) refl
    | inl b ↦ rw (a, b) (store-refreshing k e r)
  ]
]

-- What a lookup leaves alone.
pub looks-refreshing :
    (k : CacheKey) (now : ℕ) (r : Resolver)
    → (fresh_cache_entry k now r).1.refreshing ≡ r.refreshing
unfolding fresh_cache_entry
looks-refreshing k now r = serve-refreshing k now (lookup k r.cache) r

own-Runs :
    (j k : CacheKey) (r : Resolver) (state : RefreshState)
    → lookup j (own_refresh k r).1.refreshing ≡ some state
    → (lookup j r.refreshing ≡ some state) ⊎ ((k ≡ j) × ((own_refresh k r).0 ≡ owned state))
unfolding own_refresh
own-Runs j k r state h =
    let mine : RefreshState = record { pointer = r.allocated; version = version_of k r } in
    let put = lookup-insert k j mine r.refreshing in
    elim (Bool-cases (same_cache_key k j)) [
      | inl a ↦ inr ((same_cache_key_iff k j).0 a, ap owned (some_injective (rw (put, a) at h)))
      | inr a ↦ inl (rw (put, a) at h)
    ]

join-Runs :
    (j k : CacheKey) (found : Option RefreshState) (r : Resolver) (state : RefreshState)
    → lookup j (join_refresh k found r).1.refreshing ≡ some state
    → (lookup j r.refreshing ≡ some state) ⊎ ((k ≡ j) × ((join_refresh k found r).0 ≡ owned state))
unfolding join_refresh
join-Runs j k none r state h = own-Runs j k r state h
join-Runs j k (some other) r state h =
    elim (Bool-cases (same_version other.version (version_of k r))) [
      | inl a ↦ inl (rw a at h)
      | inr a ↦
          elim (own-Runs j k (record r { refreshing = remove k r.refreshing }) state (rw a at h)) [
            | inl x ↦ inl (lookup-remove j k state r.refreshing x)
            | inr (same, x) ↦ inr (same, rw a x)
          ]
    ]

begin-Runs :
    (j k : CacheKey) (found : Option CacheEntry × Resolver) (state : RefreshState)
    → lookup j (begin_refresh_with k found).1.refreshing ≡ some state
    → (lookup j found.1.refreshing ≡ some state)
      ⊎ ((k ≡ j) × ((begin_refresh_with k found).0 ≡ owned state))
unfolding begin_refresh_with
begin-Runs j k (some e, r) state h = inl h
begin-Runs j k (none, r) state h = join-Runs j k (lookup k r.refreshing) r state h

retain_in-refreshing :
    (k : CacheKey) (e : CacheEntry) (victim : Option (CacheKey × CacheEntry)) (r : Resolver)
    → (retain_in k e victim r).refreshing ≡ r.refreshing
unfolding retain_in
retain_in-refreshing k e none r = refl
retain_in-refreshing k e (some victim) r =
    store-refreshing k e (record r { cache = remove victim.0 r.cache })

if-refreshing :
    (b : Bool) (r s t : Resolver)
    → r.refreshing ≡ t.refreshing
    → s.refreshing ≡ t.refreshing
    → (if b then r else s).refreshing ≡ t.refreshing
if-refreshing true r s t h g = h
if-refreshing false r s t h g = g

retain_entry-refreshing :
    (k : CacheKey) (e : CacheEntry) (state : RefreshState) (r : Resolver)
    → (retain_entry k e state r).refreshing ≡ r.refreshing
unfolding retain_entry
retain_entry-refreshing k e state r =
    let cleared : Resolver = record r { cache = remove k r.cache } in
    let victim = lru_victim_from cleared.refreshing none cleared.cache in
    if-refreshing
      (leb_ℤ r.cache_capacity (pos 0) || not (same_version state.version (version_of k r))) r
      (if leb_ℤ r.cache_capacity (pos (length cleared.cache))
        then retain_in k e victim cleared
        else (store k e cleared).1)
      r refl
      (if-refreshing (leb_ℤ r.cache_capacity (pos (length cleared.cache)))
        (retain_in k e victim cleared) (store k e cleared).1 r
        (retain_in-refreshing k e victim cleared) (store-refreshing k e cleared))

retain_result-refreshing :
    (k : CacheKey) (state : RefreshState) (result : Result ResolutionError CacheEntry)
    (r : Resolver)
    → (retain_result k state result r).refreshing ≡ r.refreshing
unfolding retain_result
retain_result-refreshing k state (err x) r = refl
retain_result-refreshing k state (ok e) r =
    if-refreshing (same_version state.version (version_of k r))
      (retain_entry k (record e { version = state.version }) state r) r r
      (retain_entry-refreshing k (record e { version = state.version }) state r) refl

finish-Runs :
    (j k : CacheKey) (state : RefreshState) (result : Result ResolutionError CacheEntry)
    (found : Option RefreshState) (r : Resolver) (other : RefreshState)
    → lookup j (finish_current k state result found r).refreshing ≡ some other
    → lookup j r.refreshing ≡ some other
unfolding finish_current
finish-Runs j k state result none r other h = h
finish-Runs j k state result (some current) r other h =
    elim (Bool-cases (current.pointer == state.pointer)) [
      | inr a ↦ rw a at h
      | inl a ↦
          let retained = retain_result k state result r in
          subst (λ m. lookup j m ≡ some other) (retain_result-refreshing k state result r)
            (lookup-remove j k other retained.refreshing (rw a at h))
    ]

-- Each refresh of a key that runs after a use ran before it, or the use has begun it.
pub after_event-Runs :
    (key : CacheKey) (e : Event) (r : Resolver) (state : RefreshState)
    → lookup key (after_event e r).refreshing ≡ some state
    → Runs key e r state
unfolding after_event finish_refresh invalidate_group_version invalidate_resource invalidate_every
    begin_refresh
after_event-Runs key (look_up k now) r state h =
    ran (subst (λ m. lookup key m ≡ some state) (looks-refreshing k now r) h)
after_event-Runs key (begin k now) r state h =
    elim (begin-Runs key k (fresh_cache_entry k now r) state h) [
      | inl x ↦ ran (subst (λ m. lookup key m ≡ some state) (looks-refreshing k now r) x)
      | inr (same, x) ↦
          began now (ap (λ i. begin i now) same)
            (subst (λ i. (begin_refresh_with i (fresh_cache_entry i now r)).0 ≡ owned state) same x)
    ]
after_event-Runs key (finish k done result) r state h =
    ran (finish-Runs key k done result (lookup k r.refreshing) r state h)
after_event-Runs key (group_version_changed g) r state h = ran h
after_event-Runs key (resource_changed k) r state h = ran h
after_event-Runs key everything_changed r state h = ran h
