-- ===== src/Discovery/Cache.antt =====
-- The cache of internal/discovery/resolver.go: each function is what a method does under the mutex.
-- A map is iterated in the order of its association list.
use kubeseer.Prelude.{
  ℕ, suc, ◌+◌, ◌%◌, String, str_eq, Option, none, some, Bool, true, false, not, ◌&&◌, ◌||◌, List,
  [], ◌∷◌, ◌++◌, length, ltb, ◌==◌, if◌then◌else◌,
}
use kubeseer.Prelude.Int.{ℤ, pos, leb_ℤ, two64}
use kubeseer.Prelude.Assoc.{lookup, insert}
use kubeseer.Prelude.Result.{Result, ok, err}
use kubeseer.AccessPolicy.Policy.{Scope}
use kubeseer.Selection.Contracts.{GroupVersionResource, Resolution, ResolutionError}
use kubeseer.Discovery.Key.{
  CacheKey, CacheVersion, cache_key_instance, same_cache_key, same_version, cache_key_less,
}

-- Times are nanoseconds of the clock.
pub record CacheEntry : Type 0 where
  pub gvr : GroupVersionResource
  pub scope : Scope
  pub expires_at : ℕ
  pub access_sequence : ℕ
  pub version : CacheVersion

-- A pointer to a refreshState is the number of its allocation.
pub record RefreshState : Type 0 where
  pub pointer : ℕ
  pub version : CacheVersion

-- `done` has the results of the states whose channel is closed, `allocated` counts the states.
pub record Resolver : Type 0 where
  pub cache_capacity : ℤ
  pub cache : List (CacheKey × CacheEntry)
  pub refreshing : List (CacheKey × RefreshState)
  pub access_sequence : ℕ
  pub invalidation_epoch : ℕ
  pub key_epoch : List (CacheKey × ℕ)
  pub allocated : ℕ
  pub done : List (ℕ × Result ResolutionError CacheEntry)

-- `NewResolver`, with the capacity that the options leave.
abbrev pub new_resolver : ℤ → Resolver
new_resolver capacity = record {
  cache_capacity = capacity;
  cache = [];
  refreshing = [];
  access_sequence = 0;
  invalidation_epoch = 0;
  key_epoch = [];
  allocated = 0;
  done = [];
}

abbrev pub resolution : String → CacheEntry → Resolution
resolution source_id e = record { source_id = source_id; resource = e.gvr; scope = e.scope }

-- Go's `delete`.
unfoldable pub remove : {V : Type 0} → CacheKey → List (CacheKey × V) → List (CacheKey × V)
remove key [] = []
remove key ((other, value) ∷ rest) =
    let others = remove key rest in
    if same_cache_key other key then others else (other, value) ∷ others

-- A missing key counts as zero.
abbrev pub epoch_or_zero : Option ℕ → ℕ
epoch_or_zero none = 0
epoch_or_zero (some n) = n

abbrev pub version_of : CacheKey → Resolver → CacheVersion
version_of key r = record {
  all = r.invalidation_epoch;
  key = epoch_or_zero (lookup key r.key_epoch);
}

-- The loop that numbers the entries again after an overflow, from one above `n`.
unfoldable pub renumber : ℕ → List (CacheKey × CacheEntry) → List (CacheKey × CacheEntry)
renumber n [] = []
renumber n ((key, e) ∷ rest) = (key, record e { access_sequence = suc n }) ∷ renumber (suc n) rest

-- The sequence number that is given stands in the new state.
unfoldable pub next_access : Resolver → Resolver
unfolding renumber
next_access r =
    let next = (r.access_sequence + 1) % two64 in
    if next == 0
    then record r { cache = renumber 0 r.cache; access_sequence = (length r.cache + 1) % two64 }
    else record r { access_sequence = next }

-- The entry is given the next sequence number and stored.
unfoldable pub store : CacheKey → CacheEntry → Resolver → CacheEntry × Resolver
unfolding next_access
store key e r =
    let r = next_access r in
    let e : CacheEntry = record e { access_sequence = r.access_sequence } in
    (e, record r { cache = insert key e r.cache })

-- How `freshCacheEntry` answers, and `beginRefresh` before it looks at the refreshes.
unfoldable pub serve : CacheKey → ℕ → Option CacheEntry → Resolver → Option CacheEntry × Resolver
unfolding store
serve key now none r = (none, r)
serve key now (some e) r =
    if not (same_version e.version (version_of key r))
    then (none, record r { cache = remove key r.cache })
    else if not (ltb now e.expires_at)
    then (none, r)
    else (some (store key e r).0, (store key e r).1)

unfoldable pub fresh_cache_entry : CacheKey → ℕ → Resolver → Option CacheEntry × Resolver
unfolding serve
fresh_cache_entry key now r = serve key now (lookup key r.cache) r

-- What `beginRefresh` returns: an entry, the state of another's refresh, or that of one's own.
pub data Begun : Type 0 where
  served : CacheEntry → Begun
  joined : RefreshState → Begun
  owned : RefreshState → Begun

unfoldable pub own_refresh : CacheKey → Resolver → Begun × Resolver
own_refresh key r =
    let state : RefreshState = record { pointer = r.allocated; version = version_of key r } in
    (
      owned state,
      record r { refreshing = insert key state r.refreshing; allocated = suc r.allocated },
    )

unfoldable pub join_refresh : CacheKey → Option RefreshState → Resolver → Begun × Resolver
unfolding own_refresh
join_refresh key none r = own_refresh key r
join_refresh key (some state) r =
    if same_version state.version (version_of key r)
    then (joined state, r)
    else own_refresh key (record r { refreshing = remove key r.refreshing })

unfoldable pub begin_refresh_with : CacheKey → Option CacheEntry × Resolver → Begun × Resolver
unfolding join_refresh
begin_refresh_with key (some e, r) = (served e, r)
begin_refresh_with key (none, r) = join_refresh key (lookup key r.refreshing) r

unfoldable pub begin_refresh : CacheKey → ℕ → Resolver → Begun × Resolver
unfolding begin_refresh_with fresh_cache_entry
begin_refresh key now r = begin_refresh_with key (fresh_cache_entry key now r)

-- The victim so far, `best`, against the next entry of the cache.
unfoldable pub better_victim : CacheKey → CacheEntry → Option (CacheKey × CacheEntry) → Bool
unfolding cache_key_less
better_victim key e none = true
better_victim key e (some (victim, best)) =
    ltb e.access_sequence best.access_sequence
    || e.access_sequence == best.access_sequence && cache_key_less key victim

unfoldable pub is_refreshing : CacheKey → List (CacheKey × RefreshState) → Bool
is_refreshing key refreshing = elim (lookup key refreshing) [ none ↦ false | some state ↦ true ]

unfoldable pub lru_victim_from :
    List (CacheKey × RefreshState)
    → Option (CacheKey × CacheEntry)
    → List (CacheKey × CacheEntry)
    → Option (CacheKey × CacheEntry)
unfolding better_victim is_refreshing
lru_victim_from refreshing best [] = best
lru_victim_from refreshing best ((key, e) ∷ rest) =
    let kept = lru_victim_from refreshing best rest in
    let taken = lru_victim_from refreshing (some (key, e)) rest in
    if is_refreshing key refreshing then kept else if better_victim key e best then taken else kept

abbrev pub lru_victim : Resolver → Option (CacheKey × CacheEntry)
lru_victim r = lru_victim_from r.refreshing none r.cache

unfoldable pub retain_in :
    CacheKey → CacheEntry → Option (CacheKey × CacheEntry) → Resolver → Resolver
retain_in key e none r = r
retain_in key e (some victim) r = (store key e (record r { cache = remove victim.0 r.cache })).1

unfoldable pub retain_entry : CacheKey → CacheEntry → RefreshState → Resolver → Resolver
unfolding retain_in store lru_victim_from remove
retain_entry key e state r =
    let cleared : Resolver = record r { cache = remove key r.cache } in
    if leb_ℤ r.cache_capacity (pos 0) || not (same_version state.version (version_of key r))
    then r
    else if leb_ℤ r.cache_capacity (pos (length cleared.cache))
    then retain_in key e (lru_victim cleared) cleared
    else (store key e cleared).1

unfoldable pub retain_result :
    CacheKey → RefreshState → Result ResolutionError CacheEntry → Resolver → Resolver
unfolding retain_entry
retain_result key state (err x) r = r
retain_result key state (ok e) r =
    if same_version state.version (version_of key r)
    then retain_entry key (record e { version = state.version }) state r
    else r

unfoldable pub finish_current :
    CacheKey
    → RefreshState
    → Result ResolutionError CacheEntry
    → Option RefreshState
    → Resolver
    → Resolver
unfolding retain_result
finish_current key state result none r = r
finish_current key state result (some current) r =
    let retained = retain_result key state result r in
    if current.pointer == state.pointer
    then record retained { refreshing = remove key retained.refreshing }
    else r

unfoldable pub finish_refresh :
    CacheKey → RefreshState → Result ResolutionError CacheEntry → Resolver → Resolver
unfolding finish_current
finish_refresh key state result r =
    let r = finish_current key state result (lookup key r.refreshing) r in
    record r { done = (state.pointer, result) ∷ r.done }

unfoldable pub refresh_version_current : CacheKey → CacheVersion → Resolver → Bool
refresh_version_current key version r = same_version (version_of key r) version

unfoldable pub bump : CacheKey → List (CacheKey × ℕ) → List (CacheKey × ℕ)
bump key epochs = insert key ((epoch_or_zero (lookup key epochs) + 1) % two64) epochs

-- The keys of a group version in a map.
unfoldable pub keys_under : {V : Type 0} → String → List (CacheKey × V) → List CacheKey
keys_under group_version [] = []
keys_under group_version ((key, value) ∷ rest) =
    let others = keys_under group_version rest in
    if str_eq key.group_version group_version then key ∷ others else others

unfoldable pub has_cache_key : List CacheKey → CacheKey → Bool
has_cache_key [] key = false
has_cache_key (other ∷ rest) key = same_cache_key other key || has_cache_key rest key

-- The loop that counts up the epochs, once for each key of the set.
unfoldable pub bump_all : List CacheKey → List (CacheKey × ℕ) → List (CacheKey × ℕ)
unfolding bump has_cache_key
bump_all [] epochs = epochs
bump_all (key ∷ keys) epochs =
    let later = bump_all keys epochs in if has_cache_key keys key then later else bump key later

unfoldable pub drop_under : {V : Type 0} → String → List (CacheKey × V) → List (CacheKey × V)
drop_under group_version [] = []
drop_under group_version ((key, value) ∷ rest) =
    let others = drop_under group_version rest in
    if str_eq key.group_version group_version then others else (key, value) ∷ others

-- After `canonicalGroupVersion`.
unfoldable pub invalidate_group_version : String → Resolver → Resolver
unfolding bump_all keys_under drop_under
invalidate_group_version group_version r = record r {
  cache = drop_under group_version r.cache;
  key_epoch =
      bump_all (keys_under group_version r.cache ++ keys_under group_version r.refreshing)
        r.key_epoch;
}

unfoldable pub invalidate_resource : CacheKey → Resolver → Resolver
unfolding remove bump
invalidate_resource key r = record r {
  cache = remove key r.cache;
  key_epoch = bump key r.key_epoch;
}

unfoldable pub invalidate_every : Resolver → Resolver
invalidate_every r = record r {
  cache = [];
  invalidation_epoch = (r.invalidation_epoch + 1) % two64;
}
