-- ===== src/Discovery/Epochs.antt =====
-- The invalidations of internal/discovery/resolver.go count up epochs, and no other use of the cache does.
use kubeseer.Prelude.{
  ℕ, ◌+◌, ◌%◌, ◌≡◌, refl, ◌∙◌, Option, none, some, Bool, true, false, not, ◌||◌, List, [], ◌∷◌,
  length, ltb, ◌==◌, arith, Bool-cases, inl, inr, if◌then◌else◌,
}
use kubeseer.Prelude.Int.{pos, leb_ℤ, two64}
use kubeseer.Prelude.Assoc.{lookup, lookup-insert}
use kubeseer.Prelude.Result.{Result, ok, err}
use kubeseer.Selection.Contracts.{ResolutionError}
use kubeseer.Discovery.Key.{
  CacheKey, cache_key_instance, same_cache_key, same_version, same_cache_key_iff,
}
use kubeseer.Discovery.Cache.{
  CacheEntry, RefreshState, Resolver, remove, next_access, store, serve, fresh_cache_entry,
  own_refresh, join_refresh, begin_refresh_with, begin_refresh, lru_victim_from, retain_in,
  retain_entry, retain_result, finish_current, finish_refresh, version_of, epoch_or_zero, bump,
  bump_all, has_cache_key,
}

-- The epochs are the same.
pub record SameEpochs (r s : Resolver) : Type 0 where
  pub all : s.invalidation_epoch ≡ r.invalidation_epoch
  pub keys : s.key_epoch ≡ r.key_epoch

abbrev same : {r : Resolver} → SameEpochs r r
same {r} = record { all = refl; keys = refl }

abbrev then_same : {r s t : Resolver} → SameEpochs r s → SameEpochs s t → SameEpochs r t
then_same a b = record { all = b.all ∙ a.all; keys = b.keys ∙ a.keys }

if-SameEpochs :
    (b : Bool) (r s t : Resolver)
    → SameEpochs r s
    → SameEpochs r t
    → SameEpochs r (if b then s else t)
if-SameEpochs true r s t g h = g
if-SameEpochs false r s t g h = h

store-SameEpochs : (key : CacheKey) (e : CacheEntry) (r : Resolver) → SameEpochs r (store key e r).1
unfolding store next_access
store-SameEpochs key e r = elim (Bool-cases ((r.access_sequence + 1) % two64 == 0)) [
  | inl z ↦ record { all = rw z refl; keys = rw z refl }
  | inr z ↦ record { all = rw z refl; keys = rw z refl }
]

serve-SameEpochs :
    (key : CacheKey) (now : ℕ) (found : Option CacheEntry) (r : Resolver)
    → SameEpochs r (serve key now found r).1
unfolding serve
serve-SameEpochs key now none r = same
serve-SameEpochs key now (some e) r =
    elim (Bool-cases (same_version e.version (version_of key r))) [
      | inr a ↦ rw a (record { all = refl; keys = refl })
      | inl a ↦ elim (Bool-cases (ltb now e.expires_at)) [
        | inr b ↦ rw (a, b) same
        | inl b ↦ rw (a, b) (store-SameEpochs key e r)
      ]
    ]

join_refresh-SameEpochs :
    (key : CacheKey) (found : Option RefreshState) (r : Resolver)
    → SameEpochs r (join_refresh key found r).1
unfolding join_refresh own_refresh
join_refresh-SameEpochs key none r = record { all = refl; keys = refl }
join_refresh-SameEpochs key (some state) r =
    elim (Bool-cases (same_version state.version (version_of key r))) [
      | inl a ↦ rw a same
      | inr a ↦ rw a (record { all = refl; keys = refl })
    ]

begin-SameEpochs :
    (key : CacheKey) (found : Option CacheEntry × Resolver)
    → SameEpochs found.1 (begin_refresh_with key found).1
unfolding begin_refresh_with
begin-SameEpochs key (some e, r) = same
begin-SameEpochs key (none, r) = join_refresh-SameEpochs key (lookup key r.refreshing) r

retain_in-SameEpochs :
    (key : CacheKey) (e : CacheEntry) (victim : Option (CacheKey × CacheEntry)) (r : Resolver)
    → SameEpochs r (retain_in key e victim r)
unfolding retain_in
retain_in-SameEpochs key e none r = same
retain_in-SameEpochs key e (some victim) r =
    let s = store-SameEpochs key e _ in record { all = s.all; keys = s.keys }

retain_entry-SameEpochs :
    (key : CacheKey) (e : CacheEntry) (state : RefreshState) (r : Resolver)
    → SameEpochs r (retain_entry key e state r)
unfolding retain_entry
retain_entry-SameEpochs key e state r =
    let cleared : Resolver = record r { cache = remove key r.cache } in
    let victim = lru_victim_from cleared.refreshing none cleared.cache in
    let full = retain_in-SameEpochs key e victim cleared in
    let free = store-SameEpochs key e cleared in
    elim (Bool-cases
      (leb_ℤ r.cache_capacity (pos 0) || not (same_version state.version (version_of key r)))) [
        | inl a ↦ rw a same
        | inr a ↦ elim (Bool-cases (leb_ℤ r.cache_capacity (pos (length cleared.cache)))) [
          | inl b ↦ rw (a, b) (record { all = full.all; keys = full.keys })
          | inr b ↦ rw (a, b) (record { all = free.all; keys = free.keys })
        ]
      ]

retain_result-SameEpochs :
    (key : CacheKey) (state : RefreshState) (result : Result ResolutionError CacheEntry)
    (r : Resolver)
    → SameEpochs r (retain_result key state result r)
unfolding retain_result
retain_result-SameEpochs key state (err x) r = same
retain_result-SameEpochs key state (ok e) r =
    if-SameEpochs _ r _ r
      (retain_entry-SameEpochs key (record e { version = state.version }) state r) same

finish_current-SameEpochs :
    (key : CacheKey) (state : RefreshState) (result : Result ResolutionError CacheEntry)
    (found : Option RefreshState) (r : Resolver)
    → SameEpochs r (finish_current key state result found r)
unfolding finish_current
finish_current-SameEpochs key state result none r = same
finish_current-SameEpochs key state result (some current) r =
    let s = retain_result-SameEpochs key state result r in
    if-SameEpochs (current.pointer == state.pointer) r _ r (record { all = s.all; keys = s.keys })
      same

-- What is discovered changes nothing of the epochs.
pub lookups-SameEpochs :
    (key : CacheKey) (now : ℕ) (r : Resolver) → SameEpochs r (fresh_cache_entry key now r).1
unfolding fresh_cache_entry
lookups-SameEpochs key now r = serve-SameEpochs key now (lookup key r.cache) r

pub begins-SameEpochs :
    (key : CacheKey) (now : ℕ) (r : Resolver) → SameEpochs r (begin_refresh key now r).1
unfolding begin_refresh
begins-SameEpochs key now r =
    then_same (lookups-SameEpochs key now r) (begin-SameEpochs key (fresh_cache_entry key now r))

pub finishes-SameEpochs :
    (key : CacheKey) (state : RefreshState) (result : Result ResolutionError CacheEntry)
    (r : Resolver)
    → SameEpochs r (finish_refresh key state result r)
unfolding finish_refresh
finishes-SameEpochs key state result r =
    let s = finish_current-SameEpochs key state result (lookup key r.refreshing) r in
    record { all = s.all; keys = s.keys }

abbrev pub key_epoch_of : CacheKey → List (CacheKey × ℕ) → ℕ
key_epoch_of key epochs = epoch_or_zero (lookup key epochs)

pub bump-epoch :
    (key other : CacheKey) (epochs : List (CacheKey × ℕ))
    → key_epoch_of other (bump key epochs) ≡ (
        if same_cache_key key other
        then (key_epoch_of key epochs + 1) % two64
        else key_epoch_of other epochs)
unfolding bump
bump-epoch key other epochs = elim (Bool-cases (same_cache_key key other)) [
  | inl a ↦ rw (lookup-insert key other ((key_epoch_of key epochs + 1) % two64) epochs, a) refl
  | inr a ↦ rw (lookup-insert key other ((key_epoch_of key epochs + 1) % two64) epochs, a) refl
]

-- The loop over a set counts each of its keys up once.
pub bump_all-epoch :
    (keys : List CacheKey) (key : CacheKey) (epochs : List (CacheKey × ℕ))
    → key_epoch_of key (bump_all keys epochs) ≡ (
        if has_cache_key keys key
        then (key_epoch_of key epochs + 1) % two64
        else key_epoch_of key epochs)
unfolding bump_all has_cache_key
bump_all-epoch [] key epochs = refl
bump_all-epoch (k ∷ keys) key epochs = ground (
  arith,
  bump-epoch k key (bump_all keys epochs),
  bump_all-epoch keys key epochs,
  bump_all-epoch keys k epochs,
  same_cache_key_iff k key,
)
