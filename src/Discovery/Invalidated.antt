-- ===== src/Discovery/Invalidated.antt =====
-- How invalidations of internal/discovery/resolver.go and what follows them count the epochs of a key.
use kubeseer.Prelude.{
  ℕ, ◌+◌, ◌%◌, ◌≤◌, ◌<◌, ◌≡◌, ◌⊎◌, refl, ◌∙◌, some, Bool, true, ◌||◌, List, [], ◌∷◌, ◌++◌, length,
  arith, eq_iff, inl, inr, if◌then◌else◌,
}
use kubeseer.Prelude.Int.{two64}
use kubeseer.Prelude.Assoc.{lookup}
use kubeseer.Discovery.Key.{
  CacheKey, CacheVersion, cache_key_instance, same_cache_key, same_cache_key_iff,
}
use kubeseer.Discovery.Cache.{
  CacheEntry, RefreshState, Resolver, fresh_cache_entry, begin_refresh, invalidate_group_version,
  invalidate_resource, invalidate_every, version_of, has_cache_key, keys_under,
}
use kubeseer.Discovery.Events.{
  Event, look_up, begin, finish, group_version_changed, resource_changed, everything_changed,
  after_event, after_history,
}
use kubeseer.Discovery.Epochs.{
  SameEpochs, lookups-SameEpochs, begins-SameEpochs, finishes-SameEpochs, key_epoch_of, bump-epoch,
  bump_all-epoch,
}

-- A key that is cached or being refreshed.
pub data IsKnown (key : CacheKey) (r : Resolver) : Type 0 where
  cached : (e : CacheEntry) → lookup key r.cache ≡ some e → IsKnown key r
  refreshed : (state : RefreshState) → lookup key r.refreshing ≡ some state → IsKnown key r

-- An invalidation that reaches the key.
pub data Invalidates (key : CacheKey) (r : Resolver) : Event → Type 0 where
  by_group_version : IsKnown key r → Invalidates key r (group_version_changed key.group_version)
  by_resource : Invalidates key r (resource_changed key)
  by_all : Invalidates key r everything_changed

has-append :
    (xs ys : List CacheKey) (key : CacheKey)
    → has_cache_key (xs ++ ys) key ≡ (has_cache_key xs key || has_cache_key ys key)
unfolding has_cache_key
has-append [] ys key = refl
has-append (x ∷ xs) ys key = ground (arith, has-append xs ys key)

keys_under-has :
    {V : Type 0}
    → (key : CacheKey) (v : V) (m : List (CacheKey × V)) → lookup key m ≡ some v
    → has_cache_key (keys_under key.group_version m) key ≡ true
unfolding lookup keys_under has_cache_key
keys_under-has key v [] h = ground (arith, h)
keys_under-has key v ((k, w) ∷ m) h = ground (
  arith,
  h,
  keys_under-has key v m,
  same_cache_key_iff k key,
  eq_iff k.group_version key.group_version,
)

known-has :
    (key : CacheKey) (r : Resolver)
    → IsKnown key r
    → has_cache_key
        (keys_under key.group_version r.cache ++ keys_under key.group_version r.refreshing)
        key
      ≡ true
known-has key r (cached e h) =
    let x = keys_under-has key e r.cache h in
    rw
      (
        has-append (keys_under key.group_version r.cache)
            (keys_under key.group_version r.refreshing) key,
        x,
      )
      refl
known-has key r (refreshed state h) =
    let x = keys_under-has key state r.refreshing h in
    ground (
      arith,
      x,
      has-append (keys_under key.group_version r.cache) (keys_under key.group_version r.refreshing)
          key,
    )

-- The epochs of a key after at most `n` more counts of each.
pub record Advanced (key : CacheKey) (n : ℕ) (r s : Resolver) : Type 0 where
  pub all_low : r.invalidation_epoch ≤ s.invalidation_epoch
  pub all_high : s.invalidation_epoch ≤ r.invalidation_epoch + n
  pub key_low : key_epoch_of key r.key_epoch ≤ key_epoch_of key s.key_epoch
  pub key_high : key_epoch_of key s.key_epoch ≤ key_epoch_of key r.key_epoch + n

-- So many counts of each epoch fit an uint64.
pub record HasRoom (key : CacheKey) (n : ℕ) (r : Resolver) : Type 0 where
  pub all_fits : r.invalidation_epoch + n < two64
  pub key_fits : key_epoch_of key r.key_epoch + n < two64

same-Advanced : (key : CacheKey) (r s : Resolver) → SameEpochs r s → Advanced key 1 r s
same-Advanced key r s e = record {
  all_low = omega (arith, e.all);
  all_high = omega (arith, e.all);
  key_low = rw e.keys (omega arith);
  key_high = rw e.keys (omega arith);
}

bumped-Advanced :
    (key : CacheKey) (b : Bool) (r s : Resolver)
    → HasRoom key 1 r
    → s.invalidation_epoch ≡ r.invalidation_epoch
    → key_epoch_of key s.key_epoch
      ≡ (if b then (key_epoch_of key r.key_epoch + 1) % two64 else key_epoch_of key r.key_epoch)
    → Advanced key 1 r s
bumped-Advanced key b r s room a k = record {
  all_low = omega (arith, a);
  all_high = omega (arith, a);
  key_low = ground (arith, k, room.key_fits);
  key_high = ground (arith, k, room.key_fits);
}

pub after_event-Advanced :
    (key : CacheKey) (e : Event) (r : Resolver)
    → HasRoom key 1 r
    → Advanced key 1 r (after_event e r)
unfolding after_event invalidate_group_version invalidate_resource invalidate_every
after_event-Advanced key (look_up k now) r room =
    same-Advanced key r (fresh_cache_entry k now r).1 (lookups-SameEpochs k now r)
after_event-Advanced key (begin k now) r room =
    same-Advanced key r (begin_refresh k now r).1 (begins-SameEpochs k now r)
after_event-Advanced key (finish k state result) r room =
    same-Advanced key r _ (finishes-SameEpochs k state result r)
after_event-Advanced key (group_version_changed g) r room =
    let keys = keys_under g r.cache ++ keys_under g r.refreshing in
    bumped-Advanced key (has_cache_key keys key) r _ room refl (bump_all-epoch keys key r.key_epoch)
after_event-Advanced key (resource_changed k) r room =
    bumped-Advanced key (same_cache_key k key) r _ room refl
      (bump-epoch k key r.key_epoch ∙ ground (arith, same_cache_key_iff k key))
after_event-Advanced key everything_changed r room = record {
  all_low = omega (arith, room.all_fits);
  all_high = omega (arith, room.all_fits);
  key_low = omega arith;
  key_high = omega arith;
}

pub after_history-Advanced :
    (key : CacheKey) (es : List Event) (r : Resolver)
    → HasRoom key (length es) r
    → Advanced key (length es) r (after_history es r)
unfolding after_history
after_history-Advanced key [] r room = record {
  all_low = omega arith;
  all_high = omega arith;
  key_low = omega arith;
  key_high = omega arith;
}
after_history-Advanced key (e ∷ es) r room =
    let before = after_history-Advanced key es r (record {
      all_fits = omega (arith, room.all_fits);
      key_fits = omega (arith, room.key_fits);
    }) in
    let one = after_event-Advanced key e (after_history es r) (record {
      all_fits = omega (arith, room.all_fits, before.all_high);
      key_fits = omega (arith, room.key_fits, before.key_high);
    }) in
    record {
      all_low = omega (arith, one.all_low, before.all_low);
      all_high = omega (arith, one.all_high, before.all_high);
      key_low = omega (arith, one.key_low, before.key_low);
      key_high = omega (arith, one.key_high, before.key_high);
    }

-- Counted up, in one of its parts, since `old`.
abbrev pub IsLater : CacheVersion → CacheVersion → Type 0
IsLater new old = (old.all < new.all) ⊎ (old.key < new.key)

pub Invalidates-IsLater :
    (key : CacheKey) (r : Resolver) (e : Event)
    → HasRoom key 1 r
    → Invalidates key r e
    → IsLater (version_of key (after_event e r)) (version_of key r)
unfolding after_event invalidate_group_version invalidate_resource invalidate_every
Invalidates-IsLater key r (look_up _ _) room x = elim x [ ]
Invalidates-IsLater key r (begin _ _) room x = elim x [ ]
Invalidates-IsLater key r (finish _ _ _) room x = elim x [ ]
Invalidates-IsLater key r (group_version_changed _) room (by_group_version known) =
    let keys = keys_under key.group_version r.cache ++ keys_under key.group_version r.refreshing in
    let has = known-has key r known in
    let count = bump_all-epoch keys key r.key_epoch in
    inr (ground (arith, room.key_fits, has, count))
Invalidates-IsLater key r (resource_changed _) room by_resource =
    inr (ground (arith, room.key_fits, bump-epoch key key r.key_epoch, same_cache_key_iff key key))
Invalidates-IsLater key r everything_changed room by_all = inl (omega (arith, room.all_fits))
