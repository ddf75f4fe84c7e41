-- ===== src/Discovery/Stored.antt =====
-- Where the entries come from that one use of internal/discovery/resolver.go leaves in the cache.
use mathlib.Core.Path.{subst}
use kubeseer.Prelude.{
  ℕ, ◌≡◌, ◌⊎◌, refl, Option, none, some, Bool, true, false, not, ◌||◌, length, ltb, ◌==◌, arith,
  Bool-cases, inl, inr, if◌then◌else◌,
}
use kubeseer.Prelude.Int.{pos, leb_ℤ}
use kubeseer.Prelude.Assoc.{lookup}
use kubeseer.Prelude.Result.{Result, ok, err}
use kubeseer.Selection.Contracts.{ResolutionError}
use kubeseer.Discovery.Key.{CacheKey, CacheVersion, cache_key_instance, same_version}
use kubeseer.Discovery.Cache.{
  CacheEntry, RefreshState, Resolver, remove, store, serve, own_refresh, join_refresh,
  begin_refresh_with, lru_victim_from, retain_in, retain_entry, retain_result, finish_current,
  version_of,
}
use kubeseer.Discovery.Victims.{Cached}
use kubeseer.Discovery.Contents.{SameFind, Comes, from_entry, lookup-remove, same_find, store-Comes}

-- An entry that a map had before stays what it was.
again-Comes :
    {j : CacheKey} {m n : Cached} (v : CacheEntry)
    → ((u : CacheEntry) → lookup j n ≡ some u → lookup j m ≡ some u)
    → Comes j n v
    → Comes j m v
again-Comes v f (from_entry u q s) = from_entry u (f u q) s

pub serve-Comes :
    (j k : CacheKey) (now : ℕ) (found : Option CacheEntry) (r : Resolver) (v : CacheEntry)
    → lookup k r.cache ≡ found
    → lookup j (serve k now found r).1.cache ≡ some v
    → Comes j r.cache v
unfolding serve
serve-Comes j k now none r v l h = from_entry v h (same_find v)
serve-Comes j k now (some e) r v l h = elim (Bool-cases (same_version e.version (version_of k r))) [
  | inr a ↦ from_entry v (lookup-remove j k v r.cache (rw a at h)) (same_find v)
  | inl a ↦ elim (Bool-cases (ltb now e.expires_at)) [
    | inr b ↦ from_entry v (rw (a, b) at h) (same_find v)
    | inl b ↦ elim (store-Comes j k e v r (rw (a, b) at h)) [
      | inl (same, s) ↦ from_entry e (subst (λ i. lookup i r.cache ≡ some e) same l) s
      | inr c ↦ c
    ]
  ]
]

join_refresh-cache :
    (k : CacheKey) (found : Option RefreshState) (r : Resolver)
    → (join_refresh k found r).1.cache ≡ r.cache
unfolding join_refresh own_refresh
join_refresh-cache k none r = refl
join_refresh-cache k (some state) r = ground arith

pub begin-cache :
    (k : CacheKey) (found : Option CacheEntry × Resolver)
    → (begin_refresh_with k found).1.cache ≡ found.1.cache
unfolding begin_refresh_with
begin-cache k (some e, r) = refl
begin-cache k (none, r) = join_refresh-cache k (lookup k r.refreshing) r

-- A retained entry, or one from before.
abbrev Retained : CacheKey → CacheKey → CacheEntry → Cached → CacheEntry → Type 0
Retained j k e m v = ((k ≡ j) × SameFind e v) ⊎ Comes j m v

if-Retained :
    (b : Bool) (r s : Resolver) (j k : CacheKey) (e v : CacheEntry) (m : Cached)
    → (lookup j r.cache ≡ some v → Retained j k e m v)
    → (lookup j s.cache ≡ some v → Retained j k e m v)
    → lookup j (if b then r else s).cache ≡ some v
    → Retained j k e m v
if-Retained true r s j k e v m f g h = f h
if-Retained false r s j k e v m f g h = g h

retain_in-Retained :
    (j k : CacheKey) (e v : CacheEntry) (victim : Option (CacheKey × CacheEntry)) (r : Resolver)
    → lookup j (retain_in k e victim r).cache ≡ some v
    → Retained j k e r.cache v
unfolding retain_in
retain_in-Retained j k e v none r h = inr (from_entry v h (same_find v))
retain_in-Retained j k e v (some victim) r h =
    elim (store-Comes j k e v (record r { cache = remove victim.0 r.cache }) h) [
      | inl s ↦ inl s
      | inr c ↦ inr (again-Comes v (λ u. lookup-remove j victim.0 u r.cache) c)
    ]

cleared-Retained :
    (j k : CacheKey) (e v : CacheEntry) (m : Cached)
    → Retained j k e (remove k m) v
    → Retained j k e m v
cleared-Retained j k e v m (inl s) = inl s
cleared-Retained j k e v m (inr c) = inr (again-Comes v (λ u. lookup-remove j k u m) c)

store-Retained :
    (j k : CacheKey) (e v : CacheEntry) (r : Resolver)
    → lookup j (store k e r).1.cache ≡ some v
    → Retained j k e r.cache v
store-Retained j k e v r h = store-Comes j k e v r h

kept-Retained :
    (j k : CacheKey) (e v : CacheEntry) (m : Cached) → lookup j m ≡ some v → Retained j k e m v
kept-Retained j k e v m h = inr (from_entry v h (same_find v))

retain_entry-Retained :
    (j k : CacheKey) (e v : CacheEntry) (state : RefreshState) (r : Resolver)
    → lookup j (retain_entry k e state r).cache ≡ some v
    → Retained j k e r.cache v
unfolding retain_entry
retain_entry-Retained j k e v state r h =
    let cleared : Resolver = record r { cache = remove k r.cache } in
    let victim = lru_victim_from cleared.refreshing none cleared.cache in
    if-Retained
      (leb_ℤ r.cache_capacity (pos 0) || not (same_version state.version (version_of k r))) r
      (if leb_ℤ r.cache_capacity (pos (length cleared.cache))
        then retain_in k e victim cleared
        else (store k e cleared).1)
      j k e v r.cache (kept-Retained j k e v r.cache)
      (if-Retained (leb_ℤ r.cache_capacity (pos (length cleared.cache)))
        (retain_in k e victim cleared) (store k e cleared).1 j k e v r.cache
        (λ x. cleared-Retained j k e v r.cache (retain_in-Retained j k e v victim cleared x))
        (λ x. cleared-Retained j k e v r.cache (store-Retained j k e v cleared x)))
      h

-- An entry that `finishRefresh` of this state, found as the key's refresh and current, has delivered, or
-- one from before.
pub data Delivered (j k : CacheKey) (state : RefreshState)
    (result : Result ResolutionError CacheEntry) (found : Option RefreshState) (r : Resolver)
    (v : CacheEntry) : Type 0 where
  kept : Comes j r.cache v → Delivered j k state result found r v
  delivered :
      (f : CacheEntry) (current : RefreshState)
      → k ≡ j
      → result ≡ ok f
      → SameFind f v
      → found ≡ some current
      → current.pointer ≡ state.pointer
      → state.version ≡ version_of k r
      → Delivered j k state result found r v

pub same_version-eq : (v w : CacheVersion) → same_version v w ≡ true → v ≡ w
same_version-eq v w h = ground (arith, h)

retain_result-Delivered :
    (j k : CacheKey) (state current : RefreshState) (result : Result ResolutionError CacheEntry)
    (r : Resolver) (v : CacheEntry)
    → current.pointer ≡ state.pointer
    → lookup j (retain_result k state result r).cache ≡ some v
    → Delivered j k state result (some current) r v
unfolding retain_result
retain_result-Delivered j k state current (err x) r v p h = kept (from_entry v h (same_find v))
retain_result-Delivered j k state current (ok e) r v p h =
    go (same_version state.version (version_of k r)) refl h
  where
    go :
        (b : Bool)
        → same_version state.version (version_of k r) ≡ b
        → lookup j
            (if b then retain_entry k (record e { version = state.version }) state r else r).cache
          ≡ some v
        → Delivered j k state (ok e) (some current) r v
    go false q h = kept (from_entry v h (same_find v))
    go true q h =
        elim (retain_entry-Retained j k (record e { version = state.version }) v state r h) [
          | inl (same, s) ↦
              delivered e current same refl (record { gvr = s.gvr; scope = s.scope }) refl p
                (same_version-eq state.version (version_of k r) q)
          | inr c ↦ kept c
        ]

pub finish_current-Delivered :
    (j k : CacheKey) (state : RefreshState) (result : Result ResolutionError CacheEntry)
    (found : Option RefreshState) (r : Resolver) (v : CacheEntry)
    → lookup j (finish_current k state result found r).cache ≡ some v
    → Delivered j k state result found r v
unfolding finish_current
finish_current-Delivered j k state result none r v h = kept (from_entry v h (same_find v))
finish_current-Delivered j k state result (some current) r v h =
    elim (Bool-cases (current.pointer == state.pointer)) [
      | inl a ↦ retain_result-Delivered j k state current result r v (ground (arith, a)) (rw a at h)
      | inr a ↦ kept (from_entry v (rw a at h) (same_find v))
    ]
