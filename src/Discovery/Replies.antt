-- ===== src/Discovery/Replies.antt =====
-- What the uses of the cache of internal/discovery/resolver.go answer.
use kubeseer.Prelude.{
  ℕ, ◌≡◌, refl, sym, ap, ◌∙◌, Option, none, some, ltb, arith, Bool-cases, inl, inr,
}
use kubeseer.Prelude.Assoc.{lookup}
use kubeseer.Discovery.Key.{CacheKey, cache_key_instance, same_version}
use kubeseer.Discovery.Cache.{
  CacheEntry, RefreshState, Resolver, store, serve, own_refresh, join_refresh, served, joined,
  owned, begin_refresh_with, version_of,
}
use kubeseer.Discovery.Victims.{none≢some, some_injective}
use kubeseer.Discovery.Contents.{SameFind}
use kubeseer.Discovery.Stored.{same_version-eq}

-- An entry that is served is the one that was found.
pub serve-found :
    (key : CacheKey) (now : ℕ) (found : Option CacheEntry) (r : Resolver) (e : CacheEntry)
    → (serve key now found r).0 ≡ some e
    → (u : CacheEntry) × (found ≡ some u) × SameFind u e
unfolding serve store
serve-found key now none r e h = absurd (none≢some h)
serve-found key now (some f) r e h = elim (Bool-cases (same_version f.version (version_of key r))) [
  | inr a ↦ absurd (none≢some (rw a at h))
  | inl a ↦ elim (Bool-cases (ltb now f.expires_at)) [
    | inr b ↦ absurd (none≢some (rw (a, b) at h))
    | inl b ↦
        let same = some_injective (rw (a, b) at h) in
        (
          f,
          refl,
          record {
            gvr = ap (λ (c : CacheEntry). c.gvr) same;
            scope = ap (λ (c : CacheEntry). c.scope) same;
          },
        )
  ]
]

served_injective : {e f : CacheEntry} → served e ≡ served f → e ≡ f
served_injective h = cc

joined_injective : {e f : RefreshState} → joined e ≡ joined f → e ≡ f
joined_injective h = cc

joined≢owned : {e f : RefreshState} → owned e ≡ joined f → ⊥
joined≢owned h = cc

served≢joined : {e : CacheEntry} {f : RefreshState} → served e ≡ joined f → ⊥
served≢joined h = cc

join_refresh-served :
    (key : CacheKey) (found : Option RefreshState) (r : Resolver) (e : CacheEntry)
    → (join_refresh key found r).0 ≡ served e
    → ⊥
unfolding join_refresh own_refresh
join_refresh-served key none r e h = cc
join_refresh-served key (some state) r e h = ground (arith, h)

join_refresh-version :
    (key : CacheKey) (found : Option RefreshState) (r : Resolver) (state : RefreshState)
    → (join_refresh key found r).0 ≡ joined state
    → state.version ≡ version_of key r
unfolding join_refresh own_refresh
join_refresh-version key none r state h = absurd (joined≢owned h)
join_refresh-version key (some other) r state h =
    elim (Bool-cases (same_version other.version (version_of key r))) [
      | inl a ↦
          ap (λ t. t.version) (sym (joined_injective (rw a at h)))
          ∙ same_version-eq other.version (version_of key r) a
      | inr a ↦ absurd (joined≢owned (rw a at h))
    ]

pub begin-served :
    (key : CacheKey) (found : Option CacheEntry × Resolver) (e : CacheEntry)
    → (begin_refresh_with key found).0 ≡ served e
    → found.0 ≡ some e
unfolding begin_refresh_with
begin-served key (some f, r) e h = ap some (served_injective h)
begin-served key (none, r) e h = absurd (join_refresh-served key (lookup key r.refreshing) r e h)

pub begin-joined :
    (key : CacheKey) (found : Option CacheEntry × Resolver) (state : RefreshState)
    → (begin_refresh_with key found).0 ≡ joined state
    → state.version ≡ version_of key found.1
unfolding begin_refresh_with
begin-joined key (some f, r) state h = absurd (served≢joined h)
begin-joined key (none, r) state h = join_refresh-version key (lookup key r.refreshing) r state h

joins_running :
    (key : CacheKey) (found : Option RefreshState) (r : Resolver) (state : RefreshState)
    → (join_refresh key found r).0 ≡ joined state
    → found ≡ some state
unfolding join_refresh own_refresh
joins_running key none r state h = absurd (joined≢owned h)
joins_running key (some other) r state h =
    elim (Bool-cases (same_version other.version (version_of key r))) [
      | inl a ↦ ap some (joined_injective (rw a at h))
      | inr a ↦ absurd (joined≢owned (rw a at h))
    ]

pub begin_joins :
    (key : CacheKey) (found : Option CacheEntry × Resolver) (state : RefreshState)
    → (begin_refresh_with key found).0 ≡ joined state
    → lookup key found.1.refreshing ≡ some state
unfolding begin_refresh_with
begin_joins key (some f, r) state h = absurd (served≢joined h)
begin_joins key (none, r) state h = joins_running key (lookup key r.refreshing) r state h

owned_injective : {e f : RefreshState} → owned e ≡ owned f → e ≡ f
owned_injective h = cc

served≢owned : {e : CacheEntry} {f : RefreshState} → served e ≡ owned f → ⊥
served≢owned h = cc

join_owns :
    (key : CacheKey) (found : Option RefreshState) (r : Resolver) (state : RefreshState)
    → (join_refresh key found r).0 ≡ owned state
    → state.version ≡ version_of key r
unfolding join_refresh own_refresh
join_owns key none r state h = ap (λ (t : RefreshState). t.version) (sym (owned_injective h))
join_owns key (some other) r state h =
    elim (Bool-cases (same_version other.version (version_of key r))) [
      | inl a ↦ absurd (joined≢owned (sym (rw a at h)))
      | inr a ↦ ap (λ (t : RefreshState). t.version) (sym (owned_injective (rw a at h)))
    ]

pub begin_owns :
    (key : CacheKey) (found : Option CacheEntry × Resolver) (state : RefreshState)
    → (begin_refresh_with key found).0 ≡ owned state
    → state.version ≡ version_of key found.1
unfolding begin_refresh_with
begin_owns key (some f, r) state h = absurd (served≢owned h)
begin_owns key (none, r) state h = join_owns key (lookup key r.refreshing) r state h
