-- ===== src/Discovery/History.antt =====
-- A history of the cache of internal/discovery/resolver.go after an invalidation: which refreshes it has begun
-- and what they have delivered.
use kubeseer.Prelude.{ℕ, ◌≤◌, ◌≡◌, refl, ◌∙◌, some, List, [], ◌∷◌, length, arith, inl, inr}
use kubeseer.Prelude.Int.{ℤ}
use kubeseer.Prelude.Assoc.{lookup}
use kubeseer.Prelude.Result.{ok}
use kubeseer.Discovery.Key.{CacheKey, CacheVersion, cache_key_instance}
use kubeseer.Discovery.Cache.{
  CacheEntry, RefreshState, Resolver, new_resolver, owned, fresh_cache_entry, begin_refresh,
  version_of,
}
use kubeseer.Discovery.Events.{Event, begin, finish, after_history}
use kubeseer.Discovery.Victims.{none≢some}
use kubeseer.Discovery.Contents.{SameFind}
use kubeseer.Discovery.Refreshes.{ran, began, after_event-Runs}
use kubeseer.Discovery.Epochs.{lookups-SameEpochs}
use kubeseer.Discovery.Replies.{begin_owns}
use kubeseer.Discovery.Invalidated.{HasRoom, IsLater, after_history-Advanced, after_event-Advanced}

-- In this history from `r`, a caller of `beginRefresh` was given this state of the key as its own.
pub data HasBegun (key : CacheKey) (r : Resolver) (state : RefreshState) : List Event → Type 0 where
  begins_last :
      (now : ℕ) (es : List Event)
      → (begin_refresh key now (after_history es r)).0 ≡ owned state
      → HasBegun key r state (begin key now ∷ es)
  begun_before :
      (e : Event) (es : List Event) → HasBegun key r state es → HasBegun key r state (e ∷ es)

-- In this history from `r`, a refresh of the key was begun and delivered what the entry says.
pub data IsFound (key : CacheKey) (r : Resolver) (v : CacheEntry) : List Event → Type 0 where
  found_last :
      (state : RefreshState) (f : CacheEntry) (es : List Event)
      → HasBegun key r state es
      → SameFind f v
      → IsFound key r v (finish key state (ok f) ∷ es)
  found_before : (e : Event) (es : List Event) → IsFound key r v es → IsFound key r v (e ∷ es)

-- A pointer stands for one state: the refresh of the key that has the pointer is the one that finishes.
abbrev pub IsOneState : Event → Resolver → Type 0
IsOneState (finish key state result) s =
    (current : RefreshState)
    → lookup key s.refreshing ≡ some current
    → current.pointer ≡ state.pointer
    → current ≡ state
IsOneState _ s = Unit

abbrev pub AreOneState : List Event → Resolver → Type 0
AreOneState [] r = Unit
AreOneState (e ∷ es) r = IsOneState e (after_history es r) × AreOneState es r

abbrev pub IsEarlier : CacheVersion → CacheVersion → Type 0
IsEarlier v w = (v.all ≤ w.all) × (v.key ≤ w.key)

pub later_earlier : (v w : CacheVersion) → IsLater v w → IsEarlier v w → ⊥
later_earlier v w (inl a) b = omega (arith, a, b.0)
later_earlier v w (inr a) b = omega (arith, a, b.1)

began-version :
    (key : CacheKey) (now : ℕ) (r : Resolver) (state : RefreshState)
    → (begin_refresh key now r).0 ≡ owned state
    → state.version ≡ version_of key r
unfolding begin_refresh
began-version key now r state h =
    let s = lookups-SameEpochs key now r in
    begin_owns key (fresh_cache_entry key now r) state h ∙ rw (s.all, s.keys) refl

-- The refreshes of a key are of no later version than the key's.
abbrev pub AreEarlier : CacheKey → Resolver → Type 0
AreEarlier key r =
    (state : RefreshState)
    → lookup key r.refreshing ≡ some state
    → IsEarlier state.version (version_of key r)

pub history-AreEarlier :
    (key : CacheKey) (capacity : ℤ) (es : List Event)
    → HasRoom key (length es) (new_resolver capacity)
    → AreEarlier key (after_history es (new_resolver capacity))
unfolding after_history lookup
history-AreEarlier key capacity [] room state h = absurd (none≢some h)
history-AreEarlier key capacity (e ∷ es) room state h =
    let r = after_history es (new_resolver capacity) in
    let fewer : HasRoom key (length es) (new_resolver capacity) = record {
      all_fits = omega (arith, room.all_fits);
      key_fits = omega (arith, room.key_fits);
    } in
    let before = after_history-Advanced key es (new_resolver capacity) fewer in
    let one = after_event-Advanced key e r (record {
      all_fits = omega (arith, room.all_fits, before.all_high);
      key_fits = omega (arith, room.key_fits, before.key_high);
    }) in
    elim (after_event-Runs key e r state h) [
      | ran x ↦
          let y = history-AreEarlier key capacity es fewer state x in
          (omega (arith, y.0, one.all_low), omega (arith, y.1, one.key_low))
      | began now _ x ↦ rw (began-version key now r state x) (one.all_low, one.key_low)
    ]
