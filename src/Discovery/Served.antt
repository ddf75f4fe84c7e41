-- ===== src/Discovery/Served.antt =====
-- What the cache of internal/discovery/resolver.go hands out after an invalidation.
use mathlib.Core.Path.{subst}
use kubeseer.Prelude.{
  ℕ, suc, ◌+◌, ◌<◌, ◌≡◌, refl, sym, ◌∙◌, some, true, List, [], ◌∷◌, length, arith, inl, inr,
}
use kubeseer.Prelude.Int.{ℤ, two64}
use kubeseer.Prelude.Assoc.{lookup}
use kubeseer.Discovery.Key.{CacheKey, CacheVersion, cache_key_instance}
use kubeseer.Discovery.Cache.{
  CacheEntry, RefreshState, Resolver, new_resolver, fresh_cache_entry, served, joined,
  begin_refresh, version_of, refresh_version_current,
}
use kubeseer.Discovery.Events.{Event, after_event, after_history}
use kubeseer.Discovery.Epochs.{lookups-SameEpochs}
use kubeseer.Discovery.Stored.{same_version-eq}
use kubeseer.Discovery.Refreshes.{looks-refreshing}
use kubeseer.Discovery.Replies.{serve-found, begin-served, begin-joined, begin_joins}
use kubeseer.Discovery.Invalidated.{
  Invalidates, HasRoom, IsLater, after_history-Advanced, after_event-Advanced, Invalidates-IsLater,
}
use kubeseer.Discovery.History.{HasBegun, IsFound, AreOneState, later_earlier, history-AreEarlier}
use kubeseer.Discovery.Clean.{IsClean, same-IsFound, step-IsClean, start-IsClean}

-- What a caller gets of the cache: an entry, another caller's refresh to wait for, or the word that a
-- version is current.
pub data Handed : Type 0 where
  an_entry : CacheEntry → Handed
  a_refresh : RefreshState → Handed
  a_version : CacheVersion → Handed

pub data Hands (key : CacheKey) (now : ℕ) (r : Resolver) : Handed → Type 0 where
  looked_up :
      (e : CacheEntry) → (fresh_cache_entry key now r).0 ≡ some e → Hands key now r (an_entry e)
  served_instead :
      (e : CacheEntry) → (begin_refresh key now r).0 ≡ served e → Hands key now r (an_entry e)
  joined_instead :
      (state : RefreshState)
      → (begin_refresh key now r).0 ≡ joined state
      → Hands key now r (a_refresh state)
  confirmed :
      (v : CacheVersion) → refresh_version_current key v r ≡ true → Hands key now r (a_version v)

-- It stems from this history from `r`, or is a version later than the one before it.
abbrev pub IsRecent : CacheKey → Resolver → CacheVersion → List Event → Handed → Type 0
IsRecent key r old es (an_entry e) = IsFound key r e es
IsRecent key r old es (a_refresh state) = HasBegun key r state es
IsRecent key r old es (a_version v) = IsLater v old

module _ (key : CacheKey) (q r : Resolver) where
  IsLater-still :
      (es : List Event)
      → HasRoom key (length es) r
      → IsLater (version_of key r) (version_of key q)
      → IsLater (version_of key (after_history es r)) (version_of key q)
  IsLater-still es room (inl l) =
      inl (omega (arith, l, (after_history-Advanced key es r room).all_low))
  IsLater-still es room (inr l) =
      inr (omega (arith, l, (after_history-Advanced key es r room).key_low))

  history-IsClean :
      (es : List Event)
      → IsClean key q r []
      → HasRoom key (length es) r
      → IsLater (version_of key r) (version_of key q)
      → AreOneState es r
      → IsClean key q r es
  history-IsClean [] start room later one = start
  history-IsClean (e ∷ es) start room later one =
      let fewer : HasRoom key (length es) r = record {
        all_fits = omega (arith, room.all_fits);
        key_fits = omega (arith, room.key_fits);
      } in
      step-IsClean key q r es (history-IsClean es start fewer later one.1) e
        (IsLater-still es fewer later) one.0

  clean-IsRecent :
      (es : List Event) (now : ℕ) (h : Handed)
      → IsClean key q r es
      → IsLater (version_of key (after_history es r)) (version_of key q)
      → Hands key now (after_history es r) h
      → IsRecent key r (version_of key q) es h
  unfolding fresh_cache_entry begin_refresh refresh_version_current
  clean-IsRecent es now _ clean later (looked_up e h) =
      let s = after_history es r in
      let (u, found, same) = serve-found key now (lookup key s.cache) s e h in
      same-IsFound same (clean.cached u found)
  clean-IsRecent es now _ clean later (served_instead e h) =
      let s = after_history es r in
      let (u, found, same) =
        serve-found key now (lookup key s.cache) s e
          (begin-served key (fresh_cache_entry key now s) e h) in
      same-IsFound same (clean.cached u found)
  clean-IsRecent es now _ clean later (joined_instead state h) =
      let s = after_history es r in
      let looked = fresh_cache_entry key now s in
      let running =
        subst (λ m. lookup key m ≡ some state) (looks-refreshing key now s)
          (begin_joins key looked state h) in
      let kept = lookups-SameEpochs key now s in
      let current : state.version ≡ version_of key s =
        begin-joined key looked state h ∙ rw (kept.all, kept.keys) refl in
      elim (clean.refreshing state running) [
        | inl b ↦ b
        | inr w ↦ absurd (
            later_earlier state.version (version_of key q)
              (subst (λ v. IsLater v (version_of key q)) (sym current) later) w)
      ]
  clean-IsRecent es now _ clean later (confirmed v h) =
      subst (λ w. IsLater w (version_of key q))
        (same_version-eq (version_of key (after_history es r)) v h) later

-- After an invalidation that reaches a key (of everything, of the key itself, or of its group version
-- while the key is cached or being refreshed), in any history of a new resolver, the cache never again
-- hands out for it what was discovered before. Whatever happens later, each entry it serves was
-- delivered by a refresh of the key that began after the invalidation, each refresh it lets a caller wait
-- for began after it, and no version from before it is confirmed as current; for histories of fewer than
-- 2 ^ 64 events, so that no epoch wraps around, in which a pointer stands for one state.
pub invalidated_not_served :
    (key : CacheKey) (capacity : ℤ) (earlier : List Event) (e : Event) (later : List Event)
    (now : ℕ) (h : Handed)
    → Invalidates key (after_history earlier (new_resolver capacity)) e
    → suc (length later + length earlier) < two64
    → AreOneState later (after_event e (after_history earlier (new_resolver capacity)))
    → Hands key now
        (after_history later (after_event e (after_history earlier (new_resolver capacity))))
        h
    → IsRecent key
        (after_event e (after_history earlier (new_resolver capacity)))
        (version_of key (after_history earlier (new_resolver capacity)))
        later
        h
unfolding lookup
invalidated_not_served key capacity earlier e later now h x short one given =
    let q = after_history earlier (new_resolver capacity) in
    let r = after_event e q in
    let room : HasRoom key (length earlier) (new_resolver capacity) = record {
      all_fits = omega (arith, short);
      key_fits = omega (arith, short);
    } in
    let before = after_history-Advanced key earlier (new_resolver capacity) room in
    let first : HasRoom key 1 q = record {
      all_fits = omega (arith, short, before.all_high);
      key_fits = omega (arith, short, before.key_high);
    } in
    let step = after_event-Advanced key e q first in
    let rest : HasRoom key (length later) r = record {
      all_fits = omega (arith, short, before.all_high, step.all_high);
      key_fits = omega (arith, short, before.key_high, step.key_high);
    } in
    let newer = Invalidates-IsLater key q e first x in
    let clean =
      history-IsClean key q r later
        (start-IsClean key q e x (history-AreEarlier key capacity earlier room)) rest newer one in
    clean-IsRecent key q r later now h clean (IsLater-still key q r later rest newer) given
