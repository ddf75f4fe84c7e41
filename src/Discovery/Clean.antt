-- ===== src/Discovery/Clean.antt =====
-- What the cache of internal/discovery/resolver.go holds after an invalidation.
use mathlib.Core.Path.{subst}
use kubeseer.Prelude.{◌≡◌, ◌⊎◌, refl, sym, ap, ◌∙◌, some, List, [], ◌∷◌, inl, inr}
use kubeseer.Prelude.Assoc.{lookup}
use kubeseer.Prelude.Result.{Result, ok}
use kubeseer.Selection.Contracts.{ResolutionError}
use kubeseer.Discovery.Key.{CacheKey, cache_key_instance}
use kubeseer.Discovery.Cache.{
  CacheEntry, RefreshState, Resolver, fresh_cache_entry, begin_refresh, finish_refresh,
  invalidate_group_version, invalidate_resource, invalidate_every, version_of,
}
use kubeseer.Discovery.Events.{
  Event, look_up, begin, finish, group_version_changed, resource_changed, everything_changed,
  after_event, after_history,
}
use kubeseer.Discovery.Victims.{none≢some}
use kubeseer.Discovery.Contents.{
  SameFind, Comes, from_entry, lookup-remove, lookup-remove_self, lookup-drop_under,
  lookup-drop_self, same_find, find_trans,
}
use kubeseer.Discovery.Stored.{
  Delivered, kept, delivered, serve-Comes, begin-cache, finish_current-Delivered,
}
use kubeseer.Discovery.Refreshes.{ran, began, after_event-Runs}
use kubeseer.Discovery.Invalidated.{Invalidates, by_group_version, by_resource, by_all, IsLater}
use kubeseer.Discovery.History.{
  HasBegun, begins_last, begun_before, IsFound, found_last, found_before, IsOneState, IsEarlier,
  later_earlier, AreEarlier,
}

-- After an invalidation at `q`, in the state `r`: what the cache has of the key was found since, and what
-- refreshes it and was not begun since has a version from before.
pub record IsClean (key : CacheKey) (q r : Resolver) (es : List Event) : Type 0 where
  pub cached :
      (v : CacheEntry) → lookup key (after_history es r).cache ≡ some v → IsFound key r v es
  pub refreshing :
      (state : RefreshState)
      → lookup key (after_history es r).refreshing ≡ some state
      → HasBegun key r state es ⊎ IsEarlier state.version (version_of key q)

pub same-IsFound :
    {key : CacheKey} {r : Resolver} {u v : CacheEntry} {es : List Event}
    → SameFind u v
    → IsFound key r u es
    → IsFound key r v es
same-IsFound s (found_last state f es b t) = found_last state f es b (find_trans t s)
same-IsFound s (found_before e es h) = found_before e es (same-IsFound s h)

module _ (key : CacheKey) (q r : Resolver) (es : List Event) (clean : IsClean key q r es) where
  abbrev s : Resolver
  s = after_history es r

  Comes-IsFound : (e : Event) (v : CacheEntry) → Comes key s.cache v → IsFound key r v (e ∷ es)
  Comes-IsFound e v (from_entry u h t) = found_before e es (same-IsFound t (clean.cached u h))

  Delivered-IsFound :
      (k : CacheKey) (state : RefreshState) (result : Result ResolutionError CacheEntry)
      (v : CacheEntry)
      → IsLater (version_of key s) (version_of key q)
      → IsOneState (finish k state result) s
      → Delivered key k state result (lookup k s.refreshing) s v
      → IsFound key r v (finish k state result ∷ es)
  Delivered-IsFound k state result v later one (kept c) = Comes-IsFound (finish k state result) v c
  Delivered-IsFound k state result v later one (delivered f current same done find there p ver) =
      let mine : lookup k s.refreshing ≡ some state = there ∙ ap some (one current there p) in
      let begun =
        elim (clean.refreshing state (subst (λ i. lookup i s.refreshing ≡ some state) same mine))
          as (λ _. HasBegun key r state es) [
            | inl b ↦ b
            | inr e ↦ absurd (
                later_earlier state.version (version_of key q)
                  (subst (λ w. IsLater w (version_of key q))
                    (sym (ver ∙ ap (λ i. version_of i s) same)) later)
                  e)
          ] in
      subst (λ x. IsFound key r v (finish k state x ∷ es)) (sym done)
        (subst (λ i. IsFound key r v (finish i state (ok f) ∷ es)) (sym same)
          (found_last state f es begun find))

  step-cached :
      (e : Event) (v : CacheEntry)
      → IsLater (version_of key s) (version_of key q)
      → IsOneState e s
      → lookup key (after_event e s).cache ≡ some v
      → IsFound key r v (e ∷ es)
  unfolding after_event fresh_cache_entry begin_refresh finish_refresh invalidate_group_version
      invalidate_resource invalidate_every lookup
  step-cached (look_up k now) v later one h =
      Comes-IsFound (look_up k now) v (serve-Comes key k now (lookup k s.cache) s v refl h)
  step-cached (begin k now) v later one h = Comes-IsFound (begin k now) v (
      serve-Comes key k now (lookup k s.cache) s v refl
        (subst (λ m. lookup key m ≡ some v) (begin-cache k (fresh_cache_entry k now s)) h))
  step-cached (finish k state result) v later one h =
      Delivered-IsFound k state result v later one
        (finish_current-Delivered key k state result (lookup k s.refreshing) s v h)
  step-cached (group_version_changed g) v later one h =
      Comes-IsFound (group_version_changed g) v
        (from_entry v (lookup-drop_under key g v s.cache h) (same_find v))
  step-cached (resource_changed k) v later one h =
      Comes-IsFound (resource_changed k) v
        (from_entry v (lookup-remove key k v s.cache h) (same_find v))
  step-cached everything_changed v later one h = absurd (none≢some h)

  step-refreshing :
      (e : Event) (state : RefreshState)
      → lookup key (after_event e s).refreshing ≡ some state
      → HasBegun key r state (e ∷ es) ⊎ IsEarlier state.version (version_of key q)
  step-refreshing e state h = elim (after_event-Runs key e s state h) [
    | ran x ↦ elim (clean.refreshing state x) [ inl b ↦ inl (begun_before e es b) | inr w ↦ inr w ]
    | began now same x ↦
        inl (subst (λ i. HasBegun key r state (i ∷ es)) (sym same) (begins_last now es x))
  ]

  pub step-IsClean :
      (e : Event)
      → IsLater (version_of key s) (version_of key q)
      → IsOneState e s
      → IsClean key q r (e ∷ es)
  unfolding after_history
  step-IsClean e later one = record {
    cached = λ v h. step-cached e v later one h;
    refreshing = λ state h. step-refreshing e state h;
  }

-- An invalidation leaves nothing of the key in the cache.
pub start-IsClean :
    (key : CacheKey) (q : Resolver) (e : Event)
    → Invalidates key q e
    → AreEarlier key q
    → IsClean key q (after_event e q) []
unfolding after_history after_event invalidate_group_version invalidate_resource invalidate_every
    lookup
start-IsClean key q (look_up _ _) x a = elim x [ ]
start-IsClean key q (begin _ _) x a = elim x [ ]
start-IsClean key q (finish _ _ _) x a = elim x [ ]
start-IsClean key q (group_version_changed _) (by_group_version known) a = record {
  cached = λ v h. absurd (none≢some (sym (lookup-drop_self key q.cache) ∙ h));
  refreshing = λ state h. inr (a state h);
}
start-IsClean key q (resource_changed _) by_resource a = record {
  cached = λ v h. absurd (none≢some (sym (lookup-remove_self key q.cache) ∙ h));
  refreshing = λ state h. inr (a state h);
}
start-IsClean key q everything_changed by_all a = record {
  cached = λ v h. absurd (none≢some h);
  refreshing = λ state h. inr (a state h);
}
