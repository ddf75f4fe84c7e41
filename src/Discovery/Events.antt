-- ===== src/Discovery/Events.antt =====
-- The uses of the resolver's cache in internal/discovery/resolver.go, each under the mutex, as events.
use kubeseer.Prelude.{ℕ, String, List, [], ◌∷◌}
use kubeseer.Prelude.Result.{Result}
use kubeseer.Selection.Contracts.{ResolutionError}
use kubeseer.Discovery.Key.{CacheKey}
use kubeseer.Discovery.Cache.{
  CacheEntry, RefreshState, Resolver, fresh_cache_entry, begin_refresh, finish_refresh,
  invalidate_group_version, invalidate_resource, invalidate_every,
}

pub data Event : Type 0 where
  look_up : CacheKey → ℕ → Event
  begin : CacheKey → ℕ → Event
  finish : CacheKey → RefreshState → Result ResolutionError CacheEntry → Event
  group_version_changed : String → Event
  resource_changed : CacheKey → Event
  everything_changed : Event

unfoldable pub after_event : Event → Resolver → Resolver
unfolding fresh_cache_entry begin_refresh finish_refresh invalidate_group_version
    invalidate_resource invalidate_every
after_event (look_up key now) r = (fresh_cache_entry key now r).1
after_event (begin key now) r = (begin_refresh key now r).1
after_event (finish key state result) r = finish_refresh key state result r
after_event (group_version_changed group_version) r = invalidate_group_version group_version r
after_event (resource_changed key) r = invalidate_resource key r
after_event everything_changed r = invalidate_every r

unfoldable pub after_events : List Event → Resolver → Resolver
unfolding after_event
after_events [] r = r
after_events (e ∷ es) r = after_events es (after_event e r)

-- The same for a history, the last event first.
unfoldable pub after_history : List Event → Resolver → Resolver
unfolding after_event
after_history [] r = r
after_history (e ∷ es) r = after_event e (after_history es r)
