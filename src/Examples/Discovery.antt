-- ===== src/Examples/Discovery.antt =====
-- A cache of two entries: a refresh that makes room, and invalidations before and after others.
use kubeseer.Prelude.{ℕ, String, ◌≡◌, refl, sym, some, List, [], ◌∷◌, arith}
use kubeseer.Prelude.Int.{pos}
use kubeseer.Prelude.Assoc.{lookup, insert}
use kubeseer.Prelude.Result.{ok}
use kubeseer.AccessPolicy.Policy.{scope_namespaced}
use kubeseer.Discovery.Key.{
  CacheKey, CacheVersion, same_cache_key, cache_key_instance, cache_key_less,
}
use kubeseer.Discovery.Cache.{
  CacheEntry, RefreshState, Resolver, new_resolver, new_resolver, remove, next_access, store, serve,
  fresh_cache_entry, own_refresh, join_refresh, begin_refresh_with, begin_refresh, better_victim,
  is_refreshing, lru_victim_from, lru_victim, retain_in, retain_entry, retain_result,
  finish_current, finish_refresh, invalidate_resource, bump,
}
use kubeseer.Discovery.Events.{
  Event, begin, finish, resource_changed, after_event, after_events, after_history,
}
use kubeseer.Discovery.Victims.{some_injective, VictimOf, lru_victim-VictimOf}
use kubeseer.Discovery.Capacity.{IsWithinCapacity, after_events-IsWithinCapacity}
use kubeseer.Discovery.Invalidated.{by_resource}
use kubeseer.Discovery.History.{IsFound, AreOneState}
use kubeseer.Discovery.Served.{an_entry, looked_up, invalidated_not_served}

abbrev apps : String → CacheKey
apps kind = record { group_version = "apps/v1"; kind = kind }

abbrev entry : ℕ → CacheVersion → CacheEntry
entry sequence version = record {
  gvr = record { group = "apps"; version = "v1"; resource = "deployments" };
  scope = scope_namespaced;
  expires_at = 100;
  access_sequence = sequence;
  version = version;
}

abbrev first_version : CacheVersion
first_version = record { all = 0; key = 0 }

abbrev full : Resolver
full = record {
  cache_capacity = pos 2;
  cache =
      (apps "Deployment", entry 1 first_version) ∷ (apps "StatefulSet", entry 2 first_version) ∷ [];
  refreshing = [];
  access_sequence = 2;
  invalidation_epoch = 0;
  key_epoch = [];
  allocated = 0;
  done = [];
}

abbrev state : ℕ → CacheVersion → RefreshState
state pointer version = record { pointer = pointer; version = version }

-- The refresh of a third kind.
abbrev refreshes : List Event
refreshes =
    begin (apps "DaemonSet") 10
    ∷ finish (apps "DaemonSet") (state 0 first_version) (ok (entry 0 first_version))
    ∷ []

abbrev kinds : Resolver → List String
kinds r = elim r.cache [
  | [] ↦ []
  | (k, e) ∷ rest ↦ k.kind ∷ (elim rest [ [] ↦ [] | (j, f) ∷ _ ↦ j.kind ∷ [] ])
]

oldest-dropped : kinds (after_events refreshes full) ≡ "StatefulSet" ∷ "DaemonSet" ∷ []
unfolding after_events after_event begin_refresh fresh_cache_entry begin_refresh_with serve
    join_refresh own_refresh finish_refresh finish_current retain_result retain_entry retain_in
    lru_victim_from better_victim is_refreshing store next_access remove lookup insert
    same_cache_key cache_key_less
oldest-dropped = refl

after_events-IsWithinCapacity_example : IsWithinCapacity (pos 2) (after_events refreshes full)
after_events-IsWithinCapacity_example =
    after_events-IsWithinCapacity (pos 2) refreshes full
      (record { capacity = refl; size = omega arith })

abbrev second_version : CacheVersion
second_version = record { all = 0; key = 1 }

abbrev deployments : CacheKey
deployments = apps "Deployment"

-- A refresh is begun, the kind is invalidated, the refresh delivers, and another one begins and delivers.
abbrev earlier : List Event
earlier = begin deployments 10 ∷ []

abbrev changed : Event
changed = resource_changed deployments

abbrev later : List Event
later =
    finish deployments (state 1 second_version) (ok (entry 0 second_version))
    ∷ begin deployments 10
    ∷ finish deployments (state 0 first_version) (ok (entry 0 first_version))
    ∷ []

abbrev invalidated : Resolver
invalidated = after_event changed (after_history earlier (new_resolver (pos 2)))

served_again :
    (fresh_cache_entry deployments 20 (after_history later invalidated)).0
    ≡ some (entry 2 second_version)
unfolding after_history after_event begin_refresh fresh_cache_entry begin_refresh_with serve
    join_refresh own_refresh finish_refresh finish_current retain_result retain_entry retain_in
    lru_victim_from better_victim is_refreshing store next_access remove lookup insert
    same_cache_key cache_key_less invalidate_resource bump
served_again = refl

one_state : AreOneState later invalidated
unfolding after_history after_event begin_refresh fresh_cache_entry begin_refresh_with serve
    join_refresh own_refresh finish_refresh finish_current retain_result retain_entry retain_in
    lru_victim_from better_victim is_refreshing store next_access remove lookup insert
    same_cache_key cache_key_less invalidate_resource bump
one_state = (λ c h p. some_injective (sym h), (tt, (λ c h p. some_injective (sym h), tt)))

invalidated_not_served_example : IsFound deployments invalidated (entry 2 second_version) later
invalidated_not_served_example =
    invalidated_not_served deployments (pos 2) earlier changed later 20
      (an_entry (entry 2 second_version)) by_resource (omega arith) one_state
      (looked_up (entry 2 second_version) served_again)

lru_victim-VictimOf_example : VictimOf full (lru_victim full)
lru_victim-VictimOf_example = lru_victim-VictimOf full
