-- ===== src/Discovery/Victims.antt =====
-- The cache of internal/discovery/resolver.go and the entry that makes room in it.
use mathlib.Core.Path.{subst}
use kubeseer.Prelude.{
  ℕ, suc, ◌≤◌, String, ◌≡◌, ◌⊎◌, refl, sym, Option, none, some, Bool, true, false, ◌||◌, List, [],
  ◌∷◌, All, length, arith, Bool-cases, inl, inr,
}
use kubeseer.Prelude.Assoc.{lookup, insert}
use kubeseer.Discovery.Key.{CacheKey, cache_key_instance, same_cache_key, same_cache_key_iff}
use kubeseer.Discovery.Cache.{
  CacheEntry, RefreshState, Resolver, remove, renumber, better_victim, is_refreshing,
  lru_victim_from, lru_victim, drop_under,
}

pub none≢some : {A : Type 0} {x : A} → none ≡ some x → ⊥
none≢some h = cc

pub some_injective : {A : Type 0} {x y : A} → some x ≡ some y → x ≡ y
some_injective h = cc

abbrev pub Cached : Type 0
Cached = List (CacheKey × CacheEntry)

-- A key that the map has.
pub has : CacheKey → Cached → Bool
has key [] = false
has key ((other, e) ∷ rest) = same_cache_key other key || has key rest

pub length-remove : (key : CacheKey) (m : Cached) → length (remove key m) ≤ length m
unfolding remove
length-remove key [] = omega arith
length-remove key ((k, e) ∷ m) = ground (arith, length-remove key m)

pub length-remove-has :
    (key : CacheKey) (m : Cached) → has key m ≡ true → suc (length (remove key m)) ≤ length m
unfolding remove has
length-remove-has key [] h = ground (arith, h)
length-remove-has key ((k, e) ∷ m) h =
    ground (arith, h, length-remove key m, length-remove-has key m)

pub length-insert :
    (key : CacheKey) (e : CacheEntry) (m : Cached) → length (insert key e m) ≤ suc (length m)
unfolding insert
length-insert key e [] = omega arith
length-insert key e ((k, f) ∷ m) = ground (arith, length-insert key e m)

pub length-insert-has :
    (key : CacheKey) (e : CacheEntry) (m : Cached)
    → has key m ≡ true
    → length (insert key e m) ≡ length m
unfolding insert has
length-insert-has key e [] h = ground (arith, h)
length-insert-has key e ((k, f) ∷ m) h = ground (arith, h, length-insert-has key e m)

pub lookup-has :
    (key : CacheKey) (e : CacheEntry) (m : Cached) → lookup key m ≡ some e → has key m ≡ true
unfolding lookup has
lookup-has key e [] h = ground (arith, h)
lookup-has key e ((k, f) ∷ m) h = ground (arith, h, lookup-has key e m)

pub length-renumber : (n : ℕ) (m : Cached) → length (renumber n m) ≡ length m
unfolding renumber
length-renumber n [] = refl
length-renumber n ((k, e) ∷ m) = rw (length-renumber (suc n) m) refl

pub has-renumber : (key : CacheKey) (n : ℕ) (m : Cached) → has key (renumber n m) ≡ has key m
unfolding renumber has
has-renumber key n [] = refl
has-renumber key n ((k, e) ∷ m) = rw (has-renumber key (suc n) m) refl

pub length-drop_under : (g : String) (m : Cached) → length (drop_under g m) ≤ length m
unfolding drop_under
length-drop_under g [] = omega arith
length-drop_under g ((k, e) ∷ m) = ground (arith, length-drop_under g m)

-- The victim is a key of the cache.
pub victim-has :
    (refreshing : List (CacheKey × RefreshState)) (best : Option (CacheKey × CacheEntry))
    (m : Cached) (victim : CacheKey × CacheEntry)
    → lru_victim_from refreshing best m ≡ some victim
    → (best ≡ some victim) ⊎ (has victim.0 m ≡ true)
unfolding lru_victim_from has
victim-has refreshing best [] victim h = inl h
victim-has refreshing best ((k, f) ∷ m) victim h = elim (Bool-cases (is_refreshing k refreshing)) [
  | inl a ↦ elim (victim-has refreshing best m victim (rw a at h)) [
    | inl x ↦ inl x
    | inr x ↦ inr (ground (arith, x))
  ]
  | inr a ↦ elim (Bool-cases (better_victim k f best)) [
    | inr b ↦ elim (victim-has refreshing best m victim (rw (a, b) at h)) [
      | inl x ↦ inl x
      | inr x ↦ inr (ground (arith, x))
    ]
    | inl b ↦ elim (victim-has refreshing (some (k, f)) m victim (rw (a, b) at h)) [
      | inl x ↦ inr (ground (arith, x, same_cache_key_iff k k))
      | inr x ↦ inr (ground (arith, x))
    ]
  ]
]

-- Every entry that is not being refreshed has been used at least as late as the victim.
abbrev pub AreLater : List (CacheKey × RefreshState) → CacheKey × CacheEntry → Cached → Type 0
AreLater refreshing v m =
    All (λ p. (is_refreshing p.0 refreshing ≡ true) ⊎ (v.1.access_sequence ≤ p.1.access_sequence)) m

not_better :
    (k : CacheKey) (f : CacheEntry) (best : Option (CacheKey × CacheEntry))
    → better_victim k f best ≡ false
    → (b : CacheKey × CacheEntry) × (best ≡ some b) × (b.1.access_sequence ≤ f.access_sequence)
unfolding better_victim
not_better k f none h = absurd (ground (arith, h))
not_better k f (some b) h = (b, refl, ground (arith, h))

victim_from-AreLater :
    (refreshing : List (CacheKey × RefreshState)) (best : Option (CacheKey × CacheEntry))
    (m : Cached) (v : CacheKey × CacheEntry)
    → lru_victim_from refreshing best m ≡ some v
    → AreLater refreshing v m
      × ((b : CacheKey × CacheEntry) → best ≡ some b → v.1.access_sequence ≤ b.1.access_sequence)
unfolding lru_victim_from better_victim
victim_from-AreLater refreshing best [] v h = (tt, λ b q. ground (arith, h, q))
victim_from-AreLater refreshing best ((k, f) ∷ m) v h =
    elim (Bool-cases (is_refreshing k refreshing)) [
      | inl a ↦
          let (later, best_later) = victim_from-AreLater refreshing best m v (rw a at h) in
          ((inl a, later), best_later)
      | inr a ↦ elim (Bool-cases (better_victim k f best)) [
        | inl b ↦
            let (later, best_later) =
              victim_from-AreLater refreshing (some (k, f)) m v (rw (a, b) at h) in
            (
              (inr (best_later (k, f) refl), later),
              λ c q. ground (arith, b, q, best_later (k, f) refl),
            )
        | inr b ↦
            let (later, best_later) = victim_from-AreLater refreshing best m v (rw (a, b) at h) in
            let (c, q, w) = not_better k f best b in
            ((inr (omega (arith, best_later c q, w)), later), best_later)
      ]
    ]

victim-idle :
    (refreshing : List (CacheKey × RefreshState)) (best : Option (CacheKey × CacheEntry))
    (m : Cached) (v : CacheKey × CacheEntry)
    → lru_victim_from refreshing best m ≡ some v
    → (best ≡ some v) ⊎ (is_refreshing v.0 refreshing ≡ false)
unfolding lru_victim_from
victim-idle refreshing best [] v h = inl h
victim-idle refreshing best ((k, f) ∷ m) v h = elim (Bool-cases (is_refreshing k refreshing)) [
  | inl a ↦ victim-idle refreshing best m v (rw a at h)
  | inr a ↦ elim (Bool-cases (better_victim k f best)) [
    | inr b ↦ victim-idle refreshing best m v (rw (a, b) at h)
    | inl b ↦ elim (victim-idle refreshing (some (k, f)) m v (rw (a, b) at h)) [
      | inl x ↦ inr (subst (λ w. is_refreshing w.0 refreshing ≡ false) (some_injective x) a)
      | inr x ↦ inr x
    ]
  ]
]

-- A victim in hand is not given up for none.
kept-victim :
    (refreshing : List (CacheKey × RefreshState)) (b : CacheKey × CacheEntry) (m : Cached)
    → ¬ (lru_victim_from refreshing (some b) m ≡ none)
unfolding lru_victim_from
kept-victim refreshing b [] h = none≢some (sym h)
kept-victim refreshing b ((k, f) ∷ m) h =
    ground (arith, h, kept-victim refreshing b m, kept-victim refreshing (k, f) m)

no_victim-all :
    (refreshing : List (CacheKey × RefreshState)) (m : Cached)
    → lru_victim_from refreshing none m ≡ none
    → All (λ p. is_refreshing p.0 refreshing ≡ true) m
unfolding lru_victim_from better_victim
no_victim-all refreshing [] h = tt
no_victim-all refreshing ((k, f) ∷ m) h = elim (Bool-cases (is_refreshing k refreshing)) [
  | inl a ↦ (a, no_victim-all refreshing m (rw a at h))
  | inr a ↦ absurd (kept-victim refreshing (k, f) m (rw a at h))
]

-- What makes room: a cached entry that is not being refreshed and that none of those was used before.
pub record IsVictim (r : Resolver) (v : CacheKey × CacheEntry) : Type 0 where
  pub cached : has v.0 r.cache ≡ true
  pub idle : is_refreshing v.0 r.refreshing ≡ false
  pub least : AreLater r.refreshing v r.cache

abbrev pub VictimOf : Resolver → Option (CacheKey × CacheEntry) → Type 0
VictimOf r none = All (λ p. is_refreshing p.0 r.refreshing ≡ true) r.cache
VictimOf r (some v) = IsVictim r v

victim-VictimOf :
    (r : Resolver) (v : Option (CacheKey × CacheEntry))
    → lru_victim_from r.refreshing none r.cache ≡ v
    → VictimOf r v
victim-VictimOf r none h = no_victim-all r.refreshing r.cache h
victim-VictimOf r (some v) h = record {
  cached = elim (victim-has r.refreshing none r.cache v h) [
    | inl x ↦ absurd (none≢some x)
    | inr x ↦ x
  ];
  idle = elim (victim-idle r.refreshing none r.cache v h) [
    | inl x ↦ absurd (none≢some x)
    | inr x ↦ x
  ];
  least = (victim_from-AreLater r.refreshing none r.cache v h).0;
}

-- The entry that is dropped to make room is a cached one that is not being refreshed and that was used
-- no later than any other such entry; there is none to drop only where every cached key is being
-- refreshed.
pub lru_victim-VictimOf : (r : Resolver) → VictimOf r (lru_victim r)
lru_victim-VictimOf r = victim-VictimOf r (lru_victim r) refl
