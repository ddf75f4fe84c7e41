-- ===== src/Discovery/Contents.antt =====
-- What one use of internal/discovery/resolver.go leaves in the cache and among the refreshes of a key.
use mathlib.Core.Path.{subst}
use kubeseer.Prelude.{
  ℕ, suc, ◌+◌, ◌%◌, String, str_eq, ◌≡◌, ◌⊎◌, refl, sym, ap, ◌∙◌, none, some, true, false, List, [],
  ◌∷◌, ◌==◌, arith, eq_iff, Bool-cases, inl, inr,
}
use kubeseer.Prelude.Int.{two64}
use kubeseer.Prelude.Assoc.{lookup, lookup-insert}
use kubeseer.Discovery.Key.{CacheKey, cache_key_instance, same_cache_key, same_cache_key_iff}
use kubeseer.Discovery.Cache.{
  CacheEntry, Resolver, remove, renumber, next_access, store, drop_under,
}
use kubeseer.Discovery.Victims.{Cached, none≢some, some_injective}

-- The two entries say the same of the resource.
pub record SameFind (e f : CacheEntry) : Type 0 where
  pub gvr : e.gvr ≡ f.gvr
  pub scope : e.scope ≡ f.scope

-- The map has an entry of the key that says the same.
pub data Comes (key : CacheKey) (m : Cached) (v : CacheEntry) : Type 0 where
  from_entry : (u : CacheEntry) → lookup key m ≡ some u → SameFind u v → Comes key m v

pub lookup-remove_self :
    {V : Type 0} (k : CacheKey) (m : List (CacheKey × V)) → lookup k (remove k m) ≡ none
unfolding lookup remove
lookup-remove_self k [] = refl
lookup-remove_self k ((i, w) ∷ m) = ground (arith, lookup-remove_self k m)

lookup-remove_other :
    {V : Type 0} (j k : CacheKey) (m : List (CacheKey × V))
    → same_cache_key j k ≡ false
    → lookup j (remove k m) ≡ lookup j m
unfolding lookup remove
lookup-remove_other j k [] h = refl
lookup-remove_other j k ((i, w) ∷ m) h =
    let step = lookup-remove_other j k m h in
    elim (Bool-cases (same_cache_key i k)) [
      | inr a ↦ rw (a, lookup, step) refl
      | inl a ↦ elim (Bool-cases (same_cache_key i j)) [
        | inr b ↦ rw (a, b, lookup, step) refl
        | inl b ↦ absurd (
            let x = (same_cache_key_iff i k).0 a in
            let y = (same_cache_key_iff i j).0 b in
            let z = (same_cache_key_iff j k).1 (sym y ∙ x) in ground (arith, z, h))
      ]
    ]

pub lookup-remove :
    {V : Type 0} (j k : CacheKey) (v : V) (m : List (CacheKey × V))
    → lookup j (remove k m) ≡ some v
    → lookup j m ≡ some v
lookup-remove {V} j k v m h = elim (Bool-cases (same_cache_key j k)) [
  | inr a ↦ sym (lookup-remove_other j k m a) ∙ h
  | inl a ↦ absurd (
      let x = (same_cache_key_iff j k).0 a in
      none≢some (sym (lookup-remove_self k m) ∙ subst (λ i. lookup i (remove k m) ≡ some v) x h))
]

pub lookup-drop_self : (j : CacheKey) (m : Cached) → lookup j (drop_under j.group_version m) ≡ none
unfolding lookup drop_under
lookup-drop_self j [] = refl
lookup-drop_self j ((i, w) ∷ m) =
    ground
      (arith, lookup-drop_self j m, same_cache_key_iff i j, eq_iff i.group_version j.group_version)

lookup-drop_other :
    (j : CacheKey) (g : String) (m : Cached)
    → str_eq j.group_version g ≡ false
    → lookup j (drop_under g m) ≡ lookup j m
unfolding lookup drop_under
lookup-drop_other j g [] h = refl
lookup-drop_other j g ((i, w) ∷ m) h =
    let step = lookup-drop_other j g m h in
    elim (Bool-cases (str_eq i.group_version g)) [
      | inr a ↦ rw (a, lookup, step) refl
      | inl a ↦ elim (Bool-cases (same_cache_key i j)) [
        | inr b ↦ rw (a, b, lookup, step) refl
        | inl b ↦ absurd (
            let y = (same_cache_key_iff i j).0 b in
            let z : str_eq j.group_version g ≡ true =
              subst (λ c. str_eq c.group_version g ≡ true) y a in
            ground (arith, z, h))
      ]
    ]

pub lookup-drop_under :
    (j : CacheKey) (g : String) (v : CacheEntry) (m : Cached)
    → lookup j (drop_under g m) ≡ some v
    → lookup j m ≡ some v
lookup-drop_under j g v m h = elim (Bool-cases (str_eq j.group_version g)) [
  | inr a ↦ sym (lookup-drop_other j g m a) ∙ h
  | inl a ↦ absurd (
      let x = (eq_iff j.group_version g).0 a in
      none≢some
        (sym (lookup-drop_self j m) ∙ subst (λ i. lookup j (drop_under i m) ≡ some v) (sym x) h))
]

renumber-Comes :
    (j : CacheKey) (n : ℕ) (v : CacheEntry) (m : Cached)
    → lookup j (renumber n m) ≡ some v
    → Comes j m v
unfolding lookup renumber
renumber-Comes j n v [] h = absurd (none≢some h)
renumber-Comes j n v ((i, w) ∷ m) h = elim (Bool-cases (same_cache_key i j)) [
  | inl a ↦
      let same = some_injective (rw (a, lookup) at h) in
      from_entry w (rw (a, lookup) refl) (record {
        gvr = ap (λ (c : CacheEntry). c.gvr) same;
        scope = ap (λ (c : CacheEntry). c.scope) same;
      })
  | inr a ↦ elim (renumber-Comes j (suc n) v m (rw (a, lookup) at h)) [
    | from_entry u q s ↦ from_entry u (rw (a, lookup) q) s
  ]
]

pub same_find : (e : CacheEntry) → SameFind e e
same_find e = record { gvr = refl; scope = refl }

pub find_trans : {e f g : CacheEntry} → SameFind e f → SameFind f g → SameFind e g
find_trans a b = record { gvr = a.gvr ∙ b.gvr; scope = a.scope ∙ b.scope }

pub equal_find : {e f : CacheEntry} → e ≡ f → SameFind e f
equal_find h = record {
  gvr = ap (λ (c : CacheEntry). c.gvr) h;
  scope = ap (λ (c : CacheEntry). c.scope) h;
}

pub next_access-Comes :
    (j : CacheKey) (v : CacheEntry) (r : Resolver)
    → lookup j (next_access r).cache ≡ some v
    → Comes j r.cache v
unfolding next_access
next_access-Comes j v r h = elim (Bool-cases ((r.access_sequence + 1) % two64 == 0)) [
  | inl z ↦ renumber-Comes j 0 v r.cache (rw z at h)
  | inr z ↦ from_entry v (rw z at h) (same_find v)
]

-- Storing an entry: it is the key's, or the map had it.
pub store-Comes :
    (j k : CacheKey) (e v : CacheEntry) (r : Resolver)
    → lookup j (store k e r).1.cache ≡ some v
    → ((k ≡ j) × SameFind e v) ⊎ Comes j r.cache v
unfolding store
store-Comes j k e v r h =
    let put = lookup-insert k j (store k e r).0 (next_access r).cache in
    elim (Bool-cases (same_cache_key k j)) [
      | inl a ↦
          let same = some_injective (rw (put, a) at h) in
          inl (
            (same_cache_key_iff k j).0 a,
            record {
              gvr = ap (λ (c : CacheEntry). c.gvr) same;
              scope = ap (λ (c : CacheEntry). c.scope) same;
            },
          )
      | inr a ↦ inr (next_access-Comes j v r (rw (put, a) at h))
    ]
