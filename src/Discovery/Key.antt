-- ===== src/Discovery/Key.antt =====
-- `cacheKey` and `cacheVersion` of internal/discovery/resolver.go.
use kubeseer.Prelude.{
  ℕ, String, ◌≡◌, ◌↔◌, Bool, true, not, ◌&&◌, str_eq, eq_iff, ◌==◌, arith, if◌then◌else◌,
}
use kubeseer.Prelude.Text.{str_ltb}
use kubeseer.Prelude.Assoc.{Keyed}

pub record CacheKey : Type 0 where
  pub group_version : String
  pub kind : String

pub record CacheVersion : Type 0 where
  pub all : ℕ
  pub key : ℕ

abbrev cache_key_eq : CacheKey → CacheKey → Bool
cache_key_eq a b = str_eq a.group_version b.group_version && str_eq a.kind b.kind

cache_key_eq_iff : (a b : CacheKey) → (cache_key_eq a b ≡ true) ↔ (a ≡ b)
cache_key_eq_iff a b = ground (arith, eq_iff a.group_version b.group_version, eq_iff a.kind b.kind)

-- Shut, so that proofs see one test for each pair of keys.
unfoldable pub same_cache_key : CacheKey → CacheKey → Bool
same_cache_key a b = cache_key_eq a b

pub same_cache_key_iff : (a b : CacheKey) → (same_cache_key a b ≡ true) ↔ (a ≡ b)
unfolding same_cache_key
same_cache_key_iff a b = cache_key_eq_iff a b

instance abbrev pub cache_key_instance : Keyed CacheKey
cache_key_instance = record { same = same_cache_key; same_iff = same_cache_key_iff }

abbrev pub same_version : CacheVersion → CacheVersion → Bool
same_version a b = a.all == b.all && a.key == b.key

unfoldable pub cache_key_less : CacheKey → CacheKey → Bool
cache_key_less left right =
    if not (str_eq left.group_version right.group_version)
    then str_ltb left.group_version right.group_version
    else str_ltb left.kind right.kind
