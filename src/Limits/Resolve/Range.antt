-- ===== src/Limits/Resolve/Range.antt =====
-- The profiles that `Resolve` of internal/limits/profile.go can return.
use mathlib.Core.Path.{subst}
use kubeseer.Prelude.{◌≡◌, ◌↔◌, refl, sym, ◌∙◌, ap, Option, none, some, true, arith}
use kubeseer.Prelude.Int.{ℤ, pos, ◌≤ℤ◌, ltb_ℤ}
use kubeseer.Prelude.Result.{ok, ok_injective, err≢ok}
use kubeseer.Limits.Profile.{Overrides, Profile, InvalidConfigurationError}
use kubeseer.Limits.Settings.{first_refused, outcome, settings, effective}
use kubeseer.Limits.Within.{IsWithin}
use kubeseer.Limits.Resolve.{resolve, valid}
use kubeseer.Limits.Resolve.Laws.{resolve_lem}
use kubeseer.Limits.Resolve.Accept.{All-accepted, none_refused, accepted-IsWithin}
use kubeseer.Limits.Resolve.Full.{IsWithin-accepted, overrides_of}

resolve-IsWithin : {p : Profile} (o : Overrides) → resolve o ≡ ok p → IsWithin p
resolve-IsWithin {p} o h = go (first_refused (settings o)) refl
  where
    go : (r : Option InvalidConfigurationError) → first_refused (settings o) ≡ r → IsWithin p
    go none e =
        subst IsWithin
          (ok_injective (ap (λ r. outcome r (effective o)) (sym e) ∙ sym (resolve_lem o) ∙ h))
          (accepted-IsWithin o (All-accepted (settings o) e))
    go (some x) e =
        absurd (err≢ok (ap (λ r. outcome r (effective o)) (sym e) ∙ sym (resolve_lem o) ∙ h))

-- Setting every field to a value within the limits gives exactly that profile.
pub resolve-overrides_of : (p : Profile) → IsWithin p → resolve (overrides_of p) ≡ ok p
resolve-overrides_of p h =
    resolve_lem (overrides_of p)
    ∙ ap (λ r. outcome r p) (none_refused (settings (overrides_of p)) (IsWithin-accepted p h))

-- The profiles that `Resolve` returns, for some overrides, are exactly those in which every limit is
-- positive and every admission budget is at most its structural ceiling.
pub resolve_range : (p : Profile) → ((o : Overrides) × (resolve o ≡ ok p)) ↔ IsWithin p
resolve_range p = (λ h. resolve-IsWithin h.0 h.1, λ h. (overrides_of p, resolve-overrides_of p h))

positive_test : (v : ℤ) → pos 1 ≤ℤ v → ltb_ℤ (pos 0) v ≡ true
positive_test v h = ground arith

IsWithin-valid : (p : Profile) → IsWithin p → valid p ≡ true
unfolding valid
IsWithin-valid p h = rw (
  positive_test p.page_size h.page_size,
  positive_test p.max_matched_resources h.max_matched_resources,
  positive_test p.max_selected_input_bytes h.max_selected_input_bytes,
  positive_test p.max_produced_value_bytes h.max_produced_value_bytes,
  positive_test p.max_status_bytes h.max_status_bytes,
  positive_test p.evaluation_timeout h.evaluation_timeout,
  positive_test p.max_concurrent_reconciles h.max_concurrent_reconciles,
  positive_test p.discovery_cache_entries h.discovery_cache_entries,
  positive_test p.discovery_cache_ttl h.discovery_cache_ttl,
  positive_test p.max_active_watches h.max_active_watches,
  positive_test p.max_pending_triggers h.max_pending_triggers,
  positive_test p.admission.max_facet_sources h.max_facet_sources.0,
  positive_test p.aggregation.max_groups h.max_groups,
)

-- A profile that `Resolve` returns passes `Valid`.
pub resolve-valid : (o : Overrides) {p : Profile} → resolve o ≡ ok p → valid p ≡ true
resolve-valid o h = IsWithin-valid _ (resolve-IsWithin o h)
