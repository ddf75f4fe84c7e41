-- ===== src/Admission/Resolved.antt =====
-- The validators of internal/admission/budgets.go for the profiles that `Resolve` returns.
use mathlib.Core.Path.{subst}
use kubeseer.Prelude.{refl, sym, ℕ, ◌≡◌, ◌↔◌, Option, some, []}
use kubeseer.Prelude.Result.{ok}
use kubeseer.Facet.{FacetSpec}
use kubeseer.AccessPolicy.Policy.{FacetAccessPolicy}
use kubeseer.Limits.Profile.{Overrides, Profile}
use kubeseer.Limits.Within.{IsWithin}
use kubeseer.Limits.Resolve.{resolve}
use kubeseer.Limits.Resolve.Range.{resolve_range}
use kubeseer.Admission.Limits.{
  Limits, positive_or, limits_from_profile, default_limits, normalize_limits,
}
use kubeseer.Admission.Budgets.{
  validate_facet_budgets_with_limits, validate_access_policy_budgets_with_limits,
  validate_facet_budgets, new_budget_validator, new_budget_validator_from_profile, validate_facet,
  validate_access_policy, validate_access_policy_budgets,
}
use kubeseer.Admission.Fits.{
  FitsFacet, FitsPolicy, validate_facet_budgets_iff, validate_access_policy_budgets_iff,
}
use kubeseer.Admission.Profiles.{
  IsWithin-normalized, IsWithin-default, FitsFacet-within, FitsPolicy-within,
}

normalize-default : normalize_limits default_limits ≡ default_limits
unfolding normalize_limits positive_or default_limits limits_from_profile
normalize-default = refl

module _ (o : Overrides) (p : Profile) (h : resolve o ≡ ok p) where
  within : IsWithin p
  within = (resolve_range p).0 (o, h)

  normalized : normalize_limits (limits_from_profile p) ≡ limits_from_profile p
  normalized = IsWithin-normalized p within

  facet_iff :
      (encoded_size : FacetSpec → Option ℕ) (spec : FacetSpec)
      → (validate_facet encoded_size (some (new_budget_validator_from_profile p)) (some spec) ≡ [])
        ↔ FitsFacet (limits_from_profile p) spec (encoded_size spec)
  unfolding validate_facet new_budget_validator_from_profile new_budget_validator
  facet_iff encoded_size spec =
      let at = λ (l m : Limits).
        (validate_facet_budgets_with_limits encoded_size (some spec) l ≡ [])
        ↔ FitsFacet m spec (encoded_size spec) in
      subst (λ l. at l (limits_from_profile p)) (sym normalized)
        (subst (at (limits_from_profile p)) normalized
          (validate_facet_budgets_iff encoded_size spec (limits_from_profile p)))

  policy_iff :
      (encoded_size : FacetAccessPolicy → Option ℕ) (policy : FacetAccessPolicy)
      → (validate_access_policy encoded_size
            (some (new_budget_validator_from_profile p))
            (some policy)
          ≡ [])
        ↔ FitsPolicy (limits_from_profile p) policy (encoded_size policy)
  unfolding validate_access_policy new_budget_validator_from_profile new_budget_validator
  policy_iff encoded_size policy =
      let at = λ (l m : Limits).
        (validate_access_policy_budgets_with_limits encoded_size (some policy) l ≡ [])
        ↔ FitsPolicy m policy (encoded_size policy) in
      subst (λ l. at l (limits_from_profile p)) (sym normalized)
        (subst (at (limits_from_profile p)) normalized
          (validate_access_policy_budgets_iff encoded_size policy (limits_from_profile p)))

-- A validator made from a profile that `Resolve` returns uses the profile's own budgets, none replaced
-- by a default: it reports nothing exactly for the Facets that fit them.
pub profile_validator_lem :
    (o : Overrides) (p : Profile) (encoded_size : FacetSpec → Option ℕ) (spec : FacetSpec)
    → resolve o ≡ ok p
    → (validate_facet encoded_size (some (new_budget_validator_from_profile p)) (some spec) ≡ [])
      ↔ FitsFacet (limits_from_profile p) spec (encoded_size spec)
profile_validator_lem o p encoded_size spec h = facet_iff o p h encoded_size spec

-- No override loosens the budgets: a Facet that a validator made from a profile of `Resolve` admits is
-- admitted with the default budgets too.
pub resolved_budgets_tighten :
    (o : Overrides) (p : Profile) (encoded_size : FacetSpec → Option ℕ) (spec : FacetSpec)
    → resolve o ≡ ok p
    → validate_facet encoded_size (some (new_budget_validator_from_profile p)) (some spec) ≡ []
    → validate_facet_budgets encoded_size (some spec) ≡ []
unfolding validate_facet_budgets
resolved_budgets_tighten o p encoded_size spec h admitted =
    (validate_facet_budgets_iff encoded_size spec default_limits).1 (
      subst (λ l. FitsFacet l spec (encoded_size spec)) (sym normalize-default)
        (FitsFacet-within (limits_from_profile p) default_limits (IsWithin-default p (within o p h))
          spec (encoded_size spec) ((facet_iff o p h encoded_size spec).0 admitted)))

-- The same for access policies.
pub resolved_policy_budgets_tighten :
    (o : Overrides) (p : Profile) (encoded_size : FacetAccessPolicy → Option ℕ)
    (policy : FacetAccessPolicy)
    → resolve o ≡ ok p
    → validate_access_policy encoded_size (some (new_budget_validator_from_profile p)) (some policy)
      ≡ []
    → validate_access_policy_budgets encoded_size (some policy) ≡ []
unfolding validate_access_policy_budgets
resolved_policy_budgets_tighten o p encoded_size policy h admitted =
    (validate_access_policy_budgets_iff encoded_size policy default_limits).1 (
      subst (λ l. FitsPolicy l policy (encoded_size policy)) (sym normalize-default)
        (FitsPolicy-within (limits_from_profile p) default_limits
          (IsWithin-default p (within o p h)) policy (encoded_size policy)
          ((policy_iff o p h encoded_size policy).0 admitted)))
