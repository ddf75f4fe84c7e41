-- ===== src/Admission/Answers.antt =====
-- The answers of internal/admission to proposed access policies, and the class of a result.
use mathlib.Core.Path.{subst}
use mathlib.Core.List.Perm
use mathlib.Core.List.{Perm}
use kubeseer.Prelude.{
  ℕ, String, ◌≡◌, ◌↔◌, refl, Option, none, some, Bool, true, false, List, [], ◌∷◌, map, arith,
  iff_trans, iff_pair, ◌||◌, if◌then◌else◌,
}
use kubeseer.Prelude.Result.{ok}
use kubeseer.Prelude.Sort.{sort_stable, sort_stable-perm}
use kubeseer.AccessPolicy.Policy.{NameTests, FacetAccessPolicy}
use kubeseer.AccessPolicy.Validate.{validate}
use kubeseer.AccessPolicy.Compile.{compile, compiled}
use kubeseer.AccessPolicy.Wellformed.{IsWellformed, validate_iff, compile_iff}
use kubeseer.Admission.Contracts.{
  Class, invalid, forbidden, unavailable, Issue, class_with, class_from, result_class, issue_before,
  sort_issues, result, valid, result_error,
}
use kubeseer.Admission.Limits.{normalize_limits}
use kubeseer.Admission.Budgets.{validate_access_policy, validate_access_policy_budgets_with_limits}
use kubeseer.Admission.Fits.{FitsPolicy, validate_access_policy_budgets_iff}
use kubeseer.Admission.Policies.{
  failure_issue, budget_issue, budget_issues, validate_access_policy_semantics, budget_validator,
  Validator, after_budgets, admit_access_policy, webhook_access_policy,
}

same_class : Class → Class → Bool
same_class invalid invalid = true
same_class forbidden forbidden = true
same_class unavailable unavailable = true
same_class _ _ = false

-- Some issue is of that class.
unfoldable pub has : Class → List Issue → Bool
unfolding same_class
has c [] = false
has c (i ∷ is) = same_class i.class c || has c is

class_from-forbidden :
    (is : List Issue)
    → class_from (some forbidden) is ≡ (if has invalid is then some invalid else some forbidden)
unfolding class_from has class_with same_class
class_from-forbidden [] = refl
class_from-forbidden (i ∷ is) = ground (arith, class_from-forbidden is)

class_from-unavailable :
    (is : List Issue)
    → class_from (some unavailable) is ≡ (
        if has invalid is
        then some invalid
        else if has forbidden is
        then some forbidden
        else some unavailable)
unfolding class_from has class_with same_class
class_from-unavailable [] = refl
class_from-unavailable (i ∷ is) = ground (arith, class_from-unavailable is, class_from-forbidden is)

-- The class of a result is the most severe that an issue has, whatever the order of the issues: invalid
-- before forbidden before unavailable, and none without an issue.
pub result_class_lem :
    (is : List Issue)
    → result_class is ≡ (
        if has invalid is
        then some invalid
        else if has forbidden is
        then some forbidden
        else if has unavailable is
        then some unavailable
        else none)
unfolding result_class class_from has class_with same_class
result_class_lem [] = refl
result_class_lem (i ∷ is) =
    ground (arith, result_class_lem is, class_from-unavailable is, class_from-forbidden is)

valid_iff : (is : List Issue) → (valid is ≡ true) ↔ (is ≡ [])
unfolding valid
valid_iff [] = (λ h. refl, λ h. refl)
valid_iff (i ∷ is) = (λ h. cc, λ h. cc)

sort_issues-nil : (is : List Issue) → (sort_issues is ≡ []) ↔ (is ≡ [])
unfolding sort_issues
sort_issues-nil is = (
  λ h. Perm.eq-nil (Perm.symm (rw h at (sort_stable-perm issue_before is))),
  λ h.
      Perm.eq-nil
        (subst (λ js. Perm (sort_stable issue_before is) js) h (sort_stable-perm issue_before is)),
)

map-nil_iff : {A : Type 0} (f : A → Issue) (xs : List A) → (map f xs ≡ []) ↔ (xs ≡ [])
map-nil_iff f [] = (λ h. refl, λ h. refl)
map-nil_iff f (x ∷ xs) = (λ h. cc, λ h. cc)

result_error-none : (kind : String) (is : List Issue) → (result_error kind is ≡ none) ↔ (is ≡ [])
unfolding result_error
result_error-none kind is = ground (arith, valid_iff is)

module _ (tests : NameTests) where
  semantics_iff :
      (p : FacetAccessPolicy)
      → (validate_access_policy_semantics tests (some p) ≡ []) ↔ IsWellformed tests p
  unfolding validate_access_policy_semantics result
  semantics_iff p =
      iff_trans (sort_issues-nil (map failure_issue (validate tests (some p))))
        (iff_trans (map-nil_iff failure_issue (validate tests (some p))) (validate_iff tests p))

  after_budgets_iff :
      (p : FacetAccessPolicy) (is : List Issue)
      → (after_budgets tests (some p) is ≡ []) ↔ ((is ≡ []) × IsWellformed tests p)
  unfolding after_budgets result
  after_budgets_iff p is = ground (arith, valid_iff is, semantics_iff p, sort_issues-nil is)

  admit_access_policy_iff :
      (encoded_size : FacetAccessPolicy → Option ℕ) (v : Option Validator) (p : FacetAccessPolicy)
      → (admit_access_policy tests encoded_size v (some p) ≡ []) ↔ (
          FitsPolicy (normalize_limits (budget_validator v).limits) p (encoded_size p)
          × IsWellformed tests p)
  unfolding admit_access_policy validate_access_policy budget_issues
  admit_access_policy_iff encoded_size v p =
      let limits = (budget_validator v).limits in
      let is = validate_access_policy_budgets_with_limits encoded_size (some p) limits in
      iff_trans (after_budgets_iff p (map budget_issue is)) (
        iff_pair
          (iff_trans (map-nil_iff budget_issue is)
            (validate_access_policy_budgets_iff encoded_size p limits))
          (λ w. w, λ w. w))

  -- The webhook admits an access policy exactly where it fits the validator's normalised budgets and is
  -- well formed.
  pub webhook_access_policy_iff :
      (encoded_size : FacetAccessPolicy → Option ℕ) (v : Validator) (p : FacetAccessPolicy)
      → (webhook_access_policy tests encoded_size (some v) (some p) ≡ none) ↔ (
          FitsPolicy (normalize_limits (budget_validator (some v)).limits) p (encoded_size p)
          × IsWellformed tests p)
  unfolding webhook_access_policy
  webhook_access_policy_iff encoded_size v p =
      iff_trans
        (result_error-none "FacetAccessPolicy"
          (admit_access_policy tests encoded_size (some v) (some p)))
        (admit_access_policy_iff encoded_size (some v) p)

  -- A policy that the webhook admits is one that `Compile` accepts.
  pub webhook_access_policy-compile :
      (encoded_size : FacetAccessPolicy → Option ℕ) (v : Validator) (p : FacetAccessPolicy)
      → webhook_access_policy tests encoded_size (some v) (some p) ≡ none
      → compile tests (some p) ≡ ok (compiled p)
  webhook_access_policy-compile encoded_size v p h =
      (compile_iff tests p (compiled p)).1
        (((webhook_access_policy_iff encoded_size v p).0 h).1, refl)
