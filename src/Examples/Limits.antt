-- ===== src/Examples/Limits.antt =====
-- The limit profile and the accountant at concrete inputs.
use kubeseer.Prelude.{
  All, true, ◌≢◌, ℕ, ◌≡◌, ◌↔◌, ◌≤◌, ◌+◌, refl, Option, none, some, List, [], ◌∷◌, arith,
}
use kubeseer.Prelude.Int.{ℤ, pos, negsuc}
use kubeseer.Prelude.Result.{ok, err}
use kubeseer.Limits.Profile.{AdmissionBudgets, Overrides, must_be_positive}
use kubeseer.Limits.Defaults.{default_profile}
use kubeseer.Limits.Settings.{first_refused, settings, outcome, effective}
use kubeseer.Limits.Within.{IsWithin}
use kubeseer.Limits.Resolve.{
  resolve, valid, positive_int64, positive_int, positive_duration, resolve_admission,
  bounded_admission, resolve_aggregation,
}
use kubeseer.Limits.Resolve.Laws.{resolve_lem}
use kubeseer.Limits.Resolve.Full.{overrides_of}
use kubeseer.Limits.Resolve.Range.{resolve_range}
use kubeseer.Limits.Accountant.{Accountant, limit_exceeded, add_bytes, account_results}
use kubeseer.Limits.Accountant.Laws.{
  IsBounded, Call, add_call, release_call, calls, add_bytes_exact, calls-IsBounded,
}
use kubeseer.Limits.Accountant.Batch.{accountant, total, account_results_exact}

abbrev tight : Overrides
tight = record (overrides_of default_profile) {
  page_size = some (pos 50);
  max_active_watches = none;
}

-- The first bad override is reported, here the second of two.
abbrev wrong : Overrides
wrong = record tight {
  max_status_bytes = some (negsuc 6);
  admission = record (tight.admission) { max_facet_sources = some (pos 33) };
}

resolve-tight : resolve tight ≡ ok (record default_profile { page_size = pos 50 })
unfolding resolve positive_int64 positive_int positive_duration resolve_admission bounded_admission
    resolve_aggregation
resolve-tight = refl

resolve-wrong :
    resolve wrong
    ≡ err (record { field = "maxStatusBytes"; value = negsuc 6; cause = must_be_positive })
unfolding resolve positive_int64 positive_int
resolve-wrong = refl

resolve_lem_example : resolve wrong ≡ outcome (first_refused (settings wrong)) (effective wrong)
resolve_lem_example = resolve_lem wrong

resolve_range_example :
    ((o : Overrides) × (resolve o ≡ ok default_profile)) ↔ IsWithin default_profile
resolve_range_example = resolve_range default_profile

abbrev half_full : Accountant
half_full = record { ceiling = pos 100; used = pos 50; dimension = "produced-values" }

half_full-IsBounded : IsBounded half_full
half_full-IsBounded = omega arith

add_bytes_exact_example :
    add_bytes (some half_full) (pos 51) ≡ (some half_full, some limit_exceeded)
add_bytes_exact_example = add_bytes_exact half_full (pos 51) half_full-IsBounded (omega arith)

abbrev some_calls : List Call
some_calls =
    add_call (pos 40) ∷ add_call (pos 11) ∷ release_call (pos 91) ∷ add_call (negsuc 0) ∷ []

calls-IsBounded_example :
    (b : Accountant) × (calls (some half_full) some_calls ≡ some b) × IsBounded b
calls-IsBounded_example = calls-IsBounded half_full some_calls (omega arith) half_full-IsBounded

abbrev measure : ℕ → Option ℤ
measure n = some (pos n)

abbrev project : ℕ → Option ℕ
project n = some n

account_results_exact_example :
    (All (λ n. project n ≢ none) (30 ∷ 10 ∷ [])
      × (60 + total project measure (λ n. n) (30 ∷ 10 ∷ []) ≤ 100))
    ↔ (account_results project measure (some (accountant 100 60 "produced-values")) (30 ∷ 10 ∷ [])
        ≡ (
          some (
              accountant 100
                (60 + total project measure (λ n. n) (30 ∷ 10 ∷ []))
                "produced-values"),
          none,
        ))
account_results_exact_example =
    account_results_exact project measure (λ n. n) 100 "produced-values" 60 (30 ∷ 10 ∷ [])
      (omega arith) (λ v e. ground (arith, e), (λ v e. ground (arith, e), tt)) (omega arith)

-- A profile with a zero budget that passes `Valid`.
abbrev no_namespaces : AdmissionBudgets
no_namespaces = record (default_profile.admission) { max_source_namespaces = pos 0 }

valid-no_namespaces : valid (record default_profile { admission = no_namespaces }) ≡ true
unfolding valid
valid-no_namespaces = refl
