-- ===== src/Authorization/Batch.antt =====
-- `EvaluateBatch` of internal/authorization/enforcer.go on each of its branches.
use kubeseer.Prelude.{
  ℕ, zero, suc, ◌≡◌, refl, Option, none, some, Bool, true, List, [], ◌∷◌, map, length, leb, arith,
  Bool-cases, inl, inr, if◌then◌else◌,
}
use kubeseer.Prelude.Result.{ok, err}
use kubeseer.AccessPolicy.Policy.{NameTests, Request}
use kubeseer.AccessPolicy.Evaluate.{Snapshot}
use kubeseer.Extraction.Json.{Context, check}
use kubeseer.Reconciliation.Tracker.{Subject, validate_subject}
use kubeseer.Authorization.Contracts.{records, DecisionOutcome}
use kubeseer.Authorization.Enforcer.{
  BatchRun, canceled, incomplete, failed, context_or_background, outcome_for, evaluate_requests,
  finish_batch, evaluate_checked, evaluate_batch,
}

-- The context has not ended before that many calls of `Err`.
abbrev pub outlasts : Context → ℕ → Bool
outlasts none k = true
outlasts (some n) k = leb k n

module _ (tests : NameTests) (subject : Subject) (snapshot : Snapshot) where
  abbrev pub outcomes_for : List Request → List DecisionOutcome
  outcomes_for requests = map (outcome_for tests subject snapshot) requests

  evaluate_requests_lem :
      (ctx : Context) (requests : List Request)
      → evaluate_requests tests subject snapshot ctx requests
        ≡ (if outlasts ctx (length requests) then ok (outcomes_for requests) else err canceled)
  unfolding evaluate_requests check
  evaluate_requests_lem none [] = refl
  evaluate_requests_lem (some n) [] = ground arith
  evaluate_requests_lem none (r ∷ rs) = rw (evaluate_requests_lem none rs) refl
  evaluate_requests_lem (some zero) (r ∷ rs) = ground arith
  evaluate_requests_lem (some (suc n)) (r ∷ rs) =
      rw (evaluate_requests_lem (some n) rs) (ground arith)

  abbrev pub succeeded : List Request → BatchRun
  succeeded requests = record {
    result = ok (outcomes_for requests);
    recorded = some (records (outcomes_for requests));
  }

  evaluate_checked_lem :
      (ctx : Context) (requests : List Request)
      → evaluate_checked tests subject snapshot (check ctx) requests
        ≡ (if outlasts ctx (suc (length requests)) then succeeded requests else failed canceled)
  unfolding evaluate_checked check finish_batch
  evaluate_checked_lem none requests = rw (evaluate_requests_lem none requests) refl
  evaluate_checked_lem (some zero) requests = ground arith
  evaluate_checked_lem (some (suc n)) requests =
      rw (evaluate_requests_lem (some n) requests) (ground arith)

  -- `EvaluateBatch` refuses a subject that is not complete; otherwise, where the context lasts for one call of
  -- `Err` and one for each request, it returns one outcome for each request, in their order, each the
  -- decision of the snapshot on its request, and hands all records to the recorder; where it ends
  -- earlier, it returns the cancellation and no record reaches the recorder.
  pub evaluate_batch_lem :
      (ctx : Option Context) (requests : List Request)
      → evaluate_batch tests subject snapshot ctx requests ≡ (
          if validate_subject subject
          then (if outlasts (context_or_background ctx) (suc (length requests))
              then succeeded requests
              else failed canceled)
          else failed incomplete)
  unfolding evaluate_batch
  evaluate_batch_lem ctx requests = elim (Bool-cases (validate_subject subject)) [
    | inl v ↦ rw v (evaluate_checked_lem (context_or_background ctx) requests)
    | inr v ↦ rw v refl
  ]
