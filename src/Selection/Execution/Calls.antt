-- ===== src/Selection/Execution/Calls.antt =====
-- The requests of the loop of `listTarget` in internal/selection/executor.go, however it ends.
use kubeseer.Prelude.{ℕ, ◌+◌, ◌≤◌, ◌≡◌, refl, Option, List, [], ◌∷◌, ◌++◌, All, arith}
use kubeseer.Extraction.Json.{Fields}
use kubeseer.Selection.Contracts.{SelectionPlan, AuthorizedRead}
use kubeseer.Selection.Executor.{Executor, Progress}
use kubeseer.Selection.Execution.{
  Round, ListReply, page, no_response, list_failed, Turn, again, listed, failed, called_turn,
  list_calls, ListCall,
}
use kubeseer.Selection.Execution.Permit.{
  IsAllowed, expired_reply, expired_calls, spent, CalledRight, called-CalledRight,
}

module _ (canonical_size : Fields → Option ℕ) (e : Executor) (p : SelectionPlan) where
  module _ (read : Option AuthorizedRead) where
    -- What holds of all calls of a run from the progress `s`.
    pub record AreAllowed (s : Progress) (calls : List ListCall) : Type 0 where
      pub allowed : All (IsAllowed read) calls
      pub expired : expired_calls calls + spent s ≤ 2

    expired-append :
        (cs ds : List ListCall) → expired_calls (cs ++ ds) ≡ expired_calls cs + expired_calls ds
    unfolding expired_calls
    expired-append [] ds = omega arith
    expired-append (c ∷ cs) ds = omega (arith, expired-append cs ds)

    no_calls : expired_calls [] ≡ 0
    unfolding expired_calls
    no_calls = refl

    spent_once : (s : Progress) → spent s ≤ 1
    spent_once s = ground arith

    expired_once : (r : ListReply) → expired_reply r ≤ 1
    unfolding expired_reply
    expired_once (page items token) = omega arith
    expired_once no_response = omega arith
    expired_once (list_failed f) = ground arith

    All-append :
        (cs ds : List ListCall)
        → All (IsAllowed read) cs
        → All (IsAllowed read) ds
        → All (IsAllowed read) (cs ++ ds)
    All-append [] ds h k = k
    All-append (c ∷ cs) ds h k = (h.0, All-append cs ds h.1 k)

    -- However the listing of a target ends, each request that is sent in it is sent under the target's
    -- permit, which is valid and is current then, while the context is running; and those answered by an
    -- expired continuation are at most two, a restart from before counted in.
    pub list_calls-AreAllowed :
        (s : Progress) (rounds : List Round)
        → AreAllowed s (list_calls canonical_size e p read s rounds)
    unfolding list_calls expired_calls
    list_calls-AreAllowed s [] = record { allowed = tt; expired = omega (arith, spent_once s) }
    list_calls-AreAllowed s (round ∷ rounds) =
        go (called_turn canonical_size e p read round s)
          (called-CalledRight canonical_size e p read round s) (λ t. list_calls-AreAllowed t rounds)
      where
        go :
            (c : List ListCall × Turn)
            → CalledRight canonical_size e p read round s c
            → ((t : Progress) → AreAllowed t (list_calls canonical_size e p read t rounds))
            → AreAllowed s (
                c.0 ++ (elim c.1 as (λ _. List ListCall) [
                  | again t ↦ list_calls canonical_size e p read t rounds
                  | listed t ↦ []
                  | failed x ↦ []
                ]))
        go (calls, again t) h next =
            let later = list_calls canonical_size e p read t rounds in
            let w = (h.0).1 in
            record {
              allowed = All-append calls later h.1 (next t).allowed;
              expired = omega (arith, expired-append calls later, (next t).expired, h.2, w);
            }
        go (calls, listed t) h next = record {
          allowed = All-append calls [] h.1 tt;
          expired = omega (arith, expired-append calls [], h.2, (h.0).1, spent_once s, no_calls);
        }
        go (calls, failed x) h next = record {
          allowed = All-append calls [] h.1 tt;
          expired = omega (
            arith,
            expired-append calls [],
            h.2,
            expired_once round.reply,
            spent_once s,
            no_calls,
          );
        }
