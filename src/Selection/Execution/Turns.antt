-- ===== src/Selection/Execution/Turns.antt =====
-- The turns of the loop of `listTarget` in internal/selection/executor.go keep the budget's account.
use kubeseer.Prelude.{
  ℕ, String, str_eq, ◌≡◌, refl, Option, Bool, true, false, not, List, [], ◌∷◌, if◌then◌else◌,
}
use kubeseer.Prelude.Int.{pos, ◌≤ℤ◌, max_int64}
use kubeseer.Prelude.Result.{Result, ok, err}
use kubeseer.Extraction.Json.{Fields}
use kubeseer.Selection.Contracts.{SelectionError, SelectionPlan, AuthorizedRead}
use kubeseer.Selection.Executor.{Executor, Progress, restart, take_items}
use kubeseer.Selection.Execution.{
  Round, ListReply, ListFailure, page, no_response, list_failed, Turn, again, listed, failed, Run,
  waiting, stopped, finished, start, valid_slot, current_slot, on_failure, on_page, on_reply, turn,
  called_turn, call_of, ListCall, list_target,
}
use kubeseer.Selection.Execution.Items.{Grown, take_items-Grown, restart-budget, Grown-same}
use kubeseer.Selection.Execution.Budget.{budget_of, AreMeasured}

module _ (canonical_size : Fields → Option ℕ) (e : Executor) (p : SelectionPlan)
    (m : AreMeasured canonical_size e p) (c64 : e.max_input_bytes ≤ℤ pos max_int64) (d : String)
    (us : List String) (n : ℕ) where
  abbrev TurnGrown : Turn → Type 0
  TurnGrown (again t) = Grown canonical_size e p m c64 d us n t
  TurnGrown (listed t) = Grown canonical_size e p m c64 d us n t
  TurnGrown (failed x) = Unit

  if-TurnGrown :
      (b : Bool) (x y : Turn) → TurnGrown x → TurnGrown y → TurnGrown (if b then x else y)
  if-TurnGrown true x y h k = h
  if-TurnGrown false x y h k = k

  if-CalledGrown :
      (b : Bool) (x y : List ListCall × Turn)
      → TurnGrown x.1
      → TurnGrown y.1
      → TurnGrown (if b then x else y).1
  if-CalledGrown true x y h k = h
  if-CalledGrown false x y h k = k

  -- The budget with which the target begins is within the limits.
  module _
      (base : Grown canonical_size e p m c64 d us n
        (start (budget_of e.max_input_bytes d us n))) where
    restart-Grown :
        (s : Progress)
        → Grown canonical_size e p m c64 d us n s
        → Grown canonical_size e p m c64 d us n (restart s)
    unfolding restart
    restart-Grown s g =
        Grown-same canonical_size e p m c64 d us n (start (budget_of e.max_input_bytes d us n))
          (restart s) base refl refl (restart-budget canonical_size e p m c64 d us n s g)

    on_page-Grown :
        (token : String) (r : Result SelectionError Progress)
        → ((t : Progress) → r ≡ ok t → Grown canonical_size e p m c64 d us n t)
        → TurnGrown (on_page canonical_size e p token r)
    unfolding on_page
    on_page-Grown token (err x) h = tt
    on_page-Grown token (ok t) h =
        let g =
          Grown-same canonical_size e p m c64 d us n t (record t { token = token }) (h t refl) refl
            refl refl in
        if-TurnGrown (str_eq token "") _ _ g g

    on_failure-Grown :
        (round : Round) (s : Progress) (f : ListFailure)
        → Grown canonical_size e p m c64 d us n s
        → TurnGrown (on_failure canonical_size e p round s f)
    unfolding on_failure
    on_failure-Grown round s f g = if-TurnGrown round.ended_after _ _ tt (
        if-TurnGrown f.expired _ _
          (if-TurnGrown s.restarted _ (again (restart s)) tt (restart-Grown s g)) tt)

    on_reply-Grown :
        (round : Round) (s : Progress) (reply : ListReply)
        → Grown canonical_size e p m c64 d us n s
        → TurnGrown (on_reply canonical_size e p round s reply)
    unfolding on_reply
    on_reply-Grown round s (page items token) g =
        on_page-Grown token (take_items canonical_size e p items s)
          (λ t q. take_items-Grown canonical_size e p m c64 d us n items s t g q)
    on_reply-Grown round s no_response g = tt
    on_reply-Grown round s (list_failed f) g = on_failure-Grown round s f g

    turn-Grown :
        (read : Option AuthorizedRead) (round : Round) (s : Progress)
        → Grown canonical_size e p m c64 d us n s
        → TurnGrown (turn canonical_size e p read round s)
    unfolding turn called_turn
    turn-Grown read round s g = if-CalledGrown round.ended _ _ tt (
        if-CalledGrown (not (valid_slot read)) _ _ tt (
          if-CalledGrown (not e.verified) _ _ tt (
            if-CalledGrown (not (current_slot round.fresh read)) _
              (
                call_of canonical_size e p read round s ∷ [],
                on_reply canonical_size e p round s round.reply,
              )
              tt (on_reply-Grown round s round.reply g))))

    abbrev pub RunGrown : Run Progress → Type 0
    RunGrown (waiting t) = Grown canonical_size e p m c64 d us n t
    RunGrown (stopped x rest) = Unit
    RunGrown (finished t rest) = Grown canonical_size e p m c64 d us n t

    -- Whatever the rounds, the account of the budget is kept while the target is listed.
    pub list_target-Grown :
        (read : Option AuthorizedRead) (s : Progress) (rounds : List Round)
        → Grown canonical_size e p m c64 d us n s
        → RunGrown (list_target canonical_size e p read s rounds)
    unfolding list_target
    list_target-Grown read s [] g = g
    list_target-Grown read s (round ∷ rounds) g =
        go (turn canonical_size e p read round s) (turn-Grown read round s g)
          (λ t h. list_target-Grown read t rounds h)
      where
        go :
            (t : Turn)
            → TurnGrown t
            → ((t : Progress)
                → Grown canonical_size e p m c64 d us n t
                → RunGrown (list_target canonical_size e p read t rounds))
            → RunGrown (elim t [
              | again t ↦ list_target canonical_size e p read t rounds
              | listed t ↦ finished t rounds
              | failed x ↦ stopped x rounds
            ])
        go (again t) h next = next t h
        go (listed t) h next = h
        go (failed x) h next = tt
