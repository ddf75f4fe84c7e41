-- ===== src/Selection/Execution/Permit.antt =====
-- The requests of the loop of `listTarget` in internal/selection/executor.go: under which permit they are sent,
-- how often a target restarts, and how long the loop goes on.
use mathlib.Core.Path.{subst}
use kubeseer.Prelude.{
  ℕ, ◌+◌, ◌≤◌, String, str_eq, ◌≡◌, ◌≢◌, refl, Option, Bool, true, false, not, List, [], ◌∷◌, ◌++◌,
  All, arith, inl, inr, eq_iff, if◌then◌else◌,
}
use kubeseer.Prelude.Result.{Result-cases}
use kubeseer.Extraction.Json.{Fields}
use kubeseer.Selection.Contracts.{SelectionPlan, AuthorizedRead}
use kubeseer.Selection.Executor.{Item, Executor, Progress, restart, take_items}
use kubeseer.Selection.Execution.Restarts.{take_items-restarted}
use kubeseer.Selection.Execution.{
  Round, ListReply, ListFailure, page, no_response, list_failed, Turn, again, listed, failed, Run,
  waiting, stopped, finished, valid_slot, current_slot, on_failure, on_page, on_reply, turn,
  called_turn, call_of, ListCall, list_target,
}

-- The context has not ended, and the permit is a valid one whose capability is current.
pub record IsPermitted (read : Option AuthorizedRead) (round : Round) : Type 0 where
  pub running : round.ended ≡ false
  pub valid : valid_slot read ≡ true
  pub current : current_slot round.fresh read ≡ true

-- A call under this permit, in a round in which it may be sent.
pub record IsAllowed (read : Option AuthorizedRead) (call : ListCall) : Type 0 where
  pub same_permit : call.permit ≡ read
  pub permitted : IsPermitted read call.answered

unfoldable pub expired_reply : ListReply → ℕ
expired_reply (page items token) = 0
expired_reply no_response = 0
expired_reply (list_failed f) = if f.expired then 1 else 0

unfoldable pub expired_calls : List ListCall → ℕ
expired_calls [] = 0
expired_calls (call ∷ calls) = expired_reply call.answered.reply + expired_calls calls

pub expirations : List Round → ℕ
expirations [] = 0
expirations (round ∷ rounds) = expired_reply round.reply + expirations rounds

-- A reply after which the loop may go on: a page that names a next one, or an expired continuation.
abbrev pub GoesOn : ListReply → Type 0
GoesOn (page items token) = token ≢ ""
GoesOn no_response = ⊥
GoesOn (list_failed f) = f.expired ≡ true

abbrev pub spent : Progress → ℕ
spent s = if s.restarted then 1 else 0

All-middle :
    (before after : List Round) (round : Round)
    → All (λ r. GoesOn r.reply) (before ++ (round ∷ after))
    → GoesOn round.reply
All-middle [] after round h = h.0
All-middle (r ∷ before) after round h = All-middle before after round h.1

module _ (canonical_size : Fields → Option ℕ) (e : Executor) (p : SelectionPlan) where
  module _ (read : Option AuthorizedRead) (round : Round) where
    abbrev pub TurnPermitted : Progress → Turn → Type 0
    TurnPermitted s (again t) =
        IsPermitted read round
        × (expired_reply round.reply + spent s ≡ spent t)
        × GoesOn round.reply
    TurnPermitted s (listed t) = IsPermitted read round × (expired_reply round.reply ≡ 0)
    TurnPermitted s (failed x) = Unit

    if-TurnPermitted :
        (s : Progress) (b : Bool) (x y : Turn)
        → (b ≡ true → TurnPermitted s x)
        → (b ≡ false → TurnPermitted s y)
        → TurnPermitted s (if b then x else y)
    if-TurnPermitted s true x y h k = h refl
    if-TurnPermitted s false x y h k = k refl

    on_page-TurnPermitted :
        (s : Progress) (items : List Item) (token : String)
        → IsPermitted read round
        → round.reply ≡ page items token
        → TurnPermitted s (on_page canonical_size e p token (take_items canonical_size e p items s))
    unfolding on_page expired_reply
    on_page-TurnPermitted s items token h r =
        elim (Result-cases (take_items canonical_size e p items s)) [
          | inr (x, q) ↦ rw q tt
          | inl (t, q) ↦
              let same = take_items-restarted canonical_size e p items s t q in
              rw q (
                if-TurnPermitted s (str_eq token "") (listed (record t { token = token }))
                  (again (record t { token = token })) (λ _. (h, rw r refl))
                  (λ n. (h, rw (r, same) (omega arith), rw r (ground (arith, n, eq_iff token "")))))
        ]

    on_failure-TurnPermitted :
        (s : Progress) (f : ListFailure)
        → IsPermitted read round
        → round.reply ≡ list_failed f
        → TurnPermitted s (on_failure canonical_size e p round s f)
    unfolding on_failure expired_reply restart
    on_failure-TurnPermitted s f h r =
        if-TurnPermitted s round.ended_after _ _ (λ _. tt)
          (λ _.
            if-TurnPermitted s f.expired _ _
              (λ x.
                if-TurnPermitted s s.restarted _ (again (restart s)) (λ _. tt)
                  (λ n. (h, rw (r, x, n) refl, rw r x)))
              (λ _. tt))

    on_reply-TurnPermitted :
        (s : Progress) (reply : ListReply)
        → IsPermitted read round
        → round.reply ≡ reply
        → TurnPermitted s (on_reply canonical_size e p round s reply)
    unfolding on_reply
    on_reply-TurnPermitted s (page items token) h r = on_page-TurnPermitted s items token h r
    on_reply-TurnPermitted s no_response h r = tt
    on_reply-TurnPermitted s (list_failed f) h r = on_failure-TurnPermitted s f h r

    abbrev pub CalledRight : Progress → List ListCall × Turn → Type 0
    CalledRight s c =
        TurnPermitted s c.1
        × All (IsAllowed read) c.0
        × (expired_calls c.0 ≤ expired_reply round.reply)

    if-CalledRight :
        (s : Progress) (b : Bool) (x y : List ListCall × Turn)
        → CalledRight s x
        → (b ≡ false → CalledRight s y)
        → CalledRight s (if b then x else y)
    if-CalledRight s true x y h k = h
    if-CalledRight s false x y h k = k refl

    none_expired : expired_calls [] ≤ expired_reply round.reply
    unfolding expired_calls
    none_expired = omega arith

    pub called-CalledRight :
        (s : Progress) → CalledRight s (called_turn canonical_size e p read round s)
    unfolding called_turn
    called-CalledRight s =
        if-CalledRight s round.ended _ _ (tt, tt, none_expired)
          (λ a.
            if-CalledRight s (not (valid_slot read)) _ _ (tt, tt, none_expired)
              (λ b.
                if-CalledRight s (not e.verified) _ _ (tt, tt, none_expired)
                  (λ c.
                    if-CalledRight s (not (current_slot round.fresh read)) _
                      (
                        call_of canonical_size e p read round s ∷ [],
                        on_reply canonical_size e p round s round.reply,
                      )
                      (tt, tt, none_expired)
                      (λ d.
                        let h : IsPermitted read round = record {
                          running = a;
                          valid = ground (arith, b);
                          current = ground (arith, d);
                        } in
                        unfold expired_calls in
                        (
                          on_reply-TurnPermitted s round.reply h refl,
                          (record { same_permit = refl; permitted = h }, tt),
                          omega arith,
                        )))))

    turn-TurnPermitted : (s : Progress) → TurnPermitted s (turn canonical_size e p read round s)
    unfolding turn
    turn-TurnPermitted s = (called-CalledRight s).0

  module _ (read : Option AuthorizedRead) where
    -- The rounds that a finished run has used.
    pub record IsUsed (s : Progress) (rounds rest : List Round) : Type 0 where
      pub used : List Round
      pub split : rounds ≡ used ++ rest
      pub permitted : All (IsPermitted read) used
      pub restarts : expirations used + spent s ≤ 1

    again-IsUsed :
        (s t : Progress) (round : Round) (rounds rest : List Round)
        → TurnPermitted read round s (again t)
        → IsUsed t rounds rest
        → IsUsed s (round ∷ rounds) rest
    unfolding expirations
    again-IsUsed s t round rounds rest (h, w, g) u = record {
      used = round ∷ u.used;
      split = rw u.split refl;
      permitted = (h, u.permitted);
      restarts = omega (arith, w, u.restarts);
    }

    listed-IsUsed :
        (s t : Progress) (round : Round) (rounds : List Round)
        → TurnPermitted read round s (listed t)
        → IsUsed s (round ∷ rounds) rounds
    unfolding expirations
    listed-IsUsed s t round rounds (h, w) = record {
      used = round ∷ [];
      split = refl;
      permitted = (h, tt);
      restarts = ground (arith, w);
    }

    RunUsed : Progress → List Round → Run Progress → Type 0
    RunUsed s rounds (waiting t) = All (λ round. GoesOn round.reply) rounds
    RunUsed s rounds (stopped x rest) = Unit
    RunUsed s rounds (finished t rest) = IsUsed s rounds rest

    list_target-RunUsed :
        (s : Progress) (rounds : List Round)
        → RunUsed s rounds (list_target canonical_size e p read s rounds)
    unfolding list_target RunUsed
    list_target-RunUsed s [] = tt
    list_target-RunUsed s (round ∷ rounds) =
        go (turn canonical_size e p read round s) (turn-TurnPermitted read round s)
          (λ t. list_target-RunUsed t rounds)
      where
        after :
            (t : Progress) (r : Run Progress)
            → TurnPermitted read round s (again t)
            → RunUsed t rounds r
            → RunUsed s (round ∷ rounds) r
        after t (waiting u) h k = (h.2, k)
        after t (stopped x rest) h k = tt
        after t (finished u rest) h k = again-IsUsed s t round rounds rest h k

        go :
            (t : Turn)
            → TurnPermitted read round s t
            → ((t : Progress) → RunUsed t rounds (list_target canonical_size e p read t rounds))
            → RunUsed s (round ∷ rounds) (elim t as (λ _. Run Progress) [
              | again t ↦ list_target canonical_size e p read t rounds
              | listed t ↦ finished t rounds
              | failed x ↦ stopped x rounds
            ])
        go (again t) h next = after t (list_target canonical_size e p read t rounds) h (next t)
        go (listed t) h next = listed-IsUsed s t round rounds h
        go (failed x) h next = tt

    -- A target whose listing finishes has used its rounds under a valid permit, current in each of them and
    -- with the context running, and has restarted at most once; the rest of the rounds is untouched.
    pub list_target-IsUsed :
        (s t : Progress) (rounds rest : List Round)
        → list_target canonical_size e p read s rounds ≡ finished t rest
        → IsUsed s rounds rest
    unfolding RunUsed
    list_target-IsUsed s t rounds rest h = subst (RunUsed s rounds) h (list_target-RunUsed s rounds)

    -- The loop does not wait for ever: a reply that is neither a page with a next one nor an expired
    -- continuation ends the run, wherever it comes and whatever stands before it.
    pub list_target-ends :
        (s t : Progress) (before after : List Round) (round : Round)
        → ¬ GoesOn round.reply
        → ¬ (list_target canonical_size e p read s (before ++ (round ∷ after)) ≡ waiting t)
    unfolding RunUsed
    list_target-ends s t before after round h q = h (
        All-middle before after round (
          subst (RunUsed s (before ++ (round ∷ after))) q
            (list_target-RunUsed s (before ++ (round ∷ after)))))
