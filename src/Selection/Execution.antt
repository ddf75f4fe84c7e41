-- ===== src/Selection/Execution.antt =====
-- internal/selection/executor.go and batch.go: `Execute` and `SelectBatch`. What the API server, the context
-- and the verifier answer in one turn of the paging loop is a `Round`; a run takes a list of rounds, and
-- `waiting` is the run that still waits for the next. The evidence of a forbidden read and the
-- observer of pages are left out.
pub mod Budget
pub mod Items
pub mod Turns
pub mod Restarts
pub mod Permit
pub mod Calls
pub mod Outcome
use kubeseer.Prelude.Int.{ℤ}
use kubeseer.Prelude.{
  ℕ, String, str_eq, Option, none, some, Bool, true, false, not, ◌&&◌, ◌||◌, List, [], ◌∷◌, ◌++◌,
  if◌then◌else◌,
}
use kubeseer.Prelude.Text.{str_ltb}
use kubeseer.Prelude.Sort.{sort_stable}
use kubeseer.Prelude.Result.{Result, ok, err}
use kubeseer.AccessPolicy.Evaluate.{contains}
use kubeseer.Extraction.Json.{Fields}
use kubeseer.Reconciliation.Tracker.{Subject}
use kubeseer.Authorization.Contracts.{is_capability_current}
use kubeseer.Selection.Contracts.{
  SelectionError, selection_error, authorization_mismatch, authorization_missing,
  SelectionErrorReason, authorization_stale, read_forbidden, unsupported_selector, read_interrupted,
  read_unavailable, list_expired, selection_limit_exceeded, SelectionPlan, AuthorizedRead,
  valid_read,
}
use kubeseer.Selection.Binder.{AuthorizedPlan}
use kubeseer.Selection.Executor.{
  Item, Provenance, SelectedResource, Executor, SelectionBudget, SelectedInput, Progress,
  new_selection_budget, restart, take_items,
}

-- What the tests of k8s.io/apimachinery/pkg/api/errors and `errors.As` find in an error of `List`;
-- `interrupted` is a canceled or expired context or a timeout, `rejected` a bad or an invalid request.
pub record ListFailure : Type 0 where
  pub expired : Bool
  pub forbidden : Bool
  pub selection : Option SelectionError
  pub interrupted : Bool
  pub rejected : Bool

-- A page has its items and its continue token.
pub data ListReply : Type 0 where
  page : List Item → String → ListReply
  no_response : ListReply
  list_failed : ListFailure → ListReply

-- `ended`, `ended_after` and `ended_mapped` are the three calls of `Err`, `fresh` is the verifier.
pub record Round : Type 0 where
  pub ended : Bool
  pub fresh : Subject → Bool
  pub reply : ListReply
  pub ended_after : Bool
  pub ended_mapped : Bool

unfoldable pub map_list_error : String → String → Bool → ListFailure → SelectionError
map_list_error source_id field_selector ended f = elim f.selection [
  | some e ↦ e
  | none ↦
      if ended || f.interrupted
      then selection_error source_id read_interrupted "resource read was interrupted"
      else if f.forbidden
      then selection_error source_id read_forbidden "resource read is forbidden"
      else if not (str_eq field_selector "") && f.rejected
      then selection_error source_id unsupported_selector
          "field selector is unsupported for the resolved resource"
      else selection_error source_id read_unavailable "resource list is unavailable"
]

-- A call of `List` of the lister: the permit and the options of the request, and the round in which it
-- is answered.
pub record ListCall : Type 0 where
  pub permit : Option AuthorizedRead
  pub label_selector : String
  pub field_selector : String
  pub limit : ℤ
  pub token : String
  pub answered : Round

-- How a turn of the loop ends.
pub data Turn : Type 0 where
  again : Progress → Turn
  listed : Progress → Turn
  failed : SelectionError → Turn

-- How a run ends, with the rounds that it has not used, or that it waits for one more.
pub data Run (A : Type 0) : Type 0 where
  waiting : Progress → Run A
  stopped : SelectionError → List Round → Run A
  finished : A → List Round → Run A

-- A read that is not set is the zero value, whose capability is not valid.
unfoldable pub valid_slot : Option AuthorizedRead → Bool
valid_slot none = false
valid_slot (some read) = valid_read read

unfoldable pub current_slot : (Subject → Bool) → Option AuthorizedRead → Bool
current_slot fresh none = false
current_slot fresh (some read) = is_capability_current (some fresh) read.capability

abbrev pub start : SelectionBudget → Progress
start budget = record { items = []; accepted = []; token = ""; restarted = false; budget = budget }

-- What the loop over the reads has collected.
abbrev pub Collected : Type 0
Collected = List SelectedResource × SelectionBudget

module _ (canonical_size : Fields → Option ℕ) (e : Executor) (p : SelectionPlan) where
  abbrev refuse : SelectionErrorReason → String → Turn
  refuse reason message = failed (selection_error p.source_id reason message)

  unfoldable pub on_failure : Round → Progress → ListFailure → Turn
  unfolding map_list_error
  on_failure round s f =
      if round.ended_after
      then refuse read_interrupted "resource read was interrupted"
      else if f.expired
      then (if s.restarted
          then refuse list_expired "resource list continuation expired"
          else again (restart s))
      else failed (map_list_error p.source_id p.field_selector round.ended_mapped f)

  unfoldable pub on_page : String → Result SelectionError Progress → Turn
  on_page token (err x) = failed x
  on_page token (ok s) =
      if str_eq token ""
      then listed (record s { token = token })
      else again (record s { token = token })

  unfoldable pub on_reply : Round → Progress → ListReply → Turn
  unfolding on_failure on_page
  on_reply round s (page items token) = on_page token (take_items canonical_size e p items s)
  on_reply round s no_response = refuse read_unavailable "resource list returned no response"
  on_reply round s (list_failed f) = on_failure round s f

  abbrev pub call_of : Option AuthorizedRead → Round → Progress → ListCall
  call_of read round s = record {
    permit = read;
    label_selector = p.label_selector;
    field_selector = p.field_selector;
    limit = e.page_limit;
    token = s.token;
    answered = round;
  }

  -- One turn of the loop of `listTarget`: the calls of `List` that it makes, and how it ends.
  unfoldable pub called_turn : Option AuthorizedRead → Round → Progress → List ListCall × Turn
  unfolding on_reply valid_slot current_slot
  called_turn read round s =
      if round.ended
      then ([], refuse read_interrupted "resource read was interrupted")
      else if not (valid_slot read)
      then ([], refuse authorization_mismatch "authorized read does not match its exact capability")
      else if not e.verified
      then ([], refuse authorization_missing "authorization freshness verifier is not configured")
      else if not (current_slot round.fresh read)
      then ([], refuse authorization_stale "authorization capability is no longer current")
      else (call_of read round s ∷ [], on_reply round s round.reply)

  unfoldable pub turn : Option AuthorizedRead → Round → Progress → Turn
  unfolding called_turn
  turn read round s = (called_turn read round s).1

  -- The calls of `List` that the loop makes, in order, whichever way it ends.
  unfoldable pub list_calls : Option AuthorizedRead → Progress → List Round → List ListCall
  unfolding turn
  list_calls read s [] = []
  list_calls read s (round ∷ rounds) = (called_turn read round s).0 ++ (elim (turn read round s) [
    | again t ↦ list_calls read t rounds
    | listed t ↦ []
    | failed x ↦ []
  ])

  unfoldable pub list_target : Option AuthorizedRead → Progress → List Round → Run Progress
  unfolding turn
  list_target read s [] = waiting s
  list_target read s (round ∷ rounds) = elim (turn read round s) [
    | again t ↦ list_target read t rounds
    | listed t ↦ finished t rounds
    | failed x ↦ stopped x rounds
  ]

  -- The loop over the reads.
  unfoldable pub list_targets :
      List (Option AuthorizedRead) → Collected → List Round → Run Collected
  unfolding list_target
  list_targets [] c rounds = finished c rounds
  list_targets (read ∷ reads) c rounds = elim (list_target read (start c.1) rounds) [
    | waiting s ↦ waiting s
    | stopped x rest ↦ stopped x rest
    | finished s rest ↦ list_targets reads (c.0 ++ s.items, s.budget) rest
  ]
