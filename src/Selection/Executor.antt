-- ===== src/Selection/Executor.antt =====
-- internal/selection/executor.go: the state of a read, its budget and what it does with the items of a page.
use kubeseer.Prelude.{
  ℕ, String, str_eq, Option, none, some, Bool, true, false, ◌||◌, List, [], ◌∷◌, ◌++◌, length,
  if◌then◌else◌,
}
use kubeseer.Prelude.Int.{ℤ, pos, leb_ℤ}
use kubeseer.Prelude.Result.{Result, ok, err, ◌>>=◌}
use kubeseer.AccessPolicy.Evaluate.{contains}
use kubeseer.Extraction.Json.{Fields}
use kubeseer.Limits.Accountant.{Accountant, new_accountant, add_bytes, release_bytes}
use kubeseer.Selection.Contracts.{
  SelectionError, selection_error, invalid_object, selection_limit_exceeded, SelectionPlan,
}

-- What the code reads of an unstructured object.
pub record Item : Type 0 where
  pub name : String
  pub uid : String
  pub namespace : String
  pub object : Fields

pub record Provenance : Type 0 where
  pub api_version : String
  pub kind : String
  pub namespace : String
  pub name : String
  pub uid : String

pub record SelectedResource : Type 0 where
  pub object : Fields
  pub provenance : Provenance

-- `Executor` as the paging loop reads it; `verified` says that it has a verifier, `has_lister` a lister.
pub record Executor : Type 0 where
  pub page_limit : ℤ
  pub max_resources : ℤ
  pub max_input_bytes : ℤ
  pub verified : Bool
  pub has_lister : Bool

pub record SelectionBudget : Type 0 where
  pub seen : List String
  pub bytes : Option Accountant

pub record SelectedInput : Type 0 where
  pub uid : String
  pub size : ℕ

-- The variables of `listTarget`.
pub record Progress : Type 0 where
  pub items : List SelectedResource
  pub accepted : List SelectedInput
  pub token : String
  pub restarted : Bool
  pub budget : SelectionBudget

unfoldable pub new_selection_budget : ℤ → ℤ → Option SelectionBudget
new_selection_budget max_resources max_input_bytes =
    if leb_ℤ max_resources (pos 0) || leb_ℤ max_input_bytes (pos 0)
    then none
    else elim (new_accountant max_input_bytes "selected-input-bytes") [
      | err e ↦ none
      | ok a ↦ some (record { seen = []; bytes = some a })
    ]

unfoldable pub delete_uid : String → List String → List String
delete_uid uid [] = []
delete_uid uid (x ∷ xs) = let rest = delete_uid uid xs in if str_eq x uid then rest else x ∷ rest

-- The loop that takes back what a target has accepted.
unfoldable pub take_back : List SelectedInput → SelectionBudget → SelectionBudget
unfolding delete_uid
take_back [] budget = budget
take_back (input ∷ inputs) budget = take_back inputs (record {
  seen = delete_uid input.uid budget.seen;
  bytes = (release_bytes budget.bytes (pos input.size)).0;
})

unfoldable pub restart : Progress → Progress
unfolding take_back
restart p = record {
  items = [];
  accepted = [];
  token = "";
  restarted = true;
  budget = take_back p.accepted p.budget;
}

module _ (canonical_size : Fields → Option ℕ) (e : Executor) (p : SelectionPlan) where
  abbrev pub selected : Item → SelectedResource
  selected item = record {
    object = item.object;
    provenance = record {
      api_version = p.api_version;
      kind = p.kind;
      namespace = item.namespace;
      name = item.name;
      uid = item.uid;
    };
  }

  abbrev refuse_limit : String → Result SelectionError Progress
  refuse_limit message = err (selection_error p.source_id selection_limit_exceeded message)

  unfoldable pub keep :
      Item → ℕ → Progress → Option Accountant × Bool → Result SelectionError Progress
  keep item size s (bytes, false) = refuse_limit "selected input byte ceiling exceeded"
  keep item size s (bytes, true) = ok (record s {
    items = s.items ++ (selected item ∷ []);
    accepted = s.accepted ++ (record { uid = item.uid; size = size } ∷ []);
    budget = record { seen = s.budget.seen ++ (item.uid ∷ []); bytes = bytes };
  })

  unfoldable pub granted : Option Accountant → ℕ → Option Accountant × Bool
  granted bytes size = elim (add_bytes bytes (pos size)).1 [
    | none ↦ ((add_bytes bytes (pos size)).0, true)
    | some error ↦ ((add_bytes bytes (pos size)).0, false)
  ]

  -- The body of the loop over the items of a page.
  unfoldable pub take_item : Item → Progress → Result SelectionError Progress
  unfolding keep granted
  take_item item s =
      if str_eq item.name "" || str_eq item.uid ""
      then err (
          selection_error p.source_id invalid_object
            "selected object is missing required identity metadata")
      else if contains s.budget.seen item.uid
      then ok s
      else if leb_ℤ e.max_resources (pos (length s.budget.seen))
      then refuse_limit "selected resource ceiling exceeded"
      else elim (canonical_size item.object) [
        | none ↦ refuse_limit "selected input cannot be canonically sized"
        | some size ↦ keep item size s (granted s.budget.bytes size)
      ]

  unfoldable pub take_items : List Item → Progress → Result SelectionError Progress
  unfolding take_item
  take_items [] s = ok s
  take_items (item ∷ items) s = take_item item s >>= λ t. take_items items t
