-- ===== src/Extraction/Json.antt =====
-- The native JSON values that internal/extraction/evaluator.go walks, and the results of its steps.
use kubeseer.Prelude.{
  ℕ, zero, suc, String, Option, none, some, Bool, true, false, ◌&&◌, List, [], ◌∷◌, ◌==◌,
  if◌then◌else◌,
}
use kubeseer.Prelude.Int.{ℤ}
use kubeseer.Extraction.Syntax.{Bytes}

-- The dynamic types of `cloneJSONValue`; a float64 stands as its bits, a json.Number as its text, and
-- `other` is a value of any other Go type.
mutual
  pub data Json : Type 0 where
    null : Json
    boolean : Bool → Json
    text : Bytes → Json
    int64 : ℤ → Json
    float64 : ℕ → Json
    number : Bytes → Json
    object : Fields → Json
    array : Items → Json
    other : ℕ → Json

  pub data Fields : Type 0 where
    no_fields : Fields
    field : Bytes → Json → Fields → Fields

  pub data Items : Type 0 where
    no_items : Items
    item : Json → Items → Items

-- `ExtractionErrorReason`, as far as the evaluator uses it.
pub data EvaluationReason : Type 0 where
  evaluation_type_mismatch invalid_resource extraction_interrupted : EvaluationReason

pub record EvaluationError : Type 0 where
  pub source_id : String
  pub field_name : String
  pub reason : EvaluationReason
  pub message : String

-- A context that ends after that many calls of `Err`, or never. Once ended it stays so.
abbrev pub Context : Type 0
Context = Option ℕ

unfoldable pub check : Context → Option Context
check none = some none
check (some zero) = none
check (some (suc n)) = some (some n)

unfoldable pub bytes_eq : Bytes → Bytes → Bool
bytes_eq [] [] = true
bytes_eq [] (d ∷ ds) = false
bytes_eq (c ∷ cs) [] = false
bytes_eq (c ∷ cs) (d ∷ ds) = c == d && bytes_eq cs ds

unfoldable pub get : Bytes → Fields → Option Json
get key no_fields = none
get key (field name value rest) = if bytes_eq name key then some value else get key rest

unfoldable pub at : ℕ → Items → Option Json
at n no_items = none
at zero (item value rest) = some value
at (suc n) (item value rest) = at n rest

unfoldable pub items_list : Items → List Json
items_list no_items = []
items_list (item value rest) = value ∷ items_list rest

-- `cloneJSONValue`, which copies a value that holds native values only.
unfoldable mutual
  pub clone : Json → Option Json
  clone null = some null
  clone (boolean b) = some (boolean b)
  clone (text s) = some (text s)
  clone (int64 n) = some (int64 n)
  clone (float64 n) = some (float64 n)
  clone (number s) = some (number s)
  clone (object fields) = elim (clone_fields fields) [
    | none ↦ none
    | some copy ↦ some (object copy)
  ]
  clone (array items) = elim (clone_items items) [ none ↦ none | some copy ↦ some (array copy) ]
  clone (other n) = none

  pub clone_fields : Fields → Option Fields
  clone_fields no_fields = some no_fields
  clone_fields (field name value rest) = elim (clone value) [
    | none ↦ none
    | some copy ↦ elim (clone_fields rest) [
      | none ↦ none
      | some copies ↦ some (field name copy copies)
    ]
  ]

  pub clone_items : Items → Option Items
  clone_items no_items = some no_items
  clone_items (item value rest) = elim (clone value) [
    | none ↦ none
    | some copy ↦ elim (clone_items rest) [ none ↦ none | some copies ↦ some (item copy copies) ]
  ]
