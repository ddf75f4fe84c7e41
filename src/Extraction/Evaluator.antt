-- ===== src/Extraction/Evaluator.antt =====
-- internal/extraction/evaluator.go. Each result carries the context on, which counts the calls of `Err`.
use kubeseer.Prelude.{String, Option, none, some, List, [], ◌∷◌, ◌++◌}
use kubeseer.Prelude.Result.{Result, ok, err, ◌>>=◌}
use kubeseer.Extraction.Syntax.{Operation, property, index, wildcard}
use kubeseer.Extraction.Json.{
  Json, object, array, Fields, Items, no_items, item, EvaluationReason, evaluation_type_mismatch,
  invalid_resource, extraction_interrupted, EvaluationError, Context, check, get, at, clone,
  clone_fields,
}

abbrev pub option_list : Option Json → List Json
option_list none = []
option_list (some value) = value ∷ []

-- `FieldPlan`, and `FieldOutcome` with the values of its `MatchSet`.
pub record FieldPlan : Type 0 where
  pub name : String
  pub ops : List Operation

pub record FieldOutcome : Type 0 where
  pub field_name : String
  pub matches : List Json

module _ (source_id field_name : String) where
  abbrev pub resource_error : EvaluationReason → String → EvaluationError
  resource_error reason message = record {
    source_id = source_id;
    field_name = field_name;
    reason = reason;
    message = message;
  }

  abbrev pub interrupted : EvaluationError
  interrupted = resource_error extraction_interrupted "extraction interrupted"

  -- `if err := ctx.Err(); err != nil` in front of what follows.
  unfoldable pub unless_ended :
      {A : Type 0} → Context → (Context → Result EvaluationError A) → Result EvaluationError A
  unless_ended ctx next = elim (check ctx) [ none ↦ err interrupted | some rest ↦ next rest ]

  -- The loop over the values of an array.
  unfoldable pub append_items : Context → Items → Result EvaluationError (List Json × Context)
  append_items ctx no_items = ok ([], ctx)
  append_items ctx (item value items) =
      unless_ended ctx λ rest. append_items rest items >>= λ r. ok (value ∷ r.0, r.1)

  -- The `switch` on the kind of the operation.
  unfoldable pub access : Context → Operation → Json → Result EvaluationError (List Json × Context)
  access ctx (property key) (object fields) = ok (option_list (get key fields), ctx)
  access ctx (property key) _ =
      err (resource_error evaluation_type_mismatch "property access requires an object")
  access ctx (index n) (array items) = ok (option_list (at n items), ctx)
  access ctx (index n) _ =
      err (resource_error evaluation_type_mismatch "array index requires an array")
  access ctx wildcard (array items) = append_items ctx items
  access ctx wildcard _ =
      err (resource_error evaluation_type_mismatch "array wildcard requires an array")

  unfoldable pub evaluate_branches :
      Context → Operation → List Json → Result EvaluationError (List Json × Context)
  evaluate_branches ctx op [] = ok ([], ctx)
  evaluate_branches ctx op (branch ∷ branches) = unless_ended ctx λ rest.
      access rest op branch >>= λ r. evaluate_branches r.1 op branches >>= λ q. ok (r.0 ++ q.0, q.1)

  unfoldable pub evaluate_operations :
      Context → List Operation → List Json → Result EvaluationError (List Json × Context)
  evaluate_operations ctx [] branches = ok (branches, ctx)
  evaluate_operations ctx (op ∷ ops) branches =
      unless_ended ctx
        λ rest. evaluate_branches rest op branches >>= λ r. evaluate_operations r.1 ops r.0

  unfoldable pub clone_branch : Json → Result EvaluationError Json
  clone_branch branch = elim (clone branch) [
    | none ↦
        err (resource_error invalid_resource "selected resource contains an invalid native value")
    | some copy ↦ ok copy
  ]

  unfoldable pub clone_branches : Context → List Json → Result EvaluationError (List Json × Context)
  clone_branches ctx [] = ok ([], ctx)
  clone_branches ctx (branch ∷ branches) = unless_ended ctx λ rest.
      clone_branch branch >>= λ copy. clone_branches rest branches >>= λ r. ok (copy ∷ r.0, r.1)

  unfoldable pub evaluate_field :
      Context → List Operation → Fields → Result EvaluationError (List Json × Context)
  evaluate_field ctx ops root =
      evaluate_operations ctx ops (object root ∷ []) >>= λ r. clone_branches r.1 r.0

module _ (source_id : String) where
  -- The loop over the fields of the plan.
  unfoldable pub evaluate_fields :
      Context → List FieldPlan → Fields → Result EvaluationError (List FieldOutcome)
  evaluate_fields ctx [] root = ok []
  evaluate_fields ctx (plan ∷ plans) root = unless_ended source_id plan.name ctx λ rest.
      evaluate_field source_id plan.name rest plan.ops root >>= λ r.
      evaluate_fields r.1 plans root >>= λ outcomes.
      ok (record { field_name = plan.name; matches = r.0 } ∷ outcomes)

  -- Behind the copy that tests the resource.
  unfoldable pub evaluate_copied :
      List FieldPlan → Fields → Option Fields → Context → Result EvaluationError (List FieldOutcome)
  evaluate_copied plans root none ctx = err (
      resource_error source_id "" invalid_resource
        "selected resource contains an invalid native value")
  evaluate_copied plans root (some _) ctx = evaluate_fields ctx plans root

  unfoldable pub evaluate_object :
      List FieldPlan → Option Fields → Context → Result EvaluationError (List FieldOutcome)
  unfolding evaluate_copied
  evaluate_object plans none ctx =
      err (resource_error source_id "" invalid_resource "selected resource is not a valid object")
  evaluate_object plans (some root) ctx = evaluate_copied plans root (clone_fields root) ctx

  -- `EvaluateResource`; `none` is a nil object. Of the outcome the provenance, which is the resource's, is
  -- left out.
  unfoldable pub evaluate_resource :
      Context → List FieldPlan → Option Fields → Result EvaluationError (List FieldOutcome)
  unfolding evaluate_object
  evaluate_resource ctx plans resource =
      unless_ended source_id "" ctx (evaluate_object plans resource)
