-- ===== src/Examples/Evaluator.antt =====
-- A field of a small resource.
use kubeseer.Prelude.{◌≡◌, refl, none, some, List, [], ◌∷◌}
use kubeseer.Prelude.Int.{pos}
use kubeseer.Prelude.Text.{codes}
use kubeseer.Prelude.Result.{ok, err}
use kubeseer.Extraction.Syntax.{Operation, property, wildcard}
use kubeseer.Extraction.Json.{
  text, int64, object, array, Fields, no_fields, field, no_items, item, check, get, bytes_eq, clone,
  clone_fields, extraction_interrupted,
}
use kubeseer.Extraction.Evaluator.{
  evaluate_field, evaluate_operations, evaluate_branches, access, append_items, clone_branches,
  clone_branch, unless_ended, evaluate_resource, evaluate_object, evaluate_copied, evaluate_fields,
  FieldOutcome,
}
use kubeseer.Extraction.Interruption.{evaluate_resource_whole}
use kubeseer.Extraction.Selection.{selected, Gives}
use kubeseer.Extraction.Native.{evaluate_field_lem}

-- {"ports": [{"port": 80}, {"name": "x"}, {"port": 443}]}
abbrev service : Fields
service =
    field (codes "ports")
      (array (
        item (object (field (codes "port") (int64 (pos 80)) no_fields)) (
          item (object (field (codes "name") (text (codes "x")) no_fields))
            (item (object (field (codes "port") (int64 (pos 443)) no_fields)) no_items))))
      no_fields

abbrev ports : List Operation
ports = property (codes "ports") ∷ wildcard ∷ property (codes "port") ∷ []

service-copies : clone_fields service ≡ some service
unfolding clone
service-copies = refl

-- A missing key selects nothing.
evaluate-ports :
    evaluate_field "s1" "ports" none ports service
    ≡ ok (int64 (pos 80) ∷ int64 (pos 443) ∷ [], none)
unfolding evaluate_field evaluate_operations evaluate_branches access append_items clone_branches
    clone_branch unless_ended check get bytes_eq clone
evaluate-ports = refl

evaluate_field_lem_example :
    Gives (evaluate_field "s1" "ports" none ports service) (selected ports (object service))
evaluate_field_lem_example = evaluate_field_lem "s1" "ports" ports service service service-copies

abbrev outcomes : List FieldOutcome
outcomes = record { field_name = "ports"; matches = int64 (pos 80) ∷ int64 (pos 443) ∷ [] } ∷ []

evaluate-in_time :
    evaluate_resource "s1" (some 20) (record { name = "ports"; ops = ports } ∷ []) (some service)
    ≡ ok outcomes
unfolding evaluate_resource evaluate_object evaluate_copied evaluate_fields evaluate_field
    evaluate_operations evaluate_branches access append_items clone_branches clone_branch
    unless_ended check get bytes_eq clone
evaluate-in_time = refl

evaluate-interrupted :
    evaluate_resource "s1" (some 5) (record { name = "ports"; ops = ports } ∷ []) (some service)
    ≡ err (record {
      source_id = "s1";
      field_name = "ports";
      reason = extraction_interrupted;
      message = "extraction interrupted";
    })
unfolding evaluate_resource evaluate_object evaluate_copied evaluate_fields evaluate_field
    evaluate_operations evaluate_branches access append_items clone_branches clone_branch
    unless_ended check get bytes_eq clone
evaluate-interrupted = refl

evaluate_resource_whole_example :
    evaluate_resource "s1" none (record { name = "ports"; ops = ports } ∷ []) (some service)
    ≡ ok outcomes
evaluate_resource_whole_example =
    evaluate_resource_whole "s1" (some 20) (record { name = "ports"; ops = ports } ∷ [])
      (some service) outcomes evaluate-in_time
