-- ===== src/Admission/Contracts.antt =====
-- internal/admission/contracts.go: issues, their order and the class of a result, which is its list of
-- issues; and the answer of internal/admission/webhook.go to a result.
use kubeseer.Prelude.{
  ℕ, String, str_append, str_eq, Option, none, some, Bool, true, false, not, List, [], ◌∷◌, map,
  length, if◌then◌else◌,
}
use kubeseer.Prelude.Text.{decimal, str_ltb}
use kubeseer.Prelude.Sort.{sort_stable}

pub data Class : Type 0 where
  invalid forbidden unavailable : Class

pub record Issue : Type 0 where
  pub path : String
  pub reason : String
  pub message : String
  pub class : Class

class_text : Class → String
class_text invalid = "Invalid"
class_text forbidden = "Forbidden"
class_text unavailable = "ValidationUnavailable"

unfoldable pub valid : List Issue → Bool
valid [] = true
valid (issue ∷ issues) = false

unfoldable pub class_with : Option Class → Class → Option Class
class_with class invalid = some invalid
class_with class forbidden = some forbidden
class_with none unavailable = some unavailable
class_with (some class) unavailable = some class

-- The loop of `Result.Class`; `none` is the empty class.
unfoldable pub class_from : Option Class → List Issue → Option Class
unfolding class_with
class_from class [] = class
class_from class (issue ∷ issues) = elim issue.class [
  | invalid ↦ some invalid
  | forbidden ↦ class_from (class_with class forbidden) issues
  | unavailable ↦ class_from (class_with class unavailable) issues
]

unfoldable pub result_class : List Issue → Option Class
unfolding class_from
result_class issues = class_from none issues

-- The `less` of `SortIssues`.
unfoldable pub issue_before : Issue → Issue → Bool
unfolding class_text
issue_before left right =
    if not (str_eq left.path right.path)
    then str_ltb left.path right.path
    else if not (str_eq left.reason right.reason)
    then str_ltb left.reason right.reason
    else if not (str_eq left.message right.message)
    then str_ltb left.message right.message
    else str_ltb (class_text left.class) (class_text right.class)

unfoldable pub sort_issues : List Issue → List Issue
unfolding issue_before
sort_issues issues = sort_stable issue_before issues

unfoldable pub result : List Issue → List Issue
unfolding sort_issues
result issues = sort_issues issues

unfoldable pub invalid_issue : String → String → String → Issue
invalid_issue path reason message = record {
  path = path;
  reason = reason;
  message = message;
  class = invalid;
}

pub record StatusCause : Type 0 where
  pub cause_type : String
  pub field : String
  pub message : String

-- The status of the error that the webhook returns.
pub record StatusError : Type 0 where
  pub code : ℕ
  pub reason : String
  pub message : String
  pub causes : List StatusCause

abbrev pub cause_of : Issue → StatusCause
cause_of issue = record { cause_type = issue.reason; field = issue.path; message = issue.message }

unfoldable pub status_code : Option Class → ℕ
status_code (some forbidden) = 403
status_code (some unavailable) = 503
status_code _ = 422

unfoldable pub status_reason : Option Class → String
status_reason (some forbidden) = "Forbidden"
status_reason (some unavailable) = "ServiceUnavailable"
status_reason _ = "Invalid"

-- `resultError`; `none` is the nil error.
unfoldable pub result_error : String → List Issue → Option StatusError
unfolding result_class sort_issues status_code status_reason
result_error kind validation =
    if valid validation
    then none
    else some (record {
      code = status_code (result_class validation);
      reason = status_reason (result_class validation);
      message = str_append kind (
          str_append " admission validation failed with "
            (str_append (decimal (length (sort_issues validation))) " issue(s)"));
      causes = map cause_of (sort_issues validation);
    })

unfoldable pub unavailable_error : String → Option StatusError
unfolding result_error result
unavailable_error kind = result_error kind (
    result (
      record {
        path = "spec";
        reason = "ValidationUnavailable";
        message = "admission validation is unavailable";
        class = unavailable;
      }
      ∷ []))
