-- ===== src/Facet.antt =====
-- api/v1alpha1/facet_types.go: the specification of a Facet. A nil pointer is `none`, a Go map a list of its
-- entries. A string type is the data type of its named values, and any other text.
use kubeseer.Prelude.{String, Option, Bool, List}
use kubeseer.Prelude.Int.{ℤ}

pub data FacetAggregationFunction : Type 0 where
  aggregation_collect aggregation_count aggregation_sum aggregation_min : FacetAggregationFunction
  aggregation_max aggregation_average aggregation_first : FacetAggregationFunction
  aggregation_last aggregation_distinct : FacetAggregationFunction
  other_function : String → FacetAggregationFunction

pub data FacetRoundingMode : Type 0 where
  rounding_half_even rounding_half_away_from_zero : FacetRoundingMode
  rounding_toward_zero rounding_away_from_zero : FacetRoundingMode
  other_mode : String → FacetRoundingMode

pub record FacetAggregation : Type 0 where
  pub name : String
  pub function : FacetAggregationFunction
  pub field : String
  pub group_by : List String
  pub include_provenance : Bool
  pub precision : Option ℤ
  pub rounding_mode : FacetRoundingMode

pub data FacetValueType : Type 0 where
  value_type_string value_type_integer value_type_number value_type_boolean : FacetValueType
  value_type_timestamp value_type_duration value_type_quantity : FacetValueType
  value_type_object value_type_list : FacetValueType
  other_type : String → FacetValueType

pub data FacetOperatorName : Type 0 where
  operator_eq operator_ne operator_gt operator_gte operator_lt operator_lte : FacetOperatorName
  operator_contains operator_starts_with operator_ends_with operator_matches : FacetOperatorName
  operator_exists operator_not_exists operator_in operator_not_in : FacetOperatorName
  operator_default operator_coalesce : FacetOperatorName
  other_operator : String → FacetOperatorName

pub data FacetMatchState : Type 0 where
  match_state_value match_state_null : FacetMatchState
  other_state : String → FacetMatchState

pub record FacetOperatorOperand : Type 0 where
  pub state : FacetMatchState
  pub string_value : Option String
  pub integer_value : Option ℤ
  pub number_value : Option String
  pub boolean_value : Option Bool
  pub timestamp_value : Option String
  pub duration_value : Option String
  pub quantity_value : Option String
  pub object_value : Option String
  pub list_value : Option String

pub record FacetOperator : Type 0 where
  pub operator : FacetOperatorName
  pub value : Option FacetOperatorOperand
  pub values : List FacetOperatorOperand

pub record FacetField : Type 0 where
  pub name : String
  pub path : String
  pub value_type : FacetValueType
  pub operators : List FacetOperator

pub record ResourceReference : Type 0 where
  pub api_version : String
  pub kind : String

-- metav1.LabelSelectorRequirement.
pub record LabelSelectorRequirement : Type 0 where
  pub key : String
  pub operator : String
  pub values : List String

pub record NamespaceSelection : Type 0 where
  pub names : List String

pub record ResourceSelector : Type 0 where
  pub name : String
  pub match_labels : List (String × String)
  pub match_expressions : List LabelSelectorRequirement
  pub field_selector : String

pub record FacetSource : Type 0 where
  pub id : String
  pub resource : ResourceReference
  pub namespaces : Option NamespaceSelection
  pub selector : Option ResourceSelector
  pub fields : List FacetField
  pub aggregations : List FacetAggregation

pub record FacetSpec : Type 0 where
  pub sources : List FacetSource
