-- ===== src/AccessPolicy/Validate.antt =====
-- internal/accesspolicy/compiler.go: `Validate`.
use Prim.Native.String.{len}
use kubeseer.Prelude.{
  ℕ, suc, String, str_eq, str_append, Option, none, some, Bool, true, false, not, ◌&&◌, ◌||◌, List,
  [], ◌∷◌, ◌++◌, map, ltb, if◌then◌else◌,
}
use kubeseer.Prelude.Text.{codes, decimal, str_ltb, is_upper, is_lower, is_digit}
use kubeseer.Prelude.Sort.{sort_stable}
use kubeseer.Prelude.Assoc.{lookup, insert, string_eq}
use kubeseer.AccessPolicy.Policy.{
  NameTests, installation_access_ceiling_name, ResourceRule, FacetAccessPolicy, policy_invalid,
  PolicyError,
}

pub record ValidationIssue : Type 0 where
  pub field : String
  pub message : String

abbrev pub issue : String → String → ValidationIssue
issue field message = record { field = field; message = message }

-- `^[A-Z][A-Za-z0-9]*$`
all_alphanumeric : List ℕ → Bool
all_alphanumeric [] = true
all_alphanumeric (c ∷ cs) = (is_upper c || is_lower c || is_digit c) && all_alphanumeric cs

kind_codes : List ℕ → Bool
unfolding all_alphanumeric
kind_codes [] = false
kind_codes (c ∷ cs) = is_upper c && all_alphanumeric cs

unfoldable pub kind_pattern : String → Bool
unfolding kind_codes
kind_pattern kind = kind_codes (codes kind)

-- "field[index]"
item_field : String → ℕ → String
item_field field index = str_append field (str_append "[" (str_append (decimal index) "]"))

-- The loop that the three validations of lists share; `problem` is the message for a bad value.
module _ (problem : String → Option String) (field : String) where
  duplicate_issues : ℕ → Option ℕ → List ValidationIssue
  unfolding item_field
  duplicate_issues index none = []
  duplicate_issues index (some previous) =
      issue (item_field field index) (str_append "duplicates entry at index " (decimal previous))
      ∷ []

  format_issues : ℕ → Option String → List ValidationIssue
  unfolding item_field
  format_issues index none = []
  format_issues index (some message) = issue (item_field field index) message ∷ []

  remember : String → ℕ → Option ℕ → List (String × ℕ) → List (String × ℕ)
  remember value index none seen = insert value index seen
  remember value index (some _) seen = seen

  unfoldable pub validate_items : List (String × ℕ) → ℕ → List String → List ValidationIssue
  unfolding duplicate_issues format_issues remember
  validate_items seen index [] = []
  validate_items seen index (value ∷ values) =
      let previous = lookup value seen in
      (duplicate_issues index previous ++ format_issues index (problem value))
      ++ validate_items (remember value index previous seen) (suc index) values

rule_field : ℕ → String → String
rule_field index name =
    str_append "spec.resources[" (str_append (decimal index) (str_append "]." name))

unfoldable pub name_issues : String → List ValidationIssue
name_issues name =
    if str_eq name installation_access_ceiling_name
    then []
    else issue "metadata.name" "must be installation-access-ceiling" ∷ []

unfoldable pub mode_issues : String → List ValidationIssue
mode_issues mode =
    if str_eq mode "Explicit" || str_eq mode "All" || str_eq mode "AllNonSystem"
    then []
    else issue "spec.namespaces.mode" "must be Explicit, All, or AllNonSystem" ∷ []

abbrev pub issue_less : ValidationIssue → ValidationIssue → Bool
issue_less a b =
    if str_eq a.field b.field then str_ltb a.message b.message else str_ltb a.field b.field

abbrev pub policy_error : ValidationIssue → PolicyError
policy_error i = record { reason = policy_invalid; field = i.field; message = i.message }

module _ (tests : NameTests) where
  open tests use {is_dns1123_label, is_dns1123_subdomain}

  unfoldable pub namespace_problem : String → Option String
  namespace_problem value =
      if is_dns1123_label value then none else some "must be a valid DNS-1123 namespace name"

  unfoldable pub group_problem : String → Option String
  group_problem value =
      if not (str_eq value "") && not (is_dns1123_subdomain value)
      then some "must be empty for the core API group or a valid DNS-1123 subdomain"
      else none

  unfoldable pub kind_problem : String → Option String
  kind_problem value =
      if ltb 63 (len value) || not (kind_pattern value)
      then some "must be a CamelCase Kubernetes Kind without wildcards"
      else none

  unfoldable pub validate_namespace_set : String → List String → List ValidationIssue
  validate_namespace_set field values = validate_items namespace_problem field [] 0 values

  unfoldable pub validate_resource_groups : String → List String → List ValidationIssue
  validate_resource_groups field values = validate_items group_problem field [] 0 values

  unfoldable pub validate_kinds : String → List String → List ValidationIssue
  validate_kinds field values = validate_items kind_problem field [] 0 values

  unfoldable pub groups_issues : String → List String → List ValidationIssue
  groups_issues field [] = issue field "must contain at least one API group" ∷ []
  groups_issues field (group ∷ groups) = validate_resource_groups field (group ∷ groups)

  unfoldable pub kinds_issues : String → List String → List ValidationIssue
  kinds_issues field [] = issue field "must contain at least one Kind" ∷ []
  kinds_issues field (kind ∷ kinds) = validate_kinds field (kind ∷ kinds)

  unfoldable pub validate_rules : ℕ → List ResourceRule → List ValidationIssue
  unfolding rule_field groups_issues kinds_issues
  validate_rules index [] = []
  validate_rules index (rule ∷ rules) =
      (groups_issues (rule_field index "apiGroups") rule.api_groups
        ++ kinds_issues (rule_field index "kinds") rule.kinds)
      ++ validate_rules (suc index) rules

  unfoldable pub system_issues : Option (List String) → List ValidationIssue
  system_issues none = []
  system_issues (some values) = validate_namespace_set "spec.namespaces.systemNamespaces" values

  -- The issues in the order in which they are found.
  unfoldable pub found_issues : FacetAccessPolicy → List ValidationIssue
  found_issues policy =
      name_issues policy.name
      ++ (mode_issues policy.namespaces.mode
          ++ (validate_namespace_set "spec.namespaces.include" policy.namespaces.include
              ++ (validate_namespace_set "spec.namespaces.exclude" policy.namespaces.exclude
                  ++ (system_issues policy.namespaces.system_namespaces
                      ++ validate_rules 0 policy.resources))))

  unfoldable pub validate_policy : Option FacetAccessPolicy → List ValidationIssue
  validate_policy none = issue "policy" "must not be nil" ∷ []
  validate_policy (some policy) = sort_stable issue_less (found_issues policy)

  unfoldable pub validate : Option FacetAccessPolicy → List PolicyError
  unfolding validate_policy
  validate policy = map policy_error (validate_policy policy)
