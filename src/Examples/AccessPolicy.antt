-- ===== src/Examples/AccessPolicy.antt =====
-- An installation policy, and requests to it.
use kubeseer.Prelude.{
  ℕ, String, str_eq, ◌≡◌, ◌≢◌, ◌↔◌, refl, none, some, Bool, true, false, not, ◌&&◌, ◌||◌, List, [],
  ◌∷◌, ◌==◌,
}
use kubeseer.Prelude.Int.{pos}
use kubeseer.Prelude.Result.{ok}
use kubeseer.Prelude.Text.{decimal, codes, is_lower, is_digit}
use kubeseer.AccessPolicy.Policy.{
  NameTests, FacetAccessPolicy, allowed, scope_namespaced, Request, Scope, namespace_denied,
}
use kubeseer.AccessPolicy.Validate.{
  found_issues, name_issues, mode_issues, validate_namespace_set, validate_items, namespace_problem,
  system_issues, validate_rules, validate_resource_groups, group_problem, validate_kinds,
  groups_issues, kind_problem, kinds_issues, validate_policy, kind_pattern, validate,
}
use kubeseer.Prelude.Sort.{sort_stable, insert_sorted}
use kubeseer.Prelude.Assoc.{lookup, insert}
use kubeseer.AccessPolicy.Compile.{
  compile, compiled, compile_checked, copy_string_set, group_keys, kind_keys, rule_keys,
}
use kubeseer.AccessPolicy.Evaluate.{
  new_snapshot, evaluate, validate_request, evaluate_valid, contains_key, evaluate_namespaced,
  contains, allowed_namespace,
}
use kubeseer.AccessPolicy.Wellformed.{IsWellformed, compile_iff}
use kubeseer.AccessPolicy.Load.{got, load_with_validation}
use kubeseer.AccessPolicy.Loaded.{LoadedLets, load_with_validation-allowed_iff}
use kubeseer.AccessPolicy.Decisions.{Permits, compile-evaluate, evaluate_fails_closed}

unfoldable pub name_codes : (ℕ → Bool) → List ℕ → Bool
name_codes test [] = true
name_codes test (c ∷ cs) = test c && name_codes test cs

abbrev pub names : NameTests
names = record {
  is_dns1123_label =
      λ s. not (str_eq s "") && name_codes (λ c. is_lower c || is_digit c || c == b'-') (codes s);
  is_dns1123_subdomain = λ s.
      not (str_eq s "")
      && name_codes (λ c. is_lower c || is_digit c || c == b'-' || c == b'.') (codes s);
}

abbrev pub policy : FacetAccessPolicy
policy = record {
  name = "installation-access-ceiling";
  uid = "8c1f";
  generation = pos 3;
  namespaces = record {
    mode = "AllNonSystem";
    include = "kube-public" ∷ [];
    exclude = "vault" ∷ [];
    system_namespaces = none;
  };
  resources = record { api_groups = "" ∷ "apps" ∷ []; kinds = "Pod" ∷ "Deployment" ∷ [] } ∷ [];
  allow_cluster_scoped = false;
}

abbrev pub request : String → Scope → Request
request namespace scope = record {
  source_id = "s1";
  api_group = "apps";
  kind = "Deployment";
  namespace = namespace;
  scope = scope;
}

pub compile-policy : compile names (some policy) ≡ ok (compiled policy)
unfolding compile validate sort_stable found_issues name_issues mode_issues validate_namespace_set
    validate_items lookup namespace_problem name_codes system_issues validate_rules
    validate_resource_groups group_problem insert validate_kinds compile_checked compiled
    copy_string_set group_keys kind_keys rule_keys groups_issues kind_pattern kind_problem
    kinds_issues validate_policy insert_sorted decimal
compile-policy = refl

evaluate-excluded :
    (evaluate names
      (new_snapshot (some (compiled policy)))
      (request "vault" scope_namespaced)).reason
    ≡ namespace_denied
unfolding evaluate new_snapshot validate_request kind_pattern name_codes evaluate_valid contains_key
    compiled rule_keys evaluate_namespaced contains
evaluate-excluded = refl

evaluate-included :
    (evaluate names
      (new_snapshot (some (compiled policy)))
      (request "kube-public" scope_namespaced)).allowed
    ≡ true
unfolding evaluate new_snapshot validate_request kind_pattern name_codes evaluate_valid contains_key
    compiled rule_keys evaluate_namespaced contains allowed_namespace
evaluate-included = refl

compile_iff_example :
    (compile names (some policy) ≡ ok (compiled policy))
    ↔ (IsWellformed names policy × (compiled policy ≡ compiled policy))
compile_iff_example = compile_iff names policy (compiled policy)

compile-evaluate_example :
    ((evaluate names
        (new_snapshot (some (compiled policy)))
        (request "kube-public" scope_namespaced)).allowed
      ≡ true)
    ↔ Permits names policy (request "kube-public" scope_namespaced)
compile-evaluate_example =
    compile-evaluate names policy (compiled policy) (request "kube-public" scope_namespaced)
      compile-policy

evaluate_fails_closed_example :
    ((new_snapshot (some (compiled policy))).terminal_reason ≡ none)
    × ((new_snapshot (some (compiled policy))).policy ≢ none)
    × ((evaluate names
          (new_snapshot (some (compiled policy)))
          (request "kube-public" scope_namespaced)).reason
        ≡ allowed)
evaluate_fails_closed_example =
    evaluate_fails_closed names (new_snapshot (some (compiled policy)))
      (request "kube-public" scope_namespaced) evaluate-included

load_with_validation-allowed_iff_example :
    ((evaluate names
        (load_with_validation names (some (got (some policy))) none)
        (request "kube-public" scope_namespaced)).allowed
      ≡ true)
    ↔ LoadedLets names none (request "kube-public" scope_namespaced) (some (got (some policy)))
load_with_validation-allowed_iff_example =
    load_with_validation-allowed_iff names none (request "kube-public" scope_namespaced)
      (some (got (some policy)))
