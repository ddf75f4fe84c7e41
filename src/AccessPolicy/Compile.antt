-- ===== src/AccessPolicy/Compile.antt =====
-- internal/accesspolicy/compiler.go: `Compile`.
use kubeseer.Prelude.{String, Option, none, some, List, [], ◌∷◌, ◌++◌, map}
use kubeseer.Prelude.Result.{Result, ok, err}
use kubeseer.AccessPolicy.Policy.{
  NameTests, ResourceRule, FacetAccessPolicy, policy_invalid, PolicyError, ResourceKey,
  CompiledPolicy,
}
use kubeseer.AccessPolicy.Validate.{validate}

-- `make(map)` and an assignment for each value, as a set.
unfoldable pub copy_string_set : List String → List String
copy_string_set values = values

unfoldable pub kind_keys : String → List String → List ResourceKey
kind_keys group kinds = map (λ kind. record { api_group = group; kind = kind }) kinds

unfoldable pub group_keys : List String → List String → List ResourceKey
unfolding kind_keys
group_keys [] kinds = []
group_keys (group ∷ groups) kinds = kind_keys group kinds ++ group_keys groups kinds

unfoldable pub rule_keys : List ResourceRule → List ResourceKey
unfolding group_keys
rule_keys [] = []
rule_keys (rule ∷ rules) = group_keys rule.api_groups rule.kinds ++ rule_keys rules

abbrev pub default_system_namespaces : List String
default_system_namespaces = "kube-system" ∷ "kube-public" ∷ "kube-node-lease" ∷ []

abbrev pub system_or_default : Option (List String) → List String
system_or_default none = default_system_namespaces
system_or_default (some values) = values

unfoldable pub compiled : FacetAccessPolicy → CompiledPolicy
unfolding copy_string_set
compiled policy = record {
  namespace_mode = policy.namespaces.mode;
  included_namespaces = copy_string_set policy.namespaces.include;
  excluded_namespaces = copy_string_set policy.namespaces.exclude;
  system_namespaces = copy_string_set (system_or_default policy.namespaces.system_namespaces);
  allowed_resources = rule_keys policy.resources;
  allow_cluster_scoped = policy.allow_cluster_scoped;
  policy_identity =
      some (record { name = policy.name; uid = policy.uid; generation = policy.generation });
}

-- `issues[0]` of a list that is not empty, or the compiled policy. A nil policy always has an issue.
unfoldable pub compile_checked :
    List PolicyError → Option FacetAccessPolicy → Result PolicyError CompiledPolicy
compile_checked (e ∷ _) policy = err e
compile_checked [] (some policy) = ok (compiled policy)
compile_checked [] none =
    err (record { reason = policy_invalid; field = "policy"; message = "must not be nil" })

unfoldable pub compile : NameTests → Option FacetAccessPolicy → Result PolicyError CompiledPolicy
unfolding compile_checked
compile tests policy = compile_checked (validate tests policy) policy
