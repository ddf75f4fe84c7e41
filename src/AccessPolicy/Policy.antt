-- ===== src/AccessPolicy/Policy.antt =====
-- api/v1alpha1/facet_access_policy_types.go and the types of internal/accesspolicy.
use kubeseer.Prelude.{String, Option, Bool, List}
use kubeseer.Prelude.Int.{ℤ}

-- The tests of k8s.io/apimachinery/pkg/util/validation that the package calls: a text passes where the
-- function returns no problem.
pub record NameTests : Type 0 where
  pub is_dns1123_label : String → Bool
  pub is_dns1123_subdomain : String → Bool

abbrev pub installation_access_ceiling_name : String
installation_access_ceiling_name = "installation-access-ceiling"

-- `system_namespaces` is `none` where the code's slice is nil.
pub record NamespacePolicy : Type 0 where
  pub mode : String
  pub include : List String
  pub exclude : List String
  pub system_namespaces : Option (List String)

pub record ResourceRule : Type 0 where
  pub api_groups : List String
  pub kinds : List String

-- The name, UID and generation are those of the object's metadata; the rest is its `spec`.
pub record FacetAccessPolicy : Type 0 where
  pub name : String
  pub uid : String
  pub generation : ℤ
  pub namespaces : NamespacePolicy
  pub resources : List ResourceRule
  pub allow_cluster_scoped : Bool

pub record PolicyIdentity : Type 0 where
  pub name : String
  pub uid : String
  pub generation : ℤ

-- `other_reason` is any other value of the string type.
pub data PolicyReason : Type 0 where
  allowed policy_missing policy_invalid policy_unavailable : PolicyReason
  invalid_request resource_denied cluster_scope_denied namespace_denied : PolicyReason
  other_reason : String → PolicyReason

pub record PolicyError : Type 0 where
  pub reason : PolicyReason
  pub field : String
  pub message : String

pub record ResourceKey : Type 0 where
  pub api_group : String
  pub kind : String

-- The maps to the empty struct are sets, listed.
pub record CompiledPolicy : Type 0 where
  pub namespace_mode : String
  pub included_namespaces : List String
  pub excluded_namespaces : List String
  pub system_namespaces : List String
  pub allowed_resources : List ResourceKey
  pub allow_cluster_scoped : Bool
  pub policy_identity : Option PolicyIdentity

pub data Scope : Type 0 where
  scope_namespaced scope_cluster : Scope
  other_scope : String → Scope

pub record Request : Type 0 where
  pub source_id : String
  pub api_group : String
  pub kind : String
  pub namespace : String
  pub scope : Scope

pub record Decision : Type 0 where
  pub allowed : Bool
  pub reason : PolicyReason
  pub message : String
