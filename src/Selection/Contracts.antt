-- ===== src/Selection/Contracts.antt =====
-- internal/selection/contracts.go and the types of internal/discovery/contracts.go that it uses.
-- The cause of an error is left out.
use kubeseer.Prelude.{String, str_eq, Bool, true, false, ◌&&◌, List}
use kubeseer.AccessPolicy.Policy.{Scope, scope_namespaced, scope_cluster, other_scope, Request}
use kubeseer.AccessPolicy.Evaluate.{valid_scope}
use kubeseer.Authorization.Contracts.{Capability, valid}

pub data SelectionErrorReason : Type 0 where
  invalid_source invalid_namespace_scope invalid_selector : SelectionErrorReason
  authorization_missing authorization_denied authorization_mismatch : SelectionErrorReason
  authorization_stale read_forbidden unsupported_selector read_interrupted : SelectionErrorReason
  read_unavailable list_expired invalid_object selection_limit_exceeded : SelectionErrorReason

pub record SelectionError : Type 0 where
  pub source_id : String
  pub reason : SelectionErrorReason
  pub message : String

abbrev pub selection_error : String → SelectionErrorReason → String → SelectionError
selection_error source_id reason message = record {
  source_id = source_id;
  reason = reason;
  message = message;
}

-- schema.GroupVersionResource.
pub record GroupVersionResource : Type 0 where
  pub group : String
  pub version : String
  pub resource : String

pub record ReadTarget : Type 0 where
  pub source_id : String
  pub gvr : GroupVersionResource
  pub kind : String
  pub scope : Scope
  pub namespace : String

pub record SelectionPlan : Type 0 where
  pub source_id : String
  pub api_version : String
  pub kind : String
  pub targets : List ReadTarget
  pub label_selector : String
  pub field_selector : String

-- discovery.SourceDescriptor, Resolution and ResolutionError.
pub record SourceDescriptor : Type 0 where
  pub source_id : String
  pub api_version : String
  pub kind : String

pub record Resolution : Type 0 where
  pub source_id : String
  pub resource : GroupVersionResource
  pub scope : Scope

pub data ResolutionErrorReason : Type 0 where
  unknown_type discovery_unavailable invalid_descriptor : ResolutionErrorReason
  ambiguous_resource invalid_scope : ResolutionErrorReason

pub record ResolutionError : Type 0 where
  pub source_id : String
  pub reason : ResolutionErrorReason
  pub message : String

-- The Go `==` on scopes and on requests.
unfoldable pub scope_eq : Scope → Scope → Bool
scope_eq scope_namespaced scope_namespaced = true
scope_eq scope_cluster scope_cluster = true
scope_eq (other_scope a) (other_scope b) = str_eq a b
scope_eq _ _ = false

unfoldable pub request_eq : Request → Request → Bool
unfolding scope_eq
request_eq a b =
    str_eq a.source_id b.source_id
    && str_eq a.api_group b.api_group
    && str_eq a.kind b.kind
    && str_eq a.namespace b.namespace
    && scope_eq a.scope b.scope

-- `RequestForTarget` of binder.go.
unfoldable pub request_for_target : ReadTarget → Request
request_for_target target = record {
  source_id = target.source_id;
  api_group = target.gvr.group;
  kind = target.kind;
  namespace = target.namespace;
  scope = target.scope;
}

pub record AuthorizedRead : Type 0 where
  pub target : ReadTarget
  pub capability : Capability

unfoldable pub valid_read : AuthorizedRead → Bool
unfolding request_eq request_for_target
valid_read r =
    valid_scope r.target.scope
    && valid r.capability
    && request_eq r.capability.request (request_for_target r.target)
