-- ===== src/Selection/Planner.antt =====
-- internal/selection/planner.go. The selectors of k8s.io/apimachinery and the discovery resolver are
-- parameters; `none` stands for an error of the former.
use Prim.Native.String.{len}
use kubeseer.Prelude.{
  ℕ, String, str_eq, Option, none, some, Bool, true, not, ◌&&◌, ◌||◌, ◌==◌, List, [], ◌∷◌, map, ltb,
  leb, if◌then◌else◌,
}
use kubeseer.Prelude.Text.{codes, str_ltb}
use kubeseer.Prelude.Sort.{sort_stable}
use kubeseer.Prelude.Result.{Result, ok, err, ◌>>=◌}
use kubeseer.Facet.{FacetSource, NamespaceSelection, ResourceSelector, LabelSelectorRequirement}
use kubeseer.AccessPolicy.Policy.{NameTests, Scope, scope_cluster}
use kubeseer.AccessPolicy.Evaluate.{contains, valid_scope}
use kubeseer.Selection.Contracts.{
  SelectionError, selection_error, invalid_source, invalid_namespace_scope, invalid_selector,
  ReadTarget, SelectionPlan, SourceDescriptor, Resolution, ResolutionError,
}

-- The selectors: metav1.LabelSelectorAsSelector with its `String`, fields.ParseSelector and what is
-- called on its results.
pub record Selectors (F : Type 0) : Type 0 where
  pub every_label : String
  pub every_field : String
  pub label_selector : List (String × String) → List LabelSelectorRequirement → Option String
  pub parse_fields : String → Option F
  pub equals : String → String → F
  pub both : F → F → F
  pub text : F → String

-- unicode.IsSpace.
unfoldable pub is_space : ℕ → Bool
is_space c =
    (leb 9 c && leb c 13)
    || c == 32
    || c == 133
    || c == 160
    || c == 5760
    || (leb 8192 c && leb c 8202)
    || c == 8232
    || c == 8233
    || c == 8239
    || c == 8287
    || c == 12288

unfoldable pub all_spaces : List ℕ → Bool
unfolding is_space
all_spaces [] = true
all_spaces (c ∷ cs) = is_space c && all_spaces cs

-- strings.TrimSpace(text) == ""
unfoldable pub blank : String → Bool
unfolding all_spaces
blank text = all_spaces (codes text)

-- The error of `Plan`: its own, or the resolver's.
pub data PlanError : Type 0 where
  of_selection : SelectionError → PlanError
  of_resolution : ResolutionError → PlanError

unfoldable pub read_target : String → String → Resolution → String → ReadTarget
read_target source_id kind resolution namespace = record {
  source_id = source_id;
  gvr = resolution.resource;
  kind = kind;
  scope = resolution.scope;
  namespace = namespace;
}

unfoldable pub cluster_targets :
    String
    → String
    → Resolution
    → Option NamespaceSelection
    → Result SelectionError (List ReadTarget)
unfolding read_target
cluster_targets source_id kind resolution (some selection) = err (
    selection_error source_id invalid_namespace_scope
      "cluster-scoped resources cannot declare namespaces")
cluster_targets source_id kind resolution none = ok (read_target source_id kind resolution "" ∷ [])

unfoldable pub complete : Resolution → Bool
complete r =
    valid_scope r.scope && not (str_eq r.resource.resource "") && not (str_eq r.resource.version "")

unfoldable pub selection_result : {A : Type 0} → Result SelectionError A → Result PlanError A
selection_result (err e) = err (of_selection e)
selection_result (ok a) = ok a

module _ (tests : NameTests) where
  -- `none` is the nil error.
  unfoldable pub source_problem : FacetSource → Option String
  unfolding blank
  source_problem source =
      if str_eq source.id "" || ltb 63 (len source.id) || not (tests.is_dns1123_label source.id)
      then some "source ID must be a valid DNS-1123 label"
      else if blank source.resource.api_version
      then some "resource apiVersion must not be empty"
      else if blank source.resource.kind
      then some "resource Kind must not be empty"
      else none

  -- The loop over the namespaces, with those seen so far.
  unfoldable pub namespaces_problem : List String → List String → Option String
  namespaces_problem seen [] = none
  namespaces_problem seen (namespace ∷ namespaces) =
      let rest = namespaces_problem (namespace ∷ seen) namespaces in
      if not (tests.is_dns1123_label namespace)
      then some "namespace must be a valid DNS-1123 label"
      else if contains seen namespace
      then some "namespace names must be distinct"
      else rest

  unfoldable pub targets_of :
      String
      → String
      → Resolution
      → Option String
      → List String
      → Result SelectionError (List ReadTarget)
  unfolding read_target
  targets_of source_id kind resolution (some message) namespaces =
      err (selection_error source_id invalid_namespace_scope message)
  targets_of source_id kind resolution none namespaces =
      ok (map (read_target source_id kind resolution) (sort_stable str_ltb namespaces))

  unfoldable pub namespaced_targets :
      String
      → String
      → Resolution
      → String
      → Option NamespaceSelection
      → Result SelectionError (List ReadTarget)
  unfolding targets_of
  namespaced_targets source_id kind resolution owner (some selection) =
      targets_of source_id kind resolution (namespaces_problem [] selection.names) selection.names
  namespaced_targets source_id kind resolution owner none =
      if str_eq owner ""
      then err (
          selection_error source_id invalid_namespace_scope
            "namespaced resources require a containing namespace")
      else targets_of source_id kind resolution (namespaces_problem [] (owner ∷ [])) (owner ∷ [])

  -- An empty list of names gives no targets on both ways: the code returns early, and here the loops
  -- have nothing to do.
  unfoldable pub derive_targets :
      String
      → String
      → Resolution
      → Scope
      → String
      → Option NamespaceSelection
      → Result SelectionError (List ReadTarget)
  unfolding namespaced_targets cluster_targets
  derive_targets source_id kind resolution scope_cluster owner selection =
      cluster_targets source_id kind resolution selection
  derive_targets source_id kind resolution _ owner selection =
      namespaced_targets source_id kind resolution owner selection

module _ {F : Type 0} (selectors : Selectors F) where
  unfoldable pub with_name : String → F → F
  with_name name parsed =
      if str_eq name ""
      then parsed
      else if str_eq (selectors.text parsed) ""
      then selectors.equals "metadata.name" name
      else selectors.both (selectors.equals "metadata.name" name) parsed

  unfoldable pub field_selector_of :
      String → ResourceSelector → String → Result SelectionError (String × String)
  unfolding with_name
  field_selector_of source_id selector labels =
      elim (selectors.parse_fields selector.field_selector) [
        | none ↦ err (selection_error source_id invalid_selector "field selector is invalid")
        | some parsed ↦ ok (labels, selectors.text (with_name selector.name parsed))
      ]

  -- The text of the label selector and that of the field selector.
  unfoldable pub canonical_selectors :
      String → Option ResourceSelector → Result SelectionError (String × String)
  unfolding field_selector_of
  canonical_selectors source_id none = ok (selectors.every_label, selectors.every_field)
  canonical_selectors source_id (some selector) =
      elim (selectors.label_selector selector.match_labels selector.match_expressions) [
        | none ↦ err (selection_error source_id invalid_selector "label selector is invalid")
        | some labels ↦ field_selector_of source_id selector labels
      ]

  unfoldable pub plan_resolved :
      NameTests → String → FacetSource → Resolution → Result PlanError SelectionPlan
  unfolding canonical_selectors derive_targets selection_result complete
  plan_resolved tests owner source resolution =
      if complete resolution
      then (selection_result (canonical_selectors source.id source.selector) >>= λ texts.
          selection_result (
            derive_targets tests source.id source.resource.kind resolution resolution.scope owner
              source.namespaces)
          >>= λ targets. ok (record {
            source_id = source.id;
            api_version = source.resource.api_version;
            kind = source.resource.kind;
            targets = targets;
            label_selector = texts.0;
            field_selector = texts.1;
          }))
      else err (
          of_selection (
            selection_error source.id invalid_source
              "discovery returned an incomplete resource resolution"))

  unfoldable pub plan_valid :
      NameTests
      → Option (SourceDescriptor → Result ResolutionError Resolution)
      → String
      → FacetSource
      → Result PlanError SelectionPlan
  unfolding plan_resolved
  plan_valid tests none owner source = err (
      of_selection
        (selection_error source.id invalid_source "discovery resolver is not configured"))
  plan_valid tests (some resolve) owner source =
      elim (resolve (record {
        source_id = source.id;
        api_version = source.resource.api_version;
        kind = source.resource.kind;
      })) [
        | err e ↦ err (of_resolution e)
        | ok resolution ↦ plan_resolved tests owner source resolution
      ]

  -- `Planner.Plan`; a nil planner or resolver is `none`.
  unfoldable pub plan :
      NameTests
      → Option (SourceDescriptor → Result ResolutionError Resolution)
      → String
      → FacetSource
      → Result PlanError SelectionPlan
  unfolding source_problem plan_valid
  plan tests resolver owner source = elim (source_problem tests source) [
    | some message ↦ err (of_selection (selection_error source.id invalid_source message))
    | none ↦ plan_valid tests resolver owner source
  ]
