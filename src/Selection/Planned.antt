-- ===== src/Selection/Planned.antt =====
-- The targets of internal/selection/planner.go.
use mathlib.Core.Path.{subst}
use mathlib.Core.List.{Perm}
use mathlib.Core.List.Perm
use kubeseer.Prelude.{
  String, str_eq, ◌≡◌, ◌≢◌, refl, ap, Option, none, some, true, false, ◌||◌, List, [], ◌∷◌, map,
  All, arith, eq_iff, Bool-cases, Option-cases, inl, inr,
}
use kubeseer.Prelude.Text.{str_ltb}
use kubeseer.Prelude.Sort.{insert_sorted, sort_stable, sort_stable-perm}
use kubeseer.Prelude.Result.{ok, err≢ok, ok_injective}
use kubeseer.Facet.{NamespaceSelection}
use kubeseer.AccessPolicy.Policy.{NameTests, Scope, scope_namespaced, scope_cluster}
use kubeseer.AccessPolicy.Evaluate.{contains}
use kubeseer.Authorization.Minted.{IsTargeted}
use kubeseer.Selection.Contracts.{ReadTarget, Resolution, request_eq, request_for_target}
use kubeseer.Selection.Texts.{DistinctTexts}
use kubeseer.Selection.Planner.{
  namespaces_problem, read_target, targets_of, namespaced_targets, cluster_targets,
}
use kubeseer.Selection.Binder.{has_request, target_keys}
use kubeseer.Selection.Distinct.{Distinct, request_eq_iff}

abbrev AreUnseen : List String → List String → Type 0
AreUnseen seen ns = All (λ n. contains seen n ≡ false) ns

unseen_cons :
    (x : String) (seen ns : List String)
    → AreUnseen (x ∷ seen) ns
    → (contains ns x ≡ false) × AreUnseen seen ns
unfolding contains
unseen_cons x seen [] h = (refl, tt)
unseen_cons x seen (n ∷ ns) h = ground (arith, h, eq_iff x n, eq_iff n x, unseen_cons x seen ns)

namespaces_problem-none :
    (tests : NameTests) (seen ns : List String)
    → namespaces_problem tests seen ns ≡ none
    → DistinctTexts ns × AreUnseen seen ns
unfolding namespaces_problem
namespaces_problem-none tests seen [] h = (tt, tt)
namespaces_problem-none tests seen (n ∷ ns) h =
    ground (arith, h, namespaces_problem-none tests (n ∷ seen) ns, unseen_cons n seen ns)

insert_sorted-contains :
    (x : String) (ys : List String) (v : String)
    → contains (insert_sorted str_ltb x ys) v ≡ (str_eq x v || contains ys v)
unfolding insert_sorted contains
insert_sorted-contains x [] v = refl
insert_sorted-contains x (y ∷ ys) v = elim (Bool-cases (str_ltb y x)) [
  | inl e ↦ rw e (ground (arith, insert_sorted-contains x ys v))
  | inr e ↦ rw e refl
]

insert_sorted-DistinctTexts :
    (x : String) (ys : List String)
    → contains ys x ≡ false
    → DistinctTexts ys
    → DistinctTexts (insert_sorted str_ltb x ys)
unfolding insert_sorted contains
insert_sorted-DistinctTexts x [] h d = (refl, tt)
insert_sorted-DistinctTexts x (y ∷ ys) h d = elim (Bool-cases (str_ltb y x)) [
  | inl e ↦ rw e (
    ground (arith, insert_sorted-contains x ys y, h, d, eq_iff x y, eq_iff y x),
    insert_sorted-DistinctTexts x ys (ground (arith, h)) d.1,
  )
  | inr e ↦ rw e (h, d)
]

sort-contains :
    (xs : List String) (v : String) → contains (sort_stable str_ltb xs) v ≡ contains xs v
unfolding sort_stable contains
sort-contains [] v = refl
sort-contains (x ∷ xs) v =
    rw (insert_sorted-contains x (sort_stable str_ltb xs) v, sort-contains xs v) refl

sort-DistinctTexts : (xs : List String) → DistinctTexts xs → DistinctTexts (sort_stable str_ltb xs)
unfolding sort_stable
sort-DistinctTexts [] d = tt
sort-DistinctTexts (x ∷ xs) d =
    insert_sorted-DistinctTexts x (sort_stable str_ltb xs) (rw (sort-contains xs x) d.0)
      (sort-DistinctTexts xs d.1)

module _ (source_id kind : String) (r : Resolution) where
  abbrev target_at : String → ReadTarget
  target_at namespace = read_target source_id kind r namespace

  same_namespace :
      (m n : String)
      → request_eq (request_for_target (target_at m)) (request_for_target (target_at n)) ≡ true
      → m ≡ n
  unfolding request_for_target read_target
  same_namespace m n h = ap (λ q. q.namespace) ((request_eq_iff _ _).0 h)

  keys-unseen :
      (n : String) (ns : List String)
      → contains ns n ≡ false
      → has_request (request_for_target (target_at n)) (target_keys (map target_at ns)) ≡ false
  unfolding has_request target_keys contains request_for_target read_target
  keys-unseen n [] h = refl
  keys-unseen n (m ∷ ms) h = ground (arith, h, same_namespace m n, eq_iff m n, keys-unseen n ms)

  keys-Distinct : (ns : List String) → DistinctTexts ns → Distinct (target_keys (map target_at ns))
  unfolding target_keys
  keys-Distinct [] d = tt
  keys-Distinct (n ∷ ns) d = (keys-unseen n ns d.0, keys-Distinct ns d.1)

  All-IsTargeted :
      (ns : List String)
      → source_id ≢ ""
      → r.scope ≡ scope_namespaced
      → All (λ t. IsTargeted (request_for_target t)) (map target_at ns)
  unfolding request_for_target read_target
  All-IsTargeted [] h e = tt
  All-IsTargeted (n ∷ ns) h e = ((h, inl e), All-IsTargeted ns h e)

-- What a plan's targets are: distinct, each with the source's ID and, in cluster scope, no namespace, and
-- for just the namespaces that the source declares.
pub record AreExact (id : String) (namespaces : List String) (ts : List ReadTarget) : Type 0 where
  pub distinct : Distinct (target_keys ts)
  pub targeted : All (λ t. IsTargeted (request_for_target t)) ts
  pub of_source : All (λ t. t.source_id ≡ id) ts
  pub covered : Perm (map (λ t. t.namespace) ts) namespaces

-- The namespaces that a source declares: the owner's where it names none, and "" in cluster scope.
abbrev pub declared : Scope → String → Option NamespaceSelection → List String
declared scope_cluster owner selection = "" ∷ []
declared _ owner none = owner ∷ []
declared _ owner (some selection) = selection.names

map-namespace :
    (id kind : String) (r : Resolution) (ns : List String)
    → map (λ t. t.namespace) (map (read_target id kind r) ns) ≡ ns
unfolding read_target
map-namespace id kind r [] = refl
map-namespace id kind r (n ∷ ns) = rw (map-namespace id kind r ns) refl

All-source :
    (id kind : String) (r : Resolution) (ns : List String)
    → All (λ t. t.source_id ≡ id) (map (read_target id kind r) ns)
unfolding read_target
All-source id kind r [] = tt
All-source id kind r (n ∷ ns) = (refl, All-source id kind r ns)

module _ (tests : NameTests) (id kind : String) (r : Resolution) (h : id ≢ "") where
  targets_of-AreExact :
      (ns : List String) (ts : List ReadTarget)
      → r.scope ≡ scope_namespaced
      → targets_of tests id kind r (namespaces_problem tests [] ns) ns ≡ ok ts
      → AreExact id ns ts
  unfolding targets_of
  targets_of-AreExact ns ts s e = elim (Option-cases (namespaces_problem tests [] ns)) [
    | inr (m, p) ↦ absurd (err≢ok (rw p at e))
    | inl p ↦ subst (AreExact id ns) (ok_injective (rw p at e)) (record {
      distinct =
          keys-Distinct id kind r (sort_stable str_ltb ns)
            (sort-DistinctTexts ns (namespaces_problem-none tests [] ns p).0);
      targeted = All-IsTargeted id kind r (sort_stable str_ltb ns) h s;
      of_source = All-source id kind r (sort_stable str_ltb ns);
      covered = rw (map-namespace id kind r (sort_stable str_ltb ns)) (sort_stable-perm str_ltb ns);
    })
  ]

  pub namespaced-AreExact :
      (owner : String) (selection : Option NamespaceSelection) (ts : List ReadTarget)
      → r.scope ≡ scope_namespaced
      → namespaced_targets tests id kind r owner selection ≡ ok ts
      → AreExact id (declared scope_namespaced owner selection) ts
  unfolding namespaced_targets
  namespaced-AreExact owner (some selection) ts s e = targets_of-AreExact selection.names ts s e
  namespaced-AreExact owner none ts s e = elim (Bool-cases (str_eq owner "")) [
    | inl q ↦ absurd (err≢ok (rw q at e))
    | inr q ↦ targets_of-AreExact (owner ∷ []) ts s (rw q at e)
  ]

  pub cluster-AreExact :
      (selection : Option NamespaceSelection) (ts : List ReadTarget)
      → cluster_targets id kind r selection ≡ ok ts
      → AreExact id ("" ∷ []) ts
  unfolding cluster_targets read_target request_for_target has_request target_keys
  cluster-AreExact (some selection) ts e = absurd (err≢ok e)
  cluster-AreExact none ts e = subst (AreExact id ("" ∷ [])) (ok_injective e) (record {
    distinct = (refl, tt);
    targeted = ((h, inr refl), tt);
    of_source = (refl, tt);
    covered = Perm.refl ("" ∷ []);
  })
