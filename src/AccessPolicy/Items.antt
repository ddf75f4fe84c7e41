-- ===== src/AccessPolicy/Items.antt =====
-- Which lists of names pass the loops of internal/accesspolicy/compiler.go.
use Prim.Native.String.{len}
use kubeseer.Prelude.{
  ℕ, suc, ◌≤◌, String, str_eq, eq_iff, ◌≡◌, ◌≢◌, ◌↔◌, ◌⊎◌, refl, sym, ◌∙◌, Option, none, some, true,
  List, [], ◌∷◌, ◌++◌, All, All-map, All-zip, arith, if◌then◌else◌,
}
use kubeseer.Prelude.Assoc.{lookup, insert, lookup-insert, string_eq}
use kubeseer.AccessPolicy.Policy.{NameTests}
use kubeseer.AccessPolicy.Validate.{
  kind_pattern, validate_items, namespace_problem, group_problem, kind_problem,
}

-- No value stands in the list twice.
abbrev pub AreDistinct : List String → Type 0
AreDistinct [] = Unit
AreDistinct (v ∷ vs) = All (λ w. w ≢ v) vs × AreDistinct vs

pub append-eq-nil {ℓ} : {A : Type ℓ} (xs ys : List A) → (xs ++ ys ≡ []) ↔ ((xs ≡ []) × (ys ≡ []))
append-eq-nil [] ys = (λ e. (refl, e), λ h. h.1)
append-eq-nil (x ∷ xs) ys = (λ e. cc, λ h. cc (h.0))

IsNew : (String → Option String) → List (String × ℕ) → String → Type 0
IsNew problem seen v = (problem v ≡ none) × (lookup v seen ≡ none)

module _ (v w : String) (n : ℕ) (seen : List (String × ℕ)) where
  new-after : lookup w (insert v n seen) ≡ none → (w ≢ v) × (lookup w seen ≡ none)
  new-after h =
      let p : (if str_eq v w then some n else lookup w seen) ≡ none =
        sym (lookup-insert v w n seen) ∙ h in
      ground (arith, p, eq_iff v w)

  new-before : w ≢ v → lookup w seen ≡ none → lookup w (insert v n seen) ≡ none
  new-before d h = lookup-insert v w n seen ∙ ground (arith, eq_iff v w)

module _ (problem : String → Option String) (field : String) where
  accepted_head :
      (seen : List (String × ℕ)) (n : ℕ) (v : String) (vs : List String)
      → validate_items problem field seen n (v ∷ vs) ≡ []
      → IsNew problem seen v × (validate_items problem field (insert v n seen) (suc n) vs ≡ [])
  unfolding validate_items IsNew
  accepted_head seen n v vs h = ground (arith, h)

  -- The values that pass: no one has a problem, no one is seen, and no one stands there twice.
  accepted-validate_items :
      (seen : List (String × ℕ)) (n : ℕ) (values : List String)
      → validate_items problem field seen n values ≡ []
      → All (IsNew problem seen) values × AreDistinct values
  unfolding IsNew
  accepted-validate_items seen n [] h = (tt, tt)
  accepted-validate_items seen n (v ∷ vs) h =
      let (new, rest) = accepted_head seen n v vs h in
      let (all, distinct) = accepted-validate_items (insert v n seen) (suc n) vs rest in
      (
        (new, All-map (λ w k. (k.0, (new-after v w n seen k.1).1)) vs all),
        (All-map (λ w k. (new-after v w n seen k.1).0) vs all, distinct),
      )

  head_accepted :
      (seen : List (String × ℕ)) (n : ℕ) (v : String) (vs : List String)
      → IsNew problem seen v
      → validate_items problem field seen n (v ∷ vs)
        ≡ validate_items problem field (insert v n seen) (suc n) vs
  unfolding validate_items IsNew
  head_accepted seen n v vs h = ground arith

  validate_items-accepts :
      (seen : List (String × ℕ)) (n : ℕ) (values : List String)
      → All (IsNew problem seen) values
      → AreDistinct values
      → validate_items problem field seen n values ≡ []
  unfolding IsNew
  validate_items-accepts seen n [] h d = unfold validate_items in refl
  validate_items-accepts seen n (v ∷ vs) h d =
      head_accepted seen n v vs h.0
      ∙ validate_items-accepts (insert v n seen) (suc n) vs
          (All-zip (λ w k e. (k.0, new-before v w n seen e k.1)) vs h.1 d.0) d.1

  -- The loop finds nothing exactly where no value has a problem and none stands there twice.
  pub validate_items_iff :
      (values : List String)
      → (validate_items problem field [] 0 values ≡ [])
        ↔ (All (λ v. problem v ≡ none) values × AreDistinct values)
  unfolding IsNew
  validate_items_iff values = (
    λ h.
        let (new, distinct) = accepted-validate_items [] 0 values h in
        (All-map (λ w k. k.0) values new, distinct),
    λ h.
        validate_items-accepts [] 0 values (All-map (λ w k. (k, unfold lookup in refl)) values h.0)
          h.1,
  )

module _ (tests : NameTests) where
  abbrev pub IsNamespace : String → Type 0
  IsNamespace v = tests.is_dns1123_label v ≡ true

  abbrev pub IsGroup : String → Type 0
  IsGroup v = (v ≡ "") ⊎ (tests.is_dns1123_subdomain v ≡ true)

  abbrev pub IsKind : String → Type 0
  IsKind v = (len v ≤ 63) × (kind_pattern v ≡ true)

  pub namespace_problem_iff : (v : String) → (namespace_problem tests v ≡ none) ↔ IsNamespace v
  unfolding namespace_problem
  namespace_problem_iff v = ground arith

  pub group_problem_iff : (v : String) → (group_problem tests v ≡ none) ↔ IsGroup v
  unfolding group_problem
  group_problem_iff v = ground (arith, eq_iff v "")

  pub kind_problem_iff : (v : String) → (kind_problem tests v ≡ none) ↔ IsKind v
  unfolding kind_problem
  kind_problem_iff v = ground arith
