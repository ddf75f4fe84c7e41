-- ===== src/Extraction/Native.antt =====
-- Copies of native values, and a field of internal/extraction/evaluator.go as a whole.
use mathlib.Core.Path.{subst}
use mathlib.Core.List.{append-nil}
use kubeseer.Prelude.{
  ℕ, zero, suc, String, ◌≡◌, ◌∙◌, ap, refl, Option, none, some, Bool, true, false, ◌&&◌, List, [],
  ◌∷◌, ◌++◌, arith, Option-cases, Bool-cases, inl, inr,
}
use kubeseer.Prelude.Result.{Result, ok, ◌>>=◌}
use kubeseer.Extraction.Syntax.{Bytes, Operation, property, index, wildcard}
use kubeseer.Extraction.Json.{
  Json, null, boolean, text, int64, float64, number, object, array, other, Fields, Items, no_items,
  item, no_fields, field, EvaluationError, Context, check, get, at, items_list, clone, clone_fields,
  clone_items, bytes_eq,
}
use kubeseer.Extraction.Evaluator.{
  option_list, unless_ended, evaluate_operations, clone_branch, clone_branches, evaluate_field,
}
use kubeseer.Extraction.Selection.{
  children, both, collect, collect_from, selected, Gives, error_of, operations-Gives,
}

-- The value holds native values only.
unfoldable mutual
  pub is_native : Json → Bool
  is_native (object members) = has_native_fields members
  is_native (array items) = has_native_items items
  is_native (other n) = false
  is_native _ = true

  pub has_native_fields : Fields → Bool
  has_native_fields no_fields = true
  has_native_fields (field name value rest) = is_native value && has_native_fields rest

  pub has_native_items : Items → Bool
  has_native_items no_items = true
  has_native_items (item value rest) = is_native value && has_native_items rest

abbrev pub if_native {ℓ} : {A : Type ℓ} → Bool → A → Option A
if_native true a = some a
if_native false a = none

then_wrap {ℓ κ} :
    {A : Type ℓ} {B : Type κ} (native : Bool) (a : A) (f : A → B)
    → elim (if_native native a) [ none ↦ none | some copy ↦ some (f copy) ] ≡ if_native native (f a)
then_wrap true a f = refl
then_wrap false a f = refl

then_join {ℓ κ ι} :
    {A : Type ℓ} {B : Type κ} {C : Type ι} (native rest : Bool) (a : A) (b : B) (f : A → B → C)
    → elim (if_native native a) [
      | none ↦ none
      | some copy ↦ elim (if_native rest b) [ none ↦ none | some copies ↦ some (f copy copies) ]
    ]
      ≡ if_native (native && rest) (f a b)
then_join true true a b f = refl
then_join true false a b f = refl
then_join false rest a b f = refl

-- A copy is the value itself, and exists just for native values.
mutual
  unfolding clone is_native

  pub clone_lem : (v : Json) → clone v ≡ if_native (is_native v) v
  clone_lem null = refl
  clone_lem (boolean b) = refl
  clone_lem (text s) = refl
  clone_lem (int64 n) = refl
  clone_lem (float64 n) = refl
  clone_lem (number s) = refl
  clone_lem (object members) =
      rw (clone_fields_lem members) (then_wrap (has_native_fields members) members object)
  clone_lem (array items) =
      rw (clone_items_lem items) (then_wrap (has_native_items items) items array)
  clone_lem (other n) = refl

  pub clone_fields_lem : (fs : Fields) → clone_fields fs ≡ if_native (has_native_fields fs) fs
  clone_fields_lem no_fields = refl
  clone_fields_lem (field name value rest) =
      rw (clone_lem value, clone_fields_lem rest)
        (then_join (is_native value) (has_native_fields rest) value rest (field name))

  pub clone_items_lem : (is : Items) → clone_items is ≡ if_native (has_native_items is) is
  clone_items_lem no_items = refl
  clone_items_lem (item value rest) =
      rw (clone_lem value, clone_items_lem rest)
        (then_join (is_native value) (has_native_items rest) value rest item)

unfoldable pub all_native : List Json → Bool
all_native [] = true
all_native (v ∷ vs) = is_native v && all_native vs

and_left : (a b : Bool) → (a && b) ≡ true → a ≡ true
and_left a b h = ground arith

and_right : (a b : Bool) → (a && b) ≡ true → b ≡ true
and_right a b h = ground arith

get-native :
    (key : Bytes) (fs : Fields)
    → has_native_fields fs ≡ true
    → all_native (option_list (get key fs)) ≡ true
unfolding get is_native all_native
get-native key no_fields h = refl
get-native key (field name value rest) h = elim (Bool-cases (bytes_eq name key)) [
  | inl e ↦ rw (e, and_left (is_native value) (has_native_fields rest) h) refl
  | inr e ↦ rw e (get-native key rest (and_right (is_native value) (has_native_fields rest) h))
]

at-native :
    (n : ℕ) (is : Items) → has_native_items is ≡ true → all_native (option_list (at n is)) ≡ true
unfolding at is_native all_native
at-native n no_items h = refl
at-native zero (item value rest) h = rw (and_left (is_native value) (has_native_items rest) h) refl
at-native (suc n) (item value rest) h =
    at-native n rest (and_right (is_native value) (has_native_items rest) h)

items_list-native : (is : Items) → all_native (items_list is) ≡ has_native_items is
unfolding items_list is_native all_native
items_list-native no_items = refl
items_list-native (item value rest) = rw (items_list-native rest) refl

-- The values of a selection, where there is one, are native.
abbrev pub AreNative : Option (List Json) → Type 0
AreNative none = Unit
AreNative (some vs) = all_native vs ≡ true

children-native : (op : Operation) (v : Json) → is_native v ≡ true → AreNative (children op v)
unfolding is_native
children-native (property key) (object members) h = get-native key members h
children-native (index n) (array items) h = at-native n items h
children-native wildcard (array items) h = items_list-native items ∙ h
children-native op v h = tt

all_native-append : (xs ys : List Json) → all_native (xs ++ ys) ≡ (all_native xs && all_native ys)
unfolding all_native
all_native-append [] ys = refl
all_native-append (x ∷ xs) ys = ground (arith, all_native-append xs ys)

both-native : (a b : Option (List Json)) → AreNative a → AreNative b → AreNative (both a b)
both-native (some xs) (some ys) h k = rw (all_native-append xs ys, h, k) refl
both-native (some xs) none h k = tt
both-native none b h k = tt

collect-native :
    (f : Json → Option (List Json)) (xs : List Json)
    → ((x : Json) → is_native x ≡ true → AreNative (f x))
    → all_native xs ≡ true
    → AreNative (collect f xs)
unfolding collect all_native
collect-native f [] each h = refl
collect-native f (x ∷ xs) each h =
    both-native (f x) (collect f xs) (each x (and_left (is_native x) (all_native xs) h))
      (collect-native f xs each (and_right (is_native x) (all_native xs) h))

collect_from-native :
    (f : Json → Option (List Json)) (a : Option (List Json))
    → ((x : Json) → is_native x ≡ true → AreNative (f x))
    → AreNative a
    → AreNative (collect_from f a)
collect_from-native f none each h = tt
collect_from-native f (some xs) each h = collect-native f xs each h

selected-native :
    (ops : List Operation) (v : Json) → is_native v ≡ true → AreNative (selected ops v)
unfolding selected all_native
selected-native [] v h = rw h refl
selected-native (op ∷ ops) v h =
    collect_from-native (selected ops) (children op v) (selected-native ops)
      (children-native op v h)

collect-one : (f : Json → Option (List Json)) (v : Json) → collect f (v ∷ []) ≡ f v
unfolding collect
collect-one f v = elim (Option-cases (f v)) [
  | inl e ↦ rw e refl
  | inr (xs, e) ↦ rw (e, append-nil xs) refl
]

copied-native :
    (root copy : Fields) → clone_fields root ≡ some copy → is_native (object root) ≡ true
unfolding is_native
copied-native root copy h = elim (Bool-cases (has_native_fields root)) [
  | inl e ↦ e
  | inr e ↦
      let refused : clone_fields root ≡ none =
        clone_fields_lem root ∙ ap (λ b. if_native b root) e in
      cc
]

module _ (source_id field_name : String) where
  clone_branch-native : (v : Json) → is_native v ≡ true → clone_branch source_id field_name v ≡ ok v
  unfolding clone_branch
  clone_branch-native v h = rw (clone_branch, clone_lem v, h) refl

  clone_branches-native :
      (vs : List Json)
      → all_native vs ≡ true
      → clone_branches source_id field_name none vs ≡ ok (vs, none)
  unfolding clone_branches unless_ended check all_native
  clone_branches-native [] h = refl
  clone_branches-native (v ∷ vs) h =
      rw
        (
          clone_branch-native v (and_left (is_native v) (all_native vs) h),
          clone_branches-native vs (and_right (is_native v) (all_native vs) h),
        )
        refl

  copied-Gives :
      (r : Result EvaluationError (List Json × Context)) (a : Option (List Json))
      → Gives r a
      → AreNative a
      → Gives (r >>= λ x. clone_branches source_id field_name x.1 x.0) a
  copied-Gives r none h native = let (e, failed) = error_of r h in rw failed refl
  copied-Gives r (some vs) h native = rw h (clone_branches-native vs native)

  -- For a resource that `cloneJSONValue` copies, and with a context that does not end, `evaluateField`
  -- returns what its path selects from the resource, value by value and in order, and an error exactly
  -- where the path meets a value of the wrong type.
  pub evaluate_field_lem :
      (ops : List Operation) (root copy : Fields)
      → clone_fields root ≡ some copy
      → Gives (evaluate_field source_id field_name none ops root) (selected ops (object root))
  unfolding evaluate_field
  evaluate_field_lem ops root copy h =
      copied-Gives (evaluate_operations source_id field_name none ops (object root ∷ []))
        (selected ops (object root))
        (subst (Gives (evaluate_operations source_id field_name none ops (object root ∷ [])))
          (collect-one (selected ops) (object root))
          (operations-Gives source_id field_name ops (object root ∷ [])))
        (selected-native ops (object root) (copied-native root copy h))
