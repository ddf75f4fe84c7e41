-- ===== src/Extraction/Selection.antt =====
-- What a path selects, value by value, and the evaluator of internal/extraction/evaluator.go, which
-- goes operation by operation over all values, against it.
use mathlib.Core.Path.{subst}
use mathlib.Core.List.{append_assoc}
use kubeseer.Prelude.{
  String, ◌≡◌, ◌∙◌, sym, ap, refl, Option, none, some, Bool, true, false, List, [], ◌∷◌, ◌++◌,
  arith, Option-cases, inl, inr,
}
use kubeseer.Prelude.Result.{Result, ok, err, ◌>>=◌}
use kubeseer.Extraction.Syntax.{Operation, property, index, wildcard}
use kubeseer.Extraction.Json.{
  Json, object, array, Items, no_items, item, EvaluationError, Context, check, get, at, items_list,
}
use kubeseer.Extraction.Evaluator.{
  option_list, access, append_items, unless_ended, evaluate_branches, evaluate_operations,
}

-- The values that one operation leads to; `none` where the value has the wrong type.
abbrev pub children : Operation → Json → Option (List Json)
children (property key) (object fields) = some (option_list (get key fields))
children (property key) _ = none
children (index n) (array items) = some (option_list (at n items))
children (index n) _ = none
children wildcard (array items) = some (items_list items)
children wildcard _ = none

abbrev pub both : Option (List Json) → Option (List Json) → Option (List Json)
both (some xs) (some ys) = some (xs ++ ys)
both _ _ = none

unfoldable pub collect : (Json → Option (List Json)) → List Json → Option (List Json)
collect f [] = some []
collect f (x ∷ xs) = both (f x) (collect f xs)

abbrev pub collect_from : (Json → Option (List Json)) → Option (List Json) → Option (List Json)
collect_from f none = none
collect_from f (some xs) = collect f xs

-- Everything that a path leads to from one value, in order.
unfoldable pub selected : List Operation → Json → Option (List Json)
selected [] value = some (value ∷ [])
selected (op ∷ ops) value = collect_from (selected ops) (children op value)

collect-singletons : (xs : List Json) → collect (λ x. some (x ∷ [])) xs ≡ some xs
unfolding collect
collect-singletons [] = refl
collect-singletons (x ∷ xs) = rw (collect-singletons xs) refl

both_assoc : (a b c : Option (List Json)) → both (both a b) c ≡ both a (both b c)
both_assoc (some xs) (some ys) (some zs) = ap some (append_assoc xs ys zs)
both_assoc (some xs) (some ys) none = refl
both_assoc (some xs) none c = refl
both_assoc none b c = refl

collect-append :
    (f : Json → Option (List Json)) (xs ys : List Json)
    → collect f (xs ++ ys) ≡ both (collect f xs) (collect f ys)
unfolding collect
collect-append f [] ys = elim (Option-cases (collect f ys)) [
  | inl e ↦ rw e refl
  | inr (zs, e) ↦ rw e refl
]
collect-append f (x ∷ xs) ys =
    ap (both (f x)) (collect-append f xs ys) ∙ sym (both_assoc (f x) (collect f xs) (collect f ys))

collect_from-both :
    (f : Json → Option (List Json)) (a b : Option (List Json))
    → collect_from f (both a b) ≡ both (collect_from f a) (collect_from f b)
collect_from-both f (some xs) (some ys) = collect-append f xs ys
collect_from-both f (some xs) none = elim (Option-cases (collect f xs)) [
  | inl e ↦ rw e refl
  | inr (zs, e) ↦ rw e refl
]
collect_from-both f none b = refl

-- Collecting in two rounds, or each value to its end.
collect-collect :
    (f g : Json → Option (List Json)) (xs : List Json)
    → collect_from f (collect g xs) ≡ collect (λ x. collect_from f (g x)) xs
unfolding collect
collect-collect f g [] = refl
collect-collect f g (x ∷ xs) =
    collect_from-both f (g x) (collect g xs)
    ∙ ap (both (collect_from f (g x))) (collect-collect f g xs)

abbrev pub is_error : Result EvaluationError (List Json × Context) → Bool
is_error (ok _) = false
is_error (err _) = true

-- The values of a result with a context that has not ended.
abbrev pub Gives : Result EvaluationError (List Json × Context) → Option (List Json) → Type 0
Gives r none = is_error r ≡ true
Gives r (some xs) = r ≡ ok (xs, none)

pub error_of :
    (r : Result EvaluationError (List Json × Context))
    → is_error r ≡ true
    → (e : EvaluationError) × (r ≡ err e)
error_of (ok _) h = cc
error_of (err e) h = (e, refl)

append-Gives :
    (r : Result EvaluationError (List Json × Context)) (a : Option (List Json))
    (next : Context → Result EvaluationError (List Json × Context)) (b : Option (List Json))
    → Gives r a
    → Gives (next none) b
    → Gives (r >>= λ x. next x.1 >>= λ q. ok (x.0 ++ q.0, q.1)) (both a b)
append-Gives r none next b h k = let (e, failed) = error_of r h in rw failed refl
append-Gives r (some xs) next none h k =
    let (e, failed) = error_of (next none) k in rw (h, failed) refl
append-Gives r (some xs) next (some ys) h k = rw (h, k) refl

collect_from-Gives :
    (r : Result EvaluationError (List Json × Context)) (a : Option (List Json))
    (next : Context → List Json → Result EvaluationError (List Json × Context))
    (f : Json → Option (List Json))
    → Gives r a
    → ((xs : List Json) → Gives (next none xs) (collect f xs))
    → Gives (r >>= λ x. next x.1 x.0) (collect_from f a)
collect_from-Gives r none next f h k = let (e, failed) = error_of r h in rw failed refl
collect_from-Gives r (some xs) next f h k = rw h (k xs)

module _ (source_id field_name : String) where
  append_items-Gives :
      (items : Items) → append_items source_id field_name none items ≡ ok (items_list items, none)
  unfolding append_items items_list unless_ended check
  append_items-Gives no_items = refl
  append_items-Gives (item value items) = rw (append_items-Gives items) refl

  access-Gives :
      (op : Operation) (value : Json)
      → Gives (access source_id field_name none op value) (children op value)
  unfolding access
  access-Gives (property key) value = ground arith
  access-Gives (index n) value = ground arith
  access-Gives wildcard (array items) = append_items-Gives items
  access-Gives wildcard _ = refl

  branches-Gives :
      (op : Operation) (branches : List Json)
      → Gives
          (evaluate_branches source_id field_name none op branches)
          (collect (children op) branches)
  unfolding evaluate_branches collect unless_ended check
  branches-Gives op [] = refl
  branches-Gives op (branch ∷ branches) =
      append-Gives (access source_id field_name none op branch) (children op branch)
        (λ c. evaluate_branches source_id field_name c op branches) (collect (children op) branches)
        (access-Gives op branch) (branches-Gives op branches)

  pub operations-Gives :
      (ops : List Operation) (branches : List Json)
      → Gives
          (evaluate_operations source_id field_name none ops branches)
          (collect (selected ops) branches)
  unfolding evaluate_operations selected unless_ended check
  operations-Gives [] branches = rw (collect-singletons branches) refl
  operations-Gives (op ∷ ops) branches =
      subst (Gives (evaluate_operations source_id field_name none (op ∷ ops) branches))
        (collect-collect (selected ops) (children op) branches)
        (collect_from-Gives (evaluate_branches source_id field_name none op branches)
          (collect (children op) branches)
          (λ c xs. evaluate_operations source_id field_name c ops xs) (selected ops)
          (branches-Gives op branches) (operations-Gives ops))
