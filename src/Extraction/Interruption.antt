-- ===== src/Extraction/Interruption.antt =====
-- internal/extraction/evaluator.go under a context that may end at any call of `Err`.
use kubeseer.Prelude.{
  zero, suc, String, ◌≡◌, ap, refl, Option, none, some, List, [], ◌∷◌, ◌++◌, arith,
}
use kubeseer.Prelude.Result.{Result, ok, err, ◌>>=◌, err≢ok, ok_injective}
use kubeseer.Extraction.Syntax.{Operation, property, index, wildcard}
use kubeseer.Extraction.Json.{
  Json, object, array, Fields, Items, no_items, item, EvaluationError, Context, check, clone_fields,
}
use kubeseer.Extraction.Evaluator.{
  FieldPlan, FieldOutcome, access, append_items, unless_ended, evaluate_branches,
  evaluate_operations, clone_branch, clone_branches, evaluate_field, evaluate_fields,
  evaluate_resource, evaluate_copied, evaluate_object,
}

-- What the first returns, the second returns with a context that has not ended.
abbrev Keeps :
    Result EvaluationError (List Json × Context)
    → Result EvaluationError (List Json × Context)
    → Type 0
Keeps r full = (vs : List Json) (c : Context) → r ≡ ok (vs, c) → full ≡ ok (vs, none)

Keeps-ok : (vs : List Json) (c : Context) → Keeps (ok (vs, c)) (ok (vs, none))
Keeps-ok vs c ws d e = let same : vs ≡ ws = ap (λ p. p.0) (ok_injective e) in rw same refl

Keeps-after :
    (r : Result EvaluationError Json)
    (next full : Json → Result EvaluationError (List Json × Context))
    → ((v : Json) → Keeps (next v) (full v))
    → Keeps (r >>= next) (r >>= full)
Keeps-after (ok v) next full h ws d e = h v ws d e
Keeps-after (err x) next full h ws d e = absurd (err≢ok e)

Keeps-bind :
    (r full : Result EvaluationError (List Json × Context))
    (next : List Json → Context → Result EvaluationError (List Json × Context))
    → Keeps r full
    → ((vs : List Json) (c : Context) → Keeps (next vs c) (next vs none))
    → Keeps (r >>= λ x. next x.0 x.1) (full >>= λ x. next x.0 x.1)
Keeps-bind (ok (vs, c)) full next h each ws d e = rw (h vs c refl) (each vs c ws d e)
Keeps-bind (err x) full next h each ws d e = absurd (err≢ok e)

module _ (source_id field_name : String) where
  Keeps-unless_ended :
      (ctx : Context) (next : Context → Result EvaluationError (List Json × Context))
      → ((c : Context) → Keeps (next c) (next none))
      → Keeps
          (unless_ended source_id field_name ctx next)
          (unless_ended source_id field_name none next)
  unfolding unless_ended check
  Keeps-unless_ended none next h vs c e = h none vs c e
  Keeps-unless_ended (some zero) next h vs c e = absurd (err≢ok e)
  Keeps-unless_ended (some (suc n)) next h vs c e = h (some n) vs c e

  Keeps-append_items :
      (ctx : Context) (items : Items)
      → Keeps
          (append_items source_id field_name ctx items)
          (append_items source_id field_name none items)
  unfolding append_items
  Keeps-append_items ctx no_items = Keeps-ok [] ctx
  Keeps-append_items ctx (item value items) =
      Keeps-unless_ended ctx
        (λ rest. append_items source_id field_name rest items >>= λ r. ok (value ∷ r.0, r.1))
        (λ rest.
          Keeps-bind (append_items source_id field_name rest items)
            (append_items source_id field_name none items) (λ ws d. ok (value ∷ ws, d))
            (Keeps-append_items rest items) (λ ws d. Keeps-ok (value ∷ ws) d))

  Keeps-access :
      (ctx : Context) (op : Operation) (value : Json)
      → Keeps (access source_id field_name ctx op value) (access source_id field_name none op value)
  unfolding access
  Keeps-access ctx (property key) value vs c e = ground (arith, e)
  Keeps-access ctx (index n) value vs c e = ground (arith, e)
  Keeps-access ctx wildcard (array items) vs c e = Keeps-append_items ctx items vs c e
  Keeps-access ctx wildcard _ vs c e = absurd (err≢ok e)

  Keeps-evaluate_branches :
      (ctx : Context) (op : Operation) (branches : List Json)
      → Keeps
          (evaluate_branches source_id field_name ctx op branches)
          (evaluate_branches source_id field_name none op branches)
  unfolding evaluate_branches
  Keeps-evaluate_branches ctx op [] = Keeps-ok [] ctx
  Keeps-evaluate_branches ctx op (b ∷ bs) =
      Keeps-unless_ended ctx
        (λ rest. access source_id field_name rest op b >>= λ r.
          evaluate_branches source_id field_name r.1 op bs >>= λ q. ok (r.0 ++ q.0, q.1))
        (λ rest.
          Keeps-bind (access source_id field_name rest op b) (access source_id field_name none op b)
            (λ vs c. evaluate_branches source_id field_name c op bs >>= λ q. ok (vs ++ q.0, q.1))
            (Keeps-access rest op b)
            (λ vs c.
              Keeps-bind (evaluate_branches source_id field_name c op bs)
                (evaluate_branches source_id field_name none op bs) (λ ws d. ok (vs ++ ws, d))
                (Keeps-evaluate_branches c op bs) (λ ws d. Keeps-ok (vs ++ ws) d)))

  Keeps-evaluate_operations :
      (ctx : Context) (ops : List Operation) (branches : List Json)
      → Keeps
          (evaluate_operations source_id field_name ctx ops branches)
          (evaluate_operations source_id field_name none ops branches)
  unfolding evaluate_operations
  Keeps-evaluate_operations ctx [] branches = Keeps-ok branches ctx
  Keeps-evaluate_operations ctx (op ∷ ops) branches =
      Keeps-unless_ended ctx
        (λ rest. evaluate_branches source_id field_name rest op branches >>= λ r.
          evaluate_operations source_id field_name r.1 ops r.0)
        (λ rest.
          Keeps-bind (evaluate_branches source_id field_name rest op branches)
            (evaluate_branches source_id field_name none op branches)
            (λ vs c. evaluate_operations source_id field_name c ops vs)
            (Keeps-evaluate_branches rest op branches) (λ vs c. Keeps-evaluate_operations c ops vs))

  Keeps-clone_branches :
      (ctx : Context) (branches : List Json)
      → Keeps
          (clone_branches source_id field_name ctx branches)
          (clone_branches source_id field_name none branches)
  unfolding clone_branches
  Keeps-clone_branches ctx [] = Keeps-ok [] ctx
  Keeps-clone_branches ctx (b ∷ bs) =
      Keeps-unless_ended ctx
        (λ rest. clone_branch source_id field_name b >>= λ copy.
          clone_branches source_id field_name rest bs >>= λ r. ok (copy ∷ r.0, r.1))
        (λ rest.
          Keeps-after (clone_branch source_id field_name b)
            (λ copy. clone_branches source_id field_name rest bs >>= λ r. ok (copy ∷ r.0, r.1))
            (λ copy. clone_branches source_id field_name none bs >>= λ r. ok (copy ∷ r.0, r.1))
            (λ copy.
              Keeps-bind (clone_branches source_id field_name rest bs)
                (clone_branches source_id field_name none bs) (λ ws d. ok (copy ∷ ws, d))
                (Keeps-clone_branches rest bs) (λ ws d. Keeps-ok (copy ∷ ws) d)))

  Keeps-evaluate_field :
      (ctx : Context) (ops : List Operation) (root : Fields)
      → Keeps
          (evaluate_field source_id field_name ctx ops root)
          (evaluate_field source_id field_name none ops root)
  unfolding evaluate_field
  Keeps-evaluate_field ctx ops root =
      Keeps-bind (evaluate_operations source_id field_name ctx ops (object root ∷ []))
        (evaluate_operations source_id field_name none ops (object root ∷ []))
        (λ vs c. clone_branches source_id field_name c vs)
        (Keeps-evaluate_operations ctx ops (object root ∷ [])) (λ vs c. Keeps-clone_branches c vs)

abbrev Outcomes : Type 0
Outcomes = Result EvaluationError (List FieldOutcome)

-- The same for the outcomes of fields.
abbrev KeepsOutcomes : Outcomes → Outcomes → Type 0
KeepsOutcomes r full = (os : List FieldOutcome) → r ≡ ok os → full ≡ ok os

KeepsOutcomes-bind :
    (r full : Result EvaluationError (List Json × Context)) (next : List Json → Context → Outcomes)
    → Keeps r full
    → ((vs : List Json) (c : Context) → KeepsOutcomes (next vs c) (next vs none))
    → KeepsOutcomes (r >>= λ x. next x.0 x.1) (full >>= λ x. next x.0 x.1)
KeepsOutcomes-bind (ok (vs, c)) full next h each os e = rw (h vs c refl) (each vs c os e)
KeepsOutcomes-bind (err x) full next h each os e = absurd (err≢ok e)

KeepsOutcomes-cons :
    (o : FieldOutcome) (r full : Outcomes)
    → KeepsOutcomes r full
    → KeepsOutcomes (r >>= λ os. ok (o ∷ os)) (full >>= λ os. ok (o ∷ os))
KeepsOutcomes-cons o (ok os) full h ps e = rw (h os refl) e
KeepsOutcomes-cons o (err x) full h ps e = absurd (err≢ok e)

KeepsOutcomes-unless_ended :
    (source_id field_name : String) (ctx : Context) (next : Context → Outcomes)
    → ((c : Context) → KeepsOutcomes (next c) (next none))
    → KeepsOutcomes
        (unless_ended source_id field_name ctx next)
        (unless_ended source_id field_name none next)
unfolding unless_ended check
KeepsOutcomes-unless_ended s f none next h os e = h none os e
KeepsOutcomes-unless_ended s f (some zero) next h os e = absurd (err≢ok e)
KeepsOutcomes-unless_ended s f (some (suc n)) next h os e = h (some n) os e

module _ (source_id : String) (root : Fields) where
  KeepsOutcomes-evaluate_fields :
      (ctx : Context) (plans : List FieldPlan)
      → KeepsOutcomes
          (evaluate_fields source_id ctx plans root)
          (evaluate_fields source_id none plans root)
  unfolding evaluate_fields
  KeepsOutcomes-evaluate_fields ctx [] os e = e
  KeepsOutcomes-evaluate_fields ctx (plan ∷ plans) os e =
      KeepsOutcomes-unless_ended source_id plan.name ctx
        (λ rest. evaluate_field source_id plan.name rest plan.ops root >>= λ r.
          evaluate_fields source_id r.1 plans root >>= λ outcomes.
          ok (record { field_name = plan.name; matches = r.0 } ∷ outcomes))
        (λ rest.
          KeepsOutcomes-bind (evaluate_field source_id plan.name rest plan.ops root)
            (evaluate_field source_id plan.name none plan.ops root)
            (λ vs c. evaluate_fields source_id c plans root >>= λ outcomes.
              ok (record { field_name = plan.name; matches = vs } ∷ outcomes))
            (Keeps-evaluate_field source_id plan.name rest plan.ops root)
            (λ vs c.
              KeepsOutcomes-cons (record { field_name = plan.name; matches = vs })
                (evaluate_fields source_id c plans root) (evaluate_fields source_id none plans root)
                (KeepsOutcomes-evaluate_fields c plans)))
        os e

KeepsOutcomes-evaluate_copied :
    (source_id : String) (plans : List FieldPlan) (root : Fields) (copy : Option Fields)
    (c : Context)
    → KeepsOutcomes
        (evaluate_copied source_id plans root copy c)
        (evaluate_copied source_id plans root copy none)
unfolding evaluate_copied
KeepsOutcomes-evaluate_copied s plans root none c os e = absurd (err≢ok e)
KeepsOutcomes-evaluate_copied s plans root (some _) c os e =
    KeepsOutcomes-evaluate_fields s root c plans os e

KeepsOutcomes-evaluate_object :
    (source_id : String) (plans : List FieldPlan) (resource : Option Fields) (c : Context)
    → KeepsOutcomes
        (evaluate_object source_id plans resource c)
        (evaluate_object source_id plans resource none)
unfolding evaluate_object
KeepsOutcomes-evaluate_object s plans none c os e = absurd (err≢ok e)
KeepsOutcomes-evaluate_object s plans (some root) c os e =
    KeepsOutcomes-evaluate_copied s plans root (clone_fields root) c os e

-- An interruption never yields a partial outcome: whenever the context ends, or if it does not,
-- an outcome that `EvaluateResource` returns is the one it returns with a context that never ends.
pub evaluate_resource_whole :
    (source_id : String) (ctx : Context) (plans : List FieldPlan) (resource : Option Fields)
    (os : List FieldOutcome)
    → evaluate_resource source_id ctx plans resource ≡ ok os
    → evaluate_resource source_id none plans resource ≡ ok os
unfolding evaluate_resource
evaluate_resource_whole source_id ctx plans resource os e =
    KeepsOutcomes-unless_ended source_id "" ctx (evaluate_object source_id plans resource)
      (KeepsOutcomes-evaluate_object source_id plans resource) os e
