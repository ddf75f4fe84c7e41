-- ===== src/Extraction/Total.antt =====
-- internal/extraction/parser.go: how much of its input each round of `parsePath` takes.
use mathlib.Core.Path.{subst}
use kubeseer.Prelude.{
  ℕ, zero, suc, ◌+◌, ◌≤◌, ◌<◌, String, ◌≡◌, refl, Option, none, some, Bool, true, false, List, [],
  ◌∷◌, ◌++◌, length, arith, Option-cases, inl, inr, if◌then◌else◌,
}
use kubeseer.Prelude.Result.{Result, ok, err, Result-cases}
use kubeseer.Prelude.Text.{is_digit}
use kubeseer.Extraction.Syntax.{
  Bytes, Operation, ExpressionError, contains_brace, is_identifier_part,
}
use kubeseer.Extraction.Parser.{
  span, Parsed, parse_identifier, parse_quoted_key, parse_index, parse_bracket, parse_token,
  parse_operations, with_operation, close_quote, close_index, close_wildcard,
}
use kubeseer.Extraction.Path.{
  parse_body, parse_path, parse_root, undelimited, parse_undelimited, starts_with_dots,
  has_text_outside,
}

span-length : (test : ℕ → Bool) (cs : Bytes) → length (span test cs).1 ≤ length cs
unfolding span
span-length test [] = omega arith
span-length test (c ∷ cs) = ground (arith, span-length test cs)

abbrev Shorter : ℕ → Result ExpressionError Parsed → Type 0
Shorter n (ok p) = length p.rest < n
Shorter n (err e) = Unit

abbrev Ends : Option (Result ExpressionError (List Operation)) → Type 0
Ends o = (r : Result ExpressionError (List Operation)) × (o ≡ some r)

if-Ends :
    (b : Bool) {x y : Option (Result ExpressionError (List Operation))}
    → Ends x
    → Ends y
    → Ends (if b then x else y)
if-Ends true h _ = h
if-Ends false _ h = h

with_operation-Ends :
    (op : Operation) (o : Option (Result ExpressionError (List Operation)))
    → Ends o
    → Ends (with_operation op o)
unfolding with_operation
with_operation-Ends op none (r, h) = cc
with_operation-Ends op (some (ok ops)) _ = (ok (op ∷ ops), refl)
with_operation-Ends op (some (err e)) _ = (err e, refl)

Shorter-weaken : {n m : ℕ} (r : Result ExpressionError Parsed) → Shorter n r → n ≤ m → Shorter m r
Shorter-weaken (ok p) h le = omega arith
Shorter-weaken (err e) _ _ = tt

module _ (source_id field_name : String) where
  identifier-Shorter :
      (n c : ℕ) (cs : Bytes)
      → Shorter (suc (length cs)) (parse_identifier source_id field_name n (c ∷ cs))
  unfolding parse_identifier
  identifier-Shorter n c cs = ground (arith, span-length is_identifier_part cs)

  identifier-empty : (n : ℕ) → Shorter 0 (parse_identifier source_id field_name n [])
  unfolding parse_identifier
  identifier-empty n = tt

  close_quote-Shorter :
      (n m : ℕ) (key cs : Bytes)
      → Shorter (suc (length cs)) (close_quote source_id field_name n m key cs)
  unfolding close_quote
  close_quote-Shorter n m key [] = tt
  close_quote-Shorter n m key (c ∷ cs) = ground arith

  quoted-Shorter :
      (start n : ℕ) (key cs : Bytes)
      → Shorter (suc (length cs)) (parse_quoted_key source_id field_name start n key cs)
  unfolding parse_quoted_key
  quoted-Shorter start n key [] = tt
  quoted-Shorter start n key (c ∷ []) = ground (arith, close_quote-Shorter start (n + 1) key [])
  quoted-Shorter start n key (c ∷ d ∷ cs) = ground (
    arith,
    close_quote-Shorter start (n + 1) key (d ∷ cs),
    quoted-Shorter start (n + 2) (key ++ d ∷ []) cs,
    quoted-Shorter start (n + 1) (key ++ c ∷ []) (d ∷ cs),
  )

  close_index-Shorter :
      (start n : ℕ) (text cs : Bytes)
      → Shorter (suc (length cs)) (close_index source_id field_name start n text cs)
  unfolding close_index
  close_index-Shorter start n text [] = tt
  close_index-Shorter start n text (c ∷ cs) = ground arith

  index-Shorter :
      (start n : ℕ) (cs : Bytes)
      → Shorter (suc (length cs)) (parse_index source_id field_name start n cs)
  unfolding parse_index
  index-Shorter start n cs =
      Shorter-weaken
        (close_index source_id field_name start n (span is_digit cs).0 (span is_digit cs).1)
        (close_index-Shorter start n (span is_digit cs).0 (span is_digit cs).1)
        (ground (arith, span-length is_digit cs))

  wildcard-Shorter :
      (start : ℕ) (cs : Bytes)
      → Shorter (suc (length cs)) (close_wildcard source_id field_name start cs)
  unfolding close_wildcard
  wildcard-Shorter start [] = tt
  wildcard-Shorter start (c ∷ cs) = ground arith

  bracket-Shorter :
      (start : ℕ) (cs : Bytes)
      → Shorter (suc (length cs)) (parse_bracket source_id field_name start cs)
  unfolding parse_bracket
  bracket-Shorter start [] = tt
  bracket-Shorter start (c ∷ cs) = ground (
    arith,
    quoted-Shorter start (start + 1 + 1) [] cs,
    wildcard-Shorter start cs,
    index-Shorter start (start + 1) (c ∷ cs),
  )

  token-Shorter :
      (n c : ℕ) (cs : Bytes) → Shorter (suc (length cs)) (parse_token source_id field_name n c cs)
  unfolding parse_token
  token-Shorter n c [] =
      ground (arith, bracket-Shorter n [], identifier-Shorter n c [], identifier-empty (n + 1))
  token-Shorter n c (d ∷ cs) = ground (
    arith,
    bracket-Shorter n (d ∷ cs),
    identifier-Shorter n c (d ∷ cs),
    identifier-Shorter (n + 1) d cs,
  )

  parse_operations_total :
      (fuel n : ℕ) (cs : Bytes)
      → length cs ≤ fuel
      → Ends (parse_operations source_id field_name fuel n cs)
  unfolding parse_operations
  parse_operations_total fuel n [] le = (ok [], refl)
  parse_operations_total zero n (c ∷ cs) le = absurd (omega arith)
  parse_operations_total (suc fuel) n (c ∷ cs) le =
      elim (Result-cases (parse_token source_id field_name n c cs)) [
        | inl (p, e) ↦
            let shorter = subst (Shorter (suc (length cs))) e (token-Shorter n c cs) in
            rw (e, parse_operations)
              (with_operation-Ends p.operation
                (parse_operations source_id field_name fuel p.position p.rest)
                (parse_operations_total fuel p.position p.rest (omega arith)))
        | inr (x, e) ↦ rw (e, parse_operations) (err x, refl)
      ]

  parse_root_total : (body : Bytes) → Ends (parse_root source_id field_name body)
  unfolding parse_root
  parse_root_total [] = (_, refl)
  parse_root_total (c ∷ cs) =
      if-Ends _ (parse_operations_total (length cs) 1 cs (omega arith)) (_, refl)

  parse_body_total : (body : Bytes) → Ends (parse_body source_id field_name body)
  unfolding parse_body
  parse_body_total body =
      if-Ends (contains_brace body) (_, refl)
        (if-Ends (starts_with_dots body) (_, refl) (parse_root_total body))

  undelimited_total : (path : Bytes) → Ends (parse_undelimited source_id field_name path)
  unfolding parse_undelimited
  undelimited_total path = elim (Option-cases (undelimited path)) [
    | inl e ↦ rw (e, parse_undelimited) (_, refl)
    | inr (body, e) ↦ rw (e, parse_undelimited) (parse_body_total body)
  ]

-- The parser ends on every path, with the operations or with an error: the fuel that `parse_path`
-- gives its loop is enough, for every source, field and text.
pub parse_path_total :
    (source_id field_name : String) (path : Bytes)
    → (r : Result ExpressionError (List Operation)) × (parse_path source_id field_name path
        ≡ some r)
unfolding parse_path
parse_path_total source_id field_name [] = (_, refl)
parse_path_total source_id field_name (c ∷ cs) =
    if-Ends (has_text_outside (c ∷ cs)) (_, refl) (undelimited_total source_id field_name (c ∷ cs))
