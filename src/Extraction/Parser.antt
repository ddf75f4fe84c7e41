-- ===== src/Extraction/Parser.antt =====
-- internal/extraction/parser.go: the tokens. `pathParser` is the pair of its position and of what
-- follows there; `input` does not change.
use kubeseer.Prelude.{
  ℕ, zero, suc, ◌+◌, ◌-◌, ◌*◌, String, Option, none, some, Bool, false, ◌||◌, List, [], ◌∷◌, ◌++◌,
  length, ltb, ◌==◌, if◌then◌else◌,
}
use kubeseer.Prelude.Int.{max_int64}
use kubeseer.Prelude.Result.{Result, ok, err}
use kubeseer.Prelude.Text.{is_digit}
use kubeseer.Extraction.Syntax.{
  Bytes, Operation, property, index, wildcard, invalid_expression, unsupported_expression,
  ExpressionError, is_identifier_start, is_identifier_part, unsupported_token,
}

-- The longest prefix of bytes that pass a test, and the rest.
module _ (test : ℕ → Bool) where
  unfoldable pub span : Bytes → Bytes × Bytes
  span [] = ([], [])
  span (c ∷ cs) = let (word, rest) = span cs in if test c then (c ∷ word, rest) else ([], c ∷ cs)

-- The number that decimal digits spell, after those of `n`.
unfoldable pub digits_value : ℕ → Bytes → ℕ
digits_value n [] = n
digits_value n (c ∷ cs) = digits_value (n * 10 + (c - 48)) cs

-- What a token parser returns: the operation, the new position and what follows.
pub record Parsed : Type 0 where
  pub operation : Operation
  pub position : ℕ
  pub rest : Bytes

unfoldable pub starts_with_dot : Bytes → Bool
starts_with_dot [] = false
starts_with_dot (c ∷ _) = c == b'.'

unfoldable pub with_operation :
    Operation
    → Option (Result ExpressionError (List Operation))
    → Option (Result ExpressionError (List Operation))
with_operation op none = none
with_operation op (some (err e)) = some (err e)
with_operation op (some (ok ops)) = some (ok (op ∷ ops))

module _ (source_id field_name : String) where
  abbrev pub invalid : {A : Type 0} → String → ℕ → Result ExpressionError A
  invalid message offset = err (record {
    source_id = source_id;
    field_name = field_name;
    reason = invalid_expression;
    message = message;
    offset = offset;
  })

  abbrev pub unsupported : {A : Type 0} → String → ℕ → Result ExpressionError A
  unsupported message offset = err (record {
    source_id = source_id;
    field_name = field_name;
    reason = unsupported_expression;
    message = message;
    offset = offset;
  })

  abbrev parsed : Operation → ℕ → Bytes → Result ExpressionError Parsed
  parsed op position rest = ok (record { operation = op; position = position; rest = rest })

  unfoldable pub parse_identifier : ℕ → Bytes → Result ExpressionError Parsed
  parse_identifier start [] = invalid "property name is invalid" (start + 1)
  parse_identifier start (c ∷ cs) =
      if is_identifier_start c
      then (let (word, rest) = span is_identifier_part cs in
          parsed (property (c ∷ word)) (start + 1 + length word) rest)
      else if c == b'*' || c == b'?' || c == b'|'
      then unsupported "JSONPath construct is outside the supported subset" (start + 1)
      else invalid "property name is invalid" (start + 1)

  -- Behind the closing quote.
  unfoldable pub close_quote : ℕ → ℕ → Bytes → Bytes → Result ExpressionError Parsed
  close_quote start position key [] = invalid "quoted bracket key is not closed" (start + 1)
  close_quote start position key (c ∷ cs) =
      if c == b']'
      then parsed (property key) (position + 1) cs
      else invalid "quoted bracket key is not closed" (start + 1)

  -- `position` is that of the first byte of the list; `key` holds the bytes that are read.
  unfoldable pub parse_quoted_key : ℕ → ℕ → Bytes → Bytes → Result ExpressionError Parsed
  unfolding close_quote
  parse_quoted_key start position key [] = invalid "quoted bracket key is not closed" (start + 1)
  parse_quoted_key start position key (c ∷ []) =
      if c == 39
      then close_quote start (position + 1) key []
      else if c == 92
      then invalid "quoted bracket key contains an invalid escape" (position + 1 + 1)
      else invalid "quoted bracket key is not closed" (start + 1)
  parse_quoted_key start position key (c ∷ d ∷ cs) =
      let escaped = parse_quoted_key start (position + 2) (key ++ d ∷ []) cs in
      let plain = parse_quoted_key start (position + 1) (key ++ c ∷ []) (d ∷ cs) in
      if c == 39
      then close_quote start (position + 1) key (d ∷ cs)
      else if c == 92
      then (if d == 92 || d == 39
          then escaped
          else invalid "quoted bracket key contains an invalid escape" (position + 1 + 1))
      else plain

  unfoldable pub close_index : ℕ → ℕ → Bytes → Bytes → Result ExpressionError Parsed
  close_index start index_start text [] = invalid "array index token is not closed" (start + 1)
  close_index start index_start text (c ∷ cs) =
      if c == b']'
      then (if ltb max_int64 (digits_value 0 text)
          then invalid "array index is outside the supported range" (index_start + 1)
          else parsed (index (digits_value 0 text)) (index_start + length text + 1) cs)
      else if c == b':' || c == b','
      then unsupported "slices and unions are unsupported" (index_start + length text + 1)
      else invalid "array index token is not closed" (start + 1)

  unfoldable pub parse_index : ℕ → ℕ → Bytes → Result ExpressionError Parsed
  unfolding close_index
  parse_index start index_start cs =
      let (text, rest) = span is_digit cs in close_index start index_start text rest

  unfoldable pub close_wildcard : ℕ → Bytes → Result ExpressionError Parsed
  close_wildcard start [] = invalid "wildcard bracket token is malformed" (start + 1)
  close_wildcard start (c ∷ cs) =
      if c == b']'
      then parsed wildcard (start + 3) cs
      else invalid "wildcard bracket token is malformed" (start + 1)

  -- `start` is the position of the bracket; the list is what follows it.
  unfoldable pub parse_bracket : ℕ → Bytes → Result ExpressionError Parsed
  unfolding close_wildcard
  parse_bracket start [] = invalid "bracket token is not closed" (start + 1)
  parse_bracket start (c ∷ cs) =
      let position = start + 1 in
      if c == 39
      then parse_quoted_key start (position + 1) [] cs
      else if c == 34
      then unsupported "double-quoted bracket keys are unsupported" (position + 1)
      else if c == b'*'
      then close_wildcard start cs
      else if c == b'-'
      then unsupported "negative indexes are unsupported" (position + 1)
      else if c == b'?' || c == b':' || c == b','
      then unsupported "filters, slices, and unions are unsupported" (position + 1)
      else if is_digit c
      then parse_index start position (c ∷ cs)
      else if c == b']'
      then invalid "bracket token is empty" (position + 1)
      else unsupported "bracket construct is outside the supported subset" (position + 1)

  -- One round of the loop, at a byte `c` that is followed by `cs`.
  unfoldable pub parse_token : ℕ → ℕ → Bytes → Result ExpressionError Parsed
  unfolding starts_with_dot
  parse_token position c cs =
      if c == b'.'
      then (if starts_with_dot cs
          then unsupported "recursive descent is unsupported" (position + 1)
          else parse_identifier (position + 1) cs)
      else if c == b'['
      then parse_bracket position cs
      else if is_identifier_start c
      then parse_identifier position (c ∷ cs)
      else if unsupported_token c
      then unsupported "JSONPath construct is outside the supported subset" (position + 1)
      else invalid "path contains an invalid token" (position + 1)

  -- The loop; `none` is fuel that ran out.
  unfoldable pub parse_operations : ℕ → ℕ → Bytes → Option (Result ExpressionError (List Operation))
  unfolding with_operation
  parse_operations fuel position [] = some (ok [])
  parse_operations zero position (c ∷ cs) = none
  parse_operations (suc fuel) position (c ∷ cs) = elim (parse_token position c cs) [
    | err e ↦ some (err e)
    | ok p ↦ with_operation p.operation (parse_operations fuel p.position p.rest)
  ]
