-- ===== src/Extraction/Path.antt =====
-- internal/extraction/parser.go: `parsePath`.
use mathlib.Core.List.{reverse}
use kubeseer.Prelude.{
  ◌+◌, String, Option, none, some, Bool, false, not, ◌&&◌, ◌||◌, List, [], ◌∷◌, length, ◌==◌,
  if◌then◌else◌,
}
use kubeseer.Prelude.Result.{Result}
use kubeseer.Extraction.Syntax.{
  Bytes, Operation, ExpressionError, contains_brace, index_byte, starts_with_space, ends_with_space,
}
use kubeseer.Extraction.Parser.{invalid, unsupported, parse_operations}

-- There is a `}`, and the first one is not the last byte of the path.
unfoldable pub closes_early : Bytes → Bool
closes_early path = elim (index_byte b'}' path) [
  | none ↦ false
  | some i ↦ not (i + 1 == length path)
]

unfoldable pub has_text_outside : Bytes → Bool
unfolding closes_early
has_text_outside [] = false
has_text_outside (c ∷ cs) =
    if c == b'{'
    then closes_early (c ∷ cs)
    else contains_brace (c ∷ cs) || starts_with_space (c ∷ cs) || ends_with_space (reverse (c ∷ cs))

-- The body of a path without its last byte, which has to be `}`.
unfoldable pub body_of : Bytes → Option Bytes
body_of [] = none
body_of (c ∷ []) = if c == b'}' then some [] else none
body_of (c ∷ d ∷ cs) = elim (body_of (d ∷ cs)) [ none ↦ none | some body ↦ some (c ∷ body) ]

unfoldable pub undelimited : Bytes → Option Bytes
undelimited [] = none
undelimited (c ∷ cs) = if c == b'{' then body_of cs else none

-- strings.HasPrefix(body, "..")
unfoldable pub starts_with_dots : Bytes → Bool
starts_with_dots (c ∷ d ∷ _) = c == b'.' && d == b'.'
starts_with_dots _ = false

module _ (source_id field_name : String) where
  unfoldable pub parse_root : Bytes → Option (Result ExpressionError (List Operation))
  parse_root [] =
      some (invalid source_id field_name "path must address the resource root with a leading dot" 1)
  parse_root (c ∷ cs) =
      if c == b'.'
      then parse_operations source_id field_name (length cs) 1 cs
      else some
          (invalid source_id field_name "path must address the resource root with a leading dot" 1)

  unfoldable pub parse_body : Bytes → Option (Result ExpressionError (List Operation))
  unfolding parse_root
  parse_body body =
      if contains_brace body
      then some
          (unsupported source_id field_name "multiple or nested path delimiters are unsupported" 1)
      else if starts_with_dots body
      then some (unsupported source_id field_name "recursive descent is unsupported" 1)
      else parse_root body

  unfoldable pub parse_undelimited : Bytes → Option (Result ExpressionError (List Operation))
  parse_undelimited path = elim (undelimited path) [
    | none ↦
        some (invalid source_id field_name "path must have one opening and closing delimiter" 0)
    | some body ↦ parse_body body
  ]

  -- `parsePath`. One round of the loop takes at least one byte, so its fuel is the length of the body.
  unfoldable pub parse_path : Bytes → Option (Result ExpressionError (List Operation))
  parse_path [] = some (invalid source_id field_name "path is empty" 0)
  parse_path (c ∷ cs) =
      if has_text_outside (c ∷ cs)
      then some (unsupported source_id field_name "text outside the single delimited path" 0)
      else parse_undelimited (c ∷ cs)
