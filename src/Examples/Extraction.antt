-- ===== src/Examples/Extraction.antt =====
-- Paths that the parser reads and refuses.
use kubeseer.Prelude.{◌≡◌, refl, some, List, [], ◌∷◌}
use kubeseer.Prelude.Text.{codes}
use kubeseer.Prelude.Result.{Result, err}
use kubeseer.Extraction.Syntax.{
  Operation, ExpressionError, unsupported_expression, is_identifier_start, is_identifier_part,
  contains_brace, index_byte,
}
use kubeseer.Extraction.Path.{
  parse_path, has_text_outside, parse_undelimited, undelimited, body_of, parse_body,
  starts_with_dots,
}
use kubeseer.Extraction.Parser.{
  parse_operations, parse_token, parse_identifier, span, parse_bracket,
}
use kubeseer.Extraction.Total.{parse_path_total}
use kubeseer.Extraction.Grammar.{Token, bare, dotted, quoted, item, star, write_path}

-- {.spec.containers[0]['it\'s'][*]image}
abbrev tokens : List Token
tokens =
    bare b's' (codes "pec")
    ∷ dotted b'c' (codes "ontainers")
    ∷ item b'0' []
    ∷ quoted (codes "it's")
    ∷ star
    ∷ bare b'i' (codes "mage")
    ∷ []

written : write_path tokens ≡ codes "{.spec.containers[0]['it\\'s'][*]image}"
written = refl

parse-negative :
    parse_path "s1" "image" (codes "{.items[-1]}")
    ≡ some (
        err (record {
          source_id = "s1";
          field_name = "image";
          reason = unsupported_expression;
          message = "negative indexes are unsupported";
          offset = 8;
        }))
unfolding parse_path has_text_outside index_byte parse_undelimited undelimited body_of parse_body
    contains_brace starts_with_dots parse_operations parse_token is_identifier_start
    parse_identifier span is_identifier_part parse_bracket
parse-negative = refl

parse_path_total_example :
    (r : Result ExpressionError (List Operation)) × (parse_path "s1" "image" (codes "{.a[?(@.b)]}")
      ≡ some r)
parse_path_total_example = parse_path_total "s1" "image" (codes "{.a[?(@.b)]}")
