-- ===== src/Extraction/Syntax.antt =====
-- internal/extraction/parser.go: operations, errors and the tests on the bytes of a path.
use kubeseer.Prelude.{
  ℕ, ◌+◌, String, Option, none, some, Bool, false, ◌&&◌, ◌||◌, List, [], ◌∷◌, ◌==◌, leb,
  if◌then◌else◌,
}
use kubeseer.Prelude.Text.{is_upper, is_lower, is_digit}

abbrev pub Bytes : Type 0
Bytes = List ℕ

-- `operation`: the field that its kind does not use is left out.
pub data Operation : Type 0 where
  property : Bytes → Operation
  index : ℕ → Operation
  wildcard : Operation

pub data ExpressionReason : Type 0 where
  invalid_expression unsupported_expression : ExpressionReason

pub record ExpressionError : Type 0 where
  pub source_id : String
  pub field_name : String
  pub reason : ExpressionReason
  pub message : String
  pub offset : ℕ

unfoldable pub is_identifier_start : ℕ → Bool
is_identifier_start c = c == b'_' || is_upper c || is_lower c

unfoldable pub is_identifier_part : ℕ → Bool
unfolding is_identifier_start
is_identifier_part c = is_identifier_start c || is_digit c

-- strings.ContainsRune("$|?*:@", c)
unfoldable pub unsupported_token : ℕ → Bool
unsupported_token c = c == b'$' || c == b'|' || c == b'?' || c == b'*' || c == b':' || c == b'@'

abbrev pub is_brace : ℕ → Bool
is_brace c = c == b'{' || c == b'}'

-- strings.ContainsAny(s, "{}")
unfoldable pub contains_brace : Bytes → Bool
contains_brace [] = false
contains_brace (c ∷ cs) = is_brace c || contains_brace cs

-- strings.IndexByte
unfoldable pub index_byte : ℕ → Bytes → Option ℕ
index_byte b [] = none
index_byte b (c ∷ cs) =
    if c == b then some 0 else elim (index_byte b cs) [ none ↦ none | some i ↦ some (i + 1) ]

abbrev is_ascii_space : ℕ → Bool
is_ascii_space c = c == 32 || (leb 9 c && leb c 13)

-- The last two bytes of a three-byte UTF-8 code of white space that starts with 0xE2.
abbrev is_e2_space : ℕ → ℕ → Bool
is_e2_space b c =
    (b == 0x80 && ((leb 0x80 c && leb c 0x8A) || c == 0xA8 || c == 0xA9 || c == 0xAF))
    || (b == 0x81 && c == 0x9F)

abbrev is_wide_space : ℕ → ℕ → ℕ → Bool
is_wide_space a b c =
    (a == 0xE1 && b == 0x9A && c == 0x80)
    || (a == 0xE2 && is_e2_space b c)
    || (a == 0xE3 && b == 0x80 && c == 0x80)

abbrev is_latin_space : ℕ → ℕ → Bool
is_latin_space a b = a == 0xC2 && (b == 0x85 || b == 0xA0)

-- The text starts with a white space character, in UTF-8.
unfoldable pub starts_with_space : Bytes → Bool
starts_with_space [] = false
starts_with_space (a ∷ []) = is_ascii_space a
starts_with_space (a ∷ b ∷ []) = is_ascii_space a || is_latin_space a b
starts_with_space (a ∷ b ∷ c ∷ _) = is_ascii_space a || is_latin_space a b || is_wide_space a b c

-- The same at the end of the text, whose bytes are given from the last to the first.
unfoldable pub ends_with_space : Bytes → Bool
ends_with_space [] = false
ends_with_space (a ∷ []) = is_ascii_space a
ends_with_space (b ∷ a ∷ []) = is_ascii_space b || is_latin_space a b
ends_with_space (c ∷ b ∷ a ∷ _) = is_ascii_space c || is_latin_space b c || is_wide_space a b c
