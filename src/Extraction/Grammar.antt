-- ===== src/Extraction/Grammar.antt =====
-- The path language of internal/extraction/parser.go, as tokens and their text.
use kubeseer.Prelude.{ℕ, ◌≤◌, ◌≡◌, true, false, ◌||◌, List, [], ◌∷◌, ◌++◌, ◌==◌, if◌then◌else◌, All}
use kubeseer.Prelude.Int.{max_int64}
use kubeseer.Prelude.Text.{is_digit}
use kubeseer.Extraction.Syntax.{
  Bytes, Operation, property, index, wildcard, is_identifier_start, is_identifier_part,
  contains_brace,
}
use kubeseer.Extraction.Parser.{digits_value}

-- `name`, `.name`, `['key']`, `[digits]` and `[*]`.
pub data Token : Type 0 where
  bare : ℕ → Bytes → Token
  dotted : ℕ → Bytes → Token
  quoted : Bytes → Token
  item : ℕ → Bytes → Token
  star : Token

abbrev pub escape : Bytes → Bytes
escape [] = []
escape (c ∷ cs) = if c == 39 || c == 92 then 92 ∷ c ∷ escape cs else c ∷ escape cs

-- The text of a token, in front of what follows it.
abbrev pub write : Token → Bytes → Bytes
write (bare c cs) rest = c ∷ cs ++ rest
write (dotted c cs) rest = b'.' ∷ c ∷ cs ++ rest
write (quoted key) rest = b'[' ∷ 39 ∷ escape key ++ 39 ∷ b']' ∷ rest
write (item c cs) rest = b'[' ∷ c ∷ cs ++ b']' ∷ rest
write star rest = b'[' ∷ b'*' ∷ b']' ∷ rest

abbrev pub write_all : List Token → Bytes
write_all [] = []
write_all (t ∷ ts) = write t (write_all ts)

abbrev pub meaning : Token → Operation
meaning (bare c cs) = property (c ∷ cs)
meaning (dotted c cs) = property (c ∷ cs)
meaning (quoted key) = property key
meaning (item c cs) = index (digits_value 0 (c ∷ cs))
meaning star = wildcard

abbrev pub IsToken : Token → Type 0
IsToken (bare c cs) = (is_identifier_start c ≡ true) × All (λ d. is_identifier_part d ≡ true) cs
IsToken (dotted c cs) = (is_identifier_start c ≡ true) × All (λ d. is_identifier_part d ≡ true) cs
IsToken (quoted key) = contains_brace key ≡ false
IsToken (item c cs) = All (λ d. is_digit d ≡ true) (c ∷ cs) × (digits_value 0 (c ∷ cs) ≤ max_int64)
IsToken star = Unit

pub data Place : Type 0 where
  root after_name after_bracket : Place

-- Behind the root's dot no second dot may stand, and behind a name a bare one would continue it.
abbrev pub Fits : Place → Token → Type 0
Fits root (dotted c cs) = ⊥
Fits root _ = Unit
Fits after_name (bare c cs) = ⊥
Fits after_name _ = Unit
Fits after_bracket _ = Unit

abbrev pub place_after : Token → Place
place_after (bare c cs) = after_name
place_after (dotted c cs) = after_name
place_after (quoted key) = after_bracket
place_after (item c cs) = after_bracket
place_after star = after_bracket

abbrev pub IsSentence : Place → List Token → Type 0
IsSentence p [] = Unit
IsSentence p (t ∷ ts) = IsToken t × Fits p t × IsSentence (place_after t) ts

-- `{.` tokens `}`
abbrev pub write_path : List Token → Bytes
write_path ts = b'{' ∷ b'.' ∷ write_all ts ++ b'}' ∷ []
