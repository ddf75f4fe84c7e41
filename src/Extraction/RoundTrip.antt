-- ===== src/Extraction/RoundTrip.antt =====
-- internal/extraction/parser.go: the loop of `parsePath` on text that is written from tokens.
use mathlib.Core.Path.{subst}
use mathlib.Core.List.{append-nil, append_assoc}
use kubeseer.Prelude.{
  ℕ, zero, suc, ◌+◌, ◌≤◌, String, ◌≡◌, ◌≢◌, sym, refl, some, Bool, true, false, List, [], ◌∷◌, ◌++◌,
  map, length, All, arith, Bool-cases, inl, inr, ◌==◌, ◌||◌,
}
use kubeseer.Prelude.Int.{max_int64}
use kubeseer.Prelude.Text.{is_digit}
use kubeseer.Prelude.Result.{Result, ok}
use kubeseer.Extraction.Syntax.{
  Bytes, Operation, property, index, wildcard, ExpressionError, is_identifier_start,
  is_identifier_part,
}
use kubeseer.Extraction.Parser.{
  span, digits_value, Parsed, parse_identifier, parse_quoted_key, parse_index, parse_bracket,
  parse_token, parse_operations, with_operation, close_quote, close_index, close_wildcard,
  starts_with_dot,
}
use kubeseer.Extraction.Grammar.{
  Token, bare, dotted, quoted, item, star, escape, write, write_all, meaning, IsToken, Place,
  after_name, place_after, IsSentence,
}

-- The text is empty or starts with a byte that fails the test.
abbrev Stops : (ℕ → Bool) → Bytes → Type 0
Stops test [] = Unit
Stops test (c ∷ _) = test c ≡ false

span-append :
    (test : ℕ → Bool) (word rest : Bytes)
    → All (λ c. test c ≡ true) word
    → Stops test rest
    → span test (word ++ rest) ≡ (word, rest)
unfolding span
span-append test [] [] h s = refl
span-append test [] (c ∷ cs) h s = rw s refl
span-append test (c ∷ cs) rest h s = rw (span-append test cs rest h.1 s) (rw h.0 refl)

append≢nil : (xs : Bytes) (c : ℕ) (cs : Bytes) → xs ++ c ∷ cs ≢ []
append≢nil [] c cs h = cc
append≢nil (x ∷ xs) c cs h = cc

module _ (source_id field_name : String) where
  abbrev Reads : Result ExpressionError Parsed → Operation → Bytes → Type 0
  Reads r op rest = (m : ℕ) × (r ≡ ok (record { operation = op; position = m; rest = rest }))

  identifier-Reads :
      (n c : ℕ) (cs rest : Bytes)
      → is_identifier_start c ≡ true
      → All (λ d. is_identifier_part d ≡ true) cs
      → Stops is_identifier_part rest
      → Reads (parse_identifier source_id field_name n (c ∷ cs ++ rest)) (property (c ∷ cs)) rest
  unfolding parse_identifier
  identifier-Reads n c cs rest start parts stop =
      rw start (rw (span-append is_identifier_part cs rest parts stop) (_, refl))

  index-Reads :
      (start n c : ℕ) (cs rest : Bytes)
      → All (λ d. is_digit d ≡ true) (c ∷ cs)
      → digits_value 0 (c ∷ cs) ≤ max_int64
      → Reads
          (parse_index source_id field_name start n (c ∷ cs ++ b']' ∷ rest))
          (index (digits_value 0 (c ∷ cs)))
          rest
  unfolding parse_index
  index-Reads start n c cs rest digits le =
      rw (span-append is_digit (c ∷ cs) (b']' ∷ rest) digits refl)
        (n + length (c ∷ cs) + 1, unfold close_index in ground arith)

  quoted-plain :
      (start n c : ℕ) (read tail : Bytes)
      → tail ≢ []
      → (c == 39 || c == 92) ≡ false
      → parse_quoted_key source_id field_name start n read (c ∷ tail)
        ≡ parse_quoted_key source_id field_name start (n + 1) (read ++ c ∷ []) tail
  unfolding parse_quoted_key
  quoted-plain start n c read [] h e = absurd (h refl)
  quoted-plain start n c read (d ∷ cs) h e = ground arith

  quoted-escaped :
      (start n c : ℕ) (read tail : Bytes)
      → (c == 39 || c == 92) ≡ true
      → parse_quoted_key source_id field_name start n read (92 ∷ c ∷ tail)
        ≡ parse_quoted_key source_id field_name start (n + 2) (read ++ c ∷ []) tail
  unfolding parse_quoted_key
  quoted-escaped start n c read tail e = ground arith

  quoted-Reads :
      (start n : ℕ) (key read rest : Bytes)
      → Reads
          (parse_quoted_key source_id field_name start n read (escape key ++ 39 ∷ b']' ∷ rest))
          (property (read ++ key))
          rest
  quoted-Reads start n [] read rest =
      rw (append-nil read) (n + 1 + 1, unfold parse_quoted_key in unfold close_quote in refl)
  quoted-Reads start n (c ∷ cs) read rest =
      let tail = escape cs ++ 39 ∷ b']' ∷ rest in
      elim (Bool-cases (c == 39 || c == 92)) [
        | inl e ↦
            rw (e, quoted-escaped start n c read tail e, sym (append_assoc read (c ∷ []) cs))
              (quoted-Reads start (n + 2) cs (read ++ c ∷ []) rest)
        | inr e ↦
            rw
              (
                e,
                quoted-plain start n c read tail (append≢nil (escape cs) 39 (b']' ∷ rest)) e,
                sym (append_assoc read (c ∷ []) cs),
              )
              (quoted-Reads start (n + 1) cs (read ++ c ∷ []) rest)
      ]

  -- Behind a name, what follows does not continue it.
  sentence-Stops :
      (ts : List Token) → IsSentence after_name ts → Stops is_identifier_part (write_all ts)
  unfolding is_identifier_part is_identifier_start
  sentence-Stops [] h = tt
  sentence-Stops (bare c cs ∷ ts) h = absurd h.1
  sentence-Stops (dotted c cs ∷ ts) h = refl
  sentence-Stops (quoted key ∷ ts) h = refl
  sentence-Stops (item c cs ∷ ts) h = refl
  sentence-Stops (star ∷ ts) h = refl

  -- One round of the loop reads one token.
  abbrev Steps : ℕ → ℕ → Bytes → Operation → Bytes → Type 0
  Steps fuel n text op rest =
      (m : ℕ) × (parse_operations source_id field_name (suc fuel) n text
        ≡ with_operation op (parse_operations source_id field_name fuel m rest))

  token-Steps :
      (fuel n c : ℕ) (cs rest : Bytes) (op : Operation)
      → Reads (parse_token source_id field_name n c cs) op rest
      → Steps fuel n (c ∷ cs) op rest
  unfolding parse_operations
  token-Steps fuel n c cs rest op (m, h) = rw (h, parse_operations) (m, refl)

  bracket-Reads :
      (n : ℕ) (cs rest : Bytes) (op : Operation)
      → Reads (parse_bracket source_id field_name n cs) op rest
      → Reads (parse_token source_id field_name n b'[' cs) op rest
  unfolding parse_token
  bracket-Reads n cs rest op h = h

  token_bare :
      (n c : ℕ) (cs : Bytes)
      → is_identifier_start c ≡ true
      → parse_token source_id field_name n c cs ≡ parse_identifier source_id field_name n (c ∷ cs)
  unfolding parse_token is_identifier_start
  token_bare n c cs h = ground (arith, h)

  token_dotted :
      (n c : ℕ) (cs : Bytes)
      → is_identifier_start c ≡ true
      → parse_token source_id field_name n b'.' (c ∷ cs)
        ≡ parse_identifier source_id field_name (n + 1) (c ∷ cs)
  unfolding parse_token is_identifier_start starts_with_dot
  token_dotted n c cs h = ground (arith, h)

  bracket_item :
      (n c : ℕ) (cs : Bytes)
      → is_digit c ≡ true
      → parse_bracket source_id field_name n (c ∷ cs)
        ≡ parse_index source_id field_name n (n + 1) (c ∷ cs)
  unfolding parse_bracket
  bracket_item n c cs h = ground (arith, h)

  write-Steps :
      (fuel n : ℕ) (t : Token) (rest : Bytes)
      → IsToken t
      → ((place_after t ≡ after_name) → Stops is_identifier_part rest)
      → Steps fuel n (write t rest) (meaning t) rest
  write-Steps fuel n (bare c cs) rest h stop =
      token-Steps fuel n c (cs ++ rest) rest (property (c ∷ cs))
        (rw (token_bare n c (cs ++ rest) h.0) (identifier-Reads n c cs rest h.0 h.1 (stop refl)))
  write-Steps fuel n (dotted c cs) rest h stop =
      token-Steps fuel n b'.' (c ∷ cs ++ rest) rest (property (c ∷ cs)) (
        rw (token_dotted n c (cs ++ rest) h.0)
          (identifier-Reads (n + 1) c cs rest h.0 h.1 (stop refl)))
  write-Steps fuel n (quoted key) rest h stop =
      token-Steps fuel n b'[' (39 ∷ escape key ++ 39 ∷ b']' ∷ rest) rest (property key)
        (unfold parse_token in unfold parse_bracket in quoted-Reads n (n + 1 + 1) key [] rest)
  write-Steps fuel n (item c cs) rest h stop =
      token-Steps fuel n b'[' (c ∷ cs ++ b']' ∷ rest) rest (index (digits_value 0 (c ∷ cs))) (
        bracket-Reads n (c ∷ cs ++ b']' ∷ rest) rest (index (digits_value 0 (c ∷ cs))) (
          rw (bracket_item n c (cs ++ b']' ∷ rest) (h.0).0)
            (index-Reads n (n + 1) c cs rest h.0 h.1)))
  write-Steps fuel n star rest h stop =
      token-Steps fuel n b'[' (b'*' ∷ b']' ∷ rest) rest wildcard
        (n + 3, unfold parse_token in unfold parse_bracket in unfold close_wildcard in refl)

  stop_after :
      (t : Token) (ts : List Token)
      → IsSentence (place_after t) ts
      → place_after t ≡ after_name
      → Stops is_identifier_part (write_all ts)
  stop_after t ts h e = sentence-Stops ts (subst (λ p. IsSentence p ts) e h)

  pub operations-write_all :
      (p : Place) (fuel n : ℕ) (ts : List Token)
      → IsSentence p ts
      → length ts ≤ fuel
      → parse_operations source_id field_name fuel n (write_all ts) ≡ some (ok (map meaning ts))
  operations-write_all p fuel n [] h le = unfold parse_operations in refl
  operations-write_all p zero n (t ∷ ts) h le = absurd (omega arith)
  operations-write_all p (suc fuel) n (t ∷ ts) h le =
      let (m, e) = write-Steps fuel n t (write_all ts) h.0 (stop_after t ts h.2) in
      rw (e, operations-write_all (place_after t) fuel m ts h.2 (omega arith))
        (unfold with_operation in refl)
