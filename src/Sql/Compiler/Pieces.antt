-- ===== src/Sql/Compiler/Pieces.antt =====
-- The pieces of SQL that a predicate is made of are safe.
use mathlib.Core.Path.{subst}
use squirreldb.Base.{
  ◌||◌, All, ◌≡◌, inl, inr, refl, sym, Text, lit, Bool, true, false, Bool-cases, List, [], ◌∷◌,
  ◌++◌, text_eq, text_eq_iff,
}
use squirreldb.Base.Strings.{split_on}
use squirreldb.Sql.Sanitize.{escape_string, validate_numeric}
use squirreldb.Sql.Dialect.{SqlDialect, postgres, sqlite, json_text}
use squirreldb.Sql.Scan.{
  scan, IsSafe, IsQuiet, NoQuote, NoQuote-IsQuiet, append-IsSafe, around-IsSafe, within-IsSafe,
}
use squirreldb.Sql.Safety.{
  validate_numeric-NoQuote, validate_numeric-IsSafe, escape_string-IsQuiet, quoted-IsSafe,
  pattern_IsQuiet,
}
use squirreldb.Sql.Fields.{json_text-IsSafe, json_extract-IsSafe, split_on-NoQuote}
use squirreldb.Sql.Structured.{quoted, like_escape}
use squirreldb.Sql.Compiler.Outcomes.{Outcome, no, yes, ◌>>=◌, success, is_ok}
use squirreldb.Sql.Compiler.Values.{
  is_quoted, operator_of, arrows, json_array, json_array_length, json_array_contains, array_value,
  contains_text, extract_string_value, string_match,
}
use squirreldb.Sql.Compiler.Chains.{
  IsSafeOutcome, yes_inj, yes-IsSafe, no-IsSafe, >>=-eq-yes, >>=-IsSafe, if-IsSafe, success-eq-yes,
  is_ok-eq-ok,
}

text_eq-IsSafe :
    (s t : Text) (b : Bool)
    → IsSafe t
    → (b ≡ true → IsSafe s)
    → (b || text_eq s t) ≡ true
    → IsSafe s
text_eq-IsSafe s t true h k e = k refl
text_eq-IsSafe s t false h k e = subst IsSafe (sym ((text_eq_iff s t).0 e)) h

pub operator_of-IsSafe : (op : Text) → IsSafeOutcome (operator_of op)
unfolding operator_of scan
operator_of-IsSafe op =
    if-IsSafe (text_eq op (lit "===") || text_eq op (lit "==")) (yes (lit "=")) _
      (λ h. yes-IsSafe (lit "=") refl)
      (if-IsSafe (text_eq op (lit "!==") || text_eq op (lit "!=")) (yes (lit "!=")) _
        (λ h. yes-IsSafe (lit "!=") refl)
        (if-IsSafe _ (yes op) no (λ h. yes-IsSafe op (sign h)) no-IsSafe))
  where
    sign :
        (text_eq op (lit ">")
            || text_eq op (lit "<")
            || text_eq op (lit ">=")
            || text_eq op (lit "<="))
          ≡ true
        → IsSafe op
    sign = text_eq-IsSafe op (lit "<=") _ refl (
        text_eq-IsSafe op (lit ">=") _ refl
          (text_eq-IsSafe op (lit "<") _ refl (text_eq-IsSafe op (lit ">") false refl (λ f. cc))))

arrows-IsSafe : (ts : List Text) → All NoQuote ts → IsSafe (arrows ts)
unfolding arrows scan
arrows-IsSafe [] h = refl
arrows-IsSafe (t ∷ ts) h =
    within-IsSafe (lit "->'") t (lit "'" ++ arrows ts) refl (NoQuote-IsQuiet t h.0)
      (arrows-IsSafe ts h.1)

-- What stands in quotes, escaped.
pub inner-IsQuiet :
    (e : Text) (m : Outcome Text)
    → (m >>= (λ inner. success (escape_string inner))) ≡ yes e
    → IsQuiet e × IsQuiet (like_escape e)
inner-IsQuiet e m h =
    let (inner, cut, h') = >>=-eq-yes m (λ inner. success (escape_string inner)) h in
    escape_string-IsQuiet inner e (success-eq-yes (escape_string inner) e h')

-- The text of a value that is looked for in an array.
abbrev IsSafeValue : Bool × Text → Type 0
IsSafeValue (true, t) = IsQuiet t
IsSafeValue (false, t) = IsSafe t × IsQuiet t

array_value-IsSafe : (value : Text) (v : Bool × Text) → array_value value ≡ yes v → IsSafeValue v
unfolding array_value
array_value-IsSafe value v e = elim (Bool-cases (is_quoted value)) [
  | inl between ↦
      let (t, cut, e') =
        >>=-eq-yes _ (λ escaped. yes (true, escaped)) (rw (between, array_value) at e) in
      subst IsSafeValue (yes_inj _ _ e') (inner-IsQuiet t _ cut).0
  | inr bare ↦ elim (Bool-cases (is_ok (validate_numeric value))) [
    | inl number ↦
        let valid = is_ok-eq-ok (validate_numeric value) number in
        subst IsSafeValue (yes_inj _ _ (rw (bare, number, array_value) at e)) (
          validate_numeric-IsSafe value valid,
          NoQuote-IsQuiet value (validate_numeric-NoQuote value valid),
        )
    | inr other ↦ cc
  ]
]

module _ (field : Text) (plain : NoQuote field) where
  json_array-IsSafe : (d : SqlDialect) → IsSafe (json_array d field)
  unfolding json_array scan
  json_array-IsSafe postgres =
      append-IsSafe (lit "data") (arrows (split_on b'.' field)) refl
        (arrows-IsSafe (split_on b'.' field) (split_on-NoQuote b'.' field plain))
  json_array-IsSafe sqlite = json_extract-IsSafe field plain

  pub json_array_length-IsSafe : (d : SqlDialect) → IsSafe (json_array_length d field)
  unfolding json_array_length scan
  json_array_length-IsSafe postgres =
      around-IsSafe (lit "jsonb_array_length(") (json_array postgres field) (lit ")") refl
        (json_array-IsSafe postgres) refl
  json_array_length-IsSafe sqlite =
      around-IsSafe (lit "json_array_length(") (json_array sqlite field) (lit ")") refl
        (json_array-IsSafe sqlite) refl

  each_IsSafe :
      (t : Text)
      → IsSafe t
      → IsSafe (
          lit "EXISTS(SELECT 1 FROM json_each("
          ++ (json_array sqlite field ++ (lit ") WHERE value = " ++ (t ++ lit ")"))))
  unfolding scan
  each_IsSafe t h =
      around-IsSafe (lit "EXISTS(SELECT 1 FROM json_each(") (json_array sqlite field)
        (lit ") WHERE value = " ++ (t ++ lit ")")) refl (json_array-IsSafe sqlite)
        (around-IsSafe (lit ") WHERE value = ") t (lit ")") refl h refl)

  contains_text-IsSafe :
      (d : SqlDialect) (v : Bool × Text) → IsSafeValue v → IsSafe (contains_text d field v)
  unfolding contains_text scan
  contains_text-IsSafe postgres (true, t) h =
      around-IsSafe (json_array postgres field) (lit " ? ") (quoted t) (json_array-IsSafe postgres)
        refl (quoted-IsSafe t h)
  contains_text-IsSafe postgres (false, t) h =
      append-IsSafe (json_array postgres field) (lit " @> '[" ++ (t ++ lit "]'::jsonb"))
        (json_array-IsSafe postgres)
        (within-IsSafe (lit " @> '[") t (lit "]'::jsonb") refl h.1 refl)
  contains_text-IsSafe sqlite (true, t) h = each_IsSafe (quoted t) (quoted-IsSafe t h)
  contains_text-IsSafe sqlite (false, t) h = each_IsSafe t h.0

  pub json_array_contains-IsSafe :
      (d : SqlDialect) (value : Text) → IsSafeOutcome (json_array_contains d field value)
  unfolding json_array_contains
  json_array_contains-IsSafe d value =
      >>=-IsSafe (array_value value) _
        (λ v made. yes-IsSafe _ (contains_text-IsSafe d v (array_value-IsSafe value v made)))

  pub string_match-IsSafe :
      (prefix suffix : Text)
      → IsQuiet prefix
      → IsQuiet suffix
      → (d : SqlDialect) (value : Text) → IsSafeOutcome (string_match prefix suffix d field value)
  unfolding string_match scan
  string_match-IsSafe prefix suffix h k d value = >>=-IsSafe _ _ (λ e made. yes-IsSafe _ (
      around-IsSafe (json_text d field) (lit " LIKE ")
        (quoted (prefix ++ (like_escape e ++ suffix))) (json_text-IsSafe field plain d) refl
        (quoted-IsSafe (prefix ++ (like_escape e ++ suffix)) (
          pattern_IsQuiet prefix e suffix h (inner-IsQuiet e (extract_string_value value) made).1
            k))))
