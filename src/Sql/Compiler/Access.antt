-- ===== src/Sql/Compiler/Access.antt =====
-- What the compiler of predicates makes of one comparison, method call or field is safe.
use squirreldb.Base.{
  ◌-◌, ℕ, ◌≡◌, refl, arith, Text, lit, length, Bool, true, false, [], ◌++◌, if◌then◌else◌, text_eq,
}
use squirreldb.Base.Strings.{split_at, strip_prefix, trim}
use squirreldb.Sql.Sanitize.{escape_string, validate_identifier, validate_numeric}
use squirreldb.Sql.Dialect.{SqlDialect, json_text, json_numeric, json_bool}
use squirreldb.Sql.Scan.{scan, IsSafe, NoQuote, append-IsSafe, around-IsSafe}
use squirreldb.Sql.Safety.{validate_numeric-IsSafe, quoted-IsSafe, spaced-IsSafe}
use squirreldb.Sql.Fields.{
  validate_identifier-NoQuote, json_text-IsSafe, json_numeric-IsSafe, json_bool-IsSafe,
}
use squirreldb.Sql.Structured.{spaced, quoted}
use squirreldb.Sql.Compiler.Outcomes.{Outcome, no, ◌>>=◌, success, is_ok}
use squirreldb.Sql.Compiler.Values.{slice, is_quoted, operator_of, operators, json_array_length}
use squirreldb.Sql.Compiler.Pieces.{
  operator_of-IsSafe, inner-IsQuiet, json_array_length-IsSafe, json_array_contains-IsSafe,
  string_match-IsSafe,
}
use squirreldb.Sql.Compiler.Chains.{
  IsSafeOutcome, yes-IsSafe, no-IsSafe, >>=-IsSafe, otherwise-IsSafe, if-IsSafe, elim-IsSafe,
  first-IsSafe, outcome-IsSafe, is_ok-eq-ok,
}
use squirreldb.Sql.Compiler

module _ (is_alphanumeric : ℕ → Bool) (to_uppercase : Text → Text) (dialect : SqlDialect) where
  pub null_IsSafe : (b : Bool) → IsSafe (if b then lit " IS NULL" else lit " IS NOT NULL")
  unfolding scan
  null_IsSafe true = refl
  null_IsSafe false = refl

  -- A field that may stand in SQL holds no quote.
  pub valid-NoQuote :
      (field : Text) → is_ok (validate_identifier to_uppercase field) ≡ true → NoQuote field
  valid-NoQuote field h = validate_identifier-NoQuote to_uppercase field (is_ok-eq-ok _ h)

  pub is_field-NoQuote :
      (field : Text)
      → Compiler.is_field is_alphanumeric to_uppercase dialect field ≡ true
      → NoQuote field
  is_field-NoQuote field h = valid-NoQuote field (ground arith)

  pub flag-IsSafe :
      (field : Text) → NoQuote field → IsSafe (json_bool dialect field ++ lit " = true")
  unfolding scan
  flag-IsSafe field plain =
      append-IsSafe (json_bool dialect field) (lit " = true") (json_bool-IsSafe field plain dialect)
        refl

  pub generate_sql-IsSafe :
      (field op value : Text)
      → IsSafeOutcome (Compiler.generate_sql is_alphanumeric to_uppercase dialect field op value)
  unfolding Compiler.generate_sql scan
  generate_sql-IsSafe field op value =
      if-IsSafe (is_ok (validate_identifier to_uppercase field)) _ no
        (λ valid.
          let plain = valid-NoQuote field valid in
          >>=-IsSafe (operator_of op) _ (λ sql_op found.
            if-IsSafe (text_eq value (lit "true")) _ _ (λ h. yes-IsSafe _ (flag-IsSafe field plain))
              (if-IsSafe (text_eq value (lit "false")) _ _
                (λ h. yes-IsSafe _ (
                  append-IsSafe (json_bool dialect field) (lit " = false")
                    (json_bool-IsSafe field plain dialect) refl))
                (if-IsSafe (text_eq value (lit "null")) _ _
                  (λ h. yes-IsSafe _ (
                    append-IsSafe (json_text dialect field)
                      (if text_eq sql_op (lit "=") then lit " IS NULL" else lit " IS NOT NULL")
                      (json_text-IsSafe field plain dialect)
                      (null_IsSafe (text_eq sql_op (lit "=")))))
                  (if-IsSafe (is_quoted value) _ _
                    (λ h.
                      >>=-IsSafe
                        (slice value 1 (length value - 1)
                          >>= (λ inner. success (escape_string inner)))
                        _
                        (λ escaped made.
                          yes-IsSafe (spaced (json_text dialect field) sql_op (quoted escaped)) (
                            spaced-IsSafe (json_text dialect field) sql_op (quoted escaped)
                              (json_text-IsSafe field plain dialect)
                              (operator_of-IsSafe op sql_op found)
                              (quoted-IsSafe escaped
                                (inner-IsQuiet escaped (slice value 1 (length value - 1))
                                  made).0))))
                    (if-IsSafe (is_ok (validate_numeric value)) _ no
                      (λ h. yes-IsSafe _ (
                        spaced-IsSafe (json_numeric dialect field) sql_op value
                          (json_numeric-IsSafe field plain dialect)
                          (operator_of-IsSafe op sql_op found)
                          (validate_numeric-IsSafe value (is_ok-eq-ok _ h))))
                      no-IsSafe))))))
        no-IsSafe

  pub method-IsSafe :
      (name : Text) (build : Text → Text → Outcome Text) (rest : Text) (later : Outcome Text)
      → ((field value : Text) → NoQuote field → IsSafeOutcome (build field value))
      → IsSafeOutcome later
      → IsSafeOutcome (Compiler.method is_alphanumeric to_uppercase dialect name build rest later)
  unfolding split_at
  method-IsSafe name build rest later h k =
      elim-IsSafe (split_at name rest) _ later
        (λ r found.
          if-IsSafe (Compiler.is_field is_alphanumeric to_uppercase dialect r.0) _ no
            (λ valid.
              >>=-IsSafe (Compiler.argument_of r.1) (build r.0)
                (λ value cut. h r.0 value (is_field-NoQuote r.0 valid)))
            no-IsSafe)
        k

  pub try_compile_method_call-IsSafe :
      (rest : Text)
      → IsSafeOutcome (Compiler.try_compile_method_call is_alphanumeric to_uppercase dialect rest)
  unfolding Compiler.try_compile_method_call scan
  try_compile_method_call-IsSafe rest =
      method-IsSafe (lit ".includes(") _ rest _
        (λ field value plain. json_array_contains-IsSafe field plain dialect value)
        (method-IsSafe (lit ".startsWith(") _ rest _
          (λ field value plain.
            string_match-IsSafe field plain [] (lit "%") refl refl dialect value)
          (method-IsSafe (lit ".endsWith(") _ rest _
            (λ field value plain.
              string_match-IsSafe field plain (lit "%") [] refl refl dialect value)
            (method-IsSafe (lit ".contains(") _ rest no
              (λ field value plain.
                string_match-IsSafe field plain (lit "%") (lit "%") refl refl dialect value)
              no-IsSafe)))

  pub try_compile_length_comparison-IsSafe :
      (rest : Text)
      → IsSafeOutcome
          (Compiler.try_compile_length_comparison is_alphanumeric to_uppercase dialect rest)
  unfolding Compiler.try_compile_length_comparison split_at strip_prefix
  try_compile_length_comparison-IsSafe rest =
      elim-IsSafe (split_at (lit ".length") rest) _ no
        (λ r found.
          if-IsSafe (Compiler.is_field is_alphanumeric to_uppercase dialect r.0) _ no
            (λ valid.
              first-IsSafe
                (Compiler.length_round is_alphanumeric to_uppercase dialect r.0 (trim r.1))
                (round_IsSafe r.0 (trim r.1) (is_field-NoQuote r.0 valid)) operators)
            no-IsSafe)
        no-IsSafe
    where
      round_IsSafe :
          (field after : Text)
          → NoQuote field
          → (op : Text)
          → IsSafeOutcome
              (Compiler.length_round is_alphanumeric to_uppercase dialect field after op)
      round_IsSafe field after plain op =
          elim-IsSafe (strip_prefix op after) _ no
            (λ remainder found.
              if-IsSafe (is_ok (validate_numeric (trim remainder))) _ no
                (λ valid. >>=-IsSafe (operator_of op) _ (λ sql_op known. yes-IsSafe _ (
                  spaced-IsSafe (json_array_length dialect field) sql_op (trim remainder)
                    (json_array_length-IsSafe field plain dialect)
                    (operator_of-IsSafe op sql_op known)
                    (validate_numeric-IsSafe (trim remainder) (is_ok-eq-ok _ valid)))))
                no-IsSafe)
            no-IsSafe

  pub negated_field-IsSafe :
      (prefix negated : Text)
      → IsSafeOutcome (Compiler.negated_field is_alphanumeric to_uppercase dialect prefix negated)
  unfolding scan strip_prefix
  negated_field-IsSafe prefix negated =
      elim-IsSafe (strip_prefix prefix (trim negated)) _ no
        (λ rest found.
          if-IsSafe (Compiler.is_field is_alphanumeric to_uppercase dialect (trim rest)) _ no
            (λ valid.
              let plain = is_field-NoQuote (trim rest) valid in
              yes-IsSafe _ (
                around-IsSafe (lit "(") (json_bool dialect (trim rest)) _ refl
                  (json_bool-IsSafe (trim rest) plain dialect)
                  (around-IsSafe (lit " = false OR ") (json_text dialect (trim rest))
                    (lit " IS NULL)") refl (json_text-IsSafe (trim rest) plain dialect) refl)))
            no-IsSafe)
        no-IsSafe

  pub compile_access-IsSafe :
      (rest : Text)
      → IsSafeOutcome (Compiler.compile_access is_alphanumeric to_uppercase dialect rest)
  unfolding Compiler.compile_access
  compile_access-IsSafe rest =
      otherwise-IsSafe (Compiler.try_compile_method_call is_alphanumeric to_uppercase dialect rest)
        _ (try_compile_method_call-IsSafe rest)
        (otherwise-IsSafe
          (Compiler.try_compile_length_comparison is_alphanumeric to_uppercase dialect rest) _
          (try_compile_length_comparison-IsSafe rest)
          (outcome-IsSafe (Compiler.parse_comparison_nested is_alphanumeric rest) _ _
            (λ (field, op, value). generate_sql-IsSafe field op value)
            (if-IsSafe (Compiler.is_field is_alphanumeric to_uppercase dialect (trim rest)) _ no
              (λ valid. yes-IsSafe _ (flag-IsSafe (trim rest) (is_field-NoQuote (trim rest) valid)))
              no-IsSafe)))
