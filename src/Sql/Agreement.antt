-- ===== src/Sql/Agreement.antt =====
-- The two compilers make the same SQL of the same equality or inequality with a string.
use squirreldb.Base.{
  lit, ◌∙◌, ◌⊎◌, inl, inr, ℕ, ◌+◌, ◌-◌, ◌≡◌, refl, arith, Text, text_eq, length, length-append,
  take-append, ==-refl, Bool, true, [], ◌∷◌, ◌++◌,
}
use squirreldb.Base.Results
use squirreldb.Base.Results.{Result, ok, err}
use squirreldb.Base.Strings.{ends_with_char, starts_with}
use squirreldb.Cache.Json
use squirreldb.Sql.Sanitize.{SqlSanitizeError, escape_string, validate_identifier}
use squirreldb.Sql.Dialect.{json_text, SqlDialect}
use squirreldb.Sql.Filter.{FilterOperator, eq, ne, operator}
use squirreldb.Sql.Structured.{field_condition_to_sql, comparison_sql, checked, spaced, quoted}
use squirreldb.Sql.Compiler.Outcomes.{yes, ◌>>=◌, success}
use squirreldb.Sql.Compiler.Values.{slice, operator_of}
use squirreldb.Sql.Compiler

-- A text between quotes.
abbrev pub in_quotes : ℕ → Text → Text
in_quotes q s = q ∷ (s ++ (q ∷ []))

ends_with_char-append : (q : ℕ) (s : Text) → ends_with_char q (s ++ (q ∷ [])) ≡ true
unfolding ends_with_char
ends_with_char-append q [] = ==-refl q
ends_with_char-append q (c ∷ []) = ==-refl q
ends_with_char-append q (c ∷ d ∷ cs) = ends_with_char-append q (d ∷ cs)

slice-in_quotes : (q : ℕ) (s : Text) → slice (in_quotes q s) 1 (length (in_quotes q s) - 1) ≡ yes s
unfolding slice
slice-in_quotes q s =
    let long : length (s ++ (q ∷ [])) ≡ length s + 1 = length-append s (q ∷ []) in
    rw (long) (ground (arith, take-append s (q ∷ [])))

success-checked :
    {A B : Type 0} (m : Result SqlSanitizeError A) (f : A → B)
    → (success m >>= (λ a. yes (f a))) ≡ success (Results.◌>>=◌ (checked m) (λ a. ok (f a)))
success-checked (ok a) f = refl
success-checked (err x) f = refl

generate_sql-comparison_sql :
    {N : Type 0} (number_text : N → Text) (is_alphanumeric : ℕ → Bool) (to_uppercase : Text → Text)
    (dialect : SqlDialect) (field op sql_op s : Text)
    → validate_identifier to_uppercase field ≡ ok tt
    → operator_of op ≡ yes sql_op
    → Compiler.generate_sql is_alphanumeric to_uppercase dialect field op (in_quotes b'"' s)
      ≡ success (comparison_sql to_uppercase number_text dialect field sql_op (Json.string s))
unfolding Compiler.generate_sql comparison_sql text_eq starts_with
generate_sql-comparison_sql number_text is_alphanumeric to_uppercase dialect field op sql_op s valid
      known =
    let ends : ends_with_char b'"' (in_quotes b'"' s) ≡ true =
      ends_with_char-append b'"' (b'"' ∷ s) in
    rw (valid, known, ends, slice-in_quotes b'"' s, Compiler.generate_sql)
      (success-checked (escape_string s) (λ e. spaced (json_text dialect field) sql_op (quoted e)))

-- For a valid field, the compiler of predicates makes of a comparison with a string between double
-- quotes, where its operator is one of equality or one of inequality, what the compiler of structured
-- queries makes of the condition `$eq` or `$ne` on the field with the same string, and fails when that
-- fails. (With an operator of order the second refuses strings.)
pub generate_sql-operator_to_sql :
    {N : Type 0} (number_text : N → Text) (is_alphanumeric : ℕ → Bool) (to_uppercase : Text → Text)
    (dialect : SqlDialect) (field op s : Text) (condition : FilterOperator N)
    → validate_identifier to_uppercase field ≡ ok tt
    → ((operator_of op ≡ yes (lit "=")) × (condition ≡ eq (Json.string s)))
      ⊎ ((operator_of op ≡ yes (lit "!=")) × (condition ≡ ne (Json.string s)))
    → Compiler.generate_sql is_alphanumeric to_uppercase dialect field op (in_quotes b'"' s)
      ≡ success
          (field_condition_to_sql to_uppercase number_text dialect (field, operator condition))
unfolding field_condition_to_sql
generate_sql-operator_to_sql number_text is_alphanumeric to_uppercase dialect field op s condition
      valid (inl (known, is)) =
    generate_sql-comparison_sql number_text is_alphanumeric to_uppercase dialect field op (lit "=")
      s valid known
    ∙ rw (is, valid, field_condition_to_sql) refl
generate_sql-operator_to_sql number_text is_alphanumeric to_uppercase dialect field op s condition
      valid (inr (known, is)) =
    generate_sql-comparison_sql number_text is_alphanumeric to_uppercase dialect field op (lit "!=")
      s valid known
    ∙ rw (is, valid, field_condition_to_sql) refl
