-- ===== src/Sql/Structured/Safety.antt =====
-- Every text that the compiler of structured queries makes is safe.
use mathlib.Core.Path.{subst}
use squirreldb.Base.{
  Bool-cases, All, ◌≡◌, inl, inr, refl, Text, lit, Bool, true, false, List, [], ◌∷◌, ◌++◌,
  if◌then◌else◌, text_eq,
}
use squirreldb.Base.Results.{ok, ◌>>=◌, collect, >>=-eq-ok, ok_inj, collect-All}
use squirreldb.Base.Strings.{join}
use squirreldb.Cache.Json.{Json}
use squirreldb.Sql.Sanitize.{escape_string, validate_identifier, validate_numeric}
use squirreldb.Sql.Dialect.{SqlDialect, json_text, json_numeric, json_bool}
use squirreldb.Sql.Filter.{
  FilterOperator, FieldCondition, StructuredFilter, StructuredFilters, eq, ne, gt, gte, lt, lte,
  any_of, none_of, contains, starts_with, ends_with, exists, operator, value, all_hold, one_holds,
  negated, fields, nil, cons,
}
use squirreldb.Sql.Scan.{scan, IsSafe, IsQuiet, NoQuote, append-IsSafe, around-IsSafe, join-IsSafe}
use squirreldb.Sql.Safety.{
  validate_numeric-IsSafe, escape_string-IsQuiet, quoted-IsSafe, pattern_IsQuiet, spaced-IsSafe,
}
use squirreldb.Sql.Fields.{
  validate_identifier-NoQuote, json_text-IsSafe, json_numeric-IsSafe, json_bool-IsSafe,
}
use squirreldb.Sql.Structured.{
  checked, bool_text, spaced, quoted, like_escape, comparison_sql, numeric_comparison_sql,
  format_value, in_sql, like_sql, exists_sql, operator_to_sql, field_condition_to_sql,
  filter_to_sql, filters_to_sql,
}
use squirreldb.Sql.Structured.Checked.{
  IsSafeResult, ok-IsSafe, err-IsSafe, checked-IsSafe, bool_text-IsSafe, in_open-IsSafe,
  joined_parts-IsSafe, join_conditions-IsSafe,
}

module _ {N : Type 0} (to_uppercase : Text → Text) (number_text : N → Text)
    (dialect : SqlDialect) where
  module _ (field : Text) (plain : NoQuote field) where
    number-IsSafe :
        (sql_op : Text) (n : N)
        → IsSafe sql_op
        → IsSafeResult (
            checked (validate_numeric (number_text n))
            >>= (λ u. ok (spaced (json_numeric dialect field) sql_op (number_text n))))
    number-IsSafe sql_op n h = checked-IsSafe (validate_numeric (number_text n)) _ (λ u valid.
        ok-IsSafe _ (
          spaced-IsSafe (json_numeric dialect field) sql_op (number_text n)
            (json_numeric-IsSafe field plain dialect) h
            (validate_numeric-IsSafe (number_text n) valid)))

    comparison_sql-IsSafe :
        (sql_op : Text) (v : Json N)
        → IsSafe sql_op
        → IsSafeResult (comparison_sql to_uppercase number_text dialect field sql_op v)
    unfolding comparison_sql scan
    comparison_sql-IsSafe sql_op Json.null h = elim (Bool-cases (text_eq sql_op (lit "="))) [
      | inl is ↦ rw (is) (
          ok-IsSafe _ (
            append-IsSafe (json_text dialect field) (lit " IS NULL")
              (json_text-IsSafe field plain dialect) refl))
      | inr isnt ↦ rw (isnt) (
          ok-IsSafe _ (
            append-IsSafe (json_text dialect field) (lit " IS NOT NULL")
              (json_text-IsSafe field plain dialect) refl))
    ]
    comparison_sql-IsSafe sql_op (Json.bool b) h = ok-IsSafe _ (
        around-IsSafe (json_bool dialect field) (lit " = ") (bool_text b)
          (json_bool-IsSafe field plain dialect) refl (bool_text-IsSafe b))
    comparison_sql-IsSafe sql_op (Json.number n) h = number-IsSafe sql_op n h
    comparison_sql-IsSafe sql_op (Json.string s) h = checked-IsSafe (escape_string s) _ (λ e done.
        ok-IsSafe _ (
          spaced-IsSafe (json_text dialect field) sql_op (quoted e)
            (json_text-IsSafe field plain dialect) h
            (quoted-IsSafe e (escape_string-IsQuiet s e done).0)))
    comparison_sql-IsSafe sql_op _ h = err-IsSafe _

    numeric_comparison_sql-IsSafe :
        (sql_op : Text) (v : Json N)
        → IsSafe sql_op
        → IsSafeResult (numeric_comparison_sql to_uppercase number_text dialect field sql_op v)
    unfolding numeric_comparison_sql
    numeric_comparison_sql-IsSafe sql_op (Json.number n) h = number-IsSafe sql_op n h
    numeric_comparison_sql-IsSafe sql_op _ h = err-IsSafe _

  format_value-IsSafe :
      (v : Json N) → IsSafeResult (format_value to_uppercase number_text dialect v)
  unfolding format_value scan
  format_value-IsSafe Json.null = ok-IsSafe _ refl
  format_value-IsSafe (Json.bool b) = ok-IsSafe _ (bool_text-IsSafe b)
  format_value-IsSafe (Json.number n) =
      checked-IsSafe (validate_numeric (number_text n)) _
        (λ u valid. ok-IsSafe _ (validate_numeric-IsSafe (number_text n) valid))
  format_value-IsSafe (Json.string s) =
      checked-IsSafe (escape_string s) _
        (λ e done. ok-IsSafe _ (quoted-IsSafe e (escape_string-IsQuiet s e done).0))
  format_value-IsSafe _ = err-IsSafe _

  module _ (field : Text) (plain : NoQuote field) where
    in_sql-IsSafe :
        (vs : List (Json N)) (negate : Bool)
        → IsSafeResult (in_sql to_uppercase number_text dialect field vs negate)
    unfolding in_sql scan
    in_sql-IsSafe [] negate sql e = ok-IsSafe _ (bool_text-IsSafe negate) sql e
    in_sql-IsSafe (v ∷ vs) negate sql e =
        let (parts, made, e') =
          >>=-eq-ok (collect (format_value to_uppercase number_text dialect) (v ∷ vs)) _ e in
        let each =
          collect-All IsSafe (format_value to_uppercase number_text dialect)
            (λ a b. format_value-IsSafe a b) (v ∷ vs) parts made in
        let list =
          append-IsSafe (join (lit ", ") parts) (lit ")") (join-IsSafe (lit ", ") parts refl each)
            refl in
        ok-IsSafe _
          (around-IsSafe (json_text dialect field) (if negate then lit " NOT IN (" else lit " IN (")
            (join (lit ", ") parts ++ lit ")") (json_text-IsSafe field plain dialect)
            (in_open-IsSafe negate) list)
          sql e'

    like_sql-IsSafe :
        (text prefix suffix : Text)
        → IsQuiet prefix
        → IsQuiet suffix
        → IsSafeResult (like_sql to_uppercase number_text dialect field text prefix suffix)
    unfolding like_sql scan
    like_sql-IsSafe text prefix suffix h k = checked-IsSafe (escape_string text) _ (λ e done.
        ok-IsSafe _ (
          around-IsSafe (json_text dialect field) (lit " LIKE ")
            (quoted (prefix ++ (like_escape e ++ suffix)) ++ lit " ESCAPE '\\'")
            (json_text-IsSafe field plain dialect) refl
            (append-IsSafe (quoted (prefix ++ (like_escape e ++ suffix))) (lit " ESCAPE '\\'")
              (quoted-IsSafe (prefix ++ (like_escape e ++ suffix))
                (pattern_IsQuiet prefix e suffix h (escape_string-IsQuiet text e done).1 k))
              refl)))

    exists_sql-IsSafe :
        (b : Bool) → IsSafeResult (exists_sql to_uppercase number_text dialect field b)
    unfolding exists_sql scan
    exists_sql-IsSafe true = ok-IsSafe _ (
        append-IsSafe (json_text dialect field) (lit " IS NOT NULL")
          (json_text-IsSafe field plain dialect) refl)
    exists_sql-IsSafe false = ok-IsSafe _ (
        append-IsSafe (json_text dialect field) (lit " IS NULL")
          (json_text-IsSafe field plain dialect) refl)

    operator_to_sql-IsSafe :
        (op : FilterOperator N)
        → IsSafeResult (operator_to_sql to_uppercase number_text dialect field op)
    unfolding operator_to_sql scan
    operator_to_sql-IsSafe (eq v) = comparison_sql-IsSafe field plain (lit "=") v refl
    operator_to_sql-IsSafe (ne v) = comparison_sql-IsSafe field plain (lit "!=") v refl
    operator_to_sql-IsSafe (gt v) = numeric_comparison_sql-IsSafe field plain (lit ">") v refl
    operator_to_sql-IsSafe (gte v) = numeric_comparison_sql-IsSafe field plain (lit ">=") v refl
    operator_to_sql-IsSafe (lt v) = numeric_comparison_sql-IsSafe field plain (lit "<") v refl
    operator_to_sql-IsSafe (lte v) = numeric_comparison_sql-IsSafe field plain (lit "<=") v refl
    operator_to_sql-IsSafe (any_of vs) = in_sql-IsSafe vs false
    operator_to_sql-IsSafe (none_of vs) = in_sql-IsSafe vs true
    operator_to_sql-IsSafe (contains s) = like_sql-IsSafe s (lit "%") (lit "%") refl refl
    operator_to_sql-IsSafe (starts_with s) = like_sql-IsSafe s [] (lit "%") refl refl
    operator_to_sql-IsSafe (ends_with s) = like_sql-IsSafe s (lit "%") [] refl refl
    operator_to_sql-IsSafe (exists b) = exists_sql-IsSafe b

  field_condition_to_sql-IsSafe :
      (condition : Text × FieldCondition N)
      → IsSafeResult (field_condition_to_sql to_uppercase number_text dialect condition)
  unfolding field_condition_to_sql scan
  field_condition_to_sql-IsSafe (field, operator op) =
      checked-IsSafe (validate_identifier to_uppercase field) _ (λ u valid.
        operator_to_sql-IsSafe field (validate_identifier-NoQuote to_uppercase field valid) op)
  field_condition_to_sql-IsSafe (field, value v) =
      checked-IsSafe (validate_identifier to_uppercase field) _ (λ u valid.
        comparison_sql-IsSafe field (validate_identifier-NoQuote to_uppercase field valid) (lit "=")
          v refl)

  mutual
    unfolding filter_to_sql scan

    filter-IsSafe :
        (f : StructuredFilter N) (sql : Text)
        → filter_to_sql to_uppercase number_text dialect f ≡ ok sql
        → IsSafe sql
    filter-IsSafe (all_hold fs) sql e =
        let (parts, made, e') =
          >>=-eq-ok (filters_to_sql to_uppercase number_text dialect fs) _ e in
        ok-IsSafe _ (joined_parts-IsSafe (lit " AND ") parts refl (filters-IsSafe fs parts made))
          sql e'
    filter-IsSafe (one_holds fs) sql e =
        let (parts, made, e') =
          >>=-eq-ok (filters_to_sql to_uppercase number_text dialect fs) _ e in
        ok-IsSafe _ (joined_parts-IsSafe (lit " OR ") parts refl (filters-IsSafe fs parts made)) sql
          e'
    filter-IsSafe (negated f) sql e =
        let (inner, made, e') = >>=-eq-ok (filter_to_sql to_uppercase number_text dialect f) _ e in
        ok-IsSafe _
          (around-IsSafe (lit "NOT (") inner (lit ")") refl (filter-IsSafe f inner made) refl) sql
          e'
    filter-IsSafe (fields conditions) sql e =
        let (parts, made, e') =
          >>=-eq-ok (collect (field_condition_to_sql to_uppercase number_text dialect) conditions) _
            e in
        let each =
          collect-All IsSafe (field_condition_to_sql to_uppercase number_text dialect)
            (λ a b. field_condition_to_sql-IsSafe a b) conditions parts made in
        ok-IsSafe _ (join_conditions-IsSafe parts each) sql e'

    filters-IsSafe :
        (fs : StructuredFilters N) (parts : List Text)
        → filters_to_sql to_uppercase number_text dialect fs ≡ ok parts
        → All IsSafe parts
    filters-IsSafe nil parts e = subst (All IsSafe) (ok_inj _ _ e) tt
    filters-IsSafe (cons f fs) parts e =
        let (part, one, e') = >>=-eq-ok (filter_to_sql to_uppercase number_text dialect f) _ e in
        let (rest, others, e'') =
          >>=-eq-ok (filters_to_sql to_uppercase number_text dialect fs) _ e' in
        subst (All IsSafe) (ok_inj _ _ e'')
          (filter-IsSafe f part one, filters-IsSafe fs rest others)

  -- The SQL of a filter that compiles is code with whole string literals: outside of literals there
  -- is no character that ends a statement or starts a comment, and every literal is closed, whatever
  -- the strings, numbers and field names of the filter are and however numbers are printed.
  pub filter_to_sql-IsSafe :
      (f : StructuredFilter N) (sql : Text)
      → filter_to_sql to_uppercase number_text dialect f ≡ ok sql
      → IsSafe sql
  filter_to_sql-IsSafe = filter-IsSafe
