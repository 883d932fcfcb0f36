-- ===== src/Sql/Structured.antt =====
-- crates/sqrld/src/query/structured.rs: the compiler of structured queries.
pub mod Checked
pub mod Safety
use mathlib.Core.Option
use squirreldb.Base.{
  text_eq, Text, lit, Bool, true, false, Option, none, some, List, [], ◌∷◌, ◌++◌, if◌then◌else◌,
}
use squirreldb.Base.Results.{Result, ok, err, ◌>>=◌, collect}
use squirreldb.Base.Strings.{join, replace_char}
use squirreldb.Cache.Json.{Json}
use squirreldb.Cache.Json
use squirreldb.Sql.Sanitize.{SqlSanitizeError, escape_string, validate_identifier, validate_numeric}
use squirreldb.Sql.Dialect.{SqlDialect, json_text, json_numeric, json_bool}
use squirreldb.Sql.Filter.{
  SortSpec, FilterOperator, FieldCondition, StructuredFilter, StructuredFilters, StructuredQuery,
  FilterSpec, QuerySpec, eq, ne, gt, gte, lt, lte, any_of, none_of, contains, starts_with,
  ends_with, exists, operator, value, all_hold, one_holds, negated, fields, nil, cons,
}

-- `anyhow::Error`: an error of a check, or a message.
pub data CompileError : Type 0 where
  unsafe_value : SqlSanitizeError → CompileError
  unsupported : Text → CompileError

abbrev pub Compiled : Type 0
Compiled = Result CompileError Text

-- The conversion of errors by `?`.
abbrev pub checked {ℓ} : {A : Type ℓ} → Result SqlSanitizeError A → Result CompileError A
checked (ok a) = ok a
checked (err e) = err (unsafe_value e)

abbrev pub bool_text : Bool → Text
bool_text true = lit "true"
bool_text false = lit "false"

-- `"{} {} {}"`
abbrev pub spaced : Text → Text → Text → Text
spaced a b c = a ++ (lit " " ++ (b ++ (lit " " ++ c)))

abbrev pub quoted : Text → Text
quoted t = lit "'" ++ (t ++ lit "'")

-- `%` and `_` behind a backslash.
abbrev pub like_escape : Text → Text
like_escape t = replace_char b'_' (lit "\\_") (replace_char b'%' (lit "\\%") t)

-- Conditions on fields are joined by AND.
abbrev pub join_conditions : List Text → Text
join_conditions [] = lit "true"
join_conditions (part ∷ []) = part
join_conditions (part ∷ q ∷ parts) = lit "(" ++ (join (lit " AND ") (part ∷ q ∷ parts) ++ lit ")")

-- The first of the sort specifications.
abbrev pub first_sort : Option (List SortSpec) → Option SortSpec
first_sort (some (spec ∷ specs)) = some spec
first_sort _ = none

-- `number_text` is `to_string` of a JSON number.
module _ {N : Type 0} (to_uppercase : Text → Text) (number_text : N → Text)
    (dialect : SqlDialect) where
  unfoldable pub comparison_sql : Text → Text → Json N → Compiled
  comparison_sql field sql_op Json.null = ok (
      if text_eq sql_op (lit "=")
      then json_text dialect field ++ lit " IS NULL"
      else json_text dialect field ++ lit " IS NOT NULL")
  comparison_sql field sql_op (Json.bool b) =
      ok (json_bool dialect field ++ (lit " = " ++ bool_text b))
  comparison_sql field sql_op (Json.number n) =
      checked (validate_numeric (number_text n))
      >>= (λ u. ok (spaced (json_numeric dialect field) sql_op (number_text n)))
  comparison_sql field sql_op (Json.string s) =
      checked (escape_string s)
      >>= (λ escaped. ok (spaced (json_text dialect field) sql_op (quoted escaped)))
  comparison_sql field sql_op _ =
      err (unsupported (lit "Unsupported value type for equality comparison"))

  unfoldable pub numeric_comparison_sql : Text → Text → Json N → Compiled
  numeric_comparison_sql field sql_op (Json.number n) =
      checked (validate_numeric (number_text n))
      >>= (λ u. ok (spaced (json_numeric dialect field) sql_op (number_text n)))
  numeric_comparison_sql field sql_op _ =
      err (unsupported (lit "Numeric comparison requires a number value"))

  unfoldable pub format_value : Json N → Compiled
  format_value Json.null = ok (lit "NULL")
  format_value (Json.bool b) = ok (bool_text b)
  format_value (Json.number n) =
      checked (validate_numeric (number_text n)) >>= (λ u. ok (number_text n))
  format_value (Json.string s) = checked (escape_string s) >>= (λ escaped. ok (quoted escaped))
  format_value _ = err (unsupported (lit "Unsupported value type"))

  unfoldable pub in_sql : Text → List (Json N) → Bool → Compiled
  unfolding format_value
  in_sql field [] negate = ok (bool_text negate)
  in_sql field (v ∷ vs) negate = collect format_value (v ∷ vs) >>= (λ formatted. ok (
      json_text dialect field
      ++ ((if negate then lit " NOT IN (" else lit " IN (")
          ++ (join (lit ", ") formatted ++ lit ")"))))

  unfoldable pub like_sql : Text → Text → Text → Text → Compiled
  like_sql field text prefix suffix = checked (escape_string text) >>= (λ escaped. ok (
      json_text dialect field
      ++ (lit " LIKE "
          ++ (quoted (prefix ++ (like_escape escaped ++ suffix)) ++ lit " ESCAPE '\\'"))))

  unfoldable pub exists_sql : Text → Bool → Compiled
  exists_sql field true = ok (json_text dialect field ++ lit " IS NOT NULL")
  exists_sql field false = ok (json_text dialect field ++ lit " IS NULL")

  unfoldable pub operator_to_sql : Text → FilterOperator N → Compiled
  unfolding comparison_sql numeric_comparison_sql in_sql like_sql exists_sql
  operator_to_sql field (eq v) = comparison_sql field (lit "=") v
  operator_to_sql field (ne v) = comparison_sql field (lit "!=") v
  operator_to_sql field (gt v) = numeric_comparison_sql field (lit ">") v
  operator_to_sql field (gte v) = numeric_comparison_sql field (lit ">=") v
  operator_to_sql field (lt v) = numeric_comparison_sql field (lit "<") v
  operator_to_sql field (lte v) = numeric_comparison_sql field (lit "<=") v
  operator_to_sql field (any_of vs) = in_sql field vs false
  operator_to_sql field (none_of vs) = in_sql field vs true
  operator_to_sql field (contains s) = like_sql field s (lit "%") (lit "%")
  operator_to_sql field (starts_with s) = like_sql field s [] (lit "%")
  operator_to_sql field (ends_with s) = like_sql field s (lit "%") []
  operator_to_sql field (exists b) = exists_sql field b

  unfoldable pub field_condition_to_sql : Text × FieldCondition N → Compiled
  unfolding operator_to_sql
  field_condition_to_sql (field, condition) =
      checked (validate_identifier to_uppercase field) >>= (λ u. elim condition [
        | operator op ↦ operator_to_sql field op
        | value v ↦ comparison_sql field (lit "=") v
      ])

  unfoldable mutual
    pub filter_to_sql : StructuredFilter N → Compiled
    filter_to_sql (all_hold fs) =
        filters_to_sql fs >>= (λ parts. ok (lit "(" ++ (join (lit " AND ") parts ++ lit ")")))
    filter_to_sql (one_holds fs) =
        filters_to_sql fs >>= (λ parts. ok (lit "(" ++ (join (lit " OR ") parts ++ lit ")")))
    filter_to_sql (negated f) =
        filter_to_sql f >>= (λ inner. ok (lit "NOT (" ++ (inner ++ lit ")")))
    filter_to_sql (fields conditions) =
        collect field_condition_to_sql conditions >>= (λ parts. ok (join_conditions parts))

    pub filters_to_sql : StructuredFilters N → Result CompileError (List Text)
    filters_to_sql nil = ok []
    filters_to_sql (cons f fs) =
        filter_to_sql f >>= (λ part. filters_to_sql fs >>= (λ parts. ok (part ∷ parts)))

  unfoldable pub compile_filter :
      Option (StructuredFilter N) → Result CompileError (Option FilterSpec)
  compile_filter none = ok none
  compile_filter (some f) =
      filter_to_sql f >>= (λ sql. ok (some (record { js_code = []; compiled_sql = some sql })))

  unfoldable pub compile : StructuredQuery N → Result CompileError QuerySpec
  unfolding compile_filter
  compile query = compile_filter query.filter >>= (λ filter. ok (record {
    project_id = none;
    table = query.table;
    filter = filter;
    projection = none;
    order_by = first_sort query.sort;
    limit = query.limit;
    offset = query.skip;
    changes = query.include_initial;
  }))
