-- ===== src/Sql/Compiler/Values.antt =====
-- crates/sqrld/src/query/compiler.rs: the values of a predicate and the SQL that is made of them.
use squirreldb.Base.{
  ℕ, ◌-◌, Text, lit, text_eq, leb, Bool, true, false, ◌&&◌, ◌||◌, List, [], ◌∷◌, ◌++◌, length, take,
  drop, if◌then◌else◌,
}
use squirreldb.Base.Strings.{starts_with, ends_with_char, split_on}
use squirreldb.Sql.Sanitize.{escape_string, validate_numeric}
use squirreldb.Sql.Dialect.{SqlDialect, postgres, sqlite, json_extract, json_text}
use squirreldb.Sql.Structured.{quoted, like_escape}
use squirreldb.Sql.Compiler.Outcomes.{Outcome, panic, no, yes, ◌>>=◌, success, is_ok}

-- `&s[from..to]`, which panics when the range is turned over.
unfoldable pub slice : Text → ℕ → ℕ → Outcome Text
slice s from to = if leb from to then yes (take (to - from) (drop from s)) else panic

-- The text begins and ends with this quote.
abbrev pub is_between : ℕ → Text → Bool
is_between q t = starts_with t (q ∷ []) && ends_with_char q t

abbrev pub is_quoted : Text → Bool
is_quoted t = is_between b'"' t || is_between b'\'' t

-- `&value[1..value.len() - 1]` of a text in quotes.
unfoldable pub extract_string_value : Text → Outcome Text
unfolding slice
extract_string_value value = if is_quoted value then slice value 1 (length value - 1) else no

-- The SQL operator for one of JavaScript.
unfoldable pub operator_of : Text → Outcome Text
operator_of op =
    if text_eq op (lit "===") || text_eq op (lit "==")
    then yes (lit "=")
    else if text_eq op (lit "!==") || text_eq op (lit "!=")
    then yes (lit "!=")
    else if text_eq op (lit ">")
        || text_eq op (lit "<")
        || text_eq op (lit ">=")
        || text_eq op (lit "<=")
    then yes op
    else no

-- The operators in the order in which they are tried.
abbrev pub operators : List Text
operators =
    lit "===" ∷ lit "!==" ∷ lit "==" ∷ lit "!=" ∷ lit ">=" ∷ lit "<=" ∷ lit ">" ∷ lit "<" ∷ []

-- `->'part'` for each part.
unfoldable pub arrows : List Text → Text
arrows [] = []
arrows (t ∷ ts) = lit "->'" ++ (t ++ (lit "'" ++ arrows ts))

unfoldable pub json_array : SqlDialect → Text → Text
unfolding arrows split_on
json_array postgres field = lit "data" ++ arrows (split_on b'.' field)
json_array sqlite field = json_extract field

unfoldable pub json_array_length : SqlDialect → Text → Text
unfolding json_array
json_array_length postgres field =
    lit "jsonb_array_length(" ++ (json_array postgres field ++ lit ")")
json_array_length sqlite field = lit "json_array_length(" ++ (json_array sqlite field ++ lit ")")

-- The value of a containment test: whether it is a string, and its text.
unfoldable pub array_value : Text → Outcome (Bool × Text)
unfolding slice
array_value value =
    if is_quoted value
    then (slice value 1 (length value - 1)
        >>= (λ inner. success (escape_string inner))
        >>= (λ escaped. yes (true, escaped)))
    else if is_ok (validate_numeric value)
    then yes (false, value)
    else no

unfoldable pub contains_text : SqlDialect → Text → Bool × Text → Text
unfolding json_array
contains_text postgres field (true, t) = json_array postgres field ++ (lit " ? " ++ quoted t)
contains_text postgres field (false, t) =
    json_array postgres field ++ (lit " @> '[" ++ (t ++ lit "]'::jsonb"))
contains_text sqlite field (true, t) =
    lit "EXISTS(SELECT 1 FROM json_each("
    ++ (json_array sqlite field ++ (lit ") WHERE value = " ++ (quoted t ++ lit ")")))
contains_text sqlite field (false, t) =
    lit "EXISTS(SELECT 1 FROM json_each("
    ++ (json_array sqlite field ++ (lit ") WHERE value = " ++ (t ++ lit ")")))

unfoldable pub json_array_contains : SqlDialect → Text → Text → Outcome Text
unfolding array_value contains_text
json_array_contains dialect field value =
    array_value value >>= (λ v. yes (contains_text dialect field v))

-- `string_starts_with`, `string_ends_with` and `string_contains`: what stands before and behind the
-- text in the pattern.
unfoldable pub string_match : Text → Text → SqlDialect → Text → Text → Outcome Text
unfolding extract_string_value
string_match prefix suffix dialect field value =
    extract_string_value value >>= (λ inner. success (escape_string inner)) >>= (λ escaped. yes (
      json_text dialect field
      ++ (lit " LIKE " ++ quoted (prefix ++ (like_escape escaped ++ suffix)))))
