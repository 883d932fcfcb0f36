-- ===== src/Sql/Sanitize.antt =====
-- crates/sqrld/src/db/sanitize.rs: the checks of identifiers, strings and numbers. `to_uppercase` of
-- the standard library, which reads the tables of Unicode, is a parameter.
use squirreldb.Base.{
  ℕ, Text, lit, len, text_eq, show_nat, ltb, leb, ◌==◌, Bool, true, false, not, ◌&&◌, ◌||◌, none,
  some, List, [], ◌∷◌, ◌++◌, if◌then◌else◌,
}
use squirreldb.Base.Results.{Result, ok, err, ◌>>=◌}
use squirreldb.Base.Strings.{starts_with, ends_with_char, split_at}

abbrev pub max_identifier_length : ℕ
max_identifier_length = 255

abbrev pub max_string_value_length : ℕ
max_string_value_length = 65535

abbrev pub max_limit : ℕ
max_limit = 100000

pub data SqlSanitizeError : Type 0 where
  empty_identifier null_byte_in_string : SqlSanitizeError
  identifier_too_long string_too_long : ℕ → SqlSanitizeError
  invalid_identifier_start invalid_identifier_char invalid_collection_char : ℕ → SqlSanitizeError
  invalid_field_path reserved_keyword invalid_numeric : Text → SqlSanitizeError
  limit_too_large : ℕ → ℕ → SqlSanitizeError
  invalid_order_direction invalid_operator : Text → SqlSanitizeError

-- What a check comes to.
abbrev pub Check : Type 0
Check = Result SqlSanitizeError (Unit {0})

-- `Display` of an error.
unfoldable pub show_error : SqlSanitizeError → Text
show_error empty_identifier = lit "Identifier cannot be empty"
show_error (identifier_too_long n) =
    lit "Identifier too long: " ++ show_nat n ++ lit " > " ++ show_nat max_identifier_length
show_error (invalid_identifier_start c) =
    lit "Identifier must start with letter or underscore, got '" ++ c ∷ [] ++ lit "'"
show_error (invalid_identifier_char c) =
    lit "Invalid character in identifier: '" ++ c ∷ [] ++ lit "'"
show_error (invalid_collection_char c) =
    lit "Collection names must be lowercase alphanumeric, got '" ++ c ∷ [] ++ lit "'"
show_error (invalid_field_path s) = lit "Invalid field path: " ++ s
show_error (reserved_keyword s) = lit "'" ++ s ++ lit "' is a reserved SQL keyword"
show_error (string_too_long n) =
    lit "String too long: " ++ show_nat n ++ lit " > " ++ show_nat max_string_value_length
show_error null_byte_in_string = lit "Null bytes not allowed in strings"
show_error (invalid_numeric s) = lit "Invalid numeric value: " ++ s
show_error (limit_too_large got most) =
    lit "Limit " ++ show_nat got ++ lit " exceeds maximum " ++ show_nat most
show_error (invalid_order_direction s) =
    lit "Invalid order direction '" ++ s ++ lit "', must be ASC or DESC"
show_error (invalid_operator s) = lit "Invalid operator: " ++ s

-- The tests of the standard library for ASCII.
abbrev pub is_ascii_lowercase : ℕ → Bool
is_ascii_lowercase c = leb b'a' c && leb c b'z'

abbrev pub is_ascii_digit : ℕ → Bool
is_ascii_digit c = leb b'0' c && leb c b'9'

abbrev pub is_ascii_alphabetic : ℕ → Bool
is_ascii_alphabetic c = is_ascii_lowercase c || (leb b'A' c && leb c b'Z')

abbrev pub is_identifier_start : ℕ → Bool
is_identifier_start c = is_ascii_alphabetic c || c == b'_'

abbrev pub is_identifier_char : ℕ → Bool
is_identifier_char c = is_ascii_alphabetic c || is_ascii_digit c || c == b'_' || c == b'.'

abbrev pub is_collection_char : ℕ → Bool
is_collection_char c = is_ascii_lowercase c || is_ascii_digit c || c == b'_'

abbrev pub keywords : List Text
keywords =
    lit "SELECT"
    ∷ lit "INSERT"
    ∷ lit "UPDATE"
    ∷ lit "DELETE"
    ∷ lit "DROP"
    ∷ lit "CREATE"
    ∷ lit "ALTER"
    ∷ lit "TABLE"
    ∷ lit "INDEX"
    ∷ lit "FROM"
    ∷ lit "WHERE"
    ∷ lit "AND"
    ∷ lit "OR"
    ∷ lit "NOT"
    ∷ lit "NULL"
    ∷ lit "TRUE"
    ∷ lit "FALSE"
    ∷ lit "ORDER"
    ∷ lit "BY"
    ∷ lit "ASC"
    ∷ lit "DESC"
    ∷ lit "LIMIT"
    ∷ lit "OFFSET"
    ∷ lit "JOIN"
    ∷ lit "LEFT"
    ∷ lit "RIGHT"
    ∷ lit "INNER"
    ∷ lit "OUTER"
    ∷ lit "ON"
    ∷ lit "AS"
    ∷ lit "IN"
    ∷ lit "BETWEEN"
    ∷ lit "LIKE"
    ∷ lit "IS"
    ∷ lit "UNION"
    ∷ lit "ALL"
    ∷ lit "DISTINCT"
    ∷ lit "GROUP"
    ∷ lit "HAVING"
    ∷ lit "INTO"
    ∷ lit "VALUES"
    ∷ lit "SET"
    ∷ lit "CASCADE"
    ∷ lit "RESTRICT"
    ∷ lit "REFERENCES"
    ∷ lit "FOREIGN"
    ∷ lit "PRIMARY"
    ∷ lit "KEY"
    ∷ lit "UNIQUE"
    ∷ lit "CHECK"
    ∷ lit "DEFAULT"
    ∷ lit "CONSTRAINT"
    ∷ lit "TRIGGER"
    ∷ lit "FUNCTION"
    ∷ lit "PROCEDURE"
    ∷ lit "VIEW"
    ∷ lit "DATABASE"
    ∷ lit "SCHEMA"
    ∷ lit "GRANT"
    ∷ lit "REVOKE"
    ∷ lit "COMMIT"
    ∷ lit "ROLLBACK"
    ∷ lit "BEGIN"
    ∷ lit "END"
    ∷ lit "TRANSACTION"
    ∷ lit "TRUNCATE"
    ∷ lit "EXECUTE"
    ∷ lit "EXEC"
    ∷ []

unfoldable pub is_keyword : Text → List Text → Bool
is_keyword s [] = false
is_keyword s (k ∷ ks) = text_eq k s || is_keyword s ks

-- The loops over the characters: the error at the first one that fails the test.
unfoldable pub check_chars : (ℕ → Bool) → (ℕ → SqlSanitizeError) → Text → Check
check_chars allowed fails [] = ok tt
check_chars allowed fails (c ∷ cs) =
    let rest = check_chars allowed fails cs in if allowed c then rest else err (fails c)

-- What both checks of names begin with: length and first character.
unfoldable pub check_start : Text → Check
check_start [] = err empty_identifier
check_start (c ∷ cs) =
    if ltb max_identifier_length (len (c ∷ cs))
    then err (identifier_too_long (len (c ∷ cs)))
    else if is_identifier_start c
    then ok tt
    else err (invalid_identifier_start c)

unfoldable pub check_keyword : (Text → Text) → Text → Check
unfolding is_keyword
check_keyword to_uppercase s =
    if is_keyword (to_uppercase s) keywords then err (reserved_keyword s) else ok tt

-- `contains`
abbrev pub has_part : Text → Text → Bool
has_part p t = elim (split_at p t) [ some r ↦ true | none ↦ false ]

unfoldable pub check_dots : Text → Check
check_dots s =
    if starts_with s (lit ".") || ends_with_char b'.' s || has_part (lit "..") s
    then err (invalid_field_path s)
    else ok tt

unfoldable pub validate_identifier : (Text → Text) → Text → Check
unfolding check_start check_chars check_keyword check_dots
validate_identifier to_uppercase s =
    check_start s
    >>= (λ u. check_chars is_identifier_char invalid_identifier_char s)
    >>= (λ u. check_keyword to_uppercase s)
    >>= (λ u. check_dots s)

unfoldable pub validate_collection_name : (Text → Text) → Text → Check
unfolding check_start check_chars check_keyword
validate_collection_name to_uppercase s =
    check_start s
    >>= (λ u. check_chars is_collection_char invalid_collection_char s)
    >>= (λ u. check_keyword to_uppercase s)

-- The loop of `escape_string`.
unfoldable pub escape_chars : Text → Result SqlSanitizeError Text
escape_chars [] = ok []
escape_chars (c ∷ cs) =
    let rest = escape_chars cs in
    if c == b'\''
    then (rest >>= (λ e. ok (b'\'' ∷ b'\'' ∷ e)))
    else if c == b'\\'
    then (rest >>= (λ e. ok (b'\\' ∷ b'\\' ∷ e)))
    else if c == 0
    then err null_byte_in_string
    else (rest >>= (λ e. ok (c ∷ e)))

unfoldable pub escape_string : Text → Result SqlSanitizeError Text
unfolding escape_chars
escape_string s =
    if ltb max_string_value_length (len s) then err (string_too_long (len s)) else escape_chars s

-- The loop of `validate_numeric`, with its variables; `false` is an error.
unfoldable pub numeric_chars : Text → Bool → Bool → Bool
numeric_chars [] has_digit has_dot = has_digit
numeric_chars (c ∷ cs) has_digit has_dot =
    let digit = numeric_chars cs true has_dot in
    let dot = numeric_chars cs has_digit true in
    if is_ascii_digit c then digit else if c == b'.' && not has_dot then dot else false

-- A leading minus is passed over.
abbrev pub behind_minus : Text → Text
behind_minus [] = []
behind_minus (c ∷ cs) = if c == b'-' then cs else c ∷ cs

unfoldable pub validate_numeric : Text → Check
unfolding numeric_chars
validate_numeric s =
    if numeric_chars (behind_minus s) false false then ok tt else err (invalid_numeric s)

unfoldable pub validate_limit : ℕ → Check
validate_limit limit = if ltb max_limit limit then err (limit_too_large limit max_limit) else ok tt

unfoldable pub validate_order_direction : (Text → Text) → Text → Result SqlSanitizeError Text
validate_order_direction to_uppercase dir =
    if text_eq (to_uppercase dir) (lit "ASC")
    then ok (lit "ASC")
    else if text_eq (to_uppercase dir) (lit "DESC")
    then ok (lit "DESC")
    else err (invalid_order_direction dir)

unfoldable pub validate_operator : Text → Result SqlSanitizeError Text
validate_operator op =
    if text_eq op (lit "=") || text_eq op (lit "==") || text_eq op (lit "===")
    then ok (lit "=")
    else if text_eq op (lit "!=") || text_eq op (lit "!==") || text_eq op (lit "<>")
    then ok (lit "!=")
    else if text_eq op (lit ">")
    then ok (lit ">")
    else if text_eq op (lit "<")
    then ok (lit "<")
    else if text_eq op (lit ">=")
    then ok (lit ">=")
    else if text_eq op (lit "<=")
    then ok (lit "<=")
    else err (invalid_operator op)
