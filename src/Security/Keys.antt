-- ===== src/Security/Keys.antt =====
-- crates/sqrld/src/security/mod.rs: the check of an object's key.
use squirreldb.Base.{
  ℕ, Text, lit, len, show_nat, ltb, leb, ◌==◌, is_empty, Bool, false, not, ◌&&◌, ◌||◌, [], ◌∷◌,
  ◌++◌, if◌then◌else◌,
}
use squirreldb.Base.Results.{Result, ok, err}
use squirreldb.Base.Strings.{starts_with, split_at}
use squirreldb.Sql.Sanitize.{has_part}

pub data ObjectKeyError : Type 0 where
  empty path_traversal null_byte absolute_path control_character : ObjectKeyError
  invalid_character too_long : ℕ → ObjectKeyError

-- `contains` of a character.
unfoldable pub contains_char : ℕ → Text → Bool
contains_char e [] = false
contains_char e (c ∷ cs) = c == e || contains_char e cs

-- `char::is_control`
abbrev pub is_control : ℕ → Bool
is_control c = ltb c 0x20 || (leb 0x7f c && leb c 0x9f)

-- The loop over the characters, up to the first that is not allowed.
unfoldable pub has_control : Text → Bool
has_control [] = false
has_control (c ∷ cs) = (is_control c && not (c == 9)) || has_control cs

unfoldable pub validate_object_key : Text → Result ObjectKeyError (Unit {0})
unfolding contains_char has_control starts_with split_at
validate_object_key key =
    if is_empty key
    then err empty
    else if has_part (lit "..") key
    then err path_traversal
    else if contains_char b'\\' key
    then err (invalid_character b'\\')
    else if contains_char 0 key
    then err null_byte
    else if starts_with key (lit "/")
    then err absolute_path
    else if has_control key
    then err control_character
    else if ltb 1024 (len key)
    then err (too_long (len key))
    else ok tt

-- `Display`; how Rust quotes the character is a parameter.
unfoldable pub show_key_error : (ℕ → Text) → ObjectKeyError → Text
show_key_error quote empty = lit "Object key cannot be empty"
show_key_error quote path_traversal = lit "Object key contains path traversal sequence"
show_key_error quote (invalid_character c) =
    lit "Object key contains invalid character: " ++ quote c
show_key_error quote null_byte = lit "Object key contains null byte"
show_key_error quote absolute_path = lit "Object key cannot be an absolute path"
show_key_error quote control_character = lit "Object key contains control character"
show_key_error quote (too_long n) =
    lit "Object key too long: " ++ show_nat n ++ lit " bytes (max 1024)"
