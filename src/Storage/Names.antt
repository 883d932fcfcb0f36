-- ===== src/Storage/Names.antt =====
-- crates/sqrld/src/storage/routes/bucket.rs: `validate_bucket_name`.
use squirreldb.Base.{ℕ, Text, lit, len, ltb, ◌==◌, Bool, false, not, ◌||◌, [], ◌∷◌, if◌then◌else◌}
use squirreldb.Base.Results.{Result, ok, err}
use squirreldb.Base.Strings.{all_chars, ends_with_char, split_at}
use squirreldb.Sql.Sanitize.{is_ascii_lowercase, is_ascii_digit, has_part}
use squirreldb.Storage.Error.{StorageError, invalid_bucket_name}

abbrev pub is_bucket_start : ℕ → Bool
is_bucket_start c = is_ascii_lowercase c || is_ascii_digit c

abbrev pub is_bucket_char : ℕ → Bool
is_bucket_char c = is_ascii_lowercase c || is_ascii_digit c || c == b'-'

-- The first character; there is one, behind the check of the length.
abbrev pub starts_well : Text → Bool
starts_well [] = false
starts_well (c ∷ cs) = is_bucket_start c

unfoldable pub validate_bucket_name : Text → Result StorageError (Unit {0})
unfolding ends_with_char split_at
validate_bucket_name name =
    if ltb (len name) 3 || ltb 63 (len name)
    then err (invalid_bucket_name name)
    else if not (starts_well name)
    then err (invalid_bucket_name name)
    else if not (all_chars is_bucket_char name)
    then err (invalid_bucket_name name)
    else if ends_with_char b'-' name
    then err (invalid_bucket_name name)
    else if has_part (lit "--") name
    then err (invalid_bucket_name name)
    else ok tt
