-- ===== src/Sql/Names.antt =====
-- Names of collections among the identifiers.
use squirreldb.Base.{◌≡◌, ◌≢◌, refl, arith, Text, lit, ◌==◌, false, none, [], ◌∷◌}
use squirreldb.Base.Results.{ok, >>=-eq-ok}
use squirreldb.Base.Strings.{starts_with, ends_with_char, split_at, strip_prefix}
use squirreldb.Sql.Sanitize.{
  check_start, check_chars, check_keyword, check_dots, has_part, is_collection_char,
  is_identifier_char, invalid_collection_char, invalid_identifier_char, validate_collection_name,
  validate_identifier,
}

abbrev NoDot : Text → Type 0
NoDot [] = Unit
NoDot (c ∷ cs) = (c ≢ b'.') × NoDot cs

check_chars-NoDot :
    (s : Text) → check_chars is_collection_char invalid_collection_char s ≡ ok tt → NoDot s
unfolding check_chars
check_chars-NoDot [] h = tt
check_chars-NoDot (c ∷ cs) h = ground (arith, check_chars-NoDot cs)

check_chars-check_chars :
    (s : Text)
    → check_chars is_collection_char invalid_collection_char s ≡ ok tt
    → check_chars is_identifier_char invalid_identifier_char s ≡ ok tt
unfolding check_chars
check_chars-check_chars [] h = refl
check_chars-check_chars (c ∷ cs) h = ground (arith, check_chars-check_chars cs)

starts_with-NoDot : (s : Text) → NoDot s → starts_with s (lit ".") ≡ false
unfolding starts_with
starts_with-NoDot [] h = refl
starts_with-NoDot (c ∷ cs) h = ground arith

ends_with_char-NoDot : (s : Text) → NoDot s → ends_with_char b'.' s ≡ false
unfolding ends_with_char
ends_with_char-NoDot [] h = refl
ends_with_char-NoDot (c ∷ []) h = ground arith
ends_with_char-NoDot (c ∷ d ∷ cs) h = ends_with_char-NoDot (d ∷ cs) h.1

split_at-NoDot : (s : Text) → NoDot s → split_at (lit "..") s ≡ none
unfolding split_at strip_prefix
split_at-NoDot [] h = refl
split_at-NoDot (c ∷ cs) h =
    let other : b'.' == c ≡ false = ground arith in
    rw (other, split_at-NoDot cs h.1, split_at, strip_prefix) refl

check_dots-NoDot : (s : Text) → NoDot s → check_dots s ≡ ok tt
unfolding check_dots
check_dots-NoDot s h =
    let inside : has_part (lit "..") s ≡ false = rw (split_at-NoDot s h, has_part) refl in
    rw (starts_with-NoDot s h, ends_with_char-NoDot s h, inside) refl

-- A name that passes as the name of a collection passes as an identifier too, however characters are
-- converted to upper case: what names a table can stand wherever identifiers do.
pub validate_identifier-validate_collection_name :
    (to_uppercase : Text → Text) (s : Text)
    → validate_collection_name to_uppercase s ≡ ok tt
    → validate_identifier to_uppercase s ≡ ok tt
unfolding validate_collection_name validate_identifier
validate_identifier-validate_collection_name to_uppercase s h =
    let (u, before, keyword) = >>=-eq-ok _ (λ u. check_keyword to_uppercase s) h in
    let (v, begins, chars) =
      >>=-eq-ok (check_start s) (λ u. check_chars is_collection_char invalid_collection_char s)
        before in
    rw
      (
        begins,
        check_chars-check_chars s chars,
        keyword,
        check_dots-NoDot s (check_chars-NoDot s chars),
      )
      refl
