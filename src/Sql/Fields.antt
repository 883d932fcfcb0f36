-- ===== src/Sql/Fields.antt =====
-- Fields that pass the checks, and the paths to them, are safe in SQL.
use squirreldb.Base.{
  All, ℕ, ◌≡◌, inl, inr, refl, ◌∙◌, arith, Text, lit, ◌==◌, ◌&&◌, List, [], ◌∷◌, ◌++◌, Bool-cases,
  Option-cases,
}
use squirreldb.Base.Results.{ok, >>=-eq-ok}
use squirreldb.Base.Strings.{split_on, push_front}
use squirreldb.Sql.Sanitize.{
  SqlSanitizeError, check_chars, check_keyword, check_dots, invalid_identifier_char,
  is_identifier_char, validate_identifier, check_start,
}
use squirreldb.Sql.Dialect.{
  SqlDialect, postgres, sqlite, path_steps, field_to_path, shorten_arrows, json_extract, json_text,
  json_numeric, json_bool,
}
use squirreldb.Sql.Scan.{
  Place, code, dash, literal, scan, read_char, IsSafe, append-IsSafe, within-IsSafe, around-IsSafe,
  NoQuote, NoQuote-IsQuiet,
}

pub check_chars-NoQuote :
    (fails : ℕ → SqlSanitizeError) (t : Text)
    → check_chars is_identifier_char fails t ≡ ok tt
    → NoQuote t
unfolding check_chars
check_chars-NoQuote fails [] h = tt
check_chars-NoQuote fails (c ∷ cs) h = ground (arith, check_chars-NoQuote fails cs)

-- An identifier that passes the check holds no quote.
pub validate_identifier-NoQuote :
    (to_uppercase : Text → Text) (s : Text) → validate_identifier to_uppercase s ≡ ok tt → NoQuote s
unfolding validate_identifier
validate_identifier-NoQuote to_uppercase s h =
    let (u, before, e) = >>=-eq-ok _ (λ u. check_dots s) h in
    let (v, chars, e') = >>=-eq-ok _ (λ u. check_keyword to_uppercase s) before in
    let (w, start, e'') =
      >>=-eq-ok (check_start s) (λ u. check_chars is_identifier_char invalid_identifier_char s)
        chars in
    check_chars-NoQuote invalid_identifier_char s e''

pub split_on-NoQuote : (e : ℕ) (t : Text) → NoQuote t → All NoQuote (split_on e t)
unfolding split_on
split_on-NoQuote e [] h = (tt, tt)
split_on-NoQuote e (c ∷ cs) h = elim (Bool-cases (c == e)) [
  | inl b ↦ rw (b, split_on) (tt, split_on-NoQuote e cs h.1)
  | inr b ↦ rw (b, split_on) (pushed (split_on e cs) (split_on-NoQuote e cs h.1))
]
  where
    pushed : (ts : List Text) → All NoQuote ts → All NoQuote (push_front c ts)
    pushed [] k = ((h.0, tt), tt)
    pushed (u ∷ us) k = ((h.0, k.0), k.1)

pub path_steps-IsSafe : (ts : List Text) → All NoQuote ts → IsSafe (path_steps ts)
unfolding path_steps scan
path_steps-IsSafe [] h = refl
path_steps-IsSafe (t ∷ []) h =
    within-IsSafe (lit "->>'") t (lit "'") refl (NoQuote-IsQuiet t h.0) refl
path_steps-IsSafe (t ∷ u ∷ ts) h =
    within-IsSafe (lit "->'") t (lit "'" ++ path_steps (u ∷ ts)) refl (NoQuote-IsQuiet t h.0)
      (path_steps-IsSafe (u ∷ ts) h.1)

-- Texts that are read alike are read alike behind the same character.
pub scan-cons :
    (c : ℕ) (s t : Text)
    → ((p : Place) → scan s p ≡ scan t p)
    → (p : Place) → scan (c ∷ s) p ≡ scan (c ∷ t) p
unfolding scan
scan-cons c s t h p = elim (Option-cases (read_char p c)) [
  | inl n ↦ rw (n, scan) refl
  | inr (q, e) ↦ rw (e, scan) (h q)
]

pub scan-arrow : (t : Text) (p : Place) → scan (b'-' ∷ b'>' ∷ t) p ≡ scan (b'-' ∷ b'>' ∷ b'>' ∷ t) p
unfolding scan
scan-arrow t code = refl
scan-arrow t dash = refl
scan-arrow t literal = refl

-- `->>` and `->` are read alike, in code and in a literal.
pub scan-shorten_arrows : (t : Text) (p : Place) → scan (shorten_arrows t) p ≡ scan t p
unfolding shorten_arrows
scan-shorten_arrows [] p = refl
scan-shorten_arrows (a ∷ []) p = refl
scan-shorten_arrows (a ∷ b ∷ []) p = refl
scan-shorten_arrows (a ∷ b ∷ c ∷ cs) p =
    let again = scan-shorten_arrows cs in
    let later = scan-shorten_arrows (b ∷ c ∷ cs) in
    elim (Bool-cases (a == b'-' && b == b'>' && c == b'>')) [
      | inl is ↦
          let (ea, eb, ec) : (a ≡ b'-') × (b ≡ b'>') × (c ≡ b'>') = ground arith in
          rw (is)
            (rw (ea, eb, ec) (scan-cons b'-' _ _ (scan-cons b'>' _ _ again) p ∙ scan-arrow cs p))
      | inr isnt ↦ rw (isnt) (scan-cons a _ _ later p)
    ]

-- What the dialects make of a field without a quote is safe.
module _ (field : Text) (plain : NoQuote field) where
  pub path-IsSafe : IsSafe (field_to_path postgres field)
  unfolding field_to_path
  path-IsSafe = path_steps-IsSafe (split_on b'.' field) (split_on-NoQuote b'.' field plain)

  pub short_path-IsSafe : IsSafe (shorten_arrows (field_to_path postgres field))
  short_path-IsSafe = scan-shorten_arrows (field_to_path postgres field) code ∙ path-IsSafe

  pub json_extract-IsSafe : IsSafe (json_extract field)
  unfolding scan
  json_extract-IsSafe =
      within-IsSafe (lit "json_extract(data, '$.") field (lit "')") refl
        (NoQuote-IsQuiet field plain) refl

  pub json_text-IsSafe : (d : SqlDialect) → IsSafe (json_text d field)
  unfolding json_text scan
  json_text-IsSafe postgres =
      append-IsSafe (lit "data") (field_to_path postgres field) refl path-IsSafe
  json_text-IsSafe sqlite = json_extract-IsSafe

  pub json_numeric-IsSafe : (d : SqlDialect) → IsSafe (json_numeric d field)
  unfolding json_numeric scan
  json_numeric-IsSafe postgres =
      around-IsSafe (lit "(data") (shorten_arrows (field_to_path postgres field)) (lit ")::numeric")
        refl short_path-IsSafe refl
  json_numeric-IsSafe sqlite =
      around-IsSafe (lit "CAST(") (json_extract field) (lit " AS REAL)") refl json_extract-IsSafe
        refl

  pub json_bool-IsSafe : (d : SqlDialect) → IsSafe (json_bool d field)
  unfolding json_bool scan
  json_bool-IsSafe postgres =
      around-IsSafe (lit "(data") (shorten_arrows (field_to_path postgres field)) (lit ")::boolean")
        refl short_path-IsSafe refl
  json_bool-IsSafe sqlite = json_extract-IsSafe
