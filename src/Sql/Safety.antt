-- ===== src/Sql/Safety.antt =====
-- The pieces that SQL texts are made of are safe.
use mathlib.Core.Path.{subst}
use squirreldb.Base.{
  ℕ, ◌≡◌, ◌≢◌, inl, inr, refl, arith, Text, lit, ◌==◌, Bool, true, false, some, [], ◌∷◌, ◌++◌,
  Bool-cases,
}
use squirreldb.Base.Results.{ok, ok_inj, built}
use squirreldb.Base.Strings.{replace_char}
use squirreldb.Sql.Sanitize.{
  escape_chars, escape_string, numeric_chars, behind_minus, validate_numeric,
}
use squirreldb.Sql.Structured.{like_escape, quoted, spaced}
use squirreldb.Sql.Scan.{
  code, dash, scan, IsSafe, IsQuiet, append-IsQuiet, within-IsSafe, around-IsSafe, NoQuote,
}

-- A text that stays in its literal, itself and as a pattern.
abbrev pub IsQuietText : Text → Type 0
IsQuietText e = IsQuiet e × IsQuiet (like_escape e)

-- What stands behind a quiet character is read in the literal still.
IsQuiet-cons : (c : ℕ) (t : Text) → c ≢ b'\'' → IsQuiet t → IsQuiet (c ∷ t)
unfolding scan
IsQuiet-cons c t n h = ground arith

IsQuiet-like_cons :
    (c : ℕ) (t : Text) → c ≢ b'\'' → IsQuiet (like_escape t) → IsQuiet (like_escape (c ∷ t))
unfolding scan replace_char
IsQuiet-like_cons c t n h = elim (Bool-cases (c == b'%')) [
  | inl percent ↦ rw (percent, replace_char) h
  | inr other ↦ elim (Bool-cases (c == b'_')) [
    | inl line ↦ rw (other, line, replace_char) h
    | inr plain ↦ rw (other, plain, replace_char) (IsQuiet-cons c (like_escape t) n h)
  ]
]

-- Escaped text stays in its literal, and so does a pattern that is made of it.
pub escape_chars-IsQuiet : (s e : Text) → escape_chars s ≡ ok e → IsQuietText e
unfolding escape_chars scan replace_char
escape_chars-IsQuiet [] e h = subst IsQuietText (ok_inj _ _ h) (refl, refl)
escape_chars-IsQuiet (c ∷ cs) e h = elim (Bool-cases (c == b'\'')) [
  | inl quote ↦
      built IsQuietText (escape_chars cs) (λ e. b'\'' ∷ b'\'' ∷ e) (escape_chars-IsQuiet cs)
        (rw (quote, escape_chars) at h)
  | inr other ↦ elim (Bool-cases (c == b'\\')) [
    | inl slash ↦
        built IsQuietText (escape_chars cs) (λ e. b'\\' ∷ b'\\' ∷ e) (escape_chars-IsQuiet cs)
          (rw (other, slash, escape_chars) at h)
    | inr plain ↦ elim (Bool-cases (c == 0)) [
      | inl zero ↦ cc
      | inr real ↦
          let n : c ≢ b'\'' = ground arith in
          built IsQuietText (escape_chars cs) (◌∷◌ c)
            (λ f ef.
              let (a, b) = escape_chars-IsQuiet cs f ef in
              (IsQuiet-cons c f n a, IsQuiet-like_cons c f n b))
            (rw (other, plain, real, escape_chars) at h)
    ]
  ]
]

pub escape_string-IsQuiet : (s e : Text) → escape_string s ≡ ok e → IsQuietText e
unfolding escape_string
escape_string-IsQuiet s e h = escape_chars-IsQuiet s e (ground arith)

pub quoted-IsSafe : (t : Text) → IsQuiet t → IsSafe (quoted t)
unfolding scan
quoted-IsSafe t q = within-IsSafe (lit "'") t (lit "'") refl q refl

pub spaced-IsSafe : (a b c : Text) → IsSafe a → IsSafe b → IsSafe c → IsSafe (spaced a b c)
unfolding scan
spaced-IsSafe a b c h k l =
    around-IsSafe a (lit " ") (b ++ (lit " " ++ c)) h refl (around-IsSafe b (lit " ") c k refl l)

pub pattern_IsQuiet :
    (prefix e suffix : Text)
    → IsQuiet prefix
    → IsQuiet (like_escape e)
    → IsQuiet suffix
    → IsQuiet (prefix ++ (like_escape e ++ suffix))
pattern_IsQuiet prefix e suffix h q k =
    append-IsQuiet prefix (like_escape e ++ suffix) h (append-IsQuiet (like_escape e) suffix q k)

numeric_chars-scan :
    (t : Text) (has_digit has_dot : Bool) → numeric_chars t has_digit has_dot ≡ true → IsSafe t
unfolding numeric_chars scan
numeric_chars-scan [] d e h = refl
numeric_chars-scan (c ∷ cs) d e h =
    ground (arith, numeric_chars-scan cs true e, numeric_chars-scan cs d true)

numeric_chars-NoQuote :
    (t : Text) (has_digit has_dot : Bool) → numeric_chars t has_digit has_dot ≡ true → NoQuote t
unfolding numeric_chars
numeric_chars-NoQuote [] d e h = tt
numeric_chars-NoQuote (c ∷ cs) d e h =
    ground (arith, numeric_chars-NoQuote cs true e, numeric_chars-NoQuote cs d true)

pub validate_numeric-NoQuote : (s : Text) → validate_numeric s ≡ ok tt → NoQuote s
unfolding validate_numeric
validate_numeric-NoQuote [] h = tt
validate_numeric-NoQuote (c ∷ cs) h =
    let all : numeric_chars (behind_minus (c ∷ cs)) false false ≡ true = ground arith in
    elim (Bool-cases (c == b'-')) [
      | inl minus ↦ (ground arith, numeric_chars-NoQuote cs false false (rw (minus) at all))
      | inr other ↦ numeric_chars-NoQuote (c ∷ cs) false false (rw (other) at all)
    ]

numeric_chars-scan_dash : (t : Text) → numeric_chars t false false ≡ true → scan t dash ≡ some code
unfolding numeric_chars scan
numeric_chars-scan_dash [] h = ground arith
numeric_chars-scan_dash (c ∷ cs) h =
    ground (arith, numeric_chars-scan cs true false, numeric_chars-scan cs false true)

pub validate_numeric-IsSafe : (s : Text) → validate_numeric s ≡ ok tt → IsSafe s
unfolding validate_numeric scan
validate_numeric-IsSafe [] h = refl
validate_numeric-IsSafe (c ∷ cs) h =
    let all : numeric_chars (behind_minus (c ∷ cs)) false false ≡ true = ground arith in
    elim (Bool-cases (c == b'-')) [
      | inl minus ↦
          let e : c ≡ b'-' = ground arith in rw (e) (numeric_chars-scan_dash cs (rw (minus) at all))
      | inr other ↦ numeric_chars-scan (c ∷ cs) false false (rw (other) at all)
    ]
