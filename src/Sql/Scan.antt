-- ===== src/Sql/Scan.antt =====
-- What is demanded of a SQL text: standard SQL ends a string literal at the next quote, and a doubled
-- quote goes on with it. Behind the last character the text stands outside of literals again, and
-- outside of them are plain characters only: none that ends a statement or starts a comment.
use squirreldb.Base.{
  All, ◌≢◌, inr, inl, ℕ, ◌≡◌, refl, arith, Text, leb, ◌==◌, Bool, ◌&&◌, ◌||◌, Option, none, some,
  List, [], ◌∷◌, ◌++◌, ◌∙◌, if◌then◌else◌, Option-cases,
}
use squirreldb.Base.Strings.{join}

-- Where a reader stands: in the code, behind a minus in the code, or in a string literal.
pub data Place : Type 0 where
  code dash literal : Place

-- Letters, digits, and the punctuation of expressions.
abbrev pub is_plain : ℕ → Bool
is_plain c =
    (leb b'a' c && leb c b'z')
    || (leb b'A' c && leb c b'Z')
    || (leb b'0' c && leb c b'9')
    || c == b' '
    || c == b'_'
    || c == b'.'
    || c == b','
    || c == b'('
    || c == b')'
    || c == b'='
    || c == b'<'
    || c == b'>'
    || c == b'!'
    || c == b':'
    || c == b'?'
    || c == b'@'

unfoldable pub read_char : Place → ℕ → Option Place
read_char literal c = some (if c == b'\'' then code else literal)
read_char code c =
    if c == b'\''
    then some literal
    else if c == b'-'
    then some dash
    else if is_plain c
    then some code
    else none
read_char dash c = if c == b'\'' then some literal else if is_plain c then some code else none

-- Reading on from a place.
unfoldable pub scan : Text → Place → Option Place
unfolding read_char
scan [] p = some p
scan (c ∷ cs) p = elim (read_char p c) [ some q ↦ scan cs q | none ↦ none ]

-- The text is code with whole literals.
abbrev pub IsSafe : Text → Type 0
IsSafe t = scan t code ≡ some code

-- The text begins and ends inside a literal.
abbrev pub IsQuiet : Text → Type 0
IsQuiet t = scan t literal ≡ some literal

pub scan-append : (a b : Text) (p q : Place) → scan a p ≡ some q → scan (a ++ b) p ≡ scan b q
unfolding scan
scan-append [] b p q h = ground arith
scan-append (c ∷ cs) b p q h = elim (Option-cases (read_char p c)) [
  | inl n ↦ ground arith
  | inr (r, e) ↦ rw (e, scan) (scan-append cs b r q (rw (e, scan) at h))
]

pub append-IsSafe : (a b : Text) → IsSafe a → IsSafe b → IsSafe (a ++ b)
append-IsSafe a b h k = scan-append a b code code h ∙ k

pub append-IsQuiet : (a b : Text) → IsQuiet a → IsQuiet b → IsQuiet (a ++ b)
append-IsQuiet a b h k = scan-append a b literal literal h ∙ k

pub around-IsSafe : (a t b : Text) → IsSafe a → IsSafe t → IsSafe b → IsSafe (a ++ (t ++ b))
around-IsSafe a t b h k l = append-IsSafe a (t ++ b) h (append-IsSafe t b k l)

-- Code that opens a literal, what stands in it, and code that closes it.
pub within-IsSafe :
    (a t b : Text)
    → scan a code ≡ some literal
    → IsQuiet t
    → scan b literal ≡ some code
    → IsSafe (a ++ (t ++ b))
within-IsSafe a t b h q k =
    scan-append a (t ++ b) code literal h ∙ (scan-append t b literal literal q ∙ k)

-- No quote at all.
abbrev pub NoQuote : Text → Type 0
NoQuote [] = Unit
NoQuote (c ∷ cs) = (c ≢ b'\'') × NoQuote cs

pub NoQuote-IsQuiet : (t : Text) → NoQuote t → IsQuiet t
unfolding scan
NoQuote-IsQuiet [] h = refl
NoQuote-IsQuiet (c ∷ cs) h = ground (arith, NoQuote-IsQuiet cs h.1)

pub join-IsSafe : (sep : Text) (ts : List Text) → IsSafe sep → All IsSafe ts → IsSafe (join sep ts)
unfolding join scan
join-IsSafe sep [] s h = refl
join-IsSafe sep (t ∷ []) s h = h.0
join-IsSafe sep (t ∷ u ∷ ts) s h =
    append-IsSafe t (sep ++ join sep (u ∷ ts)) h.0
      (append-IsSafe sep (join sep (u ∷ ts)) s (join-IsSafe sep (u ∷ ts) s h.1))
