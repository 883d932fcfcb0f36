-- ===== src/Storage/Xml/Spelling.antt =====
-- What the reader takes escaped text for, numbers, times and Booleans.
use squirreldb.Base.{
  Text, lit, [], ◌∷◌, ◌++◌, ◌≡◌, refl, sym, ap, ◌∙◌, List, arith, Bool-cases, inl, inr, true, false,
  ◌==◌, Bool, text_eq, show_i64, ℤ,
}
use mathlib.Core.List.{append-nil, append_assoc}
use squirreldb.Base.Number.Digits.{show_i64-All}
use squirreldb.Storage.Externals.{IsPlainChar, IsPlain}
use squirreldb.Storage.Xml.Common.{show_bool}
use squirreldb.Storage.Xml.Escape.{escape_xml}
use squirreldb.Storage.Xml.Reader.{Leaf, content, run}
use squirreldb.Storage.Xml.Moves.{Spells}

plain_run :
    (e : Text)
    → IsPlain e
    → (s : List Text) (t : Text) (out : List Leaf)
    → run (content s t out) e ≡ content s (t ++ e) out
unfolding run
plain_run [] h s t out = ap (λ u. content s u out) (sym (append-nil t))
plain_run (c ∷ e) ((l, g, a), h) s t out =
    rw (l, g, a)
      (plain_run e h s (t ++ c ∷ []) out ∙ ap (λ u. content s u out) (append_assoc t (c ∷ []) e))

pub IsPlain-Spells : (e : Text) → IsPlain e → Spells e e
IsPlain-Spells e h = record { spells = plain_run e h }

escaped_run :
    (v : Text) (s : List Text) (t : Text) (out : List Leaf)
    → run (content s t out) (escape_xml v) ≡ content s (t ++ v) out
unfolding run escape_xml text_eq
escaped_run [] s t out = ap (λ u. content s u out) (sym (append-nil t))
escaped_run (c ∷ v) s t out =
    let behind =
      escaped_run v s (t ++ c ∷ []) out ∙ ap (λ u. content s u out) (append_assoc t (c ∷ []) v) in
    elim (Bool-cases (c == b'&')) [
      | inl amp ↦ let is : c ≡ b'&' = ground arith in rw (is) (rw (is) at behind)
      | inr other ↦ elim (Bool-cases (c == b'<')) [
        | inl less ↦ let is : c ≡ b'<' = ground arith in rw (is) (rw (is) at behind)
        | inr not_less ↦ elim (Bool-cases (c == b'>')) [
          | inl greater ↦ let is : c ≡ b'>' = ground arith in rw (is) (rw (is) at behind)
          | inr not_greater ↦ elim (Bool-cases (c == b'\'')) [
            | inl apos ↦ let is : c ≡ b'\'' = ground arith in rw (is) (rw (is) at behind)
            | inr no_apos ↦ elim (Bool-cases (c == b'"')) [
              | inl quot ↦ let is : c ≡ b'"' = ground arith in rw (is) (rw (is) at behind)
              | inr no_quot ↦
                  rw (other, not_less, not_greater, no_apos, no_quot)
                    (rw (not_less, not_greater, other) behind)
            ]
          ]
        ]
      ]
    ]

pub escape_xml-Spells : (v : Text) → Spells (escape_xml v) v
escape_xml-Spells v = record { spells = escaped_run v }

pub show_i64-Spells : (z : ℤ) → Spells (show_i64 z) (show_i64 z)
show_i64-Spells z =
    IsPlain-Spells _ (show_i64-All IsPlainChar (λ d h. ground arith) (refl, refl, refl) z)

pub show_bool-Spells : (b : Bool) → Spells (show_bool b) (show_bool b)
show_bool-Spells true = IsPlain-Spells (lit "true") (ground arith)
show_bool-Spells false = IsPlain-Spells (lit "false") (ground arith)
