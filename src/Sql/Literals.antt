-- ===== src/Sql/Literals.antt =====
-- What a database reads from the literals that escaped text is put in: standard SQL takes a doubled
-- quote for one, and a backslash for itself.
use mathlib.Core.Path.{subst}
use squirreldb.Base.{
  ◌&&◌, ℕ, ◌≡◌, ◌≢◌, inl, inr, refl, ◌∙◌, ap, arith, Text, lit, ◌==◌, Bool-cases, [], ◌∷◌,
  if◌then◌else◌,
}
use squirreldb.Base.Results.{ok, ok_inj, built}
use squirreldb.Base.Strings.{replace_char}
use squirreldb.Sql.Sanitize.{escape_chars, escape_string}

-- The value of a literal, from the text between its quotes.
unfoldable pub literal_value : Text → Text
literal_value [] = []
literal_value (c ∷ []) = c ∷ []
literal_value (c ∷ d ∷ cs) =
    let behind = literal_value cs in
    let next = literal_value (d ∷ cs) in if c == b'\'' && d == b'\'' then c ∷ behind else c ∷ next

-- The text with every backslash written twice.
unfoldable pub doubled : Text → Text
unfolding replace_char
doubled s = replace_char b'\\' (lit "\\\\") s

value_cons : (c : ℕ) (t : Text) → c ≢ b'\'' → literal_value (c ∷ t) ≡ c ∷ literal_value t
unfolding literal_value
value_cons c [] n = refl
value_cons c (d ∷ t) n = ground arith

escaped_value : (s e : Text) → escape_chars s ≡ ok e → literal_value e ≡ doubled s
unfolding escape_chars literal_value doubled
escaped_value [] e h = subst (λ e. literal_value e ≡ []) (ok_inj _ _ h) refl
escaped_value (c ∷ cs) e h = elim (Bool-cases (c == b'\'')) [
  | inl quote ↦
      let is : c ≡ b'\'' = ground arith in
      built Reads (escape_chars cs) (λ f. b'\'' ∷ b'\'' ∷ f)
        (λ f ef. rw (is) (ap (◌∷◌ b'\'') (escaped_value cs f ef))) (rw (quote, escape_chars) at h)
  | inr other ↦ elim (Bool-cases (c == b'\\')) [
    | inl slash ↦
        let is : c ≡ b'\\' = ground arith in
        built Reads (escape_chars cs) (λ f. b'\\' ∷ b'\\' ∷ f)
          (λ f ef. rw (is) (
            value_cons b'\\' (b'\\' ∷ f) (ground arith)
            ∙ ap (◌∷◌ b'\\')
                (value_cons b'\\' f (ground arith) ∙ ap (◌∷◌ b'\\') (escaped_value cs f ef))))
          (rw (other, slash, escape_chars) at h)
    | inr plain ↦ elim (Bool-cases (c == 0)) [
      | inl zero ↦ cc
      | inr real ↦
          let n : c ≢ b'\'' = ground arith in
          built Reads (escape_chars cs) (◌∷◌ c)
            (λ f ef. rw (plain) (value_cons c f n ∙ ap (◌∷◌ c) (escaped_value cs f ef)))
            (rw (other, plain, real, escape_chars) at h)
    ]
  ]
]
  where
    Reads : Text → Type 0
    Reads e = literal_value e ≡ doubled (c ∷ cs)

-- A database that reads a string literal of standard SQL, in which a doubled quote stands for one,
-- gets from escaped text the text with every backslash doubled: quotes come back as they were, and
-- a text with a backslash does not.
pub literal_value-escape_string :
    (s e : Text) → escape_string s ≡ ok e → literal_value e ≡ doubled s
unfolding escape_string
literal_value-escape_string s e h = escaped_value s e (ground arith)
