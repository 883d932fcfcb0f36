-- ===== src/Sql/Compiler/Safety.antt =====
-- Every text that the compiler of predicates makes is safe.
use Prim.Native.Nat.{zero, suc}
use squirreldb.Base.{
  drop, is_empty, ◌-◌, ℕ, ◌≡◌, refl, Text, lit, length, Bool, ◌&&◌, [], ◌∷◌, ◌++◌,
}
use squirreldb.Base.Int.{pos}
use squirreldb.Base.Strings.{all_chars, split_at, strip_prefix, trim, starts_with, ends_with_char}
use squirreldb.Sql.Dialect.{SqlDialect}
use squirreldb.Sql.Filter.{sql, js}
use squirreldb.Sql.Scan.{scan, IsSafe, around-IsSafe, join-IsSafe}
use squirreldb.Sql.Compiler.Outcomes.{Outcome, panic, no, yes, ◌>>=◌, collect}
use squirreldb.Sql.Compiler.Values.{slice}
use squirreldb.Sql.Compiler.Parts.{cut_parts}
use squirreldb.Sql.Compiler.Chains.{
  IsSafeOutcome, yes-IsSafe, no-IsSafe, >>=-eq-yes, >>=-IsSafe, otherwise-IsSafe, if-IsSafe,
  elim-IsSafe, collect-All,
}
use squirreldb.Sql.Compiler
use squirreldb.Sql.Compiler.Access.{negated_field-IsSafe, compile_access-IsSafe}

module _ (is_alphanumeric : ℕ → Bool) (to_uppercase : Text → Text) (dialect : SqlDialect) where
  compile_comparison-IsSafe :
      (expr param : Text)
      → IsSafeOutcome (Compiler.compile_comparison is_alphanumeric to_uppercase dialect expr param)
  unfolding Compiler.compile_comparison
  compile_comparison-IsSafe expr param =
      elim-IsSafe (strip_prefix (lit "!") expr) _ _
        (λ negated found.
          negated_field-IsSafe is_alphanumeric to_uppercase dialect (param ++ lit ".") negated)
        (elim-IsSafe (strip_prefix (param ++ lit ".") expr) _ no
          (λ rest found. compile_access-IsSafe is_alphanumeric to_uppercase dialect rest) no-IsSafe)

  -- With a compiler of the parts that makes safe texts.
  module _ (compile : Text → Outcome Text) (safe : (t : Text) → IsSafeOutcome (compile t)) where
    try_split_logical-IsSafe :
        (expr js_op sql_op : Text)
        → IsSafe (lit " " ++ (sql_op ++ lit " "))
        → IsSafeOutcome (
            Compiler.try_split_logical is_alphanumeric to_uppercase dialect compile expr js_op
              sql_op)
    unfolding Compiler.try_split_logical scan
    try_split_logical-IsSafe expr js_op sql_op h =
        >>=-IsSafe (cut_parts js_op expr expr (pos 0) 0 0) _ (λ (parts, last) cut.
          if-IsSafe (is_empty parts) no _ (λ none. no-IsSafe)
            (>>=-IsSafe (collect compile (parts ++ (trim (drop last expr) ∷ []))) _ (λ sqls made.
              yes-IsSafe _ (
                join-IsSafe (lit " " ++ (sql_op ++ lit " ")) sqls h
                  (collect-All compile safe (parts ++ (trim (drop last expr) ∷ [])) sqls made)))))

    expression_step-IsSafe :
        (param text : Text)
        → IsSafeOutcome
            (Compiler.expression_step is_alphanumeric to_uppercase dialect compile param text)
    unfolding Compiler.expression_step scan
    expression_step-IsSafe param text =
        let expr = trim text in
        if-IsSafe (starts_with expr (lit "(") && ends_with_char b')' expr) _ _
          (λ h. >>=-IsSafe (slice expr 1 (length expr - 1) >>= compile) _ (λ s made.
            let (inner, cut, made') = >>=-eq-yes (slice expr 1 (length expr - 1)) compile made in
            yes-IsSafe _ (around-IsSafe (lit "(") s (lit ")") refl (safe inner s made') refl)))
          (otherwise-IsSafe
            (Compiler.try_split_logical is_alphanumeric to_uppercase dialect compile expr (lit "||")
              (lit "OR"))
            _ (try_split_logical-IsSafe expr (lit "||") (lit "OR") refl)
            (otherwise-IsSafe
              (Compiler.try_split_logical is_alphanumeric to_uppercase dialect compile expr
                (lit "&&") (lit "AND"))
              _ (try_split_logical-IsSafe expr (lit "&&") (lit "AND") refl)
              (compile_comparison-IsSafe expr param)))

  compile_within-IsSafe :
      (fuel : ℕ) (param expr : Text)
      → IsSafeOutcome
          (Compiler.compile_within is_alphanumeric to_uppercase dialect no fuel param expr)
  unfolding Compiler.compile_within
  compile_within-IsSafe zero param expr = no-IsSafe
  compile_within-IsSafe (suc fuel) param expr =
      expression_step-IsSafe
        (Compiler.compile_within is_alphanumeric to_uppercase dialect no fuel param)
        (compile_within-IsSafe fuel param) param expr

  try_compile_to_sql-IsSafe :
      (text : Text)
      → IsSafeOutcome (Compiler.try_compile_to_sql is_alphanumeric to_uppercase dialect text)
  unfolding Compiler.try_compile_to_sql Compiler.compile_expression
  try_compile_to_sql-IsSafe text =
      elim-IsSafe (split_at (lit "=>") (trim text)) _ no
        (λ (before, after) found.
          if-IsSafe (all_chars (Compiler.is_word_char is_alphanumeric) (trim before)) _ no
            (λ h. compile_within-IsSafe (suc (length (trim after))) (trim before) (trim after))
            no-IsSafe)
        no-IsSafe

  -- When a predicate is compiled to SQL, the SQL is code with whole string literals: every literal is
  -- closed, and outside of literals there is no character that ends a statement or starts a comment,
  -- whatever stands in the predicate.
  pub compile_predicate-IsSafe :
      (text t : Text)
      → Compiler.compile_predicate is_alphanumeric to_uppercase dialect text ≡ yes (sql t)
      → IsSafe t
  unfolding Compiler.compile_predicate
  compile_predicate-IsSafe text t e =
      try_compile_to_sql-IsSafe text t
        (compiled (Compiler.try_compile_to_sql is_alphanumeric to_uppercase dialect text) e)
    where
      compiled :
          (m : Outcome Text)
          → elim m [ yes t ↦ yes (sql t) | no ↦ yes (js text) | panic ↦ panic ] ≡ yes (sql t)
          → m ≡ yes t
      compiled (yes s) h = cc
      compiled no h = cc
      compiled panic h = cc
