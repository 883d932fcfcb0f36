-- ===== src/Sql/Compiler.antt =====
-- crates/sqrld/src/query/compiler.rs: the compiler of JavaScript predicates. `to_uppercase` and
-- `is_alphanumeric` of the standard library are parameters.
pub mod Outcomes
pub mod Values
pub mod Parts
pub mod Chains
pub mod Pieces
pub mod Access
pub mod Safety
pub mod Shorter
pub mod Termination
use Prim.Native.Nat.{zero, suc}
use mathlib.Core.Option
use squirreldb.Base.{
  is_empty, ℕ, ◌-◌, Text, lit, text_eq, ◌==◌, Bool, true, false, not, ◌&&◌, ◌||◌, Option, none,
  some, List, [], ◌∷◌, ◌++◌, length, drop, if◌then◌else◌,
}
use squirreldb.Base.Int.{pos}
use squirreldb.Base.Strings.{
  strip_prefix, starts_with, ends_with_char, split_at, split_on, trim, all_chars, join,
}
use squirreldb.Sql.Sanitize.{escape_string, validate_identifier, validate_numeric}
use squirreldb.Sql.Dialect.{SqlDialect, json_text, json_numeric, json_bool}
use squirreldb.Sql.Filter.{CompiledFilter, sql, js}
use squirreldb.Sql.Structured.{spaced, quoted}
use squirreldb.Sql.Compiler.Outcomes.{
  Outcome, panic, no, yes, ◌>>=◌, otherwise, success, is_ok, collect, first,
}
use squirreldb.Sql.Compiler.Values.{
  slice, is_quoted, operator_of, operators, json_array_length, json_array_contains, string_match,
}
use squirreldb.Sql.Compiler.Parts.{cut_parts}

-- A method call: the field before the name, and the argument up to the next parenthesis.
-- `none` when the method is not called.
abbrev pub argument_of : Text → Outcome Text
argument_of after = elim (split_at (lit ")") after) [ some r ↦ yes (trim r.0) | none ↦ no ]

module _ (is_alphanumeric : ℕ → Bool) where
  abbrev pub is_word_char : ℕ → Bool
  is_word_char c = is_alphanumeric c || c == b'_'

  abbrev pub all_words : List Text → Bool
  all_words [] = true
  all_words (t ∷ ts) = not (text_eq t []) && all_chars is_word_char t && all_words ts

  unfoldable pub is_valid_field_path : Text → Bool
  unfolding split_on
  is_valid_field_path s = not (text_eq s []) && all_words (split_on b'.' s)

  -- One round of the loop of `parse_comparison_nested`.
  abbrev pub comparison_at : Text → Text → Outcome (Text × Text × Text)
  comparison_at s op = elim (split_at op s) [
    | some (before, after) ↦
        if is_valid_field_path (trim before) then yes (trim before, op, trim after) else no
    | none ↦ no
  ]

  unfoldable pub parse_comparison_nested : Text → Outcome (Text × Text × Text)
  unfolding is_valid_field_path split_at
  parse_comparison_nested s = first (comparison_at s) operators

  module _ (to_uppercase : Text → Text) (dialect : SqlDialect) where
    -- The test of a field before it stands in SQL.
    abbrev pub is_field : Text → Bool
    is_field field = is_valid_field_path field && is_ok (validate_identifier to_uppercase field)

    unfoldable pub generate_sql : Text → Text → Text → Outcome Text
    unfolding operator_of slice
    generate_sql field op value =
        if is_ok (validate_identifier to_uppercase field)
        then (operator_of op >>= (λ sql_op.
            if text_eq value (lit "true")
            then yes (json_bool dialect field ++ lit " = true")
            else if text_eq value (lit "false")
            then yes (json_bool dialect field ++ lit " = false")
            else if text_eq value (lit "null")
            then yes (
                json_text dialect field
                ++ (if text_eq sql_op (lit "=") then lit " IS NULL" else lit " IS NOT NULL"))
            else if is_quoted value
            then (slice value 1 (length value - 1)
                >>= (λ inner. success (escape_string inner))
                >>= (λ escaped. yes (spaced (json_text dialect field) sql_op (quoted escaped))))
            else if is_ok (validate_numeric value)
            then yes (spaced (json_numeric dialect field) sql_op value)
            else no))
        else no

    -- One round of `try_compile_method_call`: the name with its parenthesis, and what is made of the
    -- field and the argument. When the name is found, what follows is not tried.
    abbrev pub method : Text → (Text → Text → Outcome Text) → Text → Outcome Text → Outcome Text
    method name build rest later = elim (split_at name rest) [
      | some (field, after) ↦ if is_field field then (argument_of after >>= build field) else no
      | none ↦ later
    ]

    unfoldable pub try_compile_method_call : Text → Outcome Text
    unfolding json_array_contains string_match split_at
    try_compile_method_call rest = method (lit ".includes(") (json_array_contains dialect) rest (
        method (lit ".startsWith(") (string_match [] (lit "%") dialect) rest (
          method (lit ".endsWith(") (string_match (lit "%") [] dialect) rest
            (method (lit ".contains(") (string_match (lit "%") (lit "%") dialect) rest no)))

    -- One round of the loop over the operators behind `.length`.
    abbrev pub length_round : Text → Text → Text → Outcome Text
    length_round field after op = elim (strip_prefix op after) [
      | some remainder ↦
          if is_ok (validate_numeric (trim remainder))
          then (operator_of op >>= (λ sql_op.
              yes (spaced (json_array_length dialect field) sql_op (trim remainder))))
          else no
      | none ↦ no
    ]

    unfoldable pub try_compile_length_comparison : Text → Outcome Text
    unfolding split_at strip_prefix operator_of
    try_compile_length_comparison rest = elim (split_at (lit ".length") rest) [
      | some (field, after) ↦
          if is_field field then first (length_round field (trim after)) operators else no
      | none ↦ no
    ]

    -- `!doc.field`, behind the exclamation mark.
    abbrev pub negated_field : Text → Text → Outcome Text
    negated_field prefix negated = elim (strip_prefix prefix (trim negated)) [
      | some rest ↦
          if is_field (trim rest)
          then yes (
              lit "("
              ++ (json_bool dialect (trim rest)
                  ++ (lit " = false OR " ++ (json_text dialect (trim rest) ++ lit " IS NULL)"))))
          else no
      | none ↦ no
    ]

    -- Behind `doc.`: a method, a length, a comparison, or a field that is true.
    unfoldable pub compile_access : Text → Outcome Text
    unfolding try_compile_method_call try_compile_length_comparison parse_comparison_nested
        generate_sql trim
    compile_access rest =
        let flag =
          if is_field (trim rest)
          then yes (json_bool dialect (trim rest) ++ lit " = true")
          else no in
        otherwise (try_compile_method_call rest) (
          otherwise (try_compile_length_comparison rest) (elim (parse_comparison_nested rest) [
            | yes (field, op, value) ↦ generate_sql field op value
            | no ↦ flag
            | panic ↦ panic
          ]))

    unfoldable pub compile_comparison : Text → Text → Outcome Text
    unfolding compile_access strip_prefix trim
    compile_comparison expr param = elim (strip_prefix (lit "!") expr) [
      | some negated ↦ negated_field (param ++ lit ".") negated
      | none ↦ elim (strip_prefix (param ++ lit ".") expr) [
        | some rest ↦ compile_access rest
        | none ↦ no
      ]
    ]

    -- `try_split_logical`, with the function that compiles the parts.
    unfoldable pub try_split_logical : (Text → Outcome Text) → Text → Text → Text → Outcome Text
    unfolding cut_parts trim join
    try_split_logical compile expr js_op sql_op =
        cut_parts js_op expr expr (pos 0) 0 0 >>= (λ (parts, last).
          if is_empty parts
          then no
          else (collect compile (parts ++ (trim (drop last expr) ∷ []))
              >>= (λ sqls. yes (join (lit " " ++ (sql_op ++ lit " ")) sqls))))

    -- `compile_expression`, with itself for the smaller texts.
    unfoldable pub expression_step : (Text → Outcome Text) → Text → Text → Outcome Text
    unfolding try_split_logical compile_comparison trim slice
    expression_step compile param text =
        let expr = trim text in
        if starts_with expr (lit "(") && ends_with_char b')' expr
        then (slice expr 1 (length expr - 1) >>= compile >>= (λ s. yes (lit "(" ++ (s ++ lit ")"))))
        else otherwise (try_split_logical compile expr (lit "||") (lit "OR")) (
            otherwise (try_split_logical compile expr (lit "&&") (lit "AND"))
              (compile_comparison expr param))

    -- With fuel for the depth of the recursion, and what it comes to without any.
    unfoldable pub compile_within : Outcome Text → ℕ → Text → Text → Outcome Text
    unfolding expression_step
    compile_within exhausted zero param expr = exhausted
    compile_within exhausted (suc fuel) param expr =
        expression_step (compile_within exhausted fuel param) param expr

    unfoldable pub compile_expression : Text → Text → Outcome Text
    unfolding compile_within
    compile_expression param expr = compile_within no (suc (length expr)) param expr

    unfoldable pub try_compile_to_sql : Text → Outcome Text
    unfolding compile_expression split_at trim
    try_compile_to_sql code = elim (split_at (lit "=>") (trim code)) [
      | some (before, after) ↦
          if all_chars is_word_char (trim before)
          then compile_expression (trim before) (trim after)
          else no
      | none ↦ no
    ]

    unfoldable pub compile_predicate : Text → Outcome CompiledFilter
    unfolding try_compile_to_sql
    compile_predicate code = elim (try_compile_to_sql code) [
      | yes t ↦ yes (sql t)
      | no ↦ yes (js code)
      | panic ↦ panic
    ]
