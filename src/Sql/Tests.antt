-- ===== src/Sql/Tests.antt =====
-- Tests of the SQL that is made of queries, and examples of the theorems.
use squirreldb.Base.{
  arith, inr, len, text_eq, ◌-◌, if◌then◌else◌, ℕ, ◌≡◌, refl, Text, lit, leb, show_nat, Bool, true,
  ◌&&◌, ◌||◌, [], ◌∷◌,
}
use squirreldb.Base.Strings.{starts_with, ends_with_char, split_at, join, replace_char}
use squirreldb.Sql.Sanitize.{
  escape_string, validate_identifier, validate_numeric, is_ascii_alphabetic, is_ascii_digit,
}
use squirreldb.Sql.Dialect.{postgres, sqlite, json_text, json_numeric, json_bool}
use squirreldb.Base.Results.{ok}
use squirreldb.Cache.Json
use squirreldb.Sql.Filter.{
  CompiledFilter, sql, StructuredFilter, fields, all_hold, negated, cons, nil, operator, contains,
  ne,
}
use squirreldb.Sql.Scan.{IsSafe}
use squirreldb.Sql.Structured.{Compiled, field_condition_to_sql, filter_to_sql}
use squirreldb.Sql.Structured.Safety.{filter_to_sql-IsSafe}
use squirreldb.Sql.Compiler.Safety.{compile_predicate-IsSafe}
use squirreldb.Sql.Compiler.Termination.{compile_expression_lem}
use squirreldb.Sql.Compiler.Values.{operator_of}
use squirreldb.Sql.Literals.{literal_value, doubled, literal_value-escape_string}
use squirreldb.Sql.Agreement.{in_quotes, generate_sql-operator_to_sql}
use squirreldb.Sql.Compiler.Outcomes.{Outcome, panic, yes}
use squirreldb.Sql.Compiler.Outcomes.{success}
use squirreldb.Sql.Compiler.{
  compile_predicate, compile_within, compile_expression, expression_step, generate_sql,
}

abbrev upper : Text → Text
upper [] = []
upper (c ∷ cs) = (if leb b'a' c && leb c b'z' then c - 32 else c) ∷ upper cs

abbrev ascii_alphanumeric : ℕ → Bool
ascii_alphanumeric c = is_ascii_alphabetic c || is_ascii_digit c

abbrev run : Text → Outcome CompiledFilter
unfolding compile_predicate text_eq validate_identifier len ends_with_char validate_numeric
    escape_string json_numeric json_text json_bool
run code = compile_predicate ascii_alphanumeric upper postgres code

-- Predicates and what they are compiled to.
run_and :
    run (lit "doc => doc.age >= 21 && doc.name == \"O'Hara\"")
    ≡ yes (sql (lit "(data->'age')::numeric >= 21 AND data->>'name' = 'O''Hara'"))
unfolding run
run_and = refl

-- A value that is one quote: `&value[1..0]`.
run_one_quote : run (lit "doc => doc.a == \"") ≡ panic
unfolding run
run_one_quote = refl

-- An operator that is written with three characters is found twice.
run_three_bars : run (lit "doc => doc.a ||| doc.b") ≡ panic
unfolding run
run_three_bars = refl

-- The parentheses at both ends do not belong together.
run_parentheses :
    run (lit "doc => (doc.a == \"x\") || (doc.b == \"y\")")
    ≡ yes (sql (lit "(data->>'a' = 'x\") || (doc.b == \"y')"))
unfolding run
run_parentheses = refl

-- A part that is no SQL makes one string of what stands between the quotes.
run_one_string :
    run (lit "doc => doc.a == \"x\" || f(doc) || doc.b == \"y\"")
    ≡ yes (sql (lit "data->>'a' = 'x\" || f(doc) || doc.b == \"y'"))
unfolding run
run_one_string = refl

-- What follows the call of a method is dropped.
run_method :
    run (lit "doc => doc.tags.includes(\"x\") === false") ≡ yes (sql (lit "data->'tags' ? 'x'"))
unfolding run
run_method = refl

run_not_true :
    run (lit "doc => doc.active != true") ≡ yes (sql (lit "(data->'active')::boolean = true"))
unfolding run
run_not_true = refl

-- { "$and": [{ "name": { "$contains": "50%'" } }, { "$not": { "age": { "$ne": 7 } } }] }
abbrev sample : StructuredFilter ℕ
sample = all_hold (
    cons (fields ((lit "name", operator (contains (lit "50%'"))) ∷ []))
      (cons (negated (fields ((lit "age", operator (ne (Json.number 7))) ∷ []))) nil))

abbrev compiled_sample : Text
compiled_sample =
    lit "(data->>'name' LIKE '%50\\%''%' ESCAPE '\\' AND NOT ((data->'age')::numeric != 7))"

abbrev compile_sample : StructuredFilter ℕ → Compiled
unfolding filter_to_sql field_condition_to_sql starts_with split_at show_nat join replace_char
    text_eq validate_identifier len ends_with_char validate_numeric escape_string json_numeric
    json_text json_bool
compile_sample f = filter_to_sql upper show_nat postgres f

compile_sample_runs : compile_sample sample ≡ ok compiled_sample
unfolding compile_sample
compile_sample_runs = refl

filter_to_sql-IsSafe_example : IsSafe compiled_sample
unfolding compile_sample
filter_to_sql-IsSafe_example =
    filter_to_sql-IsSafe upper show_nat postgres sample compiled_sample compile_sample_runs

-- `$ne` with a truth value is compiled like `$eq`.
ne_true :
    compile_sample (fields ((lit "active", operator (ne (Json.bool true))) ∷ []))
    ≡ ok (lit "(data->'active')::boolean = true")
unfolding compile_sample
ne_true = refl

-- No condition at all between the parentheses.
empty_and : compile_sample (all_hold nil) ≡ ok (lit "()")
unfolding compile_sample
empty_and = refl

compile_predicate-IsSafe_example :
    IsSafe (lit "(data->'age')::numeric >= 21 AND data->>'name' = 'O''Hara'")
unfolding run
compile_predicate-IsSafe_example =
    compile_predicate-IsSafe ascii_alphanumeric upper postgres
      (lit "doc => doc.age >= 21 && doc.name == \"O'Hara\"")
      (lit "(data->'age')::numeric >= 21 AND data->>'name' = 'O''Hara'") run_and

abbrev disjunction : Text
disjunction = lit "(doc.a || !doc.b)"

-- Running out of levels would be a panic.
compile_expression_lem_example :
    (compile_within ascii_alphanumeric upper sqlite panic 30 (lit "doc") disjunction
      ≡ compile_expression ascii_alphanumeric upper sqlite (lit "doc") disjunction)
    × (compile_expression ascii_alphanumeric upper sqlite (lit "doc") disjunction
        ≡ expression_step ascii_alphanumeric upper sqlite
            (compile_expression ascii_alphanumeric upper sqlite (lit "doc"))
            (lit "doc")
            disjunction)
compile_expression_lem_example =
    compile_expression_lem ascii_alphanumeric upper sqlite panic 30 (lit "doc") disjunction
      (omega arith)

literal_value-escape_string_example : literal_value (lit "a\\\\''") ≡ doubled (lit "a\\'")
unfolding escape_string len
literal_value-escape_string_example = literal_value-escape_string (lit "a\\'") (lit "a\\\\''") refl

generate_sql-operator_to_sql_example :
    generate_sql ascii_alphanumeric upper postgres
      (lit "name")
      (lit "!==")
      (in_quotes b'"' (lit "O'Hara"))
    ≡ success (
        field_condition_to_sql upper show_nat postgres
          (lit "name", operator (ne (Json.string (lit "O'Hara")))))
unfolding validate_identifier len ends_with_char text_eq operator_of starts_with split_at
generate_sql-operator_to_sql_example =
    generate_sql-operator_to_sql show_nat ascii_alphanumeric upper postgres (lit "name") (lit "!==")
      (lit "O'Hara") (ne (Json.string (lit "O'Hara"))) refl (inr (refl, refl))
