-- ===== src/Query/Engine.antt =====
-- crates/sqrld/src/query/engine.rs: `QueryEngine`.
use squirreldb.Base.{
  ℕ, Text, lit, text_eq, Bool, false, Option, none, some, List, [], ◌∷◌, ◌++◌, if◌then◌else◌,
}
use squirreldb.Base.Results.{Result, ok, err}
use squirreldb.Cache.Json.{
  Json, Fields, null, bool, number, string, array, object, end, field, Items, nil, cons,
}
use squirreldb.Sql.Dialect.{SqlDialect}
use squirreldb.Sql.Filter.{
  SortSpec, asc, desc, FilterSpec, QuerySpec, CompiledFilter, sql, js, hybrid,
}
use squirreldb.Sql.Compiler.{compile_predicate}
use squirreldb.Sql.Compiler.Outcomes.{Outcome}
use squirreldb.Sql.Compiler.Outcomes
use squirreldb.Subscriptions.{Document}
use squirreldb.Query.Externals.{Engines, Backend}

-- What a call comes to.
pub data Answer {ℓ} (A : Type ℓ) : Type ℓ where
  panic : Answer A
  fail : Text → Answer A
  done : A → Answer A

infixl 5 ◌>>=◌
abbrev pub ◌>>=◌ {ℓ κ} : {A : Type ℓ} {B : Type κ} → Answer A → (A → Answer B) → Answer B
panic >>= f = panic
fail e >>= f = fail e
done a >>= f = f a

-- `?` on a result of other code.
abbrev pub answer {ℓ} : {A : Type ℓ} → Result Text A → Answer A
answer (err e) = fail e
answer (ok a) = done a

-- `DEFAULT_PROJECT_ID` of crates/types/src/project.rs.
abbrev pub default_project_id : ℕ
default_project_id = 0

module _ {N : Type 0} where
  abbrev pub member : Text → Fields N → Json N
  member k end = null
  member k (field j v fs) = if text_eq j k then v else member k fs

  -- `v[key]`, which is null where there is no such member.
  abbrev pub index : Json N → Text → Json N
  index (object fs) k = member k fs
  index v k = null

  abbrev pub as_str : Json N → Option Text
  as_str (string s) = some s
  as_str v = none

  abbrev pub as_bool : Json N → Option Bool
  as_bool (bool b) = some b
  as_bool v = none

  -- `insert` into a map.
  unfoldable pub insert_field : Text → Json N → Fields N → Fields N
  insert_field k v end = field k v end
  insert_field k v (field j w fs) =
      if text_eq j k then field k v fs else field j w (insert_field k v fs)

  -- The elements behind one another, as `Value::Array` holds them.
  abbrev pub items : List (Json N) → Items N
  items [] = nil
  items (v ∷ vs) = cons v (items vs)

module _ {N : Type 0} (e : Engines N) (is_alphanumeric : ℕ → Bool) (to_uppercase : Text → Text)
    (dialect : SqlDialect) where
  abbrev pub as_u64 : Json N → Option ℕ
  as_u64 (number n) = e.as_u64 n
  as_u64 v = none

  abbrev pub filter_spec : Text → Outcome CompiledFilter → Answer (Option FilterSpec)
  filter_spec code Outcomes.panic = panic
  filter_spec code Outcomes.no = done (some (record { js_code = code; compiled_sql = none }))
  filter_spec code (Outcomes.yes (sql s)) =
      done (some (record { js_code = code; compiled_sql = some s }))
  filter_spec code (Outcomes.yes (hybrid s c)) =
      done (some (record { js_code = code; compiled_sql = some s }))
  filter_spec code (Outcomes.yes (js c)) =
      done (some (record { js_code = code; compiled_sql = none }))

  unfoldable pub filter_of : Option Text → Answer (Option FilterSpec)
  unfolding compile_predicate
  filter_of none = done none
  filter_of (some code) =
      filter_spec code (compile_predicate is_alphanumeric to_uppercase dialect code)

  abbrev pub is_desc : Option Text → Bool
  is_desc none = false
  is_desc (some t) = text_eq t (lit "desc")

  abbrev pub text_or : Text → Option Text → Text
  text_or t none = t
  text_or t (some u) = u

  -- `o[key]` of a map of serde_json, which panics where there is no such member.
  abbrev pub map_index : Text → Fields N → Answer (Json N)
  map_index k end = panic
  map_index k (field j v fs) = let rest = map_index k fs in if text_eq j k then done v else rest

  abbrev pub order_of : Json N → Answer (Option SortSpec)
  order_of (object o) = map_index (lit "field") o >>= (λ by.
      map_index (lit "direction") o >>= (λ direction. done (
        some (record {
          field = text_or (lit "id") (as_str by);
          direction = if is_desc (as_str direction) then desc else asc;
        }))))
  order_of v = done none

  abbrev pub or_else : Option ℕ → Option ℕ → Option ℕ
  or_else none o = o
  or_else (some n) o = some n

  abbrev pub bool_or_false : Option Bool → Bool
  bool_or_false none = false
  bool_or_false (some b) = b

  abbrev pub changes_of : Json N → Option Bool
  changes_of (object o) = some (bool_or_false (as_bool (member (lit "includeInitial") o)))
  changes_of v = none

  abbrev pub table_of : Option Text → Answer Text
  table_of none = fail (lit "Missing table")
  table_of (some t) = done t

  -- The members of the builder's JSON, read into a specification.
  unfoldable pub spec_of : Json N → Answer QuerySpec
  unfolding filter_of
  spec_of v = table_of (as_str (index v (lit "table"))) >>= (λ table.
      filter_of (as_str (index v (lit "filter"))) >>= (λ filter.
        order_of (index v (lit "orderBy")) >>= (λ order_by. done (record {
          project_id = none;
          table = table;
          filter = filter;
          projection = as_str (index v (lit "map"));
          order_by = order_by;
          limit = as_u64 (index v (lit "limit"));
          offset = or_else (as_u64 (index v (lit "skip"))) (as_u64 (index v (lit "offset")));
          changes = changes_of (index v (lit "changes"));
        }))))

  -- `QueryEngine::parse_query`
  unfoldable pub parse_query : Text → Answer QuerySpec
  unfolding spec_of
  parse_query query = answer (e.evaluate query) >>= spec_of

  abbrev pub fields_of : Json N → Fields N
  fields_of (object fs) = fs
  fields_of v = end

  unfoldable pub build_filter_object : Document N → Json N
  unfolding insert_field
  build_filter_object doc = object (
      insert_field (lit "$updated_at") (string (e.time_to_string doc.updated_at)) (
        insert_field (lit "$created_at") (string (e.time_to_string doc.created_at))
          (insert_field (lit "$id") (string (e.id_to_string doc.id)) (fields_of doc.content))))

  -- The loops over the documents.
  unfoldable pub filter_loop : e.Function → List (Document N) → Answer (List (Document N))
  unfolding build_filter_object
  filter_loop f [] = done []
  filter_loop f (doc ∷ docs) =
      answer (e.call_bool f (build_filter_object doc))
      >>= (λ keep. filter_loop f docs >>= (λ rest. done (if keep then doc ∷ rest else rest)))

  unfoldable pub map_loop : e.Function → List (Document N) → Answer (List (Json N))
  unfolding build_filter_object
  map_loop f [] = done []
  map_loop f (doc ∷ docs) =
      answer (e.call_json f (build_filter_object doc))
      >>= (λ v. map_loop f docs >>= (λ rest. done (v ∷ rest)))

  abbrev pub in_parentheses : Text → Text
  in_parentheses code = lit "(" ++ code ++ lit ")"

  unfoldable pub js_filter_batch : List (Document N) → Text → Answer (List (Document N))
  unfolding filter_loop
  js_filter_batch [] code = done []
  js_filter_batch (doc ∷ docs) code =
      answer (e.compile_function (in_parentheses code)) >>= (λ f. filter_loop f (doc ∷ docs))

  unfoldable pub js_map_batch : List (Document N) → Text → Answer (Json N)
  unfolding map_loop
  js_map_batch [] code = done (array nil)
  js_map_batch (doc ∷ docs) code =
      answer (e.compile_function (in_parentheses code))
      >>= (λ f. map_loop f (doc ∷ docs) >>= (λ vs. done (array (items vs))))

  -- Documents that the data base could not filter are filtered here.
  abbrev pub filtered : Option FilterSpec → List (Document N) → Answer (List (Document N))
  filtered none docs = done docs
  filtered (some f) docs = elim f.compiled_sql [
    | some s ↦ done docs
    | none ↦ js_filter_batch docs f.js_code
  ]

  abbrev pub mapped : Option Text → List (Document N) → Answer (Json N)
  mapped none docs = answer (e.documents_to_value docs)
  mapped (some m) docs = js_map_batch docs m

  abbrev pub sql_filter : Option FilterSpec → Option Text
  sql_filter none = none
  sql_filter (some f) = f.compiled_sql

  abbrev pub project_of : Option ℕ → ℕ
  project_of none = default_project_id
  project_of (some p) = p

  module _ {W : Type 0} (list : Backend N W) where
    abbrev pub listed : QuerySpec → W → Result Text (List (Document N)) × W
    listed spec =
        list (project_of spec.project_id) spec.table (sql_filter spec.filter) spec.order_by
          spec.limit spec.offset

    abbrev pub finish : QuerySpec → Result Text (List (Document N)) × W → Answer (Json N) × W
    finish spec (docs, w) = ((answer docs >>= filtered spec.filter) >>= mapped spec.projection, w)

    -- What a specification asks of the data base and of the scripts.
    unfoldable pub run_spec : QuerySpec → W → Answer (Json N) × W
    unfolding js_filter_batch js_map_batch
    run_spec spec w = finish spec (listed spec w)

    abbrev pub run_answer : Answer QuerySpec → W → Answer (Json N) × W
    run_answer panic w = (panic, w)
    run_answer (fail t) w = (fail t, w)
    run_answer (done spec) w = run_spec spec w

    -- `QueryEngine::execute`
    unfoldable pub execute : Text → W → Answer (Json N) × W
    unfolding parse_query run_spec
    execute query w = run_answer (parse_query query) w
