-- ===== src/Query/Pool.antt =====
-- crates/sqrld/src/query/engine.rs: `QueryEnginePool`. A call of the pool is one step; the readings of
-- the clock that it makes are arguments, in nanoseconds. `to_string` of a structured query is a
-- parameter.
use squirreldb.Base.{
  zero, suc, ℕ, ◌+◌, ◌%◌, max, Text, lit, ltb, Bool, true, false, ◌||◌, Option, none, some, List,
  [], ◌∷◌, ◌++◌, filter, if◌then◌else◌,
}
use squirreldb.Base.Results.{Result, ok, err}
use squirreldb.Cache.Json.{Json}
use squirreldb.Sql.Dialect.{SqlDialect}
use squirreldb.Sql.Filter.{FilterSpec, QuerySpec, StructuredQuery}
use squirreldb.Sql.Sanitize.{has_part}
use squirreldb.Sql.Structured.{CompileError, compile}
use squirreldb.Subscriptions.{Document}
use squirreldb.Query.Externals.{Engines, LruCache, Backend}
use squirreldb.Query.Engine.{
  filtered, Answer, panic, fail, done, ◌>>=◌, answer, parse_query, run_spec, listed,
}

pub record CachedResult (N : Type 0) : Type 0 where
  pub value : Json N
  pub expires_at : ℕ

-- `P` and `C` are the states of the two caches.
pub record QueryEnginePool (P C : Type 0) : Type 0 where
  pub engines : ℕ
  pub next : ℕ
  pub parse_cache : P
  pub result_cache : C
  pub result_cache_ttl : ℕ

-- `with_cache_ttl`; the caches hold 1,024 and 256 entries.
unfoldable pub with_cache_ttl : {P C : Type 0} → (ℕ → P) → (ℕ → C) → ℕ → ℕ → QueryEnginePool P C
with_cache_ttl new_parse new_result size ttl = record {
  engines = max size 1;
  next = 0;
  parse_cache = new_parse 1024;
  result_cache = new_result 256;
  result_cache_ttl = ttl;
}

-- `get`: the engine that is used, in turn. The counter is a `usize`.
unfoldable pub get : {P C : Type 0} → QueryEnginePool P C → ℕ × QueryEnginePool P C
get pool = (pool.next % pool.engines, record pool { next = (pool.next + 1) % 0x10000000000000000 })

-- The value of an entry that has not expired.
abbrev pub fresh : {N : Type 0} → ℕ → Option (CachedResult N) → Option (Json N)
fresh now none = none
fresh now (some entry) = if ltb now entry.expires_at then some entry.value else none

-- Whether a query's key names the table in quotes.
abbrev pub references : Text → Text → Bool
references table key =
    has_part (lit "'" ++ table ++ lit "'") key || has_part (lit "\"" ++ table ++ lit "\"") key

abbrev pub pop_all : {C V : Type 0} → LruCache C V → List Text → C → C
pop_all lru [] c = c
pop_all lru (k ∷ ks) c = pop_all lru ks (lru.pop k c)

module _ {P C N : Type 0} (results : LruCache C (CachedResult N)) where
  unfoldable pub get_cached : Text → ℕ → QueryEnginePool P C → Option (Json N) × QueryEnginePool P C
  get_cached key now pool = (
    fresh now (results.get key pool.result_cache).0,
    record pool { result_cache = (results.get key pool.result_cache).1 },
  )

  unfoldable pub put_cached : Text → Json N → ℕ → QueryEnginePool P C → QueryEnginePool P C
  put_cached key value now pool = record pool {
    result_cache =
        results.put key (record { value = value; expires_at = now + pool.result_cache_ttl })
          pool.result_cache;
  }

  unfoldable pub invalidate_cache : QueryEnginePool P C → QueryEnginePool P C
  invalidate_cache pool = record pool { result_cache = results.clear pool.result_cache }

  unfoldable pub invalidate_table : Text → QueryEnginePool P C → QueryEnginePool P C
  invalidate_table table pool = record pool {
    result_cache =
        pop_all results (filter (references table) (results.keys pool.result_cache))
          pool.result_cache;
  }

-- Only queries without a subscription are kept.
abbrev pub is_cacheable : Option Bool → Bool
is_cacheable none = true
is_cacheable (some c) = false

-- How often a script takes an engine: once for a filter that is not compiled, and once for a map
-- where the filter has not failed.
abbrev pub filter_uses : Option FilterSpec → ℕ
filter_uses none = 0
filter_uses (some f) = elim f.compiled_sql [ some s ↦ 0 | none ↦ 1 ]

abbrev pub map_uses : {A : Type 0} → Answer A → Option Text → ℕ
map_uses (done docs) (some m) = 1
map_uses docs m = 0

unfoldable pub take_engines : {P C : Type 0} → ℕ → QueryEnginePool P C → QueryEnginePool P C
unfolding get
take_engines zero pool = pool
take_engines (suc n) pool = take_engines n (get pool).1

module _ {P C N : Type 0} (parsed : LruCache P QuerySpec) (results : LruCache C (CachedResult N))
    (e : Engines N) (is_alphanumeric : ℕ → Bool) (to_uppercase : Text → Text)
    (dialect : SqlDialect) where
  abbrev pub keep_spec :
      Text → Answer QuerySpec → QueryEnginePool P C → Answer QuerySpec × QueryEnginePool P C
  keep_spec query (done spec) pool =
      (done spec, record pool { parse_cache = parsed.put query spec pool.parse_cache })
  keep_spec query other pool = (other, pool)

  -- The pool behind the lookup, and what the lookup has found.
  abbrev pub parse_or_keep :
      Text → Option QuerySpec → QueryEnginePool P C → Answer QuerySpec × QueryEnginePool P C
  parse_or_keep query (some spec) pool = (done spec, pool)
  parse_or_keep query none pool =
      keep_spec query (parse_query e is_alphanumeric to_uppercase dialect query) (get pool).1

  unfoldable pub pool_parse_query :
      Text → QueryEnginePool P C → Answer QuerySpec × QueryEnginePool P C
  unfolding parse_query get
  pool_parse_query query pool =
      parse_or_keep query (parsed.get query pool.parse_cache).0
        (record pool { parse_cache = (parsed.get query pool.parse_cache).1 })

  module _ {W : Type 0} (list : Backend N W) where
    abbrev pub engine_uses : QuerySpec → Result Text (List (Document N)) → ℕ
    engine_uses spec (err t) = 0
    engine_uses spec (ok docs) =
        filter_uses spec.filter
        + map_uses (filtered e is_alphanumeric to_uppercase dialect spec.filter docs)
            spec.projection

    abbrev pub uses : QuerySpec → W → ℕ
    uses spec w = engine_uses spec (listed e is_alphanumeric to_uppercase dialect list spec w).0

    -- What is done with the answer of the data base, at the second reading of the clock.
    abbrev pub store_answer :
        Bool
        → Text
        → ℕ
        → QueryEnginePool P C
        → Answer (Json N) × W
        → Answer (Json N) × (QueryEnginePool P C × W)
    store_answer true key later pool (done v, w) =
        (done v, (put_cached results key v later pool, w))
    store_answer cacheable key later pool (other, w) = (other, (pool, w))

    abbrev pub answer_from :
        Bool
        → Text
        → QuerySpec
        → ℕ
        → Option (Json N)
        → QueryEnginePool P C
        → W
        → Answer (Json N) × (QueryEnginePool P C × W)
    answer_from cacheable key spec later (some v) pool w = (done v, (pool, w))
    answer_from cacheable key spec later none pool w =
        store_answer cacheable key later (take_engines (uses spec w) pool)
          (run_spec e is_alphanumeric to_uppercase dialect list spec w)

    -- The lookup in the cache of results, of queries that may be kept.
    abbrev pub look_up :
        Bool → Text → ℕ → QueryEnginePool P C → Option (Json N) × QueryEnginePool P C
    look_up true key now pool = get_cached results key now pool
    look_up false key now pool = (none, pool)

    abbrev pub execute_spec :
        Text
        → ℕ
        → ℕ
        → Answer QuerySpec × QueryEnginePool P C
        → W
        → Answer (Json N) × (QueryEnginePool P C × W)
    execute_spec key now later (done spec, pool) w =
        let found = look_up (is_cacheable spec.changes) key now pool in
        answer_from (is_cacheable spec.changes) key spec later found.0 found.1 w
    execute_spec key now later (panic, pool) w = (panic, (pool, w))
    execute_spec key now later (fail t, pool) w = (fail t, (pool, w))

    -- `execute`, which looks at the clock before the call of the data base and behind it.
    unfoldable pub pool_execute :
        Text → ℕ → ℕ → QueryEnginePool P C → W → Answer (Json N) × (QueryEnginePool P C × W)
    unfolding pool_parse_query get_cached put_cached run_spec take_engines
    pool_execute query now later pool w =
        execute_spec query now later (pool_parse_query query pool) w

    abbrev pub compiled : (CompileError → Text) → Result CompileError QuerySpec → Answer QuerySpec
    compiled show (err e) = fail (show e)
    compiled show (ok spec) = done spec

    -- A structured query is answered by the data base alone.
    abbrev pub structured_miss :
        Bool
        → Text
        → ℕ
        → Answer QuerySpec
        → QueryEnginePool P C
        → W
        → Answer (Json N) × (QueryEnginePool P C × W)
    structured_miss cacheable key later (done spec) pool w =
        let found = listed e is_alphanumeric to_uppercase dialect list spec w in
        store_answer cacheable key later pool
          (answer found.0 >>= (λ docs. answer (e.documents_to_value docs)), found.1)
    structured_miss cacheable key later panic pool w = (panic, (pool, w))
    structured_miss cacheable key later (fail t) pool w = (fail t, (pool, w))

    abbrev pub structured_from :
        Bool
        → Text
        → ℕ
        → Answer QuerySpec
        → Option (Json N) × QueryEnginePool P C
        → W
        → Answer (Json N) × (QueryEnginePool P C × W)
    structured_from cacheable key later spec (some v, pool) w = (done v, (pool, w))
    structured_from cacheable key later spec (none, pool) w =
        structured_miss cacheable key later spec pool w

    unfoldable pub execute_structured :
        (StructuredQuery N → Text)
        → (N → Text)
        → (CompileError → Text)
        → StructuredQuery N
        → ℕ
        → ℕ
        → QueryEnginePool P C
        → W
        → Answer (Json N) × (QueryEnginePool P C × W)
    unfolding get_cached put_cached compile
    execute_structured to_string number_text show query now later pool w =
        structured_from (is_cacheable query.include_initial) (to_string query) later
          (compiled show (compile to_uppercase number_text dialect query))
          (look_up (is_cacheable query.include_initial) (to_string query) now pool) w
