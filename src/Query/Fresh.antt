-- ===== src/Query/Fresh.antt =====
-- What is answered where the cache of results has nothing.
use squirreldb.Base.{ℕ, Text, Bool, true, false, none, ◌≡◌, refl, ap, ◌∙◌, Option-cases, inl, inr}
use squirreldb.Cache.Json.{Json}
use squirreldb.Sql.Dialect.{SqlDialect}
use squirreldb.Sql.Filter.{QuerySpec}
use squirreldb.Query.Externals.{Engines, LruCache, LruCacheLaws, Backend}
use squirreldb.Query.Engine.{Answer, panic, fail, done, run_answer, execute}
use squirreldb.Query.Pool.{
  QueryEnginePool, CachedResult, fresh, references, get, get_cached, invalidate_table, is_cacheable,
  keep_spec, pool_parse_query, pool_execute, execute_spec, store_answer, look_up,
}
use squirreldb.Query.Transparent.{IsSound, IsStable, pool_parse_query-stable}
use squirreldb.Query.Cached.{invalidate_table_lem}

module _ {P C N : Type 0} (parsed : LruCache P QuerySpec) (parse_laws : LruCacheLaws parsed)
    (results : LruCache C (CachedResult N)) (laws : LruCacheLaws results) (e : Engines N)
    (is_alphanumeric : ℕ → Bool) (to_uppercase : Text → Text) (dialect : SqlDialect) {W : Type 0}
    (list : Backend N W) where
  keep_spec-results :
      (query : Text) (a : Answer QuerySpec) (pool : QueryEnginePool P C)
      → (keep_spec parsed results e is_alphanumeric to_uppercase dialect query a
          pool).1.result_cache
        ≡ pool.result_cache
  keep_spec-results query panic pool = refl
  keep_spec-results query (fail t) pool = refl
  keep_spec-results query (done spec) pool = refl

  -- Parsing leaves the results alone.
  pub parse-results :
      (query : Text) (pool : QueryEnginePool P C)
      → (pool_parse_query parsed results e is_alphanumeric to_uppercase dialect query
          pool).1.result_cache
        ≡ pool.result_cache
  unfolding pool_parse_query get
  parse-results query pool = elim (Option-cases (parsed.get query pool.parse_cache).0) [
    | inl missing ↦ rw missing (keep_spec-results query _ _)
    | inr (spec, found) ↦ rw found refl
  ]

  -- What is kept is what is answered.
  store_answer_lem :
      (b : Bool) (key : Text) (later : ℕ) (pool : QueryEnginePool P C) (r : Answer (Json N) × W)
      → ((store_answer parsed results e is_alphanumeric to_uppercase dialect list b key later pool
            r).0
          ≡ r.0)
        × ((store_answer parsed results e is_alphanumeric to_uppercase dialect list b key later pool
              r).1.1
            ≡ r.1)
  store_answer_lem true key later pool (panic, w) = (refl, refl)
  store_answer_lem true key later pool (fail t, w) = (refl, refl)
  store_answer_lem true key later pool (done v, w) = (refl, refl)
  store_answer_lem false key later pool (panic, w) = (refl, refl)
  store_answer_lem false key later pool (fail t, w) = (refl, refl)
  store_answer_lem false key later pool (done v, w) = (refl, refl)

  look_up-none :
      (b : Bool) (key : Text) (now : ℕ) (pool : QueryEnginePool P C)
      → fresh now (results.get key pool.result_cache).0 ≡ none
      → (look_up parsed results e is_alphanumeric to_uppercase dialect list b key now pool).0 ≡ none
  unfolding get_cached
  look_up-none true key now pool h = h
  look_up-none false key now pool h = refl

  pub execute_spec-miss :
      (key : Text) (now later : ℕ) (a : Answer QuerySpec) (pool : QueryEnginePool P C) (w : W)
      → fresh now (results.get key pool.result_cache).0 ≡ none
      → ((execute_spec parsed results e is_alphanumeric to_uppercase dialect list key now later
            (a, pool)
            w).0
          ≡ (run_answer e is_alphanumeric to_uppercase dialect list a w).0)
        × ((execute_spec parsed results e is_alphanumeric to_uppercase dialect list key now later
              (a, pool)
              w).1.1
            ≡ (run_answer e is_alphanumeric to_uppercase dialect list a w).1)
  execute_spec-miss key now later panic pool w h = (refl, refl)
  execute_spec-miss key now later (fail t) pool w h = (refl, refl)
  execute_spec-miss key now later (done spec) pool w h =
      rw (look_up-none (is_cacheable spec.changes) key now pool h)
        (store_answer_lem (is_cacheable spec.changes) key later _ _)

module _ {P C N : Type 0} (parsed : LruCache P QuerySpec) (parse_laws : LruCacheLaws parsed)
    (results : LruCache C (CachedResult N)) (laws : LruCacheLaws results) (engine : ℕ → Engines N)
    (is_alphanumeric : ℕ → Bool) (to_uppercase : Text → Text) (dialect : SqlDialect) {W : Type 0}
    (list : Backend N W) where
  -- Where the cache of parsed queries holds what the queries were parsed to up to now, a query that
  -- names a table in quotes, and that is parsed to the same at all times, is answered, once the
  -- results of the table are invalidated, as an engine without caches answers it now, and the data
  -- base is left the same. What its functions come to may depend on the time.
  pub execute-invalidate_table :
      (table query : Text) (now later : ℕ) (pool : QueryEnginePool P C) (w : W)
      → references table query ≡ true
      → IsStable parsed parse_laws results engine is_alphanumeric to_uppercase dialect query
      → IsSound parsed parse_laws results engine is_alphanumeric to_uppercase dialect now pool
      → ((pool_execute parsed results
            (engine now)
            is_alphanumeric
            to_uppercase
            dialect
            list
            query
            now
            later
            (invalidate_table results table pool)
            w).0
          ≡ (execute (engine now) is_alphanumeric to_uppercase dialect list query w).0)
        × ((pool_execute parsed results
              (engine now)
              is_alphanumeric
              to_uppercase
              dialect
              list
              query
              now
              later
              (invalidate_table results table pool)
              w).1.1
            ≡ (execute (engine now) is_alphanumeric to_uppercase dialect list query w).1)
  unfolding pool_execute execute invalidate_table IsSound
  execute-invalidate_table table query now later pool w named stable sound =
      let e = engine now in
      let behind = invalidate_table results table pool in
      let step =
        pool_parse_query parsed results e is_alphanumeric to_uppercase dialect query behind in
      let same =
        pool_parse_query-stable parsed parse_laws results engine is_alphanumeric to_uppercase
          dialect now query behind stable sound in
      let gone : fresh now (results.get query step.1.result_cache).0 ≡ none = ap (fresh now) (
        laws.get-find query step.1.result_cache
        ∙ ap (laws.find query) (
            parse-results parsed parse_laws results laws e is_alphanumeric to_uppercase dialect list
              query behind)
        ∙ (invalidate_table_lem results laws table query pool).0 named) in
      rw (← same) (
        execute_spec-miss parsed parse_laws results laws e is_alphanumeric to_uppercase dialect list
          query now later step.0 step.1 w gone)
