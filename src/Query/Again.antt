-- ===== src/Query/Again.antt =====
-- What is answered when a query is asked again.
use squirreldb.Base.{
  ℕ, zero, suc, ◌+◌, ◌<◌, ◌≤◌, Text, Bool, none, some, ◌≡◌, refl, sym, ap, ◌∙◌, Option-cases, inl,
  inr, arith,
}
use squirreldb.Cache.Json.{Json}
use squirreldb.Sql.Dialect.{SqlDialect}
use squirreldb.Sql.Filter.{QuerySpec}
use squirreldb.Query.Externals.{Engines, LruCache, LruCacheLaws, Backend}
use squirreldb.Query.Engine.{Answer, panic, fail, done, parse_query, run_spec}
use squirreldb.Query.Pool.{
  QueryEnginePool, CachedResult, fresh, get, get_cached, put_cached, is_cacheable, keep_spec,
  pool_parse_query, pool_execute, execute_spec, take_engines, uses,
}
use squirreldb.Query.Transparent.{
  IsSound, IsStable, IsSound-later, pool_parse_query_lem, pool_parse_query-stable,
}
use squirreldb.Query.Fresh.{parse-results, execute_spec-miss}

module _ {P C N : Type 0} (parsed : LruCache P QuerySpec) (parse_laws : LruCacheLaws parsed)
    (results : LruCache C (CachedResult N)) (laws : LruCacheLaws results) (e : Engines N)
    (is_alphanumeric : ℕ → Bool) (to_uppercase : Text → Text) (dialect : SqlDialect) {W : Type 0}
    (list : Backend N W) where
  take_engines-same :
      (n : ℕ) (pool : QueryEnginePool P C)
      → ((take_engines n pool).result_cache_ttl ≡ pool.result_cache_ttl)
        × ((take_engines n pool).parse_cache ≡ pool.parse_cache)
  unfolding take_engines get
  take_engines-same zero pool = (refl, refl)
  take_engines-same (suc n) pool = take_engines-same n (get pool).1

  -- The specification's answer, through the cache of results.
  abbrev answered :
      Text
      → ℕ
      → ℕ
      → QuerySpec
      → QueryEnginePool P C
      → W
      → Answer (Json N) × (QueryEnginePool P C × W)
  answered query now later spec pool w =
      execute_spec parsed results e is_alphanumeric to_uppercase dialect list query now later
        (done spec, pool) w

  answered-kept :
      (query : Text) (now later : ℕ) (spec : QuerySpec) (pool : QueryEnginePool P C) (w w' : W)
      (v : Json N)
      → spec.changes ≡ none
      → fresh now (results.get query pool.result_cache).0 ≡ none
      → run_spec e is_alphanumeric to_uppercase dialect list spec w ≡ (done v, w')
      → (laws.find query (answered query now later spec pool w).1.0.result_cache
          ≡ some (record { value = v; expires_at = later + pool.result_cache_ttl }))
        × ((answered query now later spec pool w).1.0.parse_cache ≡ pool.parse_cache)
  unfolding get_cached put_cached run_spec
  answered-kept query now later spec pool w w' v kept miss run =
      let n = uses parsed results e is_alphanumeric to_uppercase dialect list spec w in
      let behind = (get_cached results query now pool).1 in
      rw (kept, is_cacheable)
        (rw (miss) (
          rw (run) (
            laws.find-put_self query _ (take_engines n behind).result_cache
                ∙ ap (λ t. some (record { value = v; expires_at = later + t }))
                    (take_engines-same n behind).0,
            (take_engines-same n behind).1,
          )))

  answered-hit :
      (query : Text) (now later : ℕ) (spec : QuerySpec) (pool : QueryEnginePool P C) (w : W)
      (v : Json N)
      → spec.changes ≡ none
      → fresh now (results.get query pool.result_cache).0 ≡ some v
      → ((answered query now later spec pool w).0 ≡ done v)
        × ((answered query now later spec pool w).1.1 ≡ w)
  unfolding get_cached
  answered-hit query now later spec pool w v kept hit =
      rw (kept, is_cacheable) (rw (hit) (refl, refl))

  keep_spec-ttl :
      (query : Text) (a : Answer QuerySpec) (pool : QueryEnginePool P C)
      → (keep_spec parsed results e is_alphanumeric to_uppercase dialect query a
          pool).1.result_cache_ttl
        ≡ pool.result_cache_ttl
  keep_spec-ttl query panic pool = refl
  keep_spec-ttl query (fail t) pool = refl
  keep_spec-ttl query (done spec) pool = refl

  abbrev parse_step : Text → QueryEnginePool P C → Answer QuerySpec × QueryEnginePool P C
  parse_step query pool =
      pool_parse_query parsed results e is_alphanumeric to_uppercase dialect query pool

  parse-ttl :
      (query : Text) (pool : QueryEnginePool P C)
      → (parse_step query pool).1.result_cache_ttl ≡ pool.result_cache_ttl
  unfolding pool_parse_query get
  parse-ttl query pool = elim (Option-cases (parsed.get query pool.parse_cache).0) [
    | inl missing ↦ rw missing (keep_spec-ttl query _ _)
    | inr (spec, found) ↦ rw found refl
  ]

  -- A call is parsing and then answering.
  pool_execute-answered :
      (query : Text) (now later : ℕ) (spec : QuerySpec) (pool : QueryEnginePool P C) (w : W)
      → (parse_step query pool).0 ≡ done spec
      → pool_execute parsed results e is_alphanumeric to_uppercase dialect list query now later pool
          w
        ≡ answered query now later spec (parse_step query pool).1 w
  unfolding pool_execute
  pool_execute-answered query now later spec pool w is =
      ap
        (λ a.
          execute_spec parsed results e is_alphanumeric to_uppercase dialect list query now later
            (a, (parse_step query pool).1) w)
        is

  fresh-soon :
      (now' : ℕ) (v : Json N) (until : ℕ)
      → now' < until
      → fresh now' (some (record { value = v; expires_at = until })) ≡ some v
  fresh-soon now' v until h = ground arith

  -- A query that has no fresh result and comes to a value is answered with it, which is then kept.
  first_call :
      (query : Text) (now later : ℕ) (spec : QuerySpec) (pool : QueryEnginePool P C) (w w' : W)
      (v : Json N)
      → (parse_step query pool).0 ≡ done spec
      → spec.changes ≡ none
      → fresh now (laws.find query pool.result_cache) ≡ none
      → run_spec e is_alphanumeric to_uppercase dialect list spec w ≡ (done v, w')
      → let first =
          pool_execute parsed results e is_alphanumeric to_uppercase dialect list query now later
            pool w in
        (first.0 ≡ done v)
        × (laws.find query first.1.0.result_cache
            ≡ some (record { value = v; expires_at = later + pool.result_cache_ttl }))
        × (first.1.0.parse_cache ≡ (parse_step query pool).1.parse_cache)
  first_call query now later spec pool w w' v is kept miss run =
      let p1 = (parse_step query pool).1 in
      let one = pool_execute-answered query now later spec pool w is in
      let miss1 : fresh now (results.get query p1.result_cache).0 ≡ none =
        ap (fresh now) (
          laws.get-find query p1.result_cache
          ∙ ap (laws.find query) (
              parse-results parsed parse_laws results laws e is_alphanumeric to_uppercase dialect
                list query pool))
        ∙ miss in
      let (found, same) = answered-kept query now later spec p1 w w' v kept miss1 run in
      rw (one) (
        (execute_spec-miss parsed parse_laws results laws e is_alphanumeric to_uppercase dialect
              list query now later (done spec) p1 w miss1).0
            ∙ ap (λ r. r.0) run,
        found
            ∙ ap (λ t. some (record { value = v; expires_at = later + t })) (parse-ttl query pool),
        same,
      )

  -- A query whose result is kept and has not expired is answered with it.
  kept_call :
      (query : Text) (now later until : ℕ) (spec : QuerySpec) (q : QueryEnginePool P C) (w : W)
      (v : Json N)
      → (parse_step query q).0 ≡ done spec
      → spec.changes ≡ none
      → laws.find query q.result_cache ≡ some (record { value = v; expires_at = until })
      → now < until
      → let second =
          pool_execute parsed results e is_alphanumeric to_uppercase dialect list query now later q
            w in
        (second.0 ≡ done v) × (second.1.1 ≡ w)
  kept_call query now later until spec q w v is kept found soon =
      let hit : fresh now (results.get query (parse_step query q).1.result_cache).0 ≡ some v =
        ap (fresh now) (
          laws.get-find query (parse_step query q).1.result_cache
          ∙ ap (laws.find query) (
              parse-results parsed parse_laws results laws e is_alphanumeric to_uppercase dialect
                list query q)
          ∙ found)
        ∙ fresh-soon now v until soon in
      rw (pool_execute-answered query now later spec q w is)
        (answered-hit query now later spec (parse_step query q).1 w v kept hit)

module _ {P C N : Type 0} (parsed : LruCache P QuerySpec) (parse_laws : LruCacheLaws parsed)
    (results : LruCache C (CachedResult N)) (laws : LruCacheLaws results) (engine : ℕ → Engines N)
    (is_alphanumeric : ℕ → Bool) (to_uppercase : Text → Text) (dialect : SqlDialect) {W : Type 0}
    (list : Backend N W) where
  abbrev IsSoundPool : ℕ → QueryEnginePool P C → Type 0
  IsSoundPool = IsSound parsed parse_laws results engine is_alphanumeric to_uppercase dialect

  IsSound-same :
      (now : ℕ) (pool behind : QueryEnginePool P C)
      → behind.parse_cache ≡ pool.parse_cache
      → IsSoundPool now pool
      → IsSoundPool now behind
  unfolding IsSound
  IsSound-same now pool behind same sound q s found =
      sound q s (sym (ap (parse_laws.find q) same) ∙ found)

  -- Where the cache of parsed queries holds what the queries were parsed to up to now, a query
  -- without changes that is parsed to the same at all times, that has no fresh result and comes to a
  -- value, is answered with it, and asked again before the result expires it is given the same value,
  -- without a call of the data base and whatever the functions of its script would come to then.
  pub pool_execute_again :
      (query : Text) (now later now' later' : ℕ) (spec : QuerySpec) (pool : QueryEnginePool P C)
      (w w' w'' : W) (v : Json N)
      → IsSound parsed parse_laws results engine is_alphanumeric to_uppercase dialect now pool
      → IsStable parsed parse_laws results engine is_alphanumeric to_uppercase dialect query
      → parse_query (engine now) is_alphanumeric to_uppercase dialect query ≡ done spec
      → spec.changes ≡ none
      → fresh now (laws.find query pool.result_cache) ≡ none
      → run_spec (engine now) is_alphanumeric to_uppercase dialect list spec w ≡ (done v, w')
      → now ≤ now'
      → now' < later + pool.result_cache_ttl
      → let first =
          pool_execute parsed results
            (engine now)
            is_alphanumeric
            to_uppercase
            dialect
            list
            query
            now
            later
            pool
            w in
        let second =
          pool_execute parsed results
            (engine now')
            is_alphanumeric
            to_uppercase
            dialect
            list
            query
            now'
            later'
            first.1.0
            w'' in
        (first.0 ≡ done v) × (second.0 ≡ done v) × (second.1.1 ≡ w'')
  pool_execute_again query now later now' later' spec pool w w' w'' v sound stable is kept miss run
        after soon =
      let stably =
        pool_parse_query-stable parsed parse_laws results engine is_alphanumeric to_uppercase
          dialect in
      let sound1 =
        (pool_parse_query_lem parsed parse_laws results engine is_alphanumeric to_uppercase dialect
          now query pool sound).1 in
      let (one, found, same) =
        first_call parsed parse_laws results laws (engine now) is_alphanumeric to_uppercase dialect
          list query now later spec pool w w' v (stably now query pool stable sound ∙ is) kept miss
          run in
      let q =
        (pool_execute parsed results (engine now) is_alphanumeric to_uppercase dialect list query
          now later pool w).1.0 in
      let sound2 =
        IsSound-later parsed parse_laws results engine is_alphanumeric to_uppercase dialect now now'
          q after (IsSound-same now _ q same sound1) in
      let (again, still) =
        kept_call parsed parse_laws results laws (engine now') is_alphanumeric to_uppercase dialect
          list query now' later' (later + pool.result_cache_ttl) spec q w'' v
          (stably now' query q stable sound2 ∙ stable now' now ∙ is) kept found soon in
      (one, again, still)
