-- ===== src/Query/Transparent.antt =====
-- The cache of parsed queries changes no answer.
use squirreldb.Base.{
  ℕ, ◌≤◌, Text, text_eq, text_eq_iff, Bool, some, ◌≡◌, ◌≢◌, refl, sym, ◌∙◌, Bool-cases,
  Option-cases, inl, inr, arith,
}
use mathlib.Core.Path.{subst}
use squirreldb.Sql.Dialect.{SqlDialect}
use squirreldb.Sql.Filter.{QuerySpec}
use squirreldb.Query.Externals.{Engines, LruCache, LruCacheLaws}
use squirreldb.Query.Engine.{Answer, panic, fail, done, parse_query}
use squirreldb.Query.Pool.{QueryEnginePool, CachedResult, get, keep_spec, pool_parse_query}

module _ {P C N : Type 0} (parsed : LruCache P QuerySpec) (laws : LruCacheLaws parsed)
    (results : LruCache C (CachedResult N)) (engine : ℕ → Engines N) (is_alphanumeric : ℕ → Bool)
    (to_uppercase : Text → Text) (dialect : SqlDialect) where
  -- What the scripts come to may depend on the time: `engine now` is the JavaScript engine then.
  abbrev parse : ℕ → Text → Answer QuerySpec
  parse now = parse_query (engine now) is_alphanumeric to_uppercase dialect

  -- Every specification in the cache is what its query was parsed to at some time up to now.
  unfoldable pub IsSound : ℕ → QueryEnginePool P C → Type 0
  IsSound now pool =
      (query : Text) (spec : QuerySpec)
      → laws.find query pool.parse_cache ≡ some spec
      → (t : ℕ) × (t ≤ now) × (parse t query ≡ done spec)

  -- A query whose script is parsed to the same at all times.
  abbrev pub IsStable : Text → Type 0
  IsStable query = (t t' : ℕ) → parse t query ≡ parse t' query

  pub IsSound-later :
      (now now' : ℕ) (pool : QueryEnginePool P C)
      → now ≤ now'
      → IsSound now pool
      → IsSound now' pool
  unfolding IsSound
  IsSound-later now now' pool le sound q s found =
      let (t, early, is) = sound q s found in (t, omega (arith, early, le), is)

  put-IsSound :
      (now : ℕ) (query : Text) (spec : QuerySpec) (p : P)
      → parse now query ≡ done spec
      → ((q : Text) (s : QuerySpec)
          → laws.find q p ≡ some s
          → (t : ℕ) × (t ≤ now) × (parse t q ≡ done s))
      → (q : Text) (s : QuerySpec) → laws.find q (parsed.put query spec p) ≡ some s
      → (t : ℕ) × (t ≤ now) × (parse t q ≡ done s)
  put-IsSound now query spec p is sound q s found = elim (Bool-cases (text_eq query q)) [
    | inl same ↦
        let eq : query ≡ q = (text_eq_iff query q).0 same in
        let here : laws.find query (parsed.put query spec p) ≡ some s =
          subst (λ r. laws.find r (parsed.put query spec p) ≡ some s) (sym eq) found in
        let own : laws.find query (parsed.put query spec p) ≡ some spec =
          laws.find-put_self query spec p in
        let at_query : parse now query ≡ done s = cc in
        (now, omega arith, subst (λ r. parse now r ≡ done s) eq at_query)
    | inr other ↦
        let ne : q ≢ query = λ k. ground (arith, text_eq_iff query q) in
        elim (laws.find-put_ne q query spec p ne) [
          | inl kept ↦ sound q s (sym kept ∙ found)
          | inr gone ↦ absurd (ground arith)
        ]
  ]

  get-IsSound :
      (now : ℕ) (query : Text) (pool : QueryEnginePool P C)
      → IsSound now pool
      → IsSound now (record pool { parse_cache = (parsed.get query pool.parse_cache).1 })
  unfolding IsSound
  get-IsSound now query pool sound q s found =
      sound q s (sym (laws.find-get q query pool.parse_cache) ∙ found)

  keep_spec-IsSound :
      (now : ℕ) (query : Text) (a : Answer QuerySpec) (pool : QueryEnginePool P C)
      → parse now query ≡ a
      → IsSound now pool
      → ((keep_spec parsed results (engine now) is_alphanumeric to_uppercase dialect query a pool).0
          ≡ a)
        × IsSound now
            (keep_spec parsed results
              (engine now)
              is_alphanumeric
              to_uppercase
              dialect
              query
              a
              pool).1
  unfolding IsSound
  keep_spec-IsSound now query panic pool is sound = (refl, sound)
  keep_spec-IsSound now query (fail t) pool is sound = (refl, sound)
  keep_spec-IsSound now query (done spec) pool is sound =
      (refl, put-IsSound now query spec pool.parse_cache is sound)

  found-parse :
      (now : ℕ) (query : Text) (pool : QueryEnginePool P C) (spec : QuerySpec)
      → IsSound now pool
      → (parsed.get query pool.parse_cache).0 ≡ some spec
      → (t : ℕ) × (t ≤ now) × (done spec ≡ parse t query)
  unfolding IsSound
  found-parse now query pool spec sound found =
      let (t, early, is) = sound query spec (sym (laws.get-find query pool.parse_cache) ∙ found) in
      (t, early, sym is)

  -- Where every specification in the cache is what its query was parsed to at some time up to now,
  -- parsing through the cache gives what the query was parsed to at some time up to now, and every
  -- specification that the cache then holds is again of that kind. What a script comes to may depend
  -- on the time.
  pub pool_parse_query_lem :
      (now : ℕ) (query : Text) (pool : QueryEnginePool P C)
      → IsSound now pool
      → ((t : ℕ) × (t ≤ now)
          × ((pool_parse_query parsed results
                (engine now)
                is_alphanumeric
                to_uppercase
                dialect
                query
                pool).0
              ≡ parse_query (engine t) is_alphanumeric to_uppercase dialect query))
        × IsSound now
            (pool_parse_query parsed results
              (engine now)
              is_alphanumeric
              to_uppercase
              dialect
              query
              pool).1
  unfolding pool_parse_query get IsSound
  pool_parse_query_lem now query pool sound =
      elim (Option-cases (parsed.get query pool.parse_cache).0) [
        | inl missing ↦
            let kept =
              keep_spec-IsSound now query (parse now query)
                (get (record pool { parse_cache = (parsed.get query pool.parse_cache).1 })).1 refl
                (get-IsSound now query pool sound) in
            rw missing ((now, omega arith, kept.0), kept.1)
        | inr (spec, found) ↦
            rw found (found-parse now query pool spec sound found, get-IsSound now query pool sound)
      ]

  -- A stable query is parsed through the cache to what it is parsed to now.
  pub pool_parse_query-stable :
      (now : ℕ) (query : Text) (pool : QueryEnginePool P C)
      → IsStable query
      → IsSound now pool
      → (pool_parse_query parsed results
          (engine now)
          is_alphanumeric
          to_uppercase
          dialect
          query
          pool).0
        ≡ parse_query (engine now) is_alphanumeric to_uppercase dialect query
  pool_parse_query-stable now query pool stable sound =
      let (t, early, is) = (pool_parse_query_lem now query pool sound).0 in is ∙ stable t now
