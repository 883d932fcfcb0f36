-- ===== src/Server/Handler.antt =====
-- crates/sqrld/src/server/handler.rs: `MessageHandler`, over the pool of engines, the manager of
-- subscriptions and the world `W` of the data base. A message is handled in one step; the readings of
-- the clock that a query makes are arguments.
pub mod Answers
pub mod Forgets
mod Tests
use squirreldb.Base.{ℕ, Text, lit, ◌++◌, Option, none, some, List, Bool}
use squirreldb.Base.Results.{Result, ok, err}
use squirreldb.Cache.Json.{Json}
use squirreldb.Sql.Dialect.{SqlDialect}
use squirreldb.Sql.Filter.{QuerySpec, StructuredQuery}
use squirreldb.Sql.Structured.{CompileError, compile}
use squirreldb.Subscriptions.{
  Uuid, Document, SubscriptionManager, add_subscription, remove_subscription,
}
use squirreldb.Query.Externals.{Engines, LruCache, Backend}
use squirreldb.Query.Engine.{Answer, panic, fail, done, default_project_id}
use squirreldb.Query.Pool.{
  QueryEnginePool, CachedResult, pool_parse_query, pool_execute, execute_structured, compiled,
  invalidate_table,
}
use squirreldb.Server.Messages.{QueryInput, structured, script, ClientMessage, ServerMessage}
use squirreldb.Server.Messages

-- What the handler calls of the trait `DatabaseBackend`, and `to_value` of serde_json. `Projects` is
-- the type of lists of projects.
pub record Documents (N W Projects : Type 0) : Type 0 where
  pub list : Backend N W
  pub insert : ℕ → Text → Json N → W → Result Text (Document N) × W
  pub update : ℕ → Text → Uuid → Json N → W → Result Text (Option (Document N)) × W
  pub delete : ℕ → Text → Uuid → W → Result Text (Option (Document N)) × W
  pub list_collections : ℕ → W → Result Text (List Text) × W
  pub list_projects : W → Result Text Projects × W
  pub document_to_value : Document N → Result Text (Json N)
  pub collections_to_value : List Text → Result Text (Json N)
  pub projects_to_value : Projects → Result Text (Json N)
  -- Texts of a structured query, of a number, of an error and of an identifier.
  pub query_to_string : StructuredQuery N → Text
  pub number_text : N → Text
  pub show_compile_error : CompileError → Text
  pub uuid_to_string : Uuid → Text

pub record State (P C N W : Type 0) : Type 0 where
  pub pool : QueryEnginePool P C
  pub subs : SubscriptionManager N
  pub world : W

-- What a message is answered with; a panic ends the task of the connection.
pub data Reply (N : Type 0) : Type 0 where
  crashed : Reply N
  reply : ServerMessage N → Reply N

module _ {P C N W Projects : Type 0} (parsed : LruCache P QuerySpec)
    (results : LruCache C (CachedResult N)) (e : Engines N) (is_alphanumeric : ℕ → Bool)
    (to_uppercase : Text → Text) (dialect : SqlDialect) (db : Documents N W Projects) where
  unfoldable pub execute_query :
      QueryInput N → ℕ → ℕ → QueryEnginePool P C → W → Answer (Json N) × (QueryEnginePool P C × W)
  unfolding pool_execute execute_structured
  execute_query (structured q) now later pool w =
      execute_structured parsed results e is_alphanumeric to_uppercase dialect db.list
        db.query_to_string db.number_text db.show_compile_error q now later pool w
  execute_query (script s) now later pool w =
      pool_execute parsed results e is_alphanumeric to_uppercase dialect db.list s now later pool w

  unfoldable pub parse_query :
      QueryInput N → QueryEnginePool P C → Answer QuerySpec × QueryEnginePool P C
  unfolding pool_parse_query compile
  parse_query (structured q) pool = (
    compiled parsed results e is_alphanumeric to_uppercase dialect db.list db.show_compile_error
        (compile to_uppercase db.number_text dialect q),
    pool,
  )
  parse_query (script s) pool =
      pool_parse_query parsed results e is_alphanumeric to_uppercase dialect s pool

  abbrev pub query_reply : Text → Answer (Json N) → Reply N
  query_reply id (done v) = reply (Messages.result id v)
  query_reply id (fail t) = reply (Messages.error id t)
  query_reply id panic = crashed

  -- The answer with a value that is converted to JSON.
  abbrev pub value_reply : Text → Result Text (Json N) → Reply N
  value_reply id (ok v) = reply (Messages.result id v)
  value_reply id (err t) = reply (Messages.error id (lit "Serialization error: " ++ t))

  abbrev pub not_found : Uuid → Text → Text
  not_found document_id collection =
      lit "Document "
      ++ db.uuid_to_string document_id
      ++ lit " not found in collection '"
      ++ collection
      ++ lit "'"

  abbrev pub forget : Text → QueryEnginePool P C → QueryEnginePool P C
  forget collection pool = invalidate_table results collection pool

  -- What follows a write: the cached results of the collection go where it has done something.
  abbrev pub inserted :
      Text → Text → State P C N W → Result Text (Document N) × W → Reply N × State P C N W
  inserted id collection st (ok doc, w) = (
    value_reply id (db.document_to_value doc),
    record st { pool = forget collection st.pool; world = w },
  )
  inserted id collection st (err t, w) = (reply (Messages.error id t), record st { world = w })

  abbrev pub changed :
      Text
      → Text
      → Uuid
      → State P C N W
      → Result Text (Option (Document N)) × W
      → Reply N × State P C N W
  changed id collection document_id st (ok (some doc), w) = (
    value_reply id (db.document_to_value doc),
    record st { pool = forget collection st.pool; world = w },
  )
  changed id collection document_id st (ok none, w) =
      (reply (Messages.error id (not_found document_id collection)), record st { world = w })
  changed id collection document_id st (err t, w) =
      (reply (Messages.error id t), record st { world = w })

  abbrev pub subscribed :
      Uuid → Text → State P C N W → Answer QuerySpec × QueryEnginePool P C → Reply N × State P C N W
  subscribed client_id id st (done spec, pool) = (
    reply (Messages.subscribed id),
    record st { pool = pool; subs = add_subscription client_id id spec st.subs },
  )
  subscribed client_id id st (fail t, pool) =
      (reply (Messages.error id t), record st { pool = pool })
  subscribed client_id id st (panic, pool) = (crashed, record st { pool = pool })

  abbrev pub queried :
      Text → State P C N W → Answer (Json N) × (QueryEnginePool P C × W) → Reply N × State P C N W
  queried id st (a, (pool, w)) = (query_reply id a, record st { pool = pool; world = w })

  abbrev pub listed_reply :
      {A : Type 0} → (A → Result Text (Json N)) → Text → Result Text A → Reply N
  listed_reply to_value id (ok a) = value_reply id (to_value a)
  listed_reply to_value id (err t) = reply (Messages.error id t)

  unfoldable pub handle : Uuid → ClientMessage N → ℕ → ℕ → State P C N W → Reply N × State P C N W
  unfolding execute_query parse_query remove_subscription add_subscription invalidate_table
  handle client_id (Messages.query id q) now later st =
      queried id st (execute_query q now later st.pool st.world)
  handle client_id (Messages.subscribe id q) now later st =
      subscribed client_id id st (parse_query q st.pool)
  handle client_id (Messages.unsubscribe id) now later st = (
    reply (Messages.unsubscribed id),
    record st { subs = remove_subscription client_id id st.subs },
  )
  handle client_id (Messages.select_project id project_id) now later st =
      (reply (Messages.project_selected id project_id), st)
  handle client_id (Messages.insert id collection content) now later st =
      inserted id collection st (db.insert default_project_id collection content st.world)
  handle client_id (Messages.update id collection document_id content) now later st =
      changed id collection document_id st
        (db.update default_project_id collection document_id content st.world)
  handle client_id (Messages.delete id collection document_id) now later st =
      changed id collection document_id st
        (db.delete default_project_id collection document_id st.world)
  handle client_id (Messages.list_collections id) now later st =
      let listed = db.list_collections default_project_id st.world in
      (listed_reply db.collections_to_value id listed.0, record st { world = listed.1 })
  handle client_id (Messages.list_projects id) now later st =
      let listed = db.list_projects st.world in
      (listed_reply db.projects_to_value id listed.0, record st { world = listed.1 })
  handle client_id (Messages.ping id) now later st = (reply (Messages.pong id), st)
