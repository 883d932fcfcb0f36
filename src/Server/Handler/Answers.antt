-- ===== src/Server/Handler/Answers.antt =====
-- Every answer carries the identifier of its request.
use squirreldb.Base.{ℕ, Text, Bool, ◌≡◌, refl, Option, none, some}
use squirreldb.Base.Results.{Result, ok, err}
use squirreldb.Cache.Json.{Json}
use squirreldb.Sql.Dialect.{SqlDialect}
use squirreldb.Sql.Filter.{QuerySpec}
use squirreldb.Subscriptions.{Uuid, Document}
use squirreldb.Query.Externals.{Engines, LruCache}
use squirreldb.Query.Engine.{Answer, panic, fail, done}
use squirreldb.Query.Pool.{QueryEnginePool, CachedResult}
use squirreldb.Server.Messages.{ClientMessage, request_id, answer_id}
use squirreldb.Server.Messages
use squirreldb.Server.Handler.{
  Documents, State, Reply, crashed, reply, handle, query_reply, value_reply, inserted, changed,
  subscribed, listed_reply,
}

-- A message with this identifier, unless the task has panicked.
abbrev pub Carries : {N : Type 0} → Text → Reply N → Type 0
Carries id crashed = Unit
Carries id (reply m) = answer_id m ≡ id

module _ {P C N W Projects : Type 0} (parsed : LruCache P QuerySpec)
    (results : LruCache C (CachedResult N)) (e : Engines N) (is_alphanumeric : ℕ → Bool)
    (to_uppercase : Text → Text) (dialect : SqlDialect) (db : Documents N W Projects) where
  query_reply-Carries :
      (id : Text) (a : Answer (Json N))
      → Carries id (query_reply parsed results e is_alphanumeric to_uppercase dialect db id a)
  query_reply-Carries id panic = tt
  query_reply-Carries id (fail t) = refl
  query_reply-Carries id (done v) = refl

  value_reply-Carries :
      (id : Text) (r : Result Text (Json N))
      → Carries id (value_reply parsed results e is_alphanumeric to_uppercase dialect db id r)
  value_reply-Carries id (ok v) = refl
  value_reply-Carries id (err t) = refl

  inserted-Carries :
      (id collection : Text) (st : State P C N W) (r : Result Text (Document N) × W)
      → Carries id
          (inserted parsed results e is_alphanumeric to_uppercase dialect db id collection st r).0
  inserted-Carries id collection st (ok doc, w) = value_reply-Carries id (db.document_to_value doc)
  inserted-Carries id collection st (err t, w) = refl

  changed-Carries :
      (id collection : Text) (document_id : Uuid) (st : State P C N W)
      (r : Result Text (Option (Document N)) × W)
      → Carries id
          (changed parsed results e is_alphanumeric to_uppercase dialect db id collection
            document_id st r).0
  changed-Carries id collection document_id st (ok (some doc), w) =
      value_reply-Carries id (db.document_to_value doc)
  changed-Carries id collection document_id st (ok none, w) = refl
  changed-Carries id collection document_id st (err t, w) = refl

  subscribed-Carries :
      (client_id : Uuid) (id : Text) (st : State P C N W)
      (a : Answer QuerySpec × QueryEnginePool P C)
      → Carries id
          (subscribed parsed results e is_alphanumeric to_uppercase dialect db client_id id st a).0
  subscribed-Carries client_id id st (panic, pool) = tt
  subscribed-Carries client_id id st (fail t, pool) = refl
  subscribed-Carries client_id id st (done spec, pool) = refl

  listed_reply-Carries :
      {A : Type 0} (to_value : A → Result Text (Json N)) (id : Text) (r : Result Text A)
      → Carries id
          (listed_reply parsed results e is_alphanumeric to_uppercase dialect db to_value id r)
  listed_reply-Carries to_value id (ok a) = value_reply-Carries id (to_value a)
  listed_reply-Carries to_value id (err t) = refl

  -- Every message of a client is answered with a message that carries its identifier, whatever the
  -- data base, the scripts and the caches come to, unless the task panics.
  pub handle-Carries :
      (client_id : Uuid) (msg : ClientMessage N) (now later : ℕ) (st : State P C N W)
      → Carries
          (request_id msg)
          (handle parsed results e is_alphanumeric to_uppercase dialect db client_id msg now later
            st).0
  unfolding handle request_id
  handle-Carries client_id (Messages.query id q) now later st = query_reply-Carries id _
  handle-Carries client_id (Messages.subscribe id q) now later st =
      subscribed-Carries client_id id st _
  handle-Carries client_id (Messages.unsubscribe id) now later st = refl
  handle-Carries client_id (Messages.select_project id project_id) now later st = refl
  handle-Carries client_id (Messages.insert id collection content) now later st =
      inserted-Carries id collection st _
  handle-Carries client_id (Messages.update id collection document_id content) now later st =
      changed-Carries id collection document_id st _
  handle-Carries client_id (Messages.delete id collection document_id) now later st =
      changed-Carries id collection document_id st _
  handle-Carries client_id (Messages.list_collections id) now later st =
      listed_reply-Carries db.collections_to_value id _
  handle-Carries client_id (Messages.list_projects id) now later st =
      listed_reply-Carries db.projects_to_value id _
  handle-Carries client_id (Messages.ping id) now later st = refl
