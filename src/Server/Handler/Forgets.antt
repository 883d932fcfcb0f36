-- ===== src/Server/Handler/Forgets.antt =====
-- Behind a write, a query of the collection is answered by the data base.
use mathlib.Core.Path.{subst}
use squirreldb.Base.{ℕ, Text, Bool, true, ◌≡◌, sym, Option, none, some}
use squirreldb.Base.Results.{Result, ok}
use squirreldb.Cache.Json.{Json}
use squirreldb.Sql.Dialect.{SqlDialect}
use squirreldb.Sql.Filter.{QuerySpec}
use squirreldb.Subscriptions.{Uuid, Document}
use squirreldb.Query.Externals.{Engines, LruCache, LruCacheLaws}
use squirreldb.Query.Pool.{CachedResult, references}
use squirreldb.Query.Cached.{invalidate_table_lem}
use squirreldb.Server.Messages.{ClientMessage}
use squirreldb.Server.Messages
use squirreldb.Server.Handler.{Documents, State, handle, inserted, changed}

module _ {P C N W Projects : Type 0} (parsed : LruCache P QuerySpec)
    (results : LruCache C (CachedResult N)) (laws : LruCacheLaws results) (e : Engines N)
    (is_alphanumeric : ℕ → Bool) (to_uppercase : Text → Text) (dialect : SqlDialect)
    (db : Documents N W Projects) where
  -- No result is kept for this query.
  abbrev pub Forgets : Text → State P C N W → Type 0
  Forgets key st = laws.find key st.pool.result_cache ≡ none

  abbrev pub after : Uuid → ClientMessage N → ℕ → ℕ → State P C N W → State P C N W
  after client_id msg now later st =
      (handle parsed results e is_alphanumeric to_uppercase dialect db client_id msg now later st).1

  -- When the data base has inserted, updated or deleted a document for a client, the pool holds no
  -- result of a query that names the collection in quotes.
  pub handle-Forgets :
      (client_id document_id : Uuid) (id collection key : Text) (content : Json N)
      (doc : Document N) (now later : ℕ) (st : State P C N W) (w : W)
      → references collection key ≡ true
      → (db.insert 0 collection content st.world ≡ (ok doc, w)
          → Forgets key (after client_id (Messages.insert id collection content) now later st))
        × (db.update 0 collection document_id content st.world ≡ (ok (some doc), w)
            → Forgets key
                (after client_id (Messages.update id collection document_id content) now later st))
        × (db.delete 0 collection document_id st.world ≡ (ok (some doc), w)
            → Forgets key
                (after client_id (Messages.delete id collection document_id) now later st))
  unfolding handle
  handle-Forgets client_id document_id id collection key content doc now later st w named =
      let gone = (invalidate_table_lem results laws collection key st.pool).0 named in
      let behind_insert = λ (r : Result Text (Document N) × W).
        Forgets key
          (inserted parsed results e is_alphanumeric to_uppercase dialect db id collection st
            r).1 in
      let behind_change = λ (r : Result Text (Option (Document N)) × W).
        Forgets key
          (changed parsed results e is_alphanumeric to_uppercase dialect db id collection
            document_id st r).1 in
      (
        (λ h. subst behind_insert (sym h) gone),
        (λ h. subst behind_change (sym h) gone),
        (λ h. subst behind_change (sym h) gone),
      )
