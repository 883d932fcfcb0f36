-- ===== src/Lib.antt =====
-- SquirrelDB: the cache of crates/sqrld/src/cache, which speaks the protocol of Redis, the
-- compilers of queries to SQL and the query engine of crates/sqrld/src/query, the rate limiter of the
-- servers, the subscriptions to changes, the handler of messages, and the object storage of
-- crates/sqrld/src/storage, which speaks the protocol of S3.
--
-- A connection feeds the bytes that it receives to a parser of RESP (cache/resp.rs); the values that
-- come out are commands, which run on the in-memory store (cache/store.rs) over entries with a time
-- to live (cache/entry.rs). The store counts the bytes that it holds, evicts entries when a limit is
-- passed, and sends a change event (cache/events.rs) for what it does. The handlers of the commands
-- (cache/commands.rs) run operations of the store, and keep the subscriptions of clients to keys.
--
-- A client of the database sends a query, either as structured filters (crates/types/src/filter.rs) or
-- as a predicate in JavaScript. query/structured.rs compiles the first to a WHERE clause, and
-- query/compiler.rs the second when it knows its form; what stands in the clause of the client's text
-- has passed the checks of db/sanitize.rs, and fields are addressed as SqlDialect of db/backend.rs says.
-- The servers ask the rate limiter (server/rate_limiter.rs) before they take a connection, a request or
-- a query. Clients that subscribed to a table are told of its changes (subscriptions/manager.rs).
-- A message of a client (crates/types/src/protocol.rs) is answered by server/handler.rs: queries go to
-- the pool of query/engine.rs, which keeps parsed queries and results, writes go to the data base and
-- make the pool forget the results of the table, and subscriptions go to the manager.
--
-- A request to the object storage is answered by a handler of storage/routes. It checks the key
-- (security/mod.rs) or the bucket's name, keeps the records of buckets, objects and uploads in the data
-- base and the bytes in files (storage/filesystem.rs), and answers with a document of storage/xml.rs or
-- an error of storage/error.rs.
--
-- Files and sources:
--   Base, Base/*                   numbers, texts, UTF-8, maps and lists as Rust has them
--   Cache/Json, Cache/Entry        crates/sqrld/src/cache/entry.rs
--   Cache/Changes                  the change events of crates/sqrld/src/cache/events.rs
--   Cache/Subscriptions, .../*     the rest of crates/sqrld/src/cache/events.rs
--   Cache/Store, Cache/Store/*     crates/sqrld/src/cache/store.rs: state, expiry and eviction
--   Cache/Operations, .../*        crates/sqrld/src/cache/store.rs: the trait CacheStore and incr
--   Cache/Operations/Listing       crates/sqrld/src/cache/store.rs: keys, snapshots, glob_to_regex
--   Cache/Commands, .../*          crates/sqrld/src/cache/commands.rs; extract_command of resp.rs and
--                                  format_memory_size of crates/sqrld/src/cache/config.rs
--   Cache/Config, Cache/Config/*   crates/sqrld/src/cache/config.rs: sizes of memory; names of the
--                                  eviction policies of crates/sqrld/src/cache/store.rs
--   Cache/Externals                what the cache calls of crates and of the standard library
--   Cache/Resp, Cache/Resp/*       crates/sqrld/src/cache/resp.rs, crates/client/src/resp.rs
--   Sql/Sanitize                   crates/sqrld/src/db/sanitize.rs
--   Sql/Dialect                    SqlDialect of crates/sqrld/src/db/backend.rs
--   Sql/Filter                     crates/types/src/filter.rs, crates/types/src/query.rs
--   Sql/Structured, .../Safety     crates/sqrld/src/query/structured.rs
--   Sql/Compiler, Sql/Compiler/*   crates/sqrld/src/query/compiler.rs
--   Sql/Scan, Sql/Safety           what a safe SQL text is, and the pieces that are safe
--   Sql/Literals, Sql/Agreement    how literals are read; the two compilers compared
--   Sql/Fields, Sql/Names          what the checks of names are good for
--   Server/RateLimiter, .../*      crates/sqrld/src/server/rate_limiter.rs, with LimitsSection of config.rs
--   Server/Messages                crates/types/src/protocol.rs, the roles of crates/types/src/project.rs
--   Server/Handler, .../*          crates/sqrld/src/server/handler.rs
--   Query/Engine, Query/Pool       crates/sqrld/src/query/engine.rs: QueryEngine and QueryEnginePool
--   Query/Transparent, Fresh, Again what the two caches of the pool change and what they do not
--   Security, Security/*           crates/sqrld/src/security/mod.rs
--   Storage/Codes, Storage/Error   crates/sqrld/src/storage/error.rs
--   Storage/Types                  crates/sqrld/src/storage/types.rs
--   Storage/Xml, Storage/Xml/*     crates/sqrld/src/storage/xml.rs, and a reader of its documents
--   Storage/Services               the traits of crates/sqrld/src/storage/backend.rs and db/backend.rs
--   Storage/Routes, .../*          crates/sqrld/src/storage/routes: bucket.rs, object.rs, multipart.rs
--   Storage/Names                  the check of bucket names in routes/bucket.rs
--   Storage/Filesystem, .../*      crates/sqrld/src/storage/filesystem.rs
--   Storage/Actions, .../Responses what a handler comes to, and HTTP responses
--   Subscriptions, .../*           crates/sqrld/src/subscriptions/manager.rs, with Change, ChangeEvent and
--                                  Document of crates/types/src
-- A definition has the name of the function or type that it models. Parts of a long function have
-- names of their own, and comments say where they stand. Files under a component hold its proofs;
-- files called Tests hold runs at concrete inputs.
--
-- Conventions. Numbers of type usize and u64 have 64 bits and wrap around, as the release profile
-- compiles them; i64 likewise. Lengths of memory regions are below 2 ^ 63 bytes, and the brackets of
-- a predicate nest less than 2 ^ 31 deep. Strings are lists of
-- Unicode scalar values, and the length of a string is that of its UTF-8 form; the positions at which
-- the query compiler cuts a text are counted in characters, since they stand beside ASCII ones. A
-- HashMap is the list of its entries in the order in which it is iterated or, in Server and
-- Subscriptions, the function that looks a key up. Instants and durations are nanoseconds. An
-- operation of the store is one step: its locks are held throughout, it reads the clocks once, and
-- the events that it sends are appended to a list. A command is one step in the same sense: the clocks
-- are read once for all the operations that it runs, and no other client comes between them. Panics
-- are results of their own. An operation of the rate limiter or of the subscription manager is one step
-- too; only a query permit is taken in the steps that other tasks can come between. A message of a
-- client, a call of the query pool and a request to the object storage are steps as well. A handler of
-- the object storage is an action (Storage/Actions): a function of the world, which the data base and
-- the files change, to a value, an error or a panic and the world behind it; what was done before an
-- error stays done. Files are read and written whole, and a seek beyond the range of i64 counts as the
-- end of the file.
--
-- Fuel. The eviction loop has one round for each entry of the store: a round that does not end the
-- loop removes an entry (Cache/Store/Room). The parser has one level of recursion for each byte of
-- the buffer and one more: a nested value lies behind the byte of its array (Cache/Resp/Fuel).
-- The compiler of expressions has one level for each character of the text and one more: what it
-- recurs on is shorter, so that what it would come to without fuel, an argument, plays no part
-- (Sql/Compiler/Termination).
--
-- Parameters. The type of JSON numbers and the functions of serde_json (SerdeJson); the random choice
-- of a victim, of which SliceRandom::choose documents that it is an element (IsChoice); the size in
-- memory of a RESP value, which the compiler chooses; case conversion of Unicode text, the crate
-- regex, and the printing of floating point numbers (Externals); for SQL, to_uppercase and
-- is_alphanumeric, which read the tables of Unicode, and to_string of a JSON number; for the token
-- buckets, f64 (Floats); for subscriptions, what the JavaScript engine answers (Engine); for queries,
-- the JavaScript engine at one moment and to_value of serde_json (Engines; in the theorems on the
-- caches the engine is a function of the time, since scripts may read the clock or draw numbers), the crate lru (LruCache, with what the pool relies on in LruCacheLaws), and the
-- data base (Backend, Documents); for the storage, times, identifiers, URL decoding and the syntax of
-- headers (Platform, with IsPlainPlatform for texts without markup), the calls of the file system
-- (Files, FilesLaws), the digests (Digests), the captures of a regular expression, and the data base
-- (DatabaseBackend, with IsFaithful for what a round trip relies on). What SQL texts
-- mean to a data base is described only as far as string literals and statement ends go (Sql/Scan).
--
-- Not modelled: sockets, files and timers around the cache (cache/server.rs, cache/snapshot.rs,
-- cache/proxy), the defaults of its configuration (cache/config.rs), and the rest of the program: the
-- SQL back ends, which hand SQL texts to drivers, the JavaScript engine itself, the sockets of the
-- servers, of the object storage the signatures, the proxy to remote services and the start of the
-- server, the layer that adds security headers, backups, and the admin interface.
pub mod Base
pub mod Cache
pub mod Sql
pub mod Storage
pub mod Query
pub mod Security
pub mod Server
pub mod Subscriptions
