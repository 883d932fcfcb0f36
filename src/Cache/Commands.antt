-- ===== src/Cache/Commands.antt =====
-- crates/sqrld/src/cache/commands.rs: the dispatch of commands to their handlers, and
-- `extract_command` of crates/sqrld/src/cache/resp.rs.
pub mod Replies
pub mod Strings
pub mod Keys
pub mod Info
pub mod Channels
pub mod Keeps
pub mod Behaviour
pub mod Tests
use mathlib.Core.Option
use squirreldb.Base.{
  Text, lit, text_eq, pos, Bool, ◌||◌, false, Option, none, some, List, [], ◌∷◌, ◌++◌,
  if◌then◌else◌,
}
use squirreldb.Cache.Entry.{Clock, Outcome, returned}
use squirreldb.Cache.Externals.{Externals}
use squirreldb.Cache.Resp.{
  RespValue, RespItems, simple_string, error, integer, bulk_string, bulk, null_bulk, array, nil,
  cons,
}
use squirreldb.Cache.Store.{InMemoryCacheStore}
use squirreldb.Cache.Subscriptions.{Uuid, CacheSubscriptionManager}
use squirreldb.Cache.Commands.Replies.{ok_reply, pong, array_of, wrong_number}
use squirreldb.Cache.Commands.Strings.{cmd_set, cmd_get, cmd_getex, cmd_mget, cmd_mset}
use squirreldb.Cache.Commands.Keys.{
  cmd_del, cmd_exists, cmd_expire, cmd_pexpire, cmd_ttl, cmd_pttl, cmd_persist, cmd_incr, cmd_decr,
  cmd_incrby, cmd_decrby, cmd_keys, cmd_scan, cmd_dbsize, cmd_flushdb,
}
use squirreldb.Cache.Commands.Info.{cmd_info, first_by}
use squirreldb.Cache.Commands.Channels.{
  cmd_subscribe, cmd_psubscribe, cmd_unsubscribe, cmd_punsubscribe,
}

-- `RespValue::as_str`
abbrev pub as_str : RespValue → Option Text
as_str (simple_string s) = some s
as_str (bulk_string (some s)) = some s
as_str _ = none

-- `filter_map(|v| v.as_str())`
abbrev pub strings : RespItems → List Text
strings nil = []
strings (cons v vs) = elim (as_str v) [ some s ↦ s ∷ strings vs | none ↦ strings vs ]

unfoldable pub extract_command : (Text → Text) → RespValue → Option (Text × List Text)
extract_command to_uppercase (array (cons v vs)) =
    Option.map (λ name. (to_uppercase name, strings vs)) (as_str v)
extract_command to_uppercase _ = none

pub record CommandContext (N : Type 0) : Type 0 where
  pub store : InMemoryCacheStore N
  pub subscriptions : CacheSubscriptionManager N
  pub client_id : Uuid

abbrev pub cmd_ping : List Text → RespValue
cmd_ping [] = pong
cmd_ping (arg ∷ args) = bulk arg

abbrev pub cmd_echo : List Text → RespValue
cmd_echo [] = wrong_number (lit "echo")
cmd_echo (arg ∷ args) = bulk arg

abbrev pub cmd_select : List Text → RespValue
cmd_select args = ok_reply

abbrev pub cmd_command : RespValue
cmd_command = array_of []

abbrev pub is_sub : Option Text → Text → Bool
is_sub none name = false
is_sub (some sub) name = text_eq sub name

module _ {N : Type 0} (x : Externals N) where
  unfoldable pub cmd_client : List Text → RespValue
  cmd_client args =
      let sub = first_by x.to_uppercase args in
      if is_sub sub (lit "SETNAME")
      then ok_reply
      else if is_sub sub (lit "GETNAME")
      then null_bulk
      else if is_sub sub (lit "LIST")
      then bulk []
      else if is_sub sub (lit "ID")
      then integer (pos 1)
      else ok_reply

  unfoldable pub cmd_config : List Text → RespValue
  cmd_config args =
      if is_sub (first_by x.to_uppercase args) (lit "GET") then array_of [] else ok_reply

  -- A handler that looks at neither part of the context, at the store, at the subscriptions.
  abbrev pub plain : CommandContext N → RespValue → Outcome RespValue × CommandContext N
  plain ctx r = (returned r, ctx)

  abbrev pub on_store :
      CommandContext N
      → Outcome RespValue × InMemoryCacheStore N
      → Outcome RespValue × CommandContext N
  on_store ctx (r, s) = (r, record ctx { store = s })

  abbrev pub on_channels :
      CommandContext N
      → RespValue × CacheSubscriptionManager N
      → Outcome RespValue × CommandContext N
  on_channels ctx (r, m) = (returned r, record ctx { subscriptions = m })

  unfoldable pub execute_command :
      Clock → CommandContext N → Text → List Text → Outcome RespValue × CommandContext N
  unfolding cmd_client cmd_config
  execute_command c ctx cmd args =
      if text_eq cmd (lit "PING")
      then plain ctx (cmd_ping args)
      else if text_eq cmd (lit "ECHO")
      then plain ctx (cmd_echo args)
      else if text_eq cmd (lit "SET")
      then on_store ctx (cmd_set x c args ctx.store)
      else if text_eq cmd (lit "GET")
      then on_store ctx (cmd_get x c args ctx.store)
      else if text_eq cmd (lit "GETEX")
      then on_store ctx (cmd_getex x c args ctx.store)
      else if text_eq cmd (lit "DEL")
      then on_store ctx (cmd_del c args ctx.store)
      else if text_eq cmd (lit "EXISTS")
      then on_store ctx (cmd_exists c args ctx.store)
      else if text_eq cmd (lit "EXPIRE")
      then on_store ctx (cmd_expire c args ctx.store)
      else if text_eq cmd (lit "PEXPIRE")
      then on_store ctx (cmd_pexpire c args ctx.store)
      else if text_eq cmd (lit "TTL")
      then on_store ctx (cmd_ttl c args ctx.store)
      else if text_eq cmd (lit "PTTL")
      then on_store ctx (cmd_pttl c args ctx.store)
      else if text_eq cmd (lit "PERSIST")
      then on_store ctx (cmd_persist c args ctx.store)
      else if text_eq cmd (lit "INCR")
      then on_store ctx (cmd_incr c args ctx.store)
      else if text_eq cmd (lit "DECR")
      then on_store ctx (cmd_decr c args ctx.store)
      else if text_eq cmd (lit "INCRBY")
      then on_store ctx (cmd_incrby c args ctx.store)
      else if text_eq cmd (lit "DECRBY")
      then on_store ctx (cmd_decrby c args ctx.store)
      else if text_eq cmd (lit "MGET")
      then on_store ctx (cmd_mget x c args ctx.store)
      else if text_eq cmd (lit "MSET")
      then on_store ctx (cmd_mset x c args ctx.store)
      else if text_eq cmd (lit "KEYS")
      then on_store ctx (cmd_keys x c args ctx.store)
      else if text_eq cmd (lit "SCAN")
      then on_store ctx (cmd_scan x c args ctx.store)
      else if text_eq cmd (lit "DBSIZE")
      then on_store ctx (cmd_dbsize c ctx.store)
      else if text_eq cmd (lit "FLUSHDB") || text_eq cmd (lit "FLUSHALL")
      then on_store ctx (cmd_flushdb c ctx.store)
      else if text_eq cmd (lit "INFO")
      then on_store ctx (cmd_info x c args ctx.store)
      else if text_eq cmd (lit "SELECT")
      then plain ctx (cmd_select args)
      else if text_eq cmd (lit "SUBSCRIBE")
      then on_channels ctx (cmd_subscribe ctx.client_id args ctx.subscriptions)
      else if text_eq cmd (lit "PSUBSCRIBE")
      then on_channels ctx (cmd_psubscribe ctx.client_id args ctx.subscriptions)
      else if text_eq cmd (lit "UNSUBSCRIBE")
      then on_channels ctx (cmd_unsubscribe ctx.client_id args ctx.subscriptions)
      else if text_eq cmd (lit "PUNSUBSCRIBE")
      then on_channels ctx (cmd_punsubscribe ctx.client_id args ctx.subscriptions)
      else if text_eq cmd (lit "CLIENT")
      then plain ctx (cmd_client args)
      else if text_eq cmd (lit "CONFIG")
      then plain ctx (cmd_config args)
      else if text_eq cmd (lit "COMMAND")
      then plain ctx cmd_command
      else if text_eq cmd (lit "QUIT")
      then plain ctx ok_reply
      else plain ctx (error (lit "ERR unknown command '" ++ (cmd ++ lit "'")))
