-- ===== src/Cache/Commands/Replies.antt =====
-- crates/sqrld/src/cache/commands.rs: what the handlers share, and the replies of
-- crates/sqrld/src/cache/resp.rs that have names.
use squirreldb.Base.{Text, lit, ℤ, pos, Bool, true, false, List, ◌++◌}
use squirreldb.Cache.Entry.{Outcome, returned, panicked}
use squirreldb.Cache.Resp.{RespValue, simple_string, error, integer, array, items}
use squirreldb.Cache.Store.{InMemoryCacheStore, Result, ok, err, show_error}

abbrev pub ok_reply : RespValue
ok_reply = simple_string (lit "OK")

abbrev pub pong : RespValue
pong = simple_string (lit "PONG")

abbrev pub array_of : List RespValue → RespValue
array_of vs = array (items vs)

abbrev pub wrong_number : Text → RespValue
wrong_number name = error (lit "ERR wrong number of arguments for '" ++ (name ++ lit "' command"))

abbrev pub syntax_error : RespValue
syntax_error = error (lit "ERR syntax error")

abbrev pub unexpected : Text → RespValue
unexpected arg = error (lit "ERR syntax error, unexpected '" ++ (arg ++ lit "'"))

abbrev pub out_of_range : RespValue
out_of_range = error (lit "ERR value is not an integer or out of range")

-- `if result { 1 } else { 0 }`
abbrev pub flag : Bool → RespValue
flag true = integer (pos 1)
flag false = integer (pos 0)

-- What a step over arguments comes to: it goes on, or the handler returns this reply.
pub data Checked {ℓ} (A : Type ℓ) : Type ℓ where
  valid : A → Checked A
  reply : RespValue → Checked A

module _ {N : Type 0} where
  -- `Ok(()) => ok, Err(e) => error`
  abbrev pub stored :
      Outcome (Result (Unit {0})) × InMemoryCacheStore N → Outcome RespValue × InMemoryCacheStore N
  stored (returned (ok u), s) = (returned ok_reply, s)
  stored (returned (err e), s) = (returned (error (show_error e)), s)
  stored (panicked, s) = (panicked, s)

  abbrev pub counted_reply :
      Result ℤ × InMemoryCacheStore N → Outcome RespValue × InMemoryCacheStore N
  counted_reply (ok i, s) = (returned (integer i), s)
  counted_reply (err e, s) = (returned (error (show_error e)), s)

  abbrev pub flagged :
      Outcome Bool × InMemoryCacheStore N → Outcome RespValue × InMemoryCacheStore N
  flagged (returned b, s) = (returned (flag b), s)
  flagged (panicked, s) = (panicked, s)
