-- ===== src/Cache/Commands/Channels.antt =====
-- crates/sqrld/src/cache/commands.rs: SUBSCRIBE and its kin, over the subscriptions of
-- crates/sqrld/src/cache/events.rs.
use squirreldb.Base.{ℕ, Text, lit, as_i64, pos, List, [], ◌∷◌}
use squirreldb.Cache.Resp.{RespValue, integer, bulk, null_bulk}
use squirreldb.Cache.Subscriptions.{
  Uuid, CacheSubscriptionManager, subscribe, psubscribe, unsubscribe, punsubscribe, remove_client,
}
use squirreldb.Cache.Commands.Replies.{array_of, wrong_number}

-- One result by itself, or the array of the results.
abbrev pub one_or_all : List RespValue → RespValue
one_or_all (r ∷ []) = r
one_or_all rs = array_of rs

module _ {N : Type 0} where
  -- The loop over channels or patterns, by the operation on each; the results are the arrays of the
  -- command's name, the channel, and the number of channels.
  unfoldable pub each_channel :
      Text
      → (Text → CacheSubscriptionManager N → ℕ × CacheSubscriptionManager N)
      → List Text
      → CacheSubscriptionManager N
      → List RespValue × CacheSubscriptionManager N
  each_channel name op [] m = ([], m)
  each_channel name op (channel ∷ channels) m =
      let (count, m') = op channel m in
      let (rest, m'') = each_channel name op channels m' in
      (array_of (bulk name ∷ bulk channel ∷ integer (as_i64 count) ∷ []) ∷ rest, m'')

  -- `cmd_subscribe` and `cmd_psubscribe`.
  unfoldable pub subscribe_to :
      Text
      → (Text → CacheSubscriptionManager N → ℕ × CacheSubscriptionManager N)
      → List Text
      → CacheSubscriptionManager N
      → RespValue × CacheSubscriptionManager N
  unfolding each_channel
  subscribe_to name op [] m = (wrong_number name, m)
  subscribe_to name op (channel ∷ channels) m =
      let (results, m') = each_channel name op (channel ∷ channels) m in (one_or_all results, m')

  -- `cmd_unsubscribe` and `cmd_punsubscribe`; without arguments they end all subscriptions.
  unfoldable pub unsubscribe_from :
      Text
      → (Text → CacheSubscriptionManager N → ℕ × CacheSubscriptionManager N)
      → Uuid
      → List Text
      → CacheSubscriptionManager N
      → RespValue × CacheSubscriptionManager N
  unfolding each_channel
  unsubscribe_from name op id [] m =
      (array_of (bulk name ∷ null_bulk ∷ integer (pos 0) ∷ []), remove_client id m)
  unsubscribe_from name op id (channel ∷ channels) m =
      let (results, m') = each_channel name op (channel ∷ channels) m in (one_or_all results, m')

  abbrev pub cmd_subscribe :
      Uuid → List Text → CacheSubscriptionManager N → RespValue × CacheSubscriptionManager N
  cmd_subscribe id = subscribe_to (lit "subscribe") (subscribe id)

  abbrev pub cmd_psubscribe :
      Uuid → List Text → CacheSubscriptionManager N → RespValue × CacheSubscriptionManager N
  cmd_psubscribe id = subscribe_to (lit "psubscribe") (psubscribe id)

  abbrev pub cmd_unsubscribe :
      Uuid → List Text → CacheSubscriptionManager N → RespValue × CacheSubscriptionManager N
  cmd_unsubscribe id = unsubscribe_from (lit "unsubscribe") (unsubscribe id) id

  abbrev pub cmd_punsubscribe :
      Uuid → List Text → CacheSubscriptionManager N → RespValue × CacheSubscriptionManager N
  cmd_punsubscribe id = unsubscribe_from (lit "punsubscribe") (punsubscribe id) id
