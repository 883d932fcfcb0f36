-- ===== src/Cache/Commands/Info.antt =====
-- crates/sqrld/src/cache/commands.rs: INFO, with `format_memory_size` of
-- crates/sqrld/src/cache/config.rs.
use squirreldb.Base.{
  ℕ, Text, lit, text_eq, leb, show_nat, Bool, true, Option, none, some, List, [], ◌∷◌, ◌++◌,
  if◌then◌else◌,
}
use squirreldb.Cache.Entry.{Clock, Outcome, returned}
use squirreldb.Cache.Externals.{Externals}
use squirreldb.Cache.Resp.{RespValue, bulk}
use squirreldb.Cache.Store.{InMemoryCacheStore, CacheStats}
use squirreldb.Cache.Operations.{info}

abbrev pub kb : ℕ
kb = 1024

abbrev pub mb : ℕ
mb = 1048576

abbrev pub gb : ℕ
gb = 1073741824

-- A line of INFO: a name, a number's text, and the end of the line.
abbrev pub info_line : Text → Text → Text
info_line name text = name ++ text ++ lit "\r\n"

abbrev pub is_wanted : Option Text → Text → Bool
is_wanted none name = true
is_wanted (some section) name = text_eq section name

abbrev pub section_text : Option Text → Text → Text → Text
section_text wanted name text = if is_wanted wanted name then text else []

-- `args.first().map(|s| s.to_lowercase())`
abbrev pub first_by : (Text → Text) → List Text → Option Text
first_by f [] = none
first_by f (arg ∷ args) = some (f arg)

module _ {N : Type 0} (x : Externals N) where
  unfoldable pub format_memory_size : ℕ → Text
  format_memory_size bytes =
      if leb gb bytes
      then x.one_decimal bytes gb ++ lit "GB"
      else if leb mb bytes
      then x.one_decimal bytes mb ++ lit "MB"
      else if leb kb bytes
      then x.one_decimal bytes kb ++ lit "KB"
      else show_nat bytes ++ lit "B"

  -- The text that INFO makes of the statistics.
  unfoldable pub info_text : Option Text → CacheStats → Text
  unfolding format_memory_size
  info_text section stats =
      section_text section (lit "server")
        (lit "# Server\r\nredis_version:7.0.0-squirreldb\r\ntcp_port:6379\r\n\r\n")
      ++ section_text section (lit "memory") (
          lit "# Memory\r\n"
          ++ info_line (lit "used_memory:") (show_nat stats.memory_used)
          ++ info_line (lit "used_memory_human:") (format_memory_size stats.memory_used)
          ++ info_line (lit "maxmemory:") (show_nat stats.memory_limit)
          ++ info_line (lit "maxmemory_human:") (format_memory_size stats.memory_limit)
          ++ lit "\r\n")
      ++ section_text section (lit "stats") (
          lit "# Stats\r\n"
          ++ info_line (lit "keyspace_hits:") (show_nat stats.hits)
          ++ info_line (lit "keyspace_misses:") (show_nat stats.misses)
          ++ info_line (lit "evicted_keys:") (show_nat stats.evictions)
          ++ info_line (lit "expired_keys:") (show_nat stats.expired)
          ++ lit "\r\n")
      ++ section_text section (lit "keyspace")
          (lit "# Keyspace\r\ndb0:keys=" ++ show_nat stats.keys ++ lit ",expires=0\r\n")

  unfoldable pub cmd_info :
      Clock → List Text → InMemoryCacheStore N → Outcome RespValue × InMemoryCacheStore N
  unfolding info_text
  cmd_info c args s = (returned (bulk (info_text (first_by x.to_lowercase args) (info c s))), s)
