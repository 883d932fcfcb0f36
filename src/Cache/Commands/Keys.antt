-- ===== src/Cache/Commands/Keys.antt =====
-- crates/sqrld/src/cache/commands.rs: commands about keys, their times to live and their counters,
-- and about the whole store.
use squirreldb.Base.{
  ℕ, suc, Text, lit, text_eq, parse_u64, parse_i64, ℤ, pos, negsuc, as_i64, neg_i64, mul_i64,
  Option, none, some, List, [], ◌∷◌, map, take, if◌then◌else◌,
}
use squirreldb.Cache.Entry.{Clock, Outcome, returned, from_secs, from_millis}
use squirreldb.Cache.Externals.{Externals}
use squirreldb.Cache.Resp.{RespValue, integer, bulk}
use squirreldb.Cache.Store.{InMemoryCacheStore}
use squirreldb.Cache.Operations.{delete, exists, expire, persist, ttl, flush, dbsize, incr}
use squirreldb.Cache.Operations.Listing.{keys}
use squirreldb.Cache.Commands.Replies.{
  ok_reply, array_of, wrong_number, out_of_range, flag, flagged, counted_reply,
}

-- The whole seconds that TTL gives, in milliseconds.
abbrev pub in_millis : ℤ → ℤ
in_millis (pos n) = mul_i64 n 1000
in_millis (negsuc n) = negsuc n

module _ {N : Type 0} where
  -- The loops of DEL and EXISTS.
  unfoldable pub delete_all : Clock → List Text → InMemoryCacheStore N → ℕ × InMemoryCacheStore N
  delete_all c [] s = (0, s)
  delete_all c (key ∷ ks) s =
      let (was, s') = delete c key s in
      let (n, s'') = delete_all c ks s' in ((if was then suc n else n), s'')

  unfoldable pub count_existing : Clock → List Text → InMemoryCacheStore N → ℕ
  count_existing c [] s = 0
  count_existing c (key ∷ ks) s =
      let n = count_existing c ks s in if exists c key s then suc n else n

  unfoldable pub cmd_del :
      Clock → List Text → InMemoryCacheStore N → Outcome RespValue × InMemoryCacheStore N
  unfolding delete_all
  cmd_del c [] s = (returned (wrong_number (lit "del")), s)
  cmd_del c (key ∷ ks) s =
      let (n, s') = delete_all c (key ∷ ks) s in (returned (integer (as_i64 n)), s')

  unfoldable pub cmd_exists :
      Clock → List Text → InMemoryCacheStore N → Outcome RespValue × InMemoryCacheStore N
  unfolding count_existing
  cmd_exists c [] s = (returned (wrong_number (lit "exists")), s)
  cmd_exists c (key ∷ ks) s = (returned (integer (as_i64 (count_existing c (key ∷ ks) s))), s)

  -- `cmd_expire` and `cmd_pexpire`, by their names and units.
  unfoldable pub expire_in :
      Text
      → (ℕ → ℕ)
      → Clock
      → List Text
      → InMemoryCacheStore N
      → Outcome RespValue × InMemoryCacheStore N
  expire_in name unit c (key ∷ number ∷ args) s = elim (parse_u64 number) [
    | none ↦ (returned out_of_range, s)
    | some n ↦ flagged (expire c key (unit n) s)
  ]
  expire_in name unit c _ s = (returned (wrong_number name), s)

  abbrev pub cmd_expire :
      Clock → List Text → InMemoryCacheStore N → Outcome RespValue × InMemoryCacheStore N
  cmd_expire = expire_in (lit "expire") from_secs

  abbrev pub cmd_pexpire :
      Clock → List Text → InMemoryCacheStore N → Outcome RespValue × InMemoryCacheStore N
  cmd_pexpire = expire_in (lit "pexpire") from_millis

  unfoldable pub cmd_ttl :
      Clock → List Text → InMemoryCacheStore N → Outcome RespValue × InMemoryCacheStore N
  cmd_ttl c [] s = (returned (wrong_number (lit "ttl")), s)
  cmd_ttl c (key ∷ args) s =
      (returned (elim (ttl c key s) [ some t ↦ integer t | none ↦ integer (negsuc 1) ]), s)

  unfoldable pub cmd_pttl :
      Clock → List Text → InMemoryCacheStore N → Outcome RespValue × InMemoryCacheStore N
  cmd_pttl c [] s = (returned (wrong_number (lit "pttl")), s)
  cmd_pttl c (key ∷ args) s = (
    returned (elim (ttl c key s) [ some t ↦ integer (in_millis t) | none ↦ integer (negsuc 1) ]),
    s,
  )

  unfoldable pub cmd_persist :
      Clock → List Text → InMemoryCacheStore N → Outcome RespValue × InMemoryCacheStore N
  cmd_persist c [] s = (returned (wrong_number (lit "persist")), s)
  cmd_persist c (key ∷ args) s = let (done, s') = persist c key s in (returned (flag done), s')

  -- `cmd_incr` and `cmd_decr`, by their names and steps.
  unfoldable pub step_by :
      Text → ℤ → Clock → List Text → InMemoryCacheStore N → Outcome RespValue × InMemoryCacheStore N
  step_by name delta c [] s = (returned (wrong_number name), s)
  step_by name delta c (key ∷ args) s = counted_reply (incr c key delta s)

  abbrev pub cmd_incr :
      Clock → List Text → InMemoryCacheStore N → Outcome RespValue × InMemoryCacheStore N
  cmd_incr = step_by (lit "incr") (pos 1)

  abbrev pub cmd_decr :
      Clock → List Text → InMemoryCacheStore N → Outcome RespValue × InMemoryCacheStore N
  cmd_decr = step_by (lit "decr") (negsuc 0)

  -- `cmd_incrby` and `cmd_decrby`, by their names and what they make of the number.
  unfoldable pub step_by_argument :
      Text
      → (ℤ → ℤ)
      → Clock
      → List Text
      → InMemoryCacheStore N
      → Outcome RespValue × InMemoryCacheStore N
  step_by_argument name sign c (key ∷ number ∷ args) s = elim (parse_i64 number) [
    | none ↦ (returned out_of_range, s)
    | some d ↦ counted_reply (incr c key (sign d) s)
  ]
  step_by_argument name sign c _ s = (returned (wrong_number name), s)

  abbrev pub cmd_incrby :
      Clock → List Text → InMemoryCacheStore N → Outcome RespValue × InMemoryCacheStore N
  cmd_incrby = step_by_argument (lit "incrby") (λ d. d)

  abbrev pub cmd_decrby :
      Clock → List Text → InMemoryCacheStore N → Outcome RespValue × InMemoryCacheStore N
  cmd_decrby = step_by_argument (lit "decrby") neg_i64

  unfoldable pub cmd_dbsize :
      Clock → InMemoryCacheStore N → Outcome RespValue × InMemoryCacheStore N
  cmd_dbsize c s = (returned (integer (as_i64 (dbsize c s))), s)

  unfoldable pub cmd_flushdb :
      Clock → InMemoryCacheStore N → Outcome RespValue × InMemoryCacheStore N
  cmd_flushdb c s = (returned ok_reply, flush c s)

-- `args.first().unwrap_or("*")`
abbrev pub pattern_of : List Text → Text
pattern_of [] = lit "*"
pattern_of (p ∷ args) = p

abbrev pub or_ten : Option ℕ → ℕ
or_ten none = 10
or_ten (some n) = n

module _ {N : Type 0} (x : Externals N) where
  unfoldable pub cmd_keys :
      Clock → List Text → InMemoryCacheStore N → Outcome RespValue × InMemoryCacheStore N
  cmd_keys c args s = (returned (array_of (map bulk (keys x c (pattern_of args) s))), s)

  -- The loop over the options of SCAN: the variables `pattern` and `count`.
  unfoldable pub scan_options : List Text → Text → ℕ → Text × ℕ
  scan_options [] pattern count = (pattern, count)
  scan_options (name ∷ []) pattern count = (pattern, count)
  scan_options (name ∷ arg ∷ rest) pattern count =
      let skipped = scan_options (arg ∷ rest) pattern count in
      let matching = scan_options rest arg count in
      let counting = scan_options rest pattern (or_ten (parse_u64 arg)) in
      if text_eq (x.to_uppercase name) (lit "MATCH")
      then matching
      else if text_eq (x.to_uppercase name) (lit "COUNT")
      then counting
      else skipped

  abbrev pub behind_cursor : List Text → List Text
  behind_cursor [] = []
  behind_cursor (cursor ∷ options) = options

  unfoldable pub cmd_scan :
      Clock → List Text → InMemoryCacheStore N → Outcome RespValue × InMemoryCacheStore N
  unfolding scan_options
  cmd_scan c args s =
      let (pattern, count) = scan_options (behind_cursor args) (lit "*") 10 in
      (
        returned (
            array_of (bulk (lit "0") ∷ array_of (map bulk (take count (keys x c pattern s))) ∷ [])),
        s,
      )
