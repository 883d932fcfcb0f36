-- ===== src/Cache/Commands/Strings.antt =====
-- crates/sqrld/src/cache/commands.rs: SET, GET, GETEX, MGET and MSET. The clocks are read once for a
-- command.
use squirreldb.Base.{
  ℕ, ◌-◌, ◌%◌, Text, lit, text_eq, parse_u64, Bool, true, false, not, ◌&&◌, ◌||◌, ◌==◌, Option,
  none, some, List, [], ◌∷◌, ltb, if◌then◌else◌, length,
}
use squirreldb.Cache.Entry.{
  Clock, Outcome, returned, panicked, CacheEntry, from_secs, from_millis, as_secs, to_resp_string,
  from_text,
}
use squirreldb.Cache.Externals.{Externals}
use squirreldb.Cache.Resp.{RespValue, error, bulk, null_bulk}
use squirreldb.Cache.Store.{InMemoryCacheStore, ok, err, show_error}
use squirreldb.Cache.Operations.{get, set, exists, expire, persist}
use squirreldb.Cache.Commands.Replies.{
  ok_reply, array_of, wrong_number, syntax_error, unexpected, out_of_range, Checked, valid, reply,
  stored,
}

-- The words that SET knows behind its value.
pub data SetOption : Type 0 where
  ex px exat nx xx keepttl unknown : SetOption

abbrev pub set_option : Text → SetOption
set_option name =
    if text_eq name (lit "EX")
    then ex
    else if text_eq name (lit "PX")
    then px
    else if text_eq name (lit "EXAT")
    then exat
    else if text_eq name (lit "NX")
    then nx
    else if text_eq name (lit "XX")
    then xx
    else if text_eq name (lit "KEEPTTL")
    then keepttl
    else unknown

-- The variables `ttl`, `nx` and `xx` of `cmd_set`.
pub record SetOptions : Type 0 where
  pub ttl : Option ℕ
  pub if_absent : Bool
  pub if_present : Bool

abbrev pub no_options : SetOptions
no_options = record { ttl = none; if_absent = false; if_present = false }

-- The time to live behind EX, PX and EXAT, from the number and what was set before.
abbrev pub option_ttl : Clock → SetOption → ℕ → Option ℕ → Option ℕ
option_ttl c ex n before = some (from_secs n)
option_ttl c px n before = some (from_millis n)
option_ttl c exat n before =
    if ltb (as_secs c.system_time) n then some (from_secs (n - as_secs c.system_time)) else before
option_ttl c _ n before = before

module _ {N : Type 0} (x : Externals N) where
  -- The loop over the options of SET.
  unfoldable pub set_options : Clock → List Text → SetOptions → Checked SetOptions
  set_options c [] o = valid o
  set_options c (name ∷ []) o = elim (set_option (x.to_uppercase name)) [
    | nx ↦ valid (record o { if_absent = true })
    | xx ↦ valid (record o { if_present = true })
    | keepttl ↦ valid o
    | unknown ↦ reply (unexpected name)
    | _ ↦ reply syntax_error
  ]
  set_options c (name ∷ arg ∷ rest) o = elim (set_option (x.to_uppercase name)) [
    | nx ↦ set_options c (arg ∷ rest) (record o { if_absent = true })
    | xx ↦ set_options c (arg ∷ rest) (record o { if_present = true })
    | keepttl ↦ set_options c (arg ∷ rest) o
    | unknown ↦ reply (unexpected name)
    | kind ↦ elim (parse_u64 arg) [
      | none ↦ reply out_of_range
      | some n ↦ set_options c rest (record o { ttl = option_ttl c kind n o.ttl })
    ]
  ]

  -- SET behind its options.
  unfoldable pub run_set :
      Clock
      → Text
      → Text
      → Checked SetOptions
      → InMemoryCacheStore N
      → Outcome RespValue × InMemoryCacheStore N
  run_set c key text (reply r) s = (returned r, s)
  run_set c key text (valid o) s =
      if o.if_absent && exists c key s
      then (returned null_bulk, s)
      else if o.if_present && not (exists c key s)
      then (returned null_bulk, s)
      else stored (set x.choose c key (from_text x.serde text) o.ttl s)

  unfoldable pub cmd_set :
      Clock → List Text → InMemoryCacheStore N → Outcome RespValue × InMemoryCacheStore N
  unfolding set_options run_set
  cmd_set c (key ∷ text ∷ options) s = run_set c key text (set_options c options no_options) s
  cmd_set c _ s = (returned (wrong_number (lit "set")), s)

  -- An entry that was found, or none, as a bulk string.
  abbrev pub entry_reply : Option (CacheEntry N) → RespValue
  entry_reply (some e) = bulk (to_resp_string x.serde e.value)
  entry_reply none = null_bulk

  unfoldable pub cmd_get :
      Clock → List Text → InMemoryCacheStore N → Outcome RespValue × InMemoryCacheStore N
  cmd_get c [] s = (returned (wrong_number (lit "get")), s)
  cmd_get c (key ∷ args) s = let (found, s') = get c key s in (returned (entry_reply found), s')

  -- An option of GETEX with a number, and the options behind it.
  unfoldable pub expire_then :
      Clock
      → Text
      → Text
      → (ℕ → ℕ)
      → (InMemoryCacheStore N → Outcome (Option RespValue) × InMemoryCacheStore N)
      → InMemoryCacheStore N
      → Outcome (Option RespValue) × InMemoryCacheStore N
  expire_then c key arg unit later s = elim (parse_u64 arg) [
    | none ↦ (returned (some out_of_range), s)
    | some n ↦
        let (done, s') = expire c key (unit n) s in
        elim done [ returned b ↦ later s' | panicked ↦ (panicked, s') ]
  ]

  -- The loop over the options of GETEX, which writes as it goes: `none` where it ends.
  unfoldable pub getex_options :
      Clock
      → Text
      → List Text
      → InMemoryCacheStore N
      → Outcome (Option RespValue) × InMemoryCacheStore N
  unfolding expire_then
  getex_options c key [] s = (returned none, s)
  getex_options c key (name ∷ []) s =
      if text_eq (x.to_uppercase name) (lit "EX")
      then (returned (some syntax_error), s)
      else if text_eq (x.to_uppercase name) (lit "PX")
      then (returned (some syntax_error), s)
      else if text_eq (x.to_uppercase name) (lit "PERSIST")
      then (returned none, (persist c key s).1)
      else (returned (some (unexpected name)), s)
  getex_options c key (name ∷ arg ∷ rest) s =
      let persisted = getex_options c key (arg ∷ rest) (persist c key s).1 in
      if text_eq (x.to_uppercase name) (lit "EX")
      then expire_then c key arg from_secs (getex_options c key rest) s
      else if text_eq (x.to_uppercase name) (lit "PX")
      then expire_then c key arg from_millis (getex_options c key rest) s
      else if text_eq (x.to_uppercase name) (lit "PERSIST")
      then persisted
      else (returned (some (unexpected name)), s)

  -- The reply of GETEX: that of an option that failed, or the entry.
  abbrev pub getex_reply :
      CacheEntry N
      → Outcome (Option RespValue) × InMemoryCacheStore N
      → Outcome RespValue × InMemoryCacheStore N
  getex_reply e (returned (some r), s) = (returned r, s)
  getex_reply e (returned none, s) = (returned (entry_reply (some e)), s)
  getex_reply e (panicked, s) = (panicked, s)

  unfoldable pub cmd_getex :
      Clock → List Text → InMemoryCacheStore N → Outcome RespValue × InMemoryCacheStore N
  unfolding getex_options
  cmd_getex c [] s = (returned (wrong_number (lit "getex")), s)
  cmd_getex c (key ∷ options) s =
      let (found, s') = get c key s in
      elim found [
        | none ↦ (returned null_bulk, s')
        | some e ↦ getex_reply e (getex_options c key options s')
      ]

  unfoldable pub get_all :
      Clock → List Text → InMemoryCacheStore N → List RespValue × InMemoryCacheStore N
  get_all c [] s = ([], s)
  get_all c (key ∷ ks) s =
      let (found, s') = get c key s in
      let (rest, s'') = get_all c ks s' in (entry_reply found ∷ rest, s'')

  unfoldable pub cmd_mget :
      Clock → List Text → InMemoryCacheStore N → Outcome RespValue × InMemoryCacheStore N
  unfolding get_all
  cmd_mget c [] s = (returned (wrong_number (lit "mget")), s)
  cmd_mget c (key ∷ ks) s =
      let (replies, s') = get_all c (key ∷ ks) s in (returned (array_of replies), s')

  -- The loop of MSET over pairs; a key without a value is not reached.
  unfoldable pub set_all :
      Clock → List Text → InMemoryCacheStore N → Outcome RespValue × InMemoryCacheStore N
  set_all c (key ∷ text ∷ rest) s =
      let (done, s') = set x.choose c key (from_text x.serde text) none s in
      elim done [
        | returned (ok u) ↦ set_all c rest s'
        | returned (err e) ↦ (returned (error (show_error e)), s')
        | panicked ↦ (panicked, s')
      ]
  set_all c _ s = (returned ok_reply, s)

  unfoldable pub cmd_mset :
      Clock → List Text → InMemoryCacheStore N → Outcome RespValue × InMemoryCacheStore N
  unfolding set_all
  cmd_mset c args s =
      if ltb (length args) 2 || not (length args % 2 == 0)
      then (returned (wrong_number (lit "mset")), s)
      else set_all c args s
