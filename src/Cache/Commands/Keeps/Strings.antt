-- ===== src/Cache/Commands/Keeps/Strings.antt =====
-- SET, GET, GETEX, MGET and MSET keep the store consistent.
use squirreldb.Base.{
  ◌&&◌, not, ℕ, arith, Text, lit, text_eq, parse_u64, Option, none, some, List, [], ◌∷◌, if_intro,
  Option-cases, inl, inr,
}
use squirreldb.Cache.Entry.{
  CacheEntry, from_secs, from_millis, Clock, Outcome, returned, panicked, from_text,
}
use squirreldb.Cache.Externals.{Externals}
use squirreldb.Cache.Resp.{RespValue}
use squirreldb.Cache.Store.{InMemoryCacheStore, Result, ok, err}
use squirreldb.Cache.Store.Accounting.{IsConsistent}
use squirreldb.Cache.Operations.{exists, get, set, expire, persist}
use squirreldb.Cache.Operations.Consistency.{
  get-IsConsistent, set-IsConsistent, expire-IsConsistent, persist-IsConsistent,
}
use squirreldb.Cache.Commands.Replies.{Checked, reply, valid, stored}
use squirreldb.Cache.Commands.Strings.{
  expire_then, SetOptions, run_set, cmd_set, set_options, no_options, cmd_get, cmd_getex,
  getex_options, getex_reply, cmd_mget, get_all, cmd_mset, set_all,
}

module _ {N : Type 0} where
  stored-IsConsistent :
      (r : Outcome (Result (Unit {0})) × InMemoryCacheStore N)
      → IsConsistent r.1
      → IsConsistent (stored r).1
  stored-IsConsistent (returned (ok u), s) h = h
  stored-IsConsistent (returned (err e), s) h = h
  stored-IsConsistent (panicked, s) h = h

module _ {N : Type 0} (x : Externals N) (c : Clock) where
  run_set-IsConsistent :
      (key text : Text) (o : Checked SetOptions) (s : InMemoryCacheStore N)
      → IsConsistent s
      → IsConsistent (run_set x c key text o s).1
  unfolding run_set
  run_set-IsConsistent key text (reply r) s h = h
  run_set-IsConsistent key text (valid o) s h =
      let value = from_text x.serde text in
      let Kept : Outcome RespValue × InMemoryCacheStore N → Type 0 = λ r. IsConsistent r.1 in
      if_intro Kept (o.if_absent && exists c key s) h (
        if_intro Kept (o.if_present && not (exists c key s)) h (
          stored-IsConsistent (set x.choose c key value o.ttl s)
            (set-IsConsistent x.choose c key value o.ttl s h)))

  pub cmd_set-IsConsistent :
      (args : List Text) (s : InMemoryCacheStore N)
      → IsConsistent s
      → IsConsistent (cmd_set x c args s).1
  unfolding cmd_set
  cmd_set-IsConsistent [] s h = h
  cmd_set-IsConsistent (key ∷ []) s h = h
  cmd_set-IsConsistent (key ∷ text ∷ options) s h =
      run_set-IsConsistent key text (set_options x c options no_options) s h

  expire_then-IsConsistent :
      (key arg : Text) (unit : ℕ → ℕ)
      (later : InMemoryCacheStore N → Outcome (Option RespValue) × InMemoryCacheStore N)
      (s : InMemoryCacheStore N)
      → ((s' : InMemoryCacheStore N) → IsConsistent s' → IsConsistent (later s').1)
      → IsConsistent s
      → IsConsistent (expire_then x c key arg unit later s).1
  unfolding expire_then
  expire_then-IsConsistent key arg unit later s keeps h = elim (Option-cases (parse_u64 arg)) [
    | inl e ↦ rw (e, expire_then) h
    | inr (n, e) ↦
        let kept = expire-IsConsistent c key s h (unit n) in
        ground (arith, kept, keeps (expire c key (unit n) s).1 kept)
  ]

  getex_options-IsConsistent :
      (key : Text) (options : List Text) (s : InMemoryCacheStore N)
      → IsConsistent s
      → IsConsistent (getex_options x c key options s).1
  unfolding getex_options
  getex_options-IsConsistent key [] s h = h
  getex_options-IsConsistent key (name ∷ []) s h =
      let Kept : Outcome (Option RespValue) × InMemoryCacheStore N → Type 0 =
        λ r. IsConsistent r.1 in
      if_intro Kept (text_eq (x.to_uppercase name) (lit "EX")) h (
        if_intro Kept (text_eq (x.to_uppercase name) (lit "PX")) h (
          if_intro Kept (text_eq (x.to_uppercase name) (lit "PERSIST"))
            (persist-IsConsistent c key s h) h))
  getex_options-IsConsistent key (name ∷ arg ∷ rest) s h =
      let Kept : Outcome (Option RespValue) × InMemoryCacheStore N → Type 0 =
        λ r. IsConsistent r.1 in
      let persisted = persist-IsConsistent c key s h in
      if_intro Kept (text_eq (x.to_uppercase name) (lit "EX"))
        (expire_then-IsConsistent key arg from_secs (getex_options x c key rest) s
          (getex_options-IsConsistent key rest) h)
        (if_intro Kept (text_eq (x.to_uppercase name) (lit "PX"))
          (expire_then-IsConsistent key arg from_millis (getex_options x c key rest) s
            (getex_options-IsConsistent key rest) h)
          (if_intro Kept (text_eq (x.to_uppercase name) (lit "PERSIST"))
            (getex_options-IsConsistent key (arg ∷ rest) (persist c key s).1 persisted) h))

  getex_reply-IsConsistent :
      (e : CacheEntry N) (r : Outcome (Option RespValue) × InMemoryCacheStore N)
      → IsConsistent r.1
      → IsConsistent (getex_reply x e r).1
  getex_reply-IsConsistent e (returned (some r), s) h = h
  getex_reply-IsConsistent e (returned none, s) h = h
  getex_reply-IsConsistent e (panicked, s) h = h

  pub cmd_getex-IsConsistent :
      (args : List Text) (s : InMemoryCacheStore N)
      → IsConsistent s
      → IsConsistent (cmd_getex x c args s).1
  unfolding cmd_getex
  cmd_getex-IsConsistent [] s h = h
  cmd_getex-IsConsistent (key ∷ options) s h =
      let kept = get-IsConsistent c key s h in
      elim (Option-cases (get c key s).0) [
        | inl n ↦ rw (n, cmd_getex) kept
        | inr (e, found) ↦
            rw (found, cmd_getex)
              (getex_reply-IsConsistent e (getex_options x c key options (get c key s).1)
                (getex_options-IsConsistent key options (get c key s).1 kept))
      ]

  pub cmd_get-IsConsistent :
      (args : List Text) (s : InMemoryCacheStore N)
      → IsConsistent s
      → IsConsistent (cmd_get x c args s).1
  unfolding cmd_get
  cmd_get-IsConsistent [] s h = h
  cmd_get-IsConsistent (key ∷ args) s h = get-IsConsistent c key s h

  get_all-IsConsistent :
      (ks : List Text) (s : InMemoryCacheStore N)
      → IsConsistent s
      → IsConsistent (get_all x c ks s).1
  unfolding get_all
  get_all-IsConsistent [] s h = h
  get_all-IsConsistent (key ∷ ks) s h =
      get_all-IsConsistent ks (get c key s).1 (get-IsConsistent c key s h)

  pub cmd_mget-IsConsistent :
      (args : List Text) (s : InMemoryCacheStore N)
      → IsConsistent s
      → IsConsistent (cmd_mget x c args s).1
  unfolding cmd_mget
  cmd_mget-IsConsistent [] s h = h
  cmd_mget-IsConsistent (key ∷ ks) s h = get_all-IsConsistent (key ∷ ks) s h

  -- The step of MSET behind one SET.
  set_all-IsConsistent :
      (args : List Text) (s : InMemoryCacheStore N)
      → IsConsistent s
      → IsConsistent (set_all x c args s).1
  unfolding set_all
  set_all-IsConsistent [] s h = h
  set_all-IsConsistent (key ∷ []) s h = h
  set_all-IsConsistent (key ∷ text ∷ rest) s h =
      let value = from_text x.serde text in
      let kept = set-IsConsistent x.choose c key value none s h in
      ground (arith, kept, set_all-IsConsistent rest (set x.choose c key value none s).1 kept)

  pub cmd_mset-IsConsistent :
      (args : List Text) (s : InMemoryCacheStore N)
      → IsConsistent s
      → IsConsistent (cmd_mset x c args s).1
  unfolding cmd_mset
  cmd_mset-IsConsistent args s h =
      let Kept : Outcome RespValue × InMemoryCacheStore N → Type 0 = λ r. IsConsistent r.1 in
      if_intro Kept _ h (set_all-IsConsistent args s h)
