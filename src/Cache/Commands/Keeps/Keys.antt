-- ===== src/Cache/Commands/Keeps/Keys.antt =====
-- Commands about keys, times to live and counters keep the store consistent.
use squirreldb.Base.{ℕ, Text, ℤ, parse_u64, parse_i64, Bool, List, [], ◌∷◌, Option-cases, inl, inr}
use squirreldb.Cache.Entry.{Clock, Outcome, returned, panicked}
use squirreldb.Cache.Store.{InMemoryCacheStore, Result, ok, err}
use squirreldb.Cache.Store.Accounting.{IsConsistent}
use squirreldb.Cache.Operations.{delete, expire, incr}
use squirreldb.Cache.Operations.Consistency.{
  delete-IsConsistent, expire-IsConsistent, persist-IsConsistent, incr-IsConsistent,
}
use squirreldb.Cache.Commands.Replies.{flagged, counted_reply}
use squirreldb.Cache.Commands.Keys.{
  cmd_del, delete_all, cmd_exists, expire_in, cmd_ttl, cmd_pttl, cmd_persist, step_by,
  step_by_argument,
}

module _ {N : Type 0} where
  flagged-IsConsistent :
      (r : Outcome Bool × InMemoryCacheStore N) → IsConsistent r.1 → IsConsistent (flagged r).1
  flagged-IsConsistent (returned b, s) h = h
  flagged-IsConsistent (panicked, s) h = h

  counted_reply-IsConsistent :
      (r : Result ℤ × InMemoryCacheStore N) → IsConsistent r.1 → IsConsistent (counted_reply r).1
  counted_reply-IsConsistent (ok i, s) h = h
  counted_reply-IsConsistent (err e, s) h = h

module _ {N : Type 0} (c : Clock) where
  delete_all-IsConsistent :
      (ks : List Text) (s : InMemoryCacheStore N)
      → IsConsistent s
      → IsConsistent (delete_all c ks s).1
  unfolding delete_all
  delete_all-IsConsistent [] s h = h
  delete_all-IsConsistent (key ∷ ks) s h =
      delete_all-IsConsistent ks (delete c key s).1 (delete-IsConsistent c key s h)

  pub cmd_del-IsConsistent :
      (args : List Text) (s : InMemoryCacheStore N)
      → IsConsistent s
      → IsConsistent (cmd_del c args s).1
  unfolding cmd_del
  cmd_del-IsConsistent [] s h = h
  cmd_del-IsConsistent (key ∷ ks) s h = delete_all-IsConsistent (key ∷ ks) s h

  pub cmd_exists-IsConsistent :
      (args : List Text) (s : InMemoryCacheStore N)
      → IsConsistent s
      → IsConsistent (cmd_exists c args s).1
  unfolding cmd_exists
  cmd_exists-IsConsistent [] s h = h
  cmd_exists-IsConsistent (key ∷ ks) s h = h

  pub expire_in-IsConsistent :
      (name : Text) (unit : ℕ → ℕ) (args : List Text) (s : InMemoryCacheStore N)
      → IsConsistent s
      → IsConsistent (expire_in name unit c args s).1
  unfolding expire_in
  expire_in-IsConsistent name unit [] s h = h
  expire_in-IsConsistent name unit (key ∷ []) s h = h
  expire_in-IsConsistent name unit (key ∷ number ∷ args) s h =
      elim (Option-cases (parse_u64 number)) [
        | inl e ↦ rw (e, expire_in) h
        | inr (n, e) ↦
            rw (e, expire_in)
              (flagged-IsConsistent (expire c key (unit n) s)
                (expire-IsConsistent c key s h (unit n)))
      ]

  pub cmd_ttl-IsConsistent :
      (args : List Text) (s : InMemoryCacheStore N)
      → IsConsistent s
      → IsConsistent (cmd_ttl c args s).1
  unfolding cmd_ttl
  cmd_ttl-IsConsistent [] s h = h
  cmd_ttl-IsConsistent (key ∷ args) s h = h

  pub cmd_pttl-IsConsistent :
      (args : List Text) (s : InMemoryCacheStore N)
      → IsConsistent s
      → IsConsistent (cmd_pttl c args s).1
  unfolding cmd_pttl
  cmd_pttl-IsConsistent [] s h = h
  cmd_pttl-IsConsistent (key ∷ args) s h = h

  pub cmd_persist-IsConsistent :
      (args : List Text) (s : InMemoryCacheStore N)
      → IsConsistent s
      → IsConsistent (cmd_persist c args s).1
  unfolding cmd_persist
  cmd_persist-IsConsistent [] s h = h
  cmd_persist-IsConsistent (key ∷ args) s h = persist-IsConsistent c key s h

  pub step_by-IsConsistent :
      (name : Text) (delta : ℤ) (args : List Text) (s : InMemoryCacheStore N)
      → IsConsistent s
      → IsConsistent (step_by name delta c args s).1
  unfolding step_by
  step_by-IsConsistent name delta [] s h = h
  step_by-IsConsistent name delta (key ∷ args) s h =
      counted_reply-IsConsistent (incr c key delta s) (incr-IsConsistent c key s h delta)

  pub step_by_argument-IsConsistent :
      (name : Text) (sign : ℤ → ℤ) (args : List Text) (s : InMemoryCacheStore N)
      → IsConsistent s
      → IsConsistent (step_by_argument name sign c args s).1
  unfolding step_by_argument
  step_by_argument-IsConsistent name sign [] s h = h
  step_by_argument-IsConsistent name sign (key ∷ []) s h = h
  step_by_argument-IsConsistent name sign (key ∷ number ∷ args) s h =
      elim (Option-cases (parse_i64 number)) [
        | inl e ↦ rw (e, step_by_argument) h
        | inr (d, e) ↦
            rw (e, step_by_argument)
              (counted_reply-IsConsistent (incr c key (sign d) s)
                (incr-IsConsistent c key s h (sign d)))
      ]
