-- ===== src/Cache/Commands/Keeps.antt =====
-- Every command keeps the store consistent.
mod Keys
mod Strings
use squirreldb.Base.{pos, negsuc, neg_i64, Text, lit, text_eq, ◌||◌, List, [], if_intro}
use squirreldb.Cache.Entry.{from_secs, from_millis, Clock, Outcome}
use squirreldb.Cache.Externals.{Externals}
use squirreldb.Cache.Resp.{RespValue}
use squirreldb.Cache.Store.Accounting.{IsConsistent}
use squirreldb.Cache.Operations.{expire, incr}
use squirreldb.Cache.Operations.Consistency.{flush-IsConsistent}
use squirreldb.Cache.Commands.{CommandContext, execute_command}
use squirreldb.Cache.Commands.Keys.{cmd_keys, cmd_scan, cmd_dbsize, cmd_flushdb}
use squirreldb.Cache.Commands.Info.{cmd_info}
use squirreldb.Cache.Commands.Keeps.Keys.{
  cmd_del-IsConsistent, cmd_exists-IsConsistent, expire_in-IsConsistent, cmd_ttl-IsConsistent,
  cmd_pttl-IsConsistent, cmd_persist-IsConsistent, step_by-IsConsistent,
  step_by_argument-IsConsistent,
}
use squirreldb.Cache.Commands.Keeps.Strings.{
  cmd_set-IsConsistent, cmd_get-IsConsistent, cmd_getex-IsConsistent, cmd_mget-IsConsistent,
  cmd_mset-IsConsistent,
}

module _ {N : Type 0} (x : Externals N) where
  -- Every command, whatever its arguments, whether it succeeds, fails or panics, leaves a consistent
  -- store consistent: keys stay distinct, and `memory_used` the sum of the sizes modulo 2 ^ 64.
  pub execute_command-IsConsistent :
      (c : Clock) (ctx : CommandContext N) (cmd : Text) (args : List Text)
      → IsConsistent ctx.store
      → IsConsistent ((execute_command x c ctx cmd args).1).store
  unfolding execute_command cmd_keys cmd_scan cmd_dbsize cmd_flushdb cmd_info
  execute_command-IsConsistent c ctx cmd args h =
      let K : Outcome RespValue × CommandContext N → Type 0 = λ r. IsConsistent (r.1).store in
      let s = ctx.store in
      if_intro K (text_eq cmd (lit "PING")) h (
        if_intro K (text_eq cmd (lit "ECHO")) h (
          if_intro K (text_eq cmd (lit "SET")) (cmd_set-IsConsistent x c args s h) (
            if_intro K (text_eq cmd (lit "GET")) (cmd_get-IsConsistent x c args s h) (
              if_intro K (text_eq cmd (lit "GETEX")) (cmd_getex-IsConsistent x c args s h) (
                if_intro K (text_eq cmd (lit "DEL")) (cmd_del-IsConsistent c args s h) (
                  if_intro K (text_eq cmd (lit "EXISTS")) (cmd_exists-IsConsistent c args s h) (
                    if_intro K (text_eq cmd (lit "EXPIRE"))
                      (expire_in-IsConsistent c (lit "expire") from_secs args s h)
                      (if_intro K (text_eq cmd (lit "PEXPIRE"))
                        (expire_in-IsConsistent c (lit "pexpire") from_millis args s h)
                        (if_intro K (text_eq cmd (lit "TTL")) (cmd_ttl-IsConsistent c args s h) (
                          if_intro K (text_eq cmd (lit "PTTL")) (cmd_pttl-IsConsistent c args s h) (
                            if_intro K (text_eq cmd (lit "PERSIST"))
                              (cmd_persist-IsConsistent c args s h)
                              (if_intro K (text_eq cmd (lit "INCR"))
                                (step_by-IsConsistent c (lit "incr") (pos 1) args s h)
                                (if_intro K (text_eq cmd (lit "DECR"))
                                  (step_by-IsConsistent c (lit "decr") (negsuc 0) args s h)
                                  (if_intro K (text_eq cmd (lit "INCRBY"))
                                    (step_by_argument-IsConsistent c (lit "incrby") (λ d. d) args s
                                      h)
                                    (if_intro K (text_eq cmd (lit "DECRBY"))
                                      (step_by_argument-IsConsistent c (lit "decrby") neg_i64 args s
                                        h)
                                      (if_intro K (text_eq cmd (lit "MGET"))
                                        (cmd_mget-IsConsistent x c args s h)
                                        (if_intro K (text_eq cmd (lit "MSET"))
                                          (cmd_mset-IsConsistent x c args s h)
                                          (if_intro K (text_eq cmd (lit "KEYS")) h (
                                            if_intro K (text_eq cmd (lit "SCAN")) h (
                                              if_intro K (text_eq cmd (lit "DBSIZE")) h (
                                                if_intro K
                                                  (text_eq cmd (lit "FLUSHDB")
                                                    || text_eq cmd (lit "FLUSHALL"))
                                                  (flush-IsConsistent c [] s h)
                                                  (if_intro K (text_eq cmd (lit "INFO")) h (
                                                    if_intro K (text_eq cmd (lit "SELECT")) h (
                                                      if_intro K (text_eq cmd (lit "SUBSCRIBE")) h (
                                                        if_intro K (text_eq cmd (lit "PSUBSCRIBE"))
                                                          h
                                                          (if_intro K
                                                            (text_eq cmd (lit "UNSUBSCRIBE")) h
                                                            (if_intro K
                                                            (text_eq cmd (lit "PUNSUBSCRIBE")) h
                                                            (if_intro K (text_eq cmd (lit "CLIENT"))
                                                            h
                                                            (if_intro K (text_eq cmd (lit "CONFIG"))
                                                            h
                                                            (if_intro K
                                                            (text_eq cmd (lit "COMMAND")) h
                                                            (if_intro K (text_eq cmd (lit "QUIT")) h
                                                            h)))))))))))))))))))))))))))))))
