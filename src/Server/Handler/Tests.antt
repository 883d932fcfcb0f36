-- ===== src/Server/Handler/Tests.antt =====
-- Tests of the handler of messages, and its theorems at concrete messages.
use squirreldb.Base.{ℕ, Text, lit, text_eq, show_nat, true, some, List, [], ◌∷◌, ◌≡◌, refl}
use squirreldb.Base.Results.{ok, err}
use squirreldb.Base.Strings.{split_at}
use squirreldb.Cache.Json.{number, array}
use squirreldb.Sql.Dialect.{postgres}
use squirreldb.Sql.Filter.{QuerySpec}
use squirreldb.Subscriptions.{new_manager}
use squirreldb.Query.Engine.{items}
use squirreldb.Query.Pool.{CachedResult, put_cached, with_cache_ttl}
use squirreldb.Query.Tests.{
  Slot, slot, slot_laws, all_users, some_letters, unchanged, Rows, list_rows, user, new_pool,
  script,
}
use squirreldb.Server.Messages
use squirreldb.Server.Messages.{ClientMessage}
use squirreldb.Server.Handler.{Documents, State, Reply, reply, handle}
use squirreldb.Server.Handler.Answers.{Carries, handle-Carries}
use squirreldb.Server.Handler.Forgets.{Forgets, after, handle-Forgets}

-- A data base that puts one document in front whatever it is asked to write.
abbrev db : Documents ℕ Rows (List Text)
db = record {
  list = list_rows;
  insert = λ project collection content w. (ok (user 7), user 7 ∷ w);
  update = λ project collection id content w. (ok (some (user 7)), user 7 ∷ w);
  delete = λ project collection id w. (ok (some (user 7)), user 7 ∷ w);
  list_collections = λ project w. (ok (lit "users" ∷ []), w);
  list_projects = λ w. (err (lit "no projects"), w);
  document_to_value = λ d. ok d.content;
  collections_to_value = λ ts. ok (array (items []));
  projects_to_value = λ ts. ok (array (items []));
  query_to_string = λ q. [];
  number_text = show_nat;
  show_compile_error = λ e. [];
  uuid_to_string = show_nat;
}

-- A result of the script from before is kept.
abbrev before : State (Slot QuerySpec) (Slot (CachedResult ℕ)) ℕ Rows
unfolding put_cached new_pool with_cache_ttl new_manager
before = record {
  pool = put_cached slot script (number 9) 0 new_pool;
  subs = new_manager true;
  world = user 1 ∷ [];
}

abbrev ask : ClientMessage ℕ
ask = Messages.query (lit "q1") (Messages.script script)

abbrev answered : Reply ℕ
unfolding handle
answered = (handle slot slot all_users some_letters unchanged postgres db 3 ask 5 6 before).0

-- The result from before is the answer.
stale : answered ≡ reply (Messages.result (lit "q1") (number 9))
unfolding answered handle before put_cached new_pool with_cache_ttl text_eq
stale = refl

handle-Carries_example : Carries (lit "q1") answered
unfolding answered Messages.request_id
handle-Carries_example =
    handle-Carries slot slot all_users some_letters unchanged postgres db 3 ask 5 6 before

abbrev behind : ClientMessage ℕ → State (Slot QuerySpec) (Slot (CachedResult ℕ)) ℕ Rows
behind msg = after slot slot slot_laws all_users some_letters unchanged postgres db 3 msg 5 6 before

abbrev HasForgotten : State (Slot QuerySpec) (Slot (CachedResult ℕ)) ℕ Rows → Type 0
HasForgotten = Forgets slot slot slot_laws all_users some_letters unchanged postgres db script

handle-Forgets_example :
    (db.insert 0 (lit "users") (number 7) before.world ≡ (ok (user 7), user 7 ∷ before.world)
      → HasForgotten (behind (Messages.insert (lit "i1") (lit "users") (number 7))))
    × (db.update 0 (lit "users") 7 (number 7) before.world
          ≡ (ok (some (user 7)), user 7 ∷ before.world)
        → HasForgotten (behind (Messages.update (lit "i1") (lit "users") 7 (number 7))))
    × (db.delete 0 (lit "users") 7 before.world ≡ (ok (some (user 7)), user 7 ∷ before.world)
        → HasForgotten (behind (Messages.delete (lit "i1") (lit "users") 7)))
unfolding split_at
handle-Forgets_example =
    handle-Forgets slot slot slot_laws all_users some_letters unchanged postgres db 3 7 (lit "i1")
      (lit "users") script (number 7) (user 7) 5 6 before (user 7 ∷ before.world) refl
