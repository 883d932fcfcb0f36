-- ===== src/Subscriptions/Tests.antt =====
-- Tests of the change subscriptions, and examples of their theorems.
use squirreldb.Base.{
  ℕ, ◌≡◌, refl, Text, lit, text_eq, true, Option, none, some, List, ◌∷◌, [], length,
}
use squirreldb.Cache.Json
use squirreldb.Sql.Filter.{FilterSpec, QuerySpec}
use squirreldb.Subscriptions.{
  SubscriptionManager, Engine, Change, inserted, find, new_manager, add_subscription,
  process_change, to_event,
}
use squirreldb.Subscriptions.Index.{Reach, start, next, add, Reach-IsIndexed}
use squirreldb.Subscriptions.Counts.{IsIndexed}
use squirreldb.Subscriptions.Told.{told_of_all}

abbrev engine : Engine ℕ
engine = record { run_filter = λ code d. true; run_map = λ code d. none }

-- All documents of a table of a project, where SQL for the filter is given or not.
abbrev query_of : ℕ → Text → Option FilterSpec → QuerySpec
query_of project table filter = record {
  project_id = some project;
  table = table;
  filter = filter;
  projection = none;
  order_by = none;
  limit = none;
  offset = none;
  changes = none;
}

abbrev insertion : Change ℕ
insertion = record {
  id = 1;
  project_id = 8;
  collection = lit "users";
  document_id = 5;
  operation = inserted;
  old_data = none;
  new_data = some (Json.number 4);
  changed_at = 0;
}

abbrev two_clients : SubscriptionManager ℕ
unfolding new_manager add_subscription
two_clients =
    add_subscription 2 (lit "b") (query_of 8 (lit "orders") none)
      (add_subscription 1 (lit "a") (query_of 7 (lit "users") none) (new_manager true))

-- Two changes, and between them the receiver lags behind.
abbrev two_received : List (Option (Change ℕ))
two_received = some insertion ∷ none ∷ some insertion ∷ []

two_clients-Reach : Reach engine two_clients
unfolding two_clients find
two_clients-Reach =
    next (next (start true) (add 1 (lit "a") (query_of 7 (lit "users") none) refl))
      (add 2 (lit "b") (query_of 8 (lit "orders") none) refl)

Reach-IsIndexed_example : IsIndexed two_clients
Reach-IsIndexed_example = Reach-IsIndexed engine two_clients-Reach

-- The change behind the error is lost.
lost : length (told_of_all engine (some (query_of 7 (lit "users") none)) two_received) ≡ 1
unfolding text_eq to_event
lost = refl

-- The subscription is to a table of project 7, and the change is one of project 8.
other_project : length (process_change engine insertion two_clients).out_tx ≡ 1
unfolding two_clients process_change text_eq
other_project = refl

-- A client that subscribes again under the same id is told twice, also when the engine is not asked
-- because SQL for the filter is given.
subscribed_again :
    length
      (process_change engine insertion (
        add_subscription 1
          (lit "a")
          (query_of 8
            (lit "users")
            (some (record { js_code = []; compiled_sql = some (lit "false") })))
          two_clients)).out_tx
    ≡ 2
unfolding two_clients process_change text_eq
subscribed_again = refl
