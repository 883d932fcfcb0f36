-- ===== src/Subscriptions/Told.antt =====
-- Who is told of the changes that the loop receives.
use squirreldb.Base.{
  Bool, Text, text_eq, true, false, ◌&&◌, Option, none, some, List, [], ◌∷◌, ◌++◌,
}
use squirreldb.Cache.Json.{Json}
use squirreldb.Sql.Filter.{FilterSpec, QuerySpec}
use squirreldb.Subscriptions.{Engine, Change, ChangeEvent, to_event, inserted, updated, deleted}
use squirreldb.Subscriptions.Index

-- The content that a filter in JavaScript is run on: the old one of a deletion, else the new one.
abbrev pub content_of : {N : Type 0} → Change N → Option (Json N)
content_of change = elim change.operation [
  | deleted ↦ change.old_data
  | inserted ↦ change.new_data
  | updated ↦ change.new_data
]

module _ {N : Type 0} (engine : Engine N) where
  -- Whether the code of a filter lets the content pass.
  abbrev pub passes : Text → Option (Json N) → Bool
  passes code none = false
  passes code (some d) = engine.run_filter code d

  -- Whether a filter lets a change pass: no filter and one that is SQL always do, because the data
  -- base is to have filtered, and code where it holds of the content.
  abbrev pub lets_pass : Option FilterSpec → Change N → Bool
  lets_pass none change = true
  lets_pass (some f) change = elim f.compiled_sql [
    | some sql ↦ true
    | none ↦ passes f.js_code (content_of change)
  ]

  abbrev pub events_if : Bool → Option (ChangeEvent N) → List (ChangeEvent N)
  events_if true (some event) = event ∷ []
  events_if passed event = []

  -- What one change is to a subscription to this query: nothing if it is of another collection.
  abbrev pub told_of : QuerySpec → Change N → List (ChangeEvent N)
  told_of query change =
      events_if (text_eq query.table change.collection && lets_pass query.filter change)
        (to_event engine query change)

  abbrev pub told_by : Option QuerySpec → Change N → List (ChangeEvent N)
  told_by none change = []
  told_by (some query) change = told_of query change

  -- What is to be told of the changes up to the first error of the channel, in their order.
  abbrev pub told_of_all : Option QuerySpec → List (Option (Change N)) → List (ChangeEvent N)
  told_of_all query [] = []
  told_of_all query (none ∷ received) = []
  told_of_all query (some change ∷ received) = told_by query change ++ told_of_all query received
