-- ===== src/Subscriptions.antt =====
-- crates/sqrld/src/subscriptions/manager.rs: the clients that are told of changes. The functions of
-- clients run in a JavaScript engine, which is a parameter, as is what the data base answers.
pub mod Counts
pub mod Index
pub mod Delivery
pub mod Told
mod Tests
use squirreldb.Base.{
  ℕ, Text, text_eq, ◌==◌, Bool, true, false, ◌&&◌, Option, none, some, List, [], ◌∷◌, ◌++◌, filter,
  is_empty, if◌then◌else◌,
}
use mathlib.Core.Option
use squirreldb.Base.HashMap
use squirreldb.Cache.Json.{Json}
use squirreldb.Sql.Filter.{QuerySpec}

-- The type `Uuid`, of which only equality is used.
abbrev pub Uuid : Type 0
Uuid = ℕ

pub data ChangeOperation : Type 0 where
  inserted updated deleted : ChangeOperation

pub record Change (N : Type 0) : Type 0 where
  pub id : ℕ
  pub project_id : Uuid
  pub collection : Text
  pub document_id : Uuid
  pub operation : ChangeOperation
  pub old_data : Option (Json N)
  pub new_data : Option (Json N)
  pub changed_at : ℕ

pub record Document (N : Type 0) : Type 0 where
  pub id : Uuid
  pub project_id : Uuid
  pub collection : Text
  pub content : Json N
  pub created_at : ℕ
  pub updated_at : ℕ

pub data ChangeEvent (N : Type 0) : Type 0 where
  initial_event insert_event delete_event : Document N → ChangeEvent N
  update_event : Json N → Document N → ChangeEvent N

-- What the data base is asked to keep for a filter.
pub data FilterCall : Type 0 where
  add_filter : Uuid → Text → Text → Option Text → FilterCall
  remove_filter : Uuid → Text → FilterCall
  remove_filters : Uuid → FilterCall

-- An entry of the index: a client and one of its subscriptions.
abbrev pub Entry : Type 0
Entry = Uuid × Text

-- The maps by client and by collection are functions. The id that a `Subscription` repeats is its key.
-- `calls` are the calls of the data base, and `out_tx` the messages that were sent, in order.
pub record SubscriptionManager (N : Type 0) : Type 0 where
  pub subs : Uuid → Option (List (Text × QuerySpec))
  pub collection_index : Text → Option (List Entry)
  pub out_tx : List (Uuid × Text × ChangeEvent N)
  pub has_backend : Bool
  pub calls : List FilterCall

abbrev pub or_default {ℓ} : {A : Type ℓ} → Option (List A) → List A
or_default (some l) = l
or_default none = []

abbrev pub write_client {ℓ} : {A : Type ℓ} → Uuid → A → (Uuid → A) → Uuid → A
write_client k v m j = if k == j then v else m j

abbrev pub write_collection {ℓ} : {A : Type ℓ} → Text → A → (Text → A) → Text → A
write_collection k v m j = if text_eq k j then v else m j

unfoldable pub new_manager : {N : Type 0} → Bool → SubscriptionManager N
new_manager has_backend = record {
  subs = λ c. none;
  collection_index = λ t. none;
  out_tx = [];
  has_backend = has_backend;
  calls = [];
}

-- The call is made when there is a data base; that it fails is only logged.
abbrev pub call_backend : {N : Type 0} → FilterCall → SubscriptionManager N → List FilterCall
call_backend call m = if m.has_backend then m.calls ++ (call ∷ []) else m.calls

abbrev pub compiled_sql_of : QuerySpec → Option Text
compiled_sql_of query = elim query.filter [ some f ↦ f.compiled_sql | none ↦ none ]

-- The subscription of a client with an id.
abbrev pub find : Uuid → Text → (Uuid → Option (List (Text × QuerySpec))) → Option QuerySpec
unfolding HashMap.get
find client id subs = HashMap.get id (or_default (subs client))

unfoldable pub add_subscription :
    {N : Type 0} → Uuid → Text → QuerySpec → SubscriptionManager N → SubscriptionManager N
unfolding HashMap.insert
add_subscription client id query m = record m {
  calls = call_backend (add_filter client id query.table (compiled_sql_of query)) m;
  subs = write_client client (some (HashMap.insert id query (or_default (m.subs client)))) m.subs;
  collection_index =
      write_collection query.table
        (some (or_default (m.collection_index query.table) ++ ((client, id) ∷ [])))
        m.collection_index;
}

-- The entries of a collection without a subscription; a collection without entries goes.
unfoldable pub without : Uuid → Text → List Entry → List Entry
without client id [] = []
without client id ((c, s) ∷ es) =
    let rest = without client id es in if c == client && text_eq s id then rest else (c, s) ∷ rest

unfoldable pub unindex :
    Uuid → Text → Text → (Text → Option (List Entry)) → Text → Option (List Entry)
unfolding without
unindex client id table index t = elim (index table) [
  | some entries ↦
      let kept = without client id entries in
      write_collection table (if is_empty kept then none else some kept) index t
  | none ↦ index t
]

unfoldable pub remove_subscription :
    {N : Type 0} → Uuid → Text → SubscriptionManager N → SubscriptionManager N
unfolding find unindex HashMap.remove
remove_subscription client id m =
    let called = record m { calls = call_backend (remove_filter client id) m } in
    elim (find client id m.subs) [
      | some query ↦ record called {
        subs = write_client client (some (HashMap.remove id (or_default (m.subs client)))) m.subs;
        collection_index = unindex client id query.table m.collection_index;
      }
      | none ↦ called
    ]

-- The loop of `remove_client`.
unfoldable pub unindex_all :
    Uuid → List (Text × QuerySpec) → (Text → Option (List Entry)) → Text → Option (List Entry)
unfolding unindex
unindex_all client [] index = index
unindex_all client ((id, query) ∷ subs) index =
    unindex_all client subs (unindex client id query.table index)

unfoldable pub remove_client : {N : Type 0} → Uuid → SubscriptionManager N → SubscriptionManager N
unfolding unindex_all
remove_client client m = record m {
  calls = call_backend (remove_filters client) m;
  subs = write_client client none m.subs;
  collection_index = unindex_all client (or_default (m.subs client)) m.collection_index;
}

-- What the JavaScript engine makes of the code of a filter and a document, where every failure is
-- `false`, and of the code of a mapping, where every failure is `none`.
pub record Engine (N : Type 0) : Type 0 where
  pub run_filter : Text → Json N → Bool
  pub run_map : Text → Json N → Option (Json N)

module _ {N : Type 0} (engine : Engine N) where
  unfoldable pub matches : QuerySpec → Change N → Bool
  matches query change =
      let filtered = λ (code : Text) (content : Option (Json N)). elim content as (λ x. Bool) [
        | some d ↦ engine.run_filter code d
        | none ↦ false
      ] in
      elim query.filter [
        | none ↦ true
        | some f ↦ elim f.compiled_sql [
          | some sql ↦ true
          | none ↦ elim change.operation [
            | deleted ↦ filtered f.js_code change.old_data
            | inserted ↦ filtered f.js_code change.new_data
            | updated ↦ filtered f.js_code change.new_data
          ]
        ]
      ]

  abbrev pub map_data : QuerySpec → Json N → Json N
  map_data query d = elim query.projection [
    | some code ↦ elim (engine.run_map code d) [ some d' ↦ d' | none ↦ d ]
    | none ↦ d
  ]

  abbrev pub document_of : QuerySpec → Change N → Json N → Document N
  document_of query change d = record {
    id = change.document_id;
    project_id = change.project_id;
    collection = change.collection;
    content = map_data query d;
    created_at = change.changed_at;
    updated_at = change.changed_at;
  }

  unfoldable pub to_event : QuerySpec → Change N → Option (ChangeEvent N)
  to_event query change = elim change.operation [
    | inserted ↦ Option.map (λ d. insert_event (document_of query change d)) change.new_data
    | updated ↦ elim change.old_data [
      | some old ↦
          Option.map (λ d. update_event (map_data query old) (document_of query change d))
            change.new_data
      | none ↦ none
    ]
    | deleted ↦ Option.map (λ d. delete_event (document_of query change d)) change.old_data
  ]

  -- The message for one entry of the index.
  unfoldable pub message_for :
      Change N → Entry → (Uuid → Option (List (Text × QuerySpec))) → Option (ChangeEvent N)
  unfolding matches to_event find
  message_for change (client, id) subs = elim (find client id subs) [
    | some query ↦ if matches query change then to_event query change else none
    | none ↦ none
  ]

  unfoldable pub messages :
      Change N
      → List Entry
      → (Uuid → Option (List (Text × QuerySpec)))
      → List (Uuid × Text × ChangeEvent N)
  unfolding message_for
  messages change [] subs = []
  messages change ((client, id) ∷ es) subs =
      let rest = messages change es subs in
      elim (message_for change (client, id) subs) [
        | some event ↦ (client, id, event) ∷ rest
        | none ↦ rest
      ]

  -- One round of `process_changes`.
  unfoldable pub process_change : Change N → SubscriptionManager N → SubscriptionManager N
  unfolding messages
  process_change change m = elim (m.collection_index change.collection) [
    | some entries ↦ record m { out_tx = m.out_tx ++ messages change entries m.subs }
    | none ↦ m
  ]

  -- `process_changes`, on what `recv` comes to: a change, or an error, which ends the loop, be it that
  -- the channel was closed or that the receiver lagged behind.
  unfoldable pub process_changes :
      List (Option (Change N)) → SubscriptionManager N → SubscriptionManager N
  unfolding process_change
  process_changes [] m = m
  process_changes (none ∷ received) m = m
  process_changes (some change ∷ received) m = process_changes received (process_change change m)
