-- ===== src/Subscriptions/Index.antt =====
-- The index of subscriptions by collection agrees with the subscriptions of the clients.
use squirreldb.Base.{
  ◌≡◌, inl, inr, refl, sym, ◌∙◌, ap, arith, Text, text_eq, ◌==◌, Bool, ◌&&◌, Bool-cases, none, some,
  Option-cases, if◌then◌else◌,
}
use squirreldb.Base.HashMap
use squirreldb.Sql.Filter.{QuerySpec}
use squirreldb.Subscriptions.{
  Uuid, SubscriptionManager, or_default, write_client, new_manager, find, add_subscription, unindex,
  remove_subscription, remove_client, Engine, Change, process_change,
}
use squirreldb.Subscriptions.Counts.{
  count, is_for, IsIndexed, count-unindex, count-unindex_all, has-get, find_added, find_removed,
  find_same, count_added,
}

module _ {N : Type 0} (m : SubscriptionManager N) (h : IsIndexed m) where
  add_subscription-IsIndexed :
      (client : Uuid) (id : Text) (query : QuerySpec)
      → find client id m.subs ≡ none
      → IsIndexed (add_subscription client id query m)
  unfolding add_subscription find
  add_subscription-IsIndexed client id query new = (
    λ c. elim (Bool-cases (client == c)) [
      | inl same ↦
          rw (same) (HashMap.insert-IsUnique id query (or_default (m.subs client)) (h.0 client))
      | inr other ↦ rw (other) (h.0 c)
    ],
    λ c s t.
        let counted = count_added client c id s query.table t m.collection_index in
        let found = find_added client id query m.subs c s in
        let before = h.1 c s t in
        rw (counted, found, before)
          (elim (Bool-cases (client == c && text_eq id s)) [
            | inl same ↦
                let absent : find c s m.subs ≡ none =
                  find_same client id query m.subs c s same ∙ new in
                rw (same, absent) (ground arith)
            | inr other ↦ rw (other) (ground arith)
          ]),
  )

  removed :
      (client : Uuid) (id : Text) (query : QuerySpec)
      → find client id m.subs ≡ some query
      → IsIndexed (record m {
        subs = write_client client (some (HashMap.remove id (or_default (m.subs client)))) m.subs;
        collection_index = unindex client id query.table m.collection_index;
      })
  removed client id query present = (
    λ c. elim (Bool-cases (client == c)) [
      | inl same ↦ rw (same) (HashMap.remove-IsUnique id (or_default (m.subs client)) (h.0 client))
      | inr other ↦ rw (other) (h.0 c)
    ],
    λ c s t.
        let counted = count-unindex c client s id query.table t m.collection_index in
        let found = find_removed client id query m.subs c s (h.0 client) in
        let before = h.1 c s t in
        rw (counted, found)
          (elim (Bool-cases (client == c && text_eq id s)) [
            | inl same ↦
                let stood : find c s m.subs ≡ some query =
                  find_same client id query m.subs c s same ∙ present in
                let before' : count c s (or_default (m.collection_index t))
                    ≡ (if text_eq query.table t then 1 else 0) =
                  rw (stood) at before in
                rw (same) (ground (arith, before'))
            | inr other ↦ rw (other) (ground (arith, before))
          ]),
  )

  remove_subscription-IsIndexed :
      (client : Uuid) (id : Text) → IsIndexed (remove_subscription client id m)
  unfolding remove_subscription find
  remove_subscription-IsIndexed client id = elim (Option-cases (find client id m.subs)) [
    | inl absent ↦ rw (absent, remove_subscription) h
    | inr (query, present) ↦ rw (present, remove_subscription) (removed client id query present)
  ]

  remove_client-IsIndexed : (client : Uuid) → IsIndexed (remove_client client m)
  unfolding remove_client find HashMap.IsUnique HashMap.get
  remove_client-IsIndexed client = (
    λ c. elim (Bool-cases (client == c)) [
      | inl same ↦ rw (same) tt
      | inr other ↦ rw (other) (h.0 c)
    ],
    λ c id t.
        let counted =
          count-unindex_all c client id t (or_default (m.subs client)) m.collection_index in
        let before = h.1 c id t in
        elim (Bool-cases (client == c)) [
          | inl same ↦
              let is : client ≡ c = ground arith in
              let there : find c id m.subs ≡ HashMap.get id (or_default (m.subs client)) =
                ap (λ k. HashMap.get id (or_default (m.subs k))) (sym is) in
              let before' : count c id (or_default (m.collection_index t))
                  ≡ (if is_for t (HashMap.get id (or_default (m.subs client))) then 1 else 0) =
                rw (there) at before in
              rw (counted, same)
                (ground (arith, before', has-get id t (or_default (m.subs client))))
          | inr other ↦ rw (counted, other) before
        ],
  )

-- The calls of the manager, where a client does not take an id that it has for another subscription.
pub data Step {N : Type 0} (engine : Engine N)
    : SubscriptionManager N → SubscriptionManager N → Type 0 where
  add :
      {m : SubscriptionManager N} (client : Uuid) (id : Text) (query : QuerySpec)
      → find client id m.subs ≡ none
      → Step engine m (add_subscription client id query m)
  remove :
      {m : SubscriptionManager N} (client : Uuid) (id : Text)
      → Step engine m (remove_subscription client id m)
  leave : {m : SubscriptionManager N} (client : Uuid) → Step engine m (remove_client client m)
  change :
      {m : SubscriptionManager N} (change : Change N)
      → Step engine m (process_change engine change m)

pub data Reach {N : Type 0} (engine : Engine N) : SubscriptionManager N → Type 0 where
  start : (has_backend : Bool) → Reach engine (new_manager has_backend)
  next : {m n : SubscriptionManager N} → Reach engine m → Step engine m n → Reach engine n

module _ {N : Type 0} (engine : Engine N) where
  process_change-IsIndexed :
      (m : SubscriptionManager N) (c : Change N)
      → IsIndexed m
      → IsIndexed (process_change engine c m)
  unfolding process_change
  process_change-IsIndexed m c h = elim (Option-cases (m.collection_index c.collection)) [
    | inl unknown ↦ rw (unknown, process_change) h
    | inr (es, known) ↦ rw (known, process_change) h
  ]

  Step-IsIndexed : {m n : SubscriptionManager N} → Step engine m n → IsIndexed m → IsIndexed n
  Step-IsIndexed (add {m} client id query new) h =
      add_subscription-IsIndexed m h client id query new
  Step-IsIndexed (remove {m} client id) h = remove_subscription-IsIndexed m h client id
  Step-IsIndexed (leave {m} client) h = remove_client-IsIndexed m h client
  Step-IsIndexed (change {m} c) h = process_change-IsIndexed m c h

  -- In every state that is reached by subscribing under new ids, unsubscribing, clients leaving and changes,
  -- each subscription stands exactly once in the index, at its collection, and nothing else stands
  -- there.
  pub Reach-IsIndexed : {m : SubscriptionManager N} → Reach engine m → IsIndexed m
  unfolding new_manager find count HashMap.get HashMap.IsUnique
  Reach-IsIndexed (start b) = (λ c. tt, λ c id t. refl)
  Reach-IsIndexed (next r s) = Step-IsIndexed s (Reach-IsIndexed r)
