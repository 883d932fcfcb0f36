-- ===== src/Cache/Subscriptions/Clients.antt =====
-- What a client subscribes to and who hears of a key.
use squirreldb.Base.{
  ◌≡◌, arith, Text, text_eq_refl, ◌==◌, ==-refl, Bool, false, not, ◌||◌, List, [], ◌∷◌, map, filter,
  if◌then◌else◌,
}
use squirreldb.Cache.Subscriptions.{
  Uuid, Subscription, CacheSubscriptionManager, new_manager, subscribe, psubscribe, unsubscribe,
  subscribe_as, unsubscribe_as, remove_client, get_subscribers, matches, glob_match,
  client_subscription_count, contains,
}

-- Whether a client is among the subscribers.
abbrev pub hears : Uuid → List (Uuid × Text) → Bool
hears id [] = false
hears id ((j, t) ∷ subs) = j == id || hears id subs

heard : Text → Uuid → List Subscription → Bool
heard key id subs =
    hears id (map (λ sub. (sub.client_id, sub.pattern)) (filter (λ sub. matches sub key) subs))

heard-remove :
    (key : Text) (id j : Uuid) (subs : List Subscription)
    → heard key j (filter (λ sub. not (sub.client_id == id)) subs)
      ≡ (if id == j then false else heard key j subs)
unfolding heard
heard-remove key id j [] = ground arith
heard-remove key id j (sub ∷ subs) = ground (arith, heard-remove key id j subs)

-- Once a client is removed it hears of no key and has no channel; every other client hears of the
-- keys that it heard of.
pub remove_client_lem :
    {N : Type 0} (key : Text) (id j : Uuid) (m : CacheSubscriptionManager N)
    → (client_subscription_count id (remove_client id m) ≡ 0)
      × (hears j (get_subscribers key (remove_client id m))
          ≡ (if id == j then false else hears j (get_subscribers key m)))
unfolding get_subscribers remove_client client_subscription_count heard
remove_client_lem key id j m = (ground (arith, ==-refl id), heard-remove key id j m.subscriptions)

-- A new manager after SUBSCRIBE and PSUBSCRIBE of one name.
abbrev pub subscribed_twice : (N : Type 0) → Uuid → Text → CacheSubscriptionManager N
subscribed_twice N id name = (psubscribe id name (subscribe id name new_manager).1).1

-- SUBSCRIBE and PSUBSCRIBE of one name share an entry of `client_channels`: after both, UNSUBSCRIBE
-- answers that the client has no channel left, and yet it hears of every key that the pattern
-- matches.
pub unsubscribe_forgets_pattern :
    (N : Type 0) (id : Uuid) (name key : Text)
    → ((unsubscribe id name (subscribed_twice N id name)).0 ≡ 0)
      × (hears id (get_subscribers key (unsubscribe id name (subscribed_twice N id name)).1)
          ≡ glob_match name key)
unfolding get_subscribers subscribe_as unsubscribe_as new_manager matches contains
unsubscribe_forgets_pattern N id name key =
    let same = text_eq_refl name in
    let self = ==-refl id in (ground (arith, same, self), ground (arith, same, self))
