-- ===== src/Cache/Subscriptions.antt =====
-- crates/sqrld/src/cache/events.rs: the messages of change events, and the subscriptions of clients.
pub mod Glob
pub mod Messages
pub mod Clients
pub mod Tests
use mathlib.Core.Option
use squirreldb.Base.{
  ℕ, Text, lit, len, text_eq, show_nat, ◌==◌, Bool, true, false, not, ◌&&◌, ◌||◌, Option, none,
  some, List, [], ◌∷◌, ◌++◌, map, length, filter, if◌then◌else◌,
}
use squirreldb.Base.Strings.{starts_with}
use squirreldb.Cache.Entry.{CacheValue, to_resp_string}
use squirreldb.Cache.Json.{SerdeJson}
use squirreldb.Cache.Changes.{CacheChange, set, delete, expire, flush}

module _ {N : Type 0} (serde : SerdeJson N) where
  abbrev pub value_text : Option (CacheValue N) → Text
  value_text (some v) = to_resp_string serde v
  value_text none = []

  unfoldable pub payload : CacheChange N → Text
  payload change = elim change.operation [
    | set ↦ lit "set " ++ change.key ++ lit " " ++ value_text change.new_value
    | delete ↦ lit "del " ++ change.key
    | expire ↦ lit "expired " ++ change.key
    | flush ↦ lit "flushdb"
  ]

  unfoldable pub to_pubsub_message : Text → CacheChange N → Text
  to_pubsub_message channel change =
      lit "*3\r\n$7\r\nmessage\r\n$"
      ++ show_nat (len channel)
      ++ lit "\r\n"
      ++ channel
      ++ lit "\r\n$"
      ++ show_nat (len (payload change))
      ++ lit "\r\n"
      ++ payload change
      ++ lit "\r\n"

-- The type `Uuid`, of which only equality is used.
abbrev pub Uuid : Type 0
Uuid = ℕ

pub record Subscription : Type 0 where
  pub client_id : Uuid
  pub pattern : Text
  pub is_pattern : Bool

-- `events` are the pairs sent on `event_tx`, in order.
pub record CacheSubscriptionManager (N : Type 0) : Type 0 where
  pub subscriptions : List Subscription
  pub client_channels : Uuid → Option (List Text)
  pub events : List (Uuid × CacheChange N)

unfoldable pub contains : Text → List Text → Bool
contains t [] = false
contains t (u ∷ us) = text_eq u t || contains t us

abbrev pub or_default : Option (List Text) → List Text
or_default none = []
or_default (some ts) = ts

-- One entry of a map over clients is written.
abbrev pub put {ℓ} : {A : Type ℓ} → Uuid → A → (Uuid → A) → Uuid → A
put id a f j = if id == j then a else f j

-- `*` in front of a pattern: the rest is tried at each position of the text.
unfoldable pub match_somewhere : (Text → Bool) → Text → Bool
match_somewhere rest [] = rest []
match_somewhere rest (c ∷ cs) = rest (c ∷ cs) || match_somewhere rest cs

-- What `glob_match` does behind a `*`, with the match of the rest of the pattern: it passes over a
-- further `*`, and a pattern that ends there matches everything.
unfoldable pub after_star : Text → (Text → Bool) → Text → Bool
unfolding match_somewhere
after_star [] rest text = true
after_star (q ∷ qs) rest text = if q == b'*' then rest text else match_somewhere rest text

unfoldable pub glob_match : Text → Text → Bool
unfolding after_star
glob_match [] text = elim text [ [] ↦ true | c ∷ cs ↦ false ]
glob_match (p ∷ ps) text =
    let rest = glob_match ps in
    if p == b'*'
    then after_star ps rest text
    else elim text [ [] ↦ false | c ∷ cs ↦ if p == b'?' || c == p then rest cs else false ]

-- Whether a key is of interest to a subscription.
unfoldable pub matches : Subscription → Text → Bool
unfolding starts_with
matches sub key =
    if sub.is_pattern
    then glob_match sub.pattern key
    else text_eq key sub.pattern || starts_with key (sub.pattern ++ lit ":")

abbrev pub same_kind : Bool → Bool → Bool
same_kind true b = b
same_kind false b = not b

module _ {N : Type 0} where
  unfoldable pub new_manager : CacheSubscriptionManager N
  new_manager = record { subscriptions = []; client_channels = λ j. none; events = [] }

  -- `subscribe` and `psubscribe`, which differ in the mark only.
  unfoldable pub subscribe_as :
      Bool → Uuid → Text → CacheSubscriptionManager N → ℕ × CacheSubscriptionManager N
  unfolding contains
  subscribe_as is_pattern id channel m =
      let chans = or_default (m.client_channels id) in
      let chans' = if contains channel chans then chans else chans ++ channel ∷ [] in
      (
        length chans',
        record m {
          subscriptions =
              m.subscriptions
              ++ (record { client_id = id; pattern = channel; is_pattern = is_pattern }) ∷ [];
          client_channels = put id (some chans') m.client_channels;
        },
      )

  abbrev pub subscribe : Uuid → Text → CacheSubscriptionManager N → ℕ × CacheSubscriptionManager N
  subscribe = subscribe_as false

  abbrev pub psubscribe : Uuid → Text → CacheSubscriptionManager N → ℕ × CacheSubscriptionManager N
  psubscribe = subscribe_as true

  -- `unsubscribe` and `punsubscribe`.
  unfoldable pub unsubscribe_as :
      Bool → Uuid → Text → CacheSubscriptionManager N → ℕ × CacheSubscriptionManager N
  unsubscribe_as is_pattern id channel m =
      let chans = Option.map (filter (λ t. not (text_eq t channel))) (m.client_channels id) in
      (
        length (or_default chans),
        record m {
          subscriptions =
              filter
                (λ sub. not (
                  sub.client_id == id
                  && text_eq sub.pattern channel
                  && same_kind is_pattern sub.is_pattern))
                m.subscriptions;
          client_channels = put id chans m.client_channels;
        },
      )

  abbrev pub unsubscribe : Uuid → Text → CacheSubscriptionManager N → ℕ × CacheSubscriptionManager N
  unsubscribe = unsubscribe_as false

  abbrev pub punsubscribe :
      Uuid → Text → CacheSubscriptionManager N → ℕ × CacheSubscriptionManager N
  punsubscribe = unsubscribe_as true

  unfoldable pub remove_client : Uuid → CacheSubscriptionManager N → CacheSubscriptionManager N
  remove_client id m = record m {
    subscriptions = filter (λ sub. not (sub.client_id == id)) m.subscriptions;
    client_channels = put id none m.client_channels;
  }

  unfoldable pub get_subscribers : Text → CacheSubscriptionManager N → List (Uuid × Text)
  unfolding matches
  get_subscribers key m =
      map (λ sub. (sub.client_id, sub.pattern)) (filter (λ sub. matches sub key) m.subscriptions)

  unfoldable pub broadcast : CacheChange N → CacheSubscriptionManager N → CacheSubscriptionManager N
  broadcast change m = record m {
    events = m.events ++ map (λ (p : Uuid × Text). (p.0, change)) (get_subscribers change.key m);
  }

  unfoldable pub client_subscription_count : Uuid → CacheSubscriptionManager N → ℕ
  client_subscription_count id m = length (or_default (m.client_channels id))
