-- ===== src/Cache/Subscriptions/Messages.antt =====
-- Messages to subscribers are arrays of the wire protocol.
use mathlib.Core.List.{append_assoc}
use squirreldb.Base.{◌≡◌, refl, Text, lit, len, show_nat, [], ◌∷◌, ◌++◌, encode_utf8, encode_char}
use squirreldb.Cache.Json.{SerdeJson}
use squirreldb.Cache.Changes.{CacheChange}
use squirreldb.Cache.Resp.{array, items, bulk, encode}
use squirreldb.Cache.Subscriptions.{payload, to_pubsub_message}

encode_utf8-append : (a b : Text) → encode_utf8 (a ++ b) ≡ encode_utf8 a ++ encode_utf8 b
unfolding encode_utf8
encode_utf8-append [] b = refl
encode_utf8-append (c ∷ cs) b = simp (encode_utf8-append cs b, append_assoc)

-- The message of a change is the encoding of the array of the word `message`, the channel and the
-- payload, whatever bytes these hold.
pub to_pubsub_message-encode :
    {N : Type 0} (serde : SerdeJson N) (channel : Text) (change : CacheChange N)
    → encode_utf8 (to_pubsub_message serde channel change)
      ≡ encode
          (array (items (bulk (lit "message") ∷ bulk channel ∷ bulk (payload serde change) ∷ [])))
unfolding to_pubsub_message encode items encode_utf8 encode_char len show_nat
to_pubsub_message-encode serde channel change = simp (encode_utf8-append, append_assoc)
