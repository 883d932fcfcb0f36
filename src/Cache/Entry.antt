-- ===== src/Cache/Entry.antt =====
-- crates/sqrld/src/cache/entry.rs: cached values, entries and snapshot entries.
-- Durations and instants are numbers of nanoseconds. An operation reads the clocks once.
use squirreldb.Base.{
  ℕ, ◌+◌, ◌-◌, ◌/◌, ◌%◌, ◌*◌, ◌^◌, Text, len, ℤ, Bool, false, Option, none, some, [], ltb,
  if◌then◌else◌, show_i64, parse_i64,
}
use mathlib.Core.Option
use squirreldb.Cache.Json.{Json, SerdeJson, estimate_json_size}

-- The readings of `Instant::now()` and of `SystemTime::now()`.
pub record Clock : Type 0 where
  pub instant : ℕ
  pub system_time : ℕ

-- What a call does that may panic. A panic ends the task and leaves what was written.
pub data Outcome {ℓ} (A : Type ℓ) : Type ℓ where
  returned : A → Outcome A
  panicked : Outcome A

-- `usize` and `u64` arithmetic as the release profile compiles it.
abbrev pub word : ℕ
word = 2 ^ 64

abbrev pub nanos_per_sec : ℕ
nanos_per_sec = 1000000000

abbrev pub nanos_per_milli : ℕ
nanos_per_milli = 1000000

-- `Duration::from_secs`, `Duration::from_millis`, `as_secs` and `as_millis`.
abbrev pub from_secs : ℕ → ℕ
from_secs n = n * nanos_per_sec

abbrev pub from_millis : ℕ → ℕ
from_millis n = n * nanos_per_milli

abbrev pub as_secs : ℕ → ℕ
as_secs d = d / nanos_per_sec

abbrev pub as_millis : ℕ → ℕ
as_millis d = d / nanos_per_milli

-- An instant counts its seconds in an `i64`.
unfoldable pub instant_limit : ℕ
instant_limit = 2 ^ 63 * nanos_per_sec

-- `Instant + Duration`, which panics when the sum cannot be represented.
unfoldable pub add_instant : ℕ → ℕ → Option ℕ
add_instant t d = if ltb (t + d) instant_limit then some (t + d) else none

pub data CacheValue (N : Type 0) : Type 0 where
  null : CacheValue N
  string : Text → CacheValue N
  integer : ℤ → CacheValue N
  json : Json N → CacheValue N

module _ {N : Type 0} where
  -- Every `+` of the source wraps around; their sum is reduced where it is stored.
  unfoldable pub approximate_size : CacheValue N → ℕ
  unfolding estimate_json_size
  approximate_size null = 0
  approximate_size (string s) = len s
  approximate_size (integer i) = 8
  approximate_size (json v) = estimate_json_size v

  pub as_str : CacheValue N → Option Text
  as_str (string s) = some s
  as_str _ = none

  pub as_i64 : CacheValue N → Option ℤ
  as_i64 (integer i) = some i
  as_i64 (string s) = parse_i64 s
  as_i64 _ = none

  module _ (serde : SerdeJson N) where
    unfoldable pub to_resp_string : CacheValue N → Text
    to_resp_string null = []
    to_resp_string (string s) = s
    to_resp_string (integer i) = show_i64 i
    to_resp_string (json v) = serde.to_string v

    -- `From<serde_json::Value>`
    unfoldable pub from_json : Json N → CacheValue N
    from_json Json.null = null
    from_json (Json.number n) = elim (serde.number_as_i64 n) [
      | some i ↦ integer i
      | none ↦ json (Json.number n)
    ]
    from_json (Json.string s) = string s
    from_json (Json.bool b) = json (Json.bool b)
    from_json (Json.array vs) = json (Json.array vs)
    from_json (Json.object fs) = json (Json.object fs)

    -- `From<String>`: a text that is JSON is read as JSON.
    unfoldable pub from_text : Text → CacheValue N
    unfolding from_json
    from_text s = elim (serde.from_str s) [ some v ↦ from_json v | none ↦ string s ]

pub record CacheEntry (N : Type 0) : Type 0 where
  pub key : Text
  pub value : CacheValue N
  pub ttl : Option ℕ
  pub created_at : ℕ
  pub accessed_at : ℕ
  pub expires_at : Option ℕ
  pub access_count : ℕ
  pub size : ℕ

module _ {N : Type 0} where
  abbrev pub entry_at : Clock → Text → CacheValue N → Option ℕ → Option ℕ → CacheEntry N
  entry_at c key value ttl expires_at = record {
    key = key;
    value = value;
    ttl = ttl;
    created_at = c.instant;
    accessed_at = c.instant;
    expires_at = expires_at;
    access_count = 0;
    size = (approximate_size value + len key) % word;
  }

  -- `CacheEntry::new`; `none` is the panic of `now + d`.
  unfoldable pub new_entry : Clock → Text → CacheValue N → Option ℕ → Option (CacheEntry N)
  new_entry c key value none = some (entry_at c key value none none)
  new_entry c key value (some d) = elim (add_instant c.instant d) [
    | some t ↦ some (entry_at c key value (some d) (some t))
    | none ↦ none
  ]

  unfoldable pub is_expired : Clock → CacheEntry N → Bool
  is_expired c e = elim e.expires_at [ some t ↦ ltb t c.instant | none ↦ false ]

  unfoldable pub ttl_remaining : Clock → CacheEntry N → Option ℕ
  ttl_remaining c e = elim e.expires_at [
    | some t ↦ if ltb t c.instant then none else some (t - c.instant)
    | none ↦ none
  ]

  unfoldable pub touch : Clock → CacheEntry N → CacheEntry N
  touch c e = record e { accessed_at = c.instant; access_count = (e.access_count + 1) % word }

  -- The field `ttl` is written before the sum may panic.
  unfoldable pub update_ttl : Clock → Option ℕ → CacheEntry N → Outcome (Unit {0}) × CacheEntry N
  update_ttl c none e = (returned tt, record e { ttl = none; expires_at = none })
  update_ttl c (some d) e = elim (add_instant c.instant d) [
    | some t ↦ (returned tt, record e { ttl = some d; expires_at = some t })
    | none ↦ (panicked, record e { ttl = some d })
  ]

pub record SnapshotEntry (N : Type 0) : Type 0 where
  pub key : Text
  pub value : CacheValue N
  pub ttl_ms : Option ℕ

-- `From<&CacheEntry>`
unfoldable pub to_snapshot : {N : Type 0} → Clock → CacheEntry N → SnapshotEntry N
to_snapshot c e = record {
  key = e.key;
  value = e.value;
  ttl_ms = Option.map (λ d. as_millis d % word) (ttl_remaining c e);
}
