-- ===== src/Server/RateLimiter.antt =====
-- crates/sqrld/src/server/rate_limiter.rs: limits on connections, requests and concurrent queries.
-- A map is the function that looks a key up; of addresses and client ids only equality is used.
pub mod Connections
pub mod Permits
pub mod Buckets
mod Tests
use squirreldb.Base.{
  ℕ, ◌+◌, ◌-◌, ◌*◌, ltb, leb, ◌==◌, Bool, true, false, ◌||◌, Option, none, some, List, [], ◌∷◌,
  if◌then◌else◌,
}
use squirreldb.Base.Results.{Result, ok, err}

abbrev pub IpAddr : Type 0
IpAddr = ℕ

abbrev pub Uuid : Type 0
Uuid = ℕ

-- A map with another value at a key.
abbrev pub write {ℓ} : {A : Type ℓ} → ℕ → A → (ℕ → A) → ℕ → A
write k v m j = if k == j then v else m j

-- The limits of the configuration; 0 stands for none.
pub record LimitsSection : Type 0 where
  pub max_connections_per_ip : ℕ
  pub requests_per_second : ℕ
  pub burst_size : ℕ
  pub query_timeout_ms : ℕ
  pub max_concurrent_queries : ℕ
  pub max_message_size : ℕ

-- `f64`, with what the token buckets do with it. Times are in nanoseconds.
pub record Floats (F : Type 0) : Type 0 where
  pub of_u32 : ℕ → F
  pub as_secs : ℕ → F
  pub plus : F → F → F
  pub minus : F → F → F
  pub times : F → F → F
  pub least : F → F → F
  pub is_less : F → F → Bool
  pub at_least : F → F → Bool
  pub from_secs : F → ℕ
  pub inverse : F → F

pub data RateLimitError : Type 0 where
  too_many_connections : IpAddr → ℕ → RateLimitError
  rate_limited : IpAddr → ℕ → RateLimitError
  too_many_concurrent_queries : Uuid → ℕ → RateLimitError
  query_timeout : RateLimitError

abbrev pub Allowed : Type 0
Allowed = Result RateLimitError (Unit {0})

abbrev pub or_zero : Option ℕ → ℕ
or_zero (some n) = n
or_zero none = 0

-- `entry(..).or_insert(..)`
abbrev pub or_else {ℓ} : {A : Type ℓ} → A → Option A → A
or_else d (some a) = a
or_else d none = d

-- The connections of each address.
abbrev pub Connections : Type 0
Connections = IpAddr → Option ℕ

-- The count stays below the limit, a `u32`, so that the addition does not pass its range.
unfoldable pub check_connection : LimitsSection → IpAddr → Connections → Allowed × Connections
check_connection config ip conns =
    let count = or_zero (conns ip) in
    if config.max_connections_per_ip == 0
    then (ok tt, conns)
    else if leb config.max_connections_per_ip count
    then (err (too_many_connections ip config.max_connections_per_ip), write ip (some count) conns)
    else (ok tt, write ip (some (count + 1)) conns)

unfoldable pub release_connection : IpAddr → Connections → Connections
release_connection ip conns = elim (conns ip) [
  | some count ↦ write ip (if count - 1 == 0 then none else some (count - 1)) conns
  | none ↦ conns
]

-- The asynchronous check: `backend` is the answer of the data base, if there is one; an error of the
-- data base is `err`.
unfoldable pub check_connection_async :
    LimitsSection → Option (Result (Unit {0}) Bool) → IpAddr → Connections → Allowed × Connections
unfolding check_connection
check_connection_async config backend ip conns =
    if config.max_connections_per_ip == 0 then (ok tt, conns) else elim backend [
      | some answer ↦ elim answer [
        | ok allowed ↦ (
          if allowed then ok tt else err (too_many_connections ip config.max_connections_per_ip),
          conns,
        )
        | err e ↦ check_connection config ip conns
      ]
      | none ↦ check_connection config ip conns
    ]

-- The addresses that the data base is told of, and the map. That the call fails is only logged.
unfoldable pub release_connection_async : Bool → IpAddr → Connections → List IpAddr × Connections
unfolding release_connection
release_connection_async has_backend ip conns =
    (if has_backend then ip ∷ [] else [], release_connection ip conns)

-- `connections.retain` of `cleanup`.
unfoldable pub cleanup_connections : Connections → Connections
cleanup_connections conns ip = elim (conns ip) [
  | some count ↦ if ltb 0 count then some count else none
  | none ↦ none
]

pub record TokenBucket (F : Type 0) : Type 0 where
  pub tokens : F
  pub last_update : ℕ
  pub rate : F
  pub capacity : F

module _ {F : Type 0} (floats : Floats F) where
  unfoldable pub new_bucket : ℕ → ℕ → ℕ → TokenBucket F
  new_bucket now rate capacity = record {
    tokens = floats.of_u32 capacity;
    last_update = now;
    rate = floats.of_u32 rate;
    capacity = floats.of_u32 capacity;
  }

  -- `duration_since` stops at zero.
  unfoldable pub refill : ℕ → TokenBucket F → TokenBucket F
  refill now b = record b {
    tokens =
        floats.least
          (floats.plus b.tokens (floats.times (floats.as_secs (now - b.last_update)) b.rate))
          b.capacity;
    last_update = now;
  }

  unfoldable pub try_consume : ℕ → TokenBucket F → Bool × TokenBucket F
  unfolding refill
  try_consume now b =
      let b' = refill now b in
      if floats.at_least b'.tokens (floats.of_u32 1)
      then (true, record b' { tokens = floats.minus b'.tokens (floats.of_u32 1) })
      else (false, b')

  abbrev pub Buckets : Type 0
  Buckets = IpAddr → Option (TokenBucket F)

  unfoldable pub check_request : LimitsSection → ℕ → IpAddr → Buckets → Allowed × Buckets
  unfolding new_bucket try_consume
  check_request config now ip buckets =
      let bucket =
        or_else (new_bucket now config.requests_per_second config.burst_size) (buckets ip) in
      let (allowed, bucket') = try_consume now bucket in
      if config.requests_per_second == 0 then (ok tt, buckets) else (
        if allowed
            then ok tt
            else err (rate_limited ip (floats.from_secs (floats.inverse bucket'.rate))),
        write ip (some bucket') buckets,
      )

  unfoldable pub check_request_async :
      LimitsSection → Option (Result (Unit {0}) Bool) → ℕ → IpAddr → Buckets → Allowed × Buckets
  unfolding check_request
  check_request_async config backend now ip buckets =
      let seconds = floats.from_secs (floats.inverse (floats.of_u32 config.requests_per_second)) in
      if config.requests_per_second == 0 then (ok tt, buckets) else elim backend [
        | some answer ↦ elim answer [
          | ok allowed ↦ (if allowed then ok tt else err (rate_limited ip seconds), buckets)
          | err e ↦ check_request config now ip buckets
        ]
        | none ↦ check_request config now ip buckets
      ]

  -- `buckets.retain` of `cleanup`: `now` is read first, and `later` by `refill`.
  unfoldable pub cleanup_buckets : ℕ → ℕ → Buckets → Buckets
  unfolding refill
  cleanup_buckets now later buckets ip = elim (buckets ip) [
    | some b ↦
        let b' = refill later b in
        if ltb (now - b'.last_update) (60 * 1000000000) || floats.is_less b'.tokens b'.capacity
        then some b'
        else none
    | none ↦ none
  ]

unfoldable pub query_timeout_of : LimitsSection → Option ℕ
query_timeout_of config =
    if config.query_timeout_ms == 0 then none else some (config.query_timeout_ms * 1000000)

unfoldable pub max_message_size_of : LimitsSection → ℕ
max_message_size_of config = config.max_message_size
