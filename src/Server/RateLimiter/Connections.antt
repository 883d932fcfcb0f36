-- ===== src/Server/RateLimiter/Connections.antt =====
-- The limit on connections as a specification of counts, and the proof that the limiter implements it.
use squirreldb.Base.{
  ℕ, ◌+◌, ◌-◌, ◌≤◌, ◌<◌, ◌≡◌, refl, arith, ltb, ◌==◌, none, some, List, [], ◌∷◌, if◌then◌else◌,
}
use squirreldb.Base.Results.{ok, err}
use squirreldb.Server.RateLimiter.{
  IpAddr, write, LimitsSection, too_many_connections, Allowed, Connections, check_connection,
  release_connection, cleanup_connections,
}

-- What the servers ask for.
pub data Request : Type 0 where
  connect disconnect : IpAddr → Request
  clean : Request

-- The limiter on a sequence of requests: the answers to the connections, and the map behind them.
unfoldable pub run_requests :
    LimitsSection → List Request → Connections → List Allowed × Connections
unfolding check_connection release_connection cleanup_connections
run_requests config [] conns = ([], conns)
run_requests config (connect ip ∷ rs) conns =
    let (answer, conns') = check_connection config ip conns in
    let (answers, end) = run_requests config rs conns' in (answer ∷ answers, end)
run_requests config (disconnect ip ∷ rs) conns =
    run_requests config rs (release_connection ip conns)
run_requests config (clean ∷ rs) conns = run_requests config rs (cleanup_connections conns)

-- The specification: a number of open connections for each address.
unfoldable pub open_up : ℕ → IpAddr → (IpAddr → ℕ) → Allowed × (IpAddr → ℕ)
open_up limit ip count =
    if ltb (count ip) limit
    then (ok tt, write ip (count ip + 1) count)
    else (err (too_many_connections ip limit), count)

unfoldable pub run_counts : ℕ → List Request → (IpAddr → ℕ) → List Allowed × (IpAddr → ℕ)
unfolding open_up
run_counts limit [] count = ([], count)
run_counts limit (connect ip ∷ rs) count =
    let (answer, count') = open_up limit ip count in
    let (answers, end) = run_counts limit rs count' in (answer ∷ answers, end)
run_counts limit (disconnect ip ∷ rs) count = run_counts limit rs (write ip (count ip - 1) count)
run_counts limit (clean ∷ rs) count = run_counts limit rs count

-- The map holds the counts, without zeros, and no count passes the limit.
abbrev pub Refines : ℕ → Connections → (IpAddr → ℕ) → Type 0
Refines limit conns count =
    (ip : IpAddr)
    → (conns ip ≡ (if count ip == 0 then none else some (count ip))) × (count ip ≤ limit)

module _ (config : LimitsSection) (limited : 0 < config.max_connections_per_ip) where
  check_connection-Refines :
      (conns : Connections) (count : IpAddr → ℕ) (ip : IpAddr)
      → Refines config.max_connections_per_ip conns count
      → ((check_connection config ip conns).0 ≡ (open_up config.max_connections_per_ip ip count).0)
        × Refines config.max_connections_per_ip
            (check_connection config ip conns).1
            (open_up config.max_connections_per_ip ip count).1
  unfolding check_connection open_up
  check_connection-Refines conns count ip h = (ground (arith, h ip), λ j. ground (arith, h ip, h j))

  release_connection-Refines :
      (conns : Connections) (count : IpAddr → ℕ) (ip : IpAddr)
      → Refines config.max_connections_per_ip conns count
      → Refines config.max_connections_per_ip
          (release_connection ip conns)
          (write ip (count ip - 1) count)
  unfolding release_connection
  release_connection-Refines conns count ip h j = ground (arith, h ip, h j)

  cleanup_connections-Refines :
      (conns : Connections) (count : IpAddr → ℕ)
      → Refines config.max_connections_per_ip conns count
      → Refines config.max_connections_per_ip (cleanup_connections conns) count
  unfolding cleanup_connections
  cleanup_connections-Refines conns count h j = ground (arith, h j)

  -- From an empty map or any other that holds counts up to the limit, the limiter answers every sequence
  -- of connections, releases and clean-ups as the specification does, and ends in a map that holds the
  -- counts of the specification: no address ever has more connections than the limit.
  pub run_requests-Refines :
      (rs : List Request) (conns : Connections) (count : IpAddr → ℕ)
      → Refines config.max_connections_per_ip conns count
      → ((run_requests config rs conns).0 ≡ (run_counts config.max_connections_per_ip rs count).0)
        × Refines config.max_connections_per_ip
            (run_requests config rs conns).1
            (run_counts config.max_connections_per_ip rs count).1
  unfolding run_requests run_counts
  run_requests-Refines [] conns count h = (refl, h)
  run_requests-Refines (connect ip ∷ rs) conns count h =
      let (same, h') = check_connection-Refines conns count ip h in
      let (rest, end) = run_requests-Refines rs _ _ h' in (rw (same, rest) refl, end)
  run_requests-Refines (disconnect ip ∷ rs) conns count h =
      run_requests-Refines rs _ _ (release_connection-Refines conns count ip h)
  run_requests-Refines (clean ∷ rs) conns count h =
      run_requests-Refines rs _ _ (cleanup_connections-Refines conns count h)
