-- ===== src/Server/RateLimiter/Tests.antt =====
-- Tests of the rate limiter, and examples of its theorems.
use squirreldb.Base.{
  Option, true, if◌then◌else◌, ℕ, ◌+◌, ◌-◌, ◌*◌, ◌/◌, ◌≡◌, refl, arith, ltb, leb, none, some, List,
  [], ◌∷◌,
}
use squirreldb.Base.Results.{ok, err}
use squirreldb.Server.RateLimiter.{
  check_connection_async, release_connection_async, LimitsSection, Floats, Buckets,
  too_many_connections, new_bucket,
}
use squirreldb.Server.RateLimiter.Connections.{
  Request, connect, disconnect, clean, run_requests, run_counts, Refines, run_requests-Refines,
}
use squirreldb.Server.RateLimiter.Permits.{
  Queries, new_queries, begin_query, find_counter, add_one, cleanup_queries, Reach, start, next,
  find, add, IsCounted, Reach-IsCounted,
}

abbrev limits : LimitsSection
limits = record {
  max_connections_per_ip = 2;
  requests_per_second = 10;
  burst_size = 1;
  query_timeout_ms = 1000;
  max_concurrent_queries = 1;
  max_message_size = 1024;
}

-- Tokens in billionths.
abbrev billionths : Floats ℕ
billionths = record {
  of_u32 = λ n. n * 1000000000;
  as_secs = λ n. n;
  plus = ◌+◌;
  minus = ◌-◌;
  times = λ a b. (a * b) / 1000000000;
  least = λ a b. if ltb a b then a else b;
  is_less = ltb;
  at_least = λ a b. leb b a;
  from_secs = λ n. n;
  inverse = λ n. (1000000000 * 1000000000) / n;
}

abbrev requests : List Request
requests = connect 7 ∷ connect 7 ∷ connect 7 ∷ disconnect 7 ∷ clean ∷ connect 7 ∷ []

run_requests_example :
    (run_requests limits requests (λ ip. none)).0
    ≡ ok tt ∷ ok tt ∷ err (too_many_connections 7 2) ∷ ok tt ∷ []
unfolding run_requests
run_requests_example = refl

run_requests-Refines_example :
    ((run_requests limits requests (λ ip. none)).0 ≡ (run_counts 2 requests (λ ip. 0)).0)
    × Refines 2 (run_requests limits requests (λ ip. none)).1 (run_counts 2 requests (λ ip. 0)).1
run_requests-Refines_example =
    run_requests-Refines limits (ground arith) requests (λ ip. none) (λ ip. 0)
      (λ ip. (refl, ground arith))

abbrev one_bucket : Buckets billionths
unfolding new_bucket
one_bucket ip = some (new_bucket billionths 0 10 1)

-- A client with its counter, and a permit of it.
abbrev held : Queries
unfolding begin_query add_one new_queries
held = (add_one limits 3 0 (begin_query limits 3 new_queries).1).1

held-Reach : Reach limits held
unfolding held
held-Reach = next (next start (find 3)) (add 3 0 (ground arith) (ground arith))

Reach-IsCounted_example : IsCounted limits held
Reach-IsCounted_example = Reach-IsCounted limits held-Reach

-- A task has found the counter of a client, which is 0; a clean-up removes it from the map, and another
-- task gets a counter of its own. Both get the only permit of the client.
abbrev found_then_cleaned : Queries
unfolding find_counter add_one new_queries cleanup_queries
found_then_cleaned =
    let (first, s) = find_counter 3 new_queries in
    let (second, t) = find_counter 3 (cleanup_queries s) in
    (add_one limits 3 second (add_one limits 3 first t).1).1

two_permits : found_then_cleaned.permits 0 + found_then_cleaned.permits 1 ≡ 2
unfolding found_then_cleaned
two_permits = refl

-- Two connections were taken while the data base did not answer, and one that the data base took is
-- released: the map counts one connection, although two of its own are open.
abbrev counted_after : Option ℕ
unfolding check_connection_async release_connection_async
counted_after =
    let (first, one) = check_connection_async limits (some (err tt)) 7 (λ ip. none) in
    let (second, two) = check_connection_async limits (some (err tt)) 7 one in
    let (third, two') = check_connection_async limits (some (ok true)) 7 two in
    let (told, after) = release_connection_async true 7 two' in after 7

released_twice : counted_after ≡ some 1
unfolding counted_after
released_twice = refl
