-- ===== src/Server/RateLimiter/Buckets.antt =====
-- The token buckets that `cleanup` keeps.
use squirreldb.Base.{true, ℕ, ◌-◌, ◌*◌, ◌≤◌, ◌≡◌, refl, arith, ltb, some}
use squirreldb.Server.RateLimiter.{IpAddr, Floats, TokenBucket, Buckets, refill, cleanup_buckets}

-- `cleanup` removes no bucket at all, however old: `refill`, which it calls first, sets the time of the
-- last update to the present, and the test for a minute without updates comes after that.
pub cleanup_buckets_lem :
    {F : Type 0} (floats : Floats F) (now later : ℕ) (buckets : Buckets floats) (ip : IpAddr)
    (b : TokenBucket F)
    → now ≤ later
    → buckets ip ≡ some b
    → cleanup_buckets floats now later buckets ip ≡ some (refill floats later b)
unfolding cleanup_buckets refill
cleanup_buckets_lem floats now later buckets ip b le found =
    let young : ltb (now - later) (60 * 1000000000) ≡ true = ground arith in
    rw (found, young, cleanup_buckets) refl
