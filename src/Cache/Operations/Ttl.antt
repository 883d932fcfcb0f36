-- ===== src/Cache/Operations/Ttl.antt =====
-- Times to live: EXPIRE, PERSIST and TTL.
use squirreldb.Base.{
  ℕ, ◌+◌, ◌-◌, ◌<◌, ◌≡◌, arith, Text, negsuc, as_i64, none, some, true, false, leb, if◌then◌else◌,
}
use squirreldb.Base.HashMap
use squirreldb.Base.HashMap.{get-insert_self}
use squirreldb.Cache.Entry.{
  Clock, returned, CacheEntry, instant_limit, add_instant, is_expired, ttl_remaining, update_ttl,
  as_secs,
}
use squirreldb.Cache.Store.{InMemoryCacheStore}
use squirreldb.Cache.Operations.{exists, expire, persist, ttl}

module _ {N : Type 0} (c : Clock) (key : Text) (s : InMemoryCacheStore N) (e : CacheEntry N)
    (found : HashMap.get key s.entries ≡ some e) where
  -- EXPIRE on a key that has not expired returns true, where the new deadline is an instant that can
  -- be represented. From then on the key exists until the time to live has passed and not after it,
  -- and TTL answers the whole seconds that are left, or -2 once they have passed.
  pub expire_lem :
      (d : ℕ) (c' : Clock)
      → is_expired c e ≡ false
      → c.instant + d < instant_limit
      → ((expire c key d s).0 ≡ returned true)
        × (exists c' key (expire c key d s).1 ≡ leb c'.instant (c.instant + d))
        × (ttl c' key (expire c key d s).1
            ≡ some (
                if leb c'.instant (c.instant + d)
                then as_i64 (as_secs (c.instant + d - c'.instant))
                else negsuc 1))
  unfolding expire update_ttl add_instant exists ttl is_expired ttl_remaining
  expire_lem d c' live fits =
      let e' : CacheEntry N = record e { ttl = some d; expires_at = some (c.instant + d) } in
      let written = get-insert_self key e' s.entries in
      (ground arith, ground (arith, written), ground (arith, written))

  -- EXPIRE on a key that has expired returns false and changes nothing.
  expire_expired : (d : ℕ) → is_expired c e ≡ true → expire c key d s ≡ (returned false, s)
  unfolding expire
  expire_expired d old = ground arith

  -- PERSIST does not ask whether the key has expired. On an entry whose time to live has passed,
  -- and which EXISTS does not see, it returns true, and from then on the key exists at any time.
  pub persist_resurrects :
      (d : ℕ) (c' : Clock)
      → e.ttl ≡ some d
      → is_expired c e ≡ true
      → (exists c key s ≡ false)
        × ((persist c key s).0 ≡ true)
        × (exists c' key (persist c key s).1 ≡ true)
  unfolding exists persist update_ttl is_expired
  persist_resurrects d c' h old =
      let e' : CacheEntry N = record e { ttl = none; expires_at = none } in
      (ground arith, ground arith, ground (arith, get-insert_self key e' s.entries))
