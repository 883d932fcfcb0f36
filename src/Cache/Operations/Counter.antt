-- ===== src/Cache/Operations/Counter.antt =====
-- INCR and its kin: `incr`.
use squirreldb.Base.{
  ◌≡◌, inl, inr, refl, ap, arith, Text, ℤ, add_i64, Option, none, some, false, if◌then◌else◌,
  Option-cases, Bool-cases,
}
use squirreldb.Base.HashMap
use squirreldb.Base.HashMap.{get-insert_self}
use squirreldb.Cache.Entry.{Clock, CacheEntry, CacheValue, integer, is_expired, touch}
use squirreldb.Cache.Store.{InMemoryCacheStore, CacheStoreError, Result, ok, err, not_an_integer}
use squirreldb.Cache.Operations.{incr, incr_entry, counter_of, fresh_counter, write_entry}
use squirreldb.Cache.Operations.Reads.{read, read_found}

-- What `incr` returns for the entry that the key has: an absent or expired one counts as new.
abbrev pub counted : {N : Type 0} → Clock → ℤ → Option (CacheEntry N) → Result ℤ
counted c delta none = ok delta
counted c delta (some e) =
    if is_expired c e
    then ok delta
    else elim (counter_of e.value) [ none ↦ err not_an_integer | some i ↦ ok (add_i64 i delta) ]

-- What is read once `incr` has returned, from what was read before.
abbrev pub read_after : {N : Type 0} → Result ℤ → Option (CacheValue N) → Option (CacheValue N)
read_after (ok i) before = some (integer i)
read_after (err e) before = before

module _ {N : Type 0} (c : Clock) (key : Text) (delta : ℤ) (s : InMemoryCacheStore N) where
  -- The entry that a successful `incr` leaves has the new number and is alive.
  incr_entry-found :
      (e : CacheEntry N) (i : ℤ)
      → HashMap.get key s.entries ≡ some e
      → is_expired c e ≡ false
      → (incr_entry c key delta e s).0 ≡ ok i
      → read c key (incr_entry c key delta e s).1 ≡ some (integer i)
  unfolding incr_entry
  incr_entry-found e i found live h = elim (Option-cases (counter_of e.value)) [
    | inl n ↦ ground arith
    | inr (j, was) ↦
        let e' : CacheEntry N = touch c (record e { value = integer (add_i64 j delta) }) in
        let w = write_entry key e' s in
        unfold touch is_expired in
        ground (arith, get-insert_self key e' s.entries, read_found c key e' w)
  ]

  incr-err : (e : CacheStoreError) → (incr c key delta s).0 ≡ err e → (incr c key delta s).1 ≡ s
  unfolding incr
  incr-err e h = ground arith

  incr-read :
      (i : ℤ) → (incr c key delta s).0 ≡ ok i → read c key (incr c key delta s).1 ≡ some (integer i)
  unfolding incr is_expired
  incr-read i h =
      let new : CacheEntry N = fresh_counter c key delta in
      let found = get-insert_self key new s.entries in
      elim (Option-cases (HashMap.get key s.entries)) [
        | inl n ↦ ground (arith, found, read_found c key new (incr c key delta s).1)
        | inr (e, was) ↦ elim (Bool-cases (is_expired c e)) [
          | inl old ↦ ground (arith, found, read_found c key new (incr c key delta s).1)
          | inr live ↦ ground (arith, incr_entry-found e i was live)
        ]
      ]

  -- `incr` adds, with the wrap-around of `i64`, to the number under the key, and starts at zero where
  -- the key is absent or expired; it refuses a value that is no number. A GET at that time reads
  -- the number that it returned, or what it read before if `incr` refused.
  pub incr_lem :
      ((incr c key delta s).0 ≡ counted c delta (HashMap.get key s.entries))
      × (read c key (incr c key delta s).1 ≡ read_after (incr c key delta s).0 (read c key s))
  unfolding incr
  incr_lem = (ground arith, by_result (incr c key delta s).0 refl)
    where
      by_result :
          (r : Result ℤ)
          → (incr c key delta s).0 ≡ r
          → read c key (incr c key delta s).1 ≡ read_after r (read c key s)
      by_result (ok i) h = incr-read i h
      by_result (err e) h = ap (read c key) (incr-err e h)
