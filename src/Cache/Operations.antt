-- ===== src/Cache/Operations.antt =====
-- crates/sqrld/src/cache/store.rs: the operations of the trait `CacheStore` on the in-memory store,
-- counters and snapshots.
pub mod Consistency
pub mod Reads
pub mod Memory
pub mod Ttl
pub mod Counter
pub mod Listing
pub mod Listed
pub mod Snapshots
pub mod Tests
use mathlib.Core.Option
use squirreldb.Base.{
  ℕ, ◌+◌, ◌-◌, ◌%◌, Text, lit, ℤ, negsuc, add_i64, as_i64, parse_i64, Bool, true, false, not,
  Option, none, some, List, [], map, ltb, if◌then◌else◌, length, filter,
}
use squirreldb.Base.HashMap
use squirreldb.Cache.Entry.{
  Clock, Outcome, returned, panicked, word, as_secs, CacheValue, integer, string, CacheEntry,
  new_entry, entry_at, is_expired, ttl_remaining, touch, update_ttl,
}
use squirreldb.Cache.Changes.{CacheChangeOperation, new_change}
use squirreldb.Cache.Store.{
  InMemoryCacheStore, CacheStats, Result, ok, err, not_an_integer, fetch_add, fetch_sub,
  emit_change, size_at, evict_for_space,
}

module _ {N : Type 0} where
  unfoldable pub get :
      Clock → Text → InMemoryCacheStore N → Option (CacheEntry N) × InMemoryCacheStore N
  get c key s = elim (HashMap.get key s.entries) [
    | none ↦ (none, record s { misses = fetch_add s.misses 1 })
    | some entry ↦
        if is_expired c entry
        then (
          none,
          record s {
            entries = HashMap.remove key s.entries;
            memory_used = fetch_sub s.memory_used entry.size;
            expired = fetch_add s.expired 1;
            misses = fetch_add s.misses 1;
          },
        )
        else (
          some (touch c entry),
          record s {
            entries = HashMap.insert key (touch c entry) s.entries;
            hits = fetch_add s.hits 1;
          },
        )
  ]

  -- `set` behind the eviction: the insertion and its event.
  pub store_entry :
      Clock
      → Text
      → CacheValue N
      → Option ℕ
      → CacheEntry N
      → InMemoryCacheStore N
      → InMemoryCacheStore N
  store_entry c key value ttl entry s =
      let old = HashMap.get key s.entries in
      let change =
        new_change c key CacheChangeOperation.set (Option.map (λ e. e.value) old) (some value)
          (Option.map (λ d. as_i64 (as_secs d)) ttl) in
      emit_change change (record s {
        entries = HashMap.insert key entry s.entries;
        memory_used = fetch_add (fetch_sub s.memory_used (size_at old)) entry.size;
      })

  -- Whether the new entry, of this size, passes the limit; and the growth.
  abbrev pub size_diff : ℕ → Text → InMemoryCacheStore N → ℕ
  size_diff new_size key s = new_size - size_at (HashMap.get key s.entries)

  set_entry :
      (ℕ → List Text → Option Text)
      → Clock
      → Text
      → CacheValue N
      → Option ℕ
      → CacheEntry N
      → InMemoryCacheStore N
      → Result (Unit {0}) × InMemoryCacheStore N
  unfolding store_entry
  set_entry choose c key value ttl entry s =
      let diff = size_diff entry.size key s in
      if ltb s.memory_limit ((s.memory_used + diff) % word)
      then (let (room, s') = evict_for_space choose c diff s in
          elim room [ ok u ↦ (ok tt, store_entry c key value ttl entry s') | err e ↦ (err e, s') ])
      else (ok tt, store_entry c key value ttl entry s)

  -- `ttl.or(self.default_ttl)`
  abbrev pub effective_ttl : Option ℕ → InMemoryCacheStore N → Option ℕ
  effective_ttl none s = s.default_ttl
  effective_ttl (some d) s = some d

  unfoldable pub set :
      (ℕ → List Text → Option Text)
      → Clock
      → Text
      → CacheValue N
      → Option ℕ
      → InMemoryCacheStore N
      → Outcome (Result (Unit {0})) × InMemoryCacheStore N
  unfolding set_entry
  set choose c key value ttl s = elim (new_entry c key value (effective_ttl ttl s)) [
    | none ↦ (panicked, s)
    | some entry ↦
        let (r, s') = set_entry choose c key value (effective_ttl ttl s) entry s in (returned r, s')
  ]

  unfoldable pub delete : Clock → Text → InMemoryCacheStore N → Bool × InMemoryCacheStore N
  delete c key s = elim (HashMap.get key s.entries) [
    | none ↦ (false, s)
    | some entry ↦ (
      true,
      emit_change (new_change c key CacheChangeOperation.delete (some entry.value) none none)
          (record s {
            entries = HashMap.remove key s.entries;
            memory_used = fetch_sub s.memory_used entry.size;
          }),
    )
  ]

  unfoldable pub exists : Clock → Text → InMemoryCacheStore N → Bool
  exists c key s = elim (HashMap.get key s.entries) [ some e ↦ not (is_expired c e) | none ↦ false ]

  -- An entry changed in place.
  abbrev pub write_entry : Text → CacheEntry N → InMemoryCacheStore N → InMemoryCacheStore N
  write_entry key e s = record s { entries = HashMap.insert key e s.entries }

  -- `update_ttl`, then what is returned if it did not panic.
  write_ttl :
      Clock
      → Text
      → Option ℕ
      → CacheEntry N
      → InMemoryCacheStore N
      → Outcome Bool × InMemoryCacheStore N
  write_ttl c key ttl e s =
      let (done, e') = update_ttl c ttl e in
      (elim done [ returned u ↦ returned true | panicked ↦ panicked ], write_entry key e' s)

  unfoldable pub expire :
      Clock → Text → ℕ → InMemoryCacheStore N → Outcome Bool × InMemoryCacheStore N
  unfolding write_ttl
  expire c key ttl s = elim (HashMap.get key s.entries) [
    | none ↦ (returned false, s)
    | some e ↦ if is_expired c e then (returned false, s) else write_ttl c key (some ttl) e s
  ]

  unfoldable pub persist : Clock → Text → InMemoryCacheStore N → Bool × InMemoryCacheStore N
  persist c key s = elim (HashMap.get key s.entries) [
    | none ↦ (false, s)
    | some e ↦ elim e.ttl [
      | none ↦ (false, s)
      | some d ↦ (true, write_entry key (update_ttl c none e).1 s)
    ]
  ]

  ttl_of_entry : Clock → CacheEntry N → ℤ
  ttl_of_entry c e =
      if is_expired c e
      then negsuc 1
      else elim (ttl_remaining c e) [ some d ↦ as_i64 (as_secs d) | none ↦ negsuc 0 ]

  unfoldable pub ttl : Clock → Text → InMemoryCacheStore N → Option ℤ
  unfolding ttl_of_entry
  ttl c key s = Option.map (ttl_of_entry c) (HashMap.get key s.entries)

  abbrev pub live : Clock → List (Text × CacheEntry N) → List (Text × CacheEntry N)
  live c m = filter (λ kv. not (is_expired c kv.1)) m

  unfoldable pub flush : Clock → InMemoryCacheStore N → InMemoryCacheStore N
  flush c s =
      emit_change (new_change c (lit "*") CacheChangeOperation.flush none none none)
        (record s { entries = []; memory_used = 0 })

  unfoldable pub dbsize : Clock → InMemoryCacheStore N → ℕ
  dbsize c s = length (live c s.entries)

  unfoldable pub info : Clock → InMemoryCacheStore N → CacheStats
  info c s = record {
    keys = length (live c s.entries);
    memory_used = s.memory_used;
    memory_limit = s.memory_limit;
    hits = s.hits;
    misses = s.misses;
    evictions = s.evictions;
    expired = s.expired;
  }

  -- The number that `incr` reads in a value.
  pub counter_of : CacheValue N → Option ℤ
  counter_of (integer i) = some i
  counter_of (string t) = parse_i64 t
  counter_of _ = none

  fresh_counter : Clock → Text → ℤ → CacheEntry N
  fresh_counter c key delta = entry_at c key (integer delta) none none

  incr_entry :
      Clock → Text → ℤ → CacheEntry N → InMemoryCacheStore N → Result ℤ × InMemoryCacheStore N
  unfolding counter_of
  incr_entry c key delta e s = elim (counter_of e.value) [
    | none ↦ (err not_an_integer, s)
    | some i ↦
        let new_val = add_i64 i delta in
        (ok new_val, write_entry key (touch c (record e { value = integer new_val })) s)
  ]

  unfoldable pub incr : Clock → Text → ℤ → InMemoryCacheStore N → Result ℤ × InMemoryCacheStore N
  unfolding incr_entry fresh_counter
  incr c key delta s =
      let new = fresh_counter c key delta in
      elim (HashMap.get key s.entries) [
        | none ↦ (
          ok delta,
          record s {
            entries = HashMap.insert key new s.entries;
            memory_used = fetch_add s.memory_used new.size;
          },
        )
        | some e ↦
            if is_expired c e
            then (
              ok delta,
              record s {
                entries = HashMap.insert key new s.entries;
                memory_used = fetch_sub (fetch_add s.memory_used new.size) e.size;
              },
            )
            else incr_entry c key delta e s
      ]
