-- ===== src/Cache/Store.antt =====
-- crates/sqrld/src/cache/store.rs: the in-memory store. The locks and the atomics are taken for the
-- whole of an operation: operations are atomic steps, in some order.
pub mod Accounting
pub mod Eviction
pub mod Victims
pub mod Room
pub mod Expiry
use mathlib.Core.Option
use squirreldb.Base.{
  ℕ, zero, suc, ◌+◌, ◌-◌, ◌%◌, Text, lit, Bool, true, false, not, ◌&&◌, Option, none, some, List,
  [], ◌∷◌, ◌++◌, map, ltb, leb, if◌then◌else◌, length, filter, is_empty,
}
use squirreldb.Base.HashMap
use squirreldb.Cache.Entry.{Clock, word, integer, CacheEntry, is_expired}
use squirreldb.Cache.Changes.{CacheChange, CacheChangeOperation, new_change}

pub data EvictionPolicy : Type 0 where
  lru lfu random no_eviction : EvictionPolicy

pub record CacheStats : Type 0 where
  pub keys : ℕ
  pub memory_used : ℕ
  pub memory_limit : ℕ
  pub hits : ℕ
  pub misses : ℕ
  pub evictions : ℕ
  pub expired : ℕ

pub data CacheStoreError : Type 0 where
  out_of_memory : CacheStoreError
  invalid_value : Text → CacheStoreError

pub data Result {ℓ} (A : Type ℓ) : Type ℓ where
  ok : A → Result A
  err : CacheStoreError → Result A

-- `Display` of an error.
unfoldable pub show_error : CacheStoreError → Text
show_error out_of_memory = lit "OOM: out of memory"
show_error (invalid_value msg) = lit "Invalid value: " ++ msg

-- `changes` are the events sent on `change_tx`, in order.
pub record InMemoryCacheStore (N : Type 0) : Type 0 where
  pub entries : List (Text × CacheEntry N)
  pub memory_used : ℕ
  pub memory_limit : ℕ
  pub eviction_policy : EvictionPolicy
  pub default_ttl : Option ℕ
  pub hits : ℕ
  pub misses : ℕ
  pub evictions : ℕ
  pub expired : ℕ
  pub changes : List (CacheChange N)

-- `fetch_add` and `fetch_sub`, which wrap around.
abbrev pub fetch_add : ℕ → ℕ → ℕ
fetch_add a b = (a + b) % word

abbrev pub fetch_sub : ℕ → ℕ → ℕ
fetch_sub a b = (a + (word - b % word)) % word

-- `min_by_key`: the first of the entries with the least key.
unfoldable pub min_by_key {ℓ} : {A : Type ℓ} → (A → ℕ) → List A → Option A
min_by_key f [] = none
min_by_key f (x ∷ xs) = elim (min_by_key f xs) [
  | none ↦ some x
  | some y ↦ if leb (f x) (f y) then some x else some y
]

pub not_an_integer : CacheStoreError
not_an_integer = invalid_value (lit "value is not an integer")

unfoldable pub is_no_eviction : EvictionPolicy → Bool
is_no_eviction no_eviction = true
is_no_eviction _ = false

module _ {N : Type 0} where
  unfoldable pub new_store : ℕ → EvictionPolicy → Option ℕ → InMemoryCacheStore N
  new_store limit policy default_ttl = record {
    entries = [];
    memory_used = 0;
    memory_limit = limit;
    eviction_policy = policy;
    default_ttl = default_ttl;
    hits = 0;
    misses = 0;
    evictions = 0;
    expired = 0;
    changes = [];
  }

  -- `data.get(key).map(|e| e.size).unwrap_or(0)`
  abbrev pub size_at : Option (CacheEntry N) → ℕ
  size_at none = 0
  size_at (some e) = e.size

  abbrev pub emit_change : CacheChange N → InMemoryCacheStore N → InMemoryCacheStore N
  emit_change change s = record s { changes = s.changes ++ change ∷ [] }

  -- The body of the loop of `evict_expired`.
  expire_key : Clock → Text → InMemoryCacheStore N → InMemoryCacheStore N
  expire_key c key s = elim (HashMap.get key s.entries) [
    | none ↦ s
    | some entry ↦
        emit_change (new_change c key CacheChangeOperation.expire (some entry.value) none none)
          (record s {
            entries = HashMap.remove key s.entries;
            memory_used = fetch_sub s.memory_used entry.size;
            expired = fetch_add s.expired 1;
          })
  ]

  expire_keys : Clock → List Text → InMemoryCacheStore N → InMemoryCacheStore N
  expire_keys c [] s = s
  expire_keys c (key ∷ ks) s = expire_keys c ks (expire_key c key s)

  abbrev pub expired_keys : Clock → List (Text × CacheEntry N) → List Text
  expired_keys c m = HashMap.keys (filter (λ kv. is_expired c kv.1) m)

  unfoldable pub evict_expired : Clock → InMemoryCacheStore N → ℕ × InMemoryCacheStore N
  unfolding expire_keys expire_key
  evict_expired c s = let ks = expired_keys c s.entries in (length ks, expire_keys c ks s)

  -- The victim of a round of `evict_for_space`; `choose draw` is the draw of `keys.choose`.
  unfoldable pub key_to_evict :
      (ℕ → List Text → Option Text) → ℕ → EvictionPolicy → List (Text × CacheEntry N) → Option Text
  key_to_evict choose draw lru m = Option.map (λ kv. kv.0) (min_by_key (λ kv. kv.1.accessed_at) m)
  key_to_evict choose draw lfu m = Option.map (λ kv. kv.0) (min_by_key (λ kv. kv.1.access_count) m)
  key_to_evict choose draw random m = choose draw (HashMap.keys m)
  key_to_evict choose draw no_eviction m = none

  unfoldable pub evict_entry :
      Clock → Text → CacheEntry N → InMemoryCacheStore N → InMemoryCacheStore N
  evict_entry c key entry s =
      emit_change (new_change c key CacheChangeOperation.delete (some entry.value) none none)
        (record s { entries = HashMap.remove key s.entries; evictions = fetch_add s.evictions 1 })

  -- One round of the loop: the size that it frees and the store behind it; `none` is `break`.
  unfoldable pub evict_round :
      (ℕ → List Text → Option Text)
      → Clock
      → ℕ
      → InMemoryCacheStore N
      → Option (ℕ × InMemoryCacheStore N)
  unfolding evict_entry
  evict_round choose c draw s = elim (key_to_evict choose draw s.eviction_policy s.entries) [
    | none ↦ none
    | some key ↦ elim (HashMap.get key s.entries) [
      | none ↦ some (0, s)
      | some entry ↦ some (entry.size, evict_entry c key entry s)
    ]
  ]

  -- `while freed < to_free && !data.is_empty()`, for at most `fuel` rounds.
  unfoldable pub evict_loop :
      (ℕ → List Text → Option Text)
      → Clock
      → ℕ
      → ℕ
      → ℕ
      → ℕ
      → InMemoryCacheStore N
      → ℕ × InMemoryCacheStore N
  evict_loop choose c to_free zero draw freed s = (freed, s)
  evict_loop choose c to_free (suc fuel) draw freed s =
      elim (ltb freed to_free && not (is_empty s.entries)) [
        | false ↦ (freed, s)
        | true ↦ elim (evict_round choose c draw s) [
          | none ↦ (freed, s)
          | some (size, s') ↦ evict_loop choose c to_free fuel (suc draw) ((freed + size) % word) s'
        ]
      ]

  -- The rounds behind the early returns, and what is returned.
  unfoldable pub make_room :
      (ℕ → List Text → Option Text)
      → Clock
      → ℕ
      → InMemoryCacheStore N
      → Result (Unit {0}) × InMemoryCacheStore N
  make_room choose c to_free s =
      let (freed, s') = evict_loop choose c to_free (length s.entries) 0 0 s in
      (
        (if leb to_free freed then ok tt else err out_of_memory),
        record s' { memory_used = fetch_sub s'.memory_used freed },
      )

  unfoldable pub evict_for_space :
      (ℕ → List Text → Option Text)
      → Clock
      → ℕ
      → InMemoryCacheStore N
      → Result (Unit {0}) × InMemoryCacheStore N
  unfolding is_no_eviction
  evict_for_space choose c needed s =
      if is_no_eviction s.eviction_policy
      then (err out_of_memory, s)
      else if leb ((s.memory_used + needed) % word) s.memory_limit
      then (ok tt, s)
      else make_room choose c ((s.memory_used + needed) % word - s.memory_limit) s
