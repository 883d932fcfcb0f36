-- ===== src/Cache/Operations/Memory.antt =====
-- The memory limit under `set`.
use squirreldb.Base.{
  ℕ, ◌+◌, ◌-◌, ◌%◌, ◌≤◌, ◌<◌, ◌≡◌, inl, inr, ap, arith, Text, len, text_eq_refl, Option, none, some,
  List, [], ◌∷◌, true, ltb, Bool-cases, Option-cases,
}
use squirreldb.Base.HashMap
use squirreldb.Cache.Entry.{
  Clock, returned, word, CacheEntry, CacheValue, approximate_size, new_entry,
}
use squirreldb.Cache.Store.{
  InMemoryCacheStore, lru, evict_for_space, is_no_eviction, key_to_evict, min_by_key, evict_entry,
  evict_round, evict_loop, make_room, ok, err, out_of_memory,
}
use squirreldb.Cache.Store.Accounting.{total, IsConsistent}
use squirreldb.Cache.Store.Victims.{IsChoice}
use squirreldb.Cache.Store.Room.{evict_for_space_lem}
use squirreldb.Cache.Operations.{set, set_entry, store_entry, effective_ttl}

-- `CacheEntry::new` gives the size that the key and the value have.
abbrev pub size_for : {N : Type 0} → Text → CacheValue N → ℕ
size_for key value = (approximate_size value + len key) % word

module _ {N : Type 0} (choose : ℕ → List Text → Option Text) (c : Clock) (key : Text)
    (value : CacheValue N) where
  refuses :
      (c : Clock) (s : InMemoryCacheStore N) (needed : ℕ)
      → is_no_eviction s.eviction_policy ≡ true
      → evict_for_space choose c needed s ≡ (err out_of_memory, s)
  unfolding evict_for_space
  refuses c s needed never = rw never

  new_entry-size :
      (d : Option ℕ) (e : CacheEntry N)
      → new_entry c key value d ≡ some e
      → e.size ≡ size_for key value
  unfolding new_entry
  new_entry-size none e h = ground arith
  new_entry-size (some d) e h = ground arith

  set_entry-le-limit :
      (ch : IsChoice choose) (d : Option ℕ) (e : CacheEntry N) (s : InMemoryCacheStore N)
      → IsConsistent s
      → HashMap.get key s.entries ≡ none
      → total s.entries + e.size < word
      → (set_entry choose c key value d e s).0 ≡ ok tt
      → ((set_entry choose c key value d e s).1).memory_used ≤ s.memory_limit
  unfolding set_entry store_entry
  set_entry-le-limit ch d e s h fresh fits done =
      let used : s.memory_used ≡ total s.entries = ground (arith, h.accounted) in
      elim (Bool-cases (ltb s.memory_limit ((s.memory_used + e.size) % word))) [
        | inr roomy ↦ ground arith
        | inl tight ↦ elim (Bool-cases (is_no_eviction s.eviction_policy)) [
          | inl never ↦ ground (arith, refuses c s e.size never)
          | inr p ↦
              let (result, room, void, only) = evict_for_space_lem choose c ch e.size s h p fits in
              ground (arith, result, room, only key)
        ]
      ]

  -- A SET of a key that has no entry yet, on a consistent store and with no sum passing the width of
  -- a word, leaves `memory_used` within the limit if it returns OK.
  pub set-le-memory_limit :
      (ch : IsChoice choose) (ttl : Option ℕ) (s : InMemoryCacheStore N)
      → IsConsistent s
      → HashMap.get key s.entries ≡ none
      → total s.entries + size_for key value < word
      → (set choose c key value ttl s).0 ≡ returned (ok tt)
      → ((set choose c key value ttl s).1).memory_used ≤ s.memory_limit
  unfolding set
  set-le-memory_limit ch ttl s h fresh fits done =
      elim (Option-cases (new_entry c key value (effective_ttl ttl s))) [
        | inl n ↦ ground arith
        | inr (e, made) ↦
            let size = new_entry-size (effective_ttl ttl s) e made in
            rw (made, set)
              (set_entry-le-limit ch (effective_ttl ttl s) e s h fresh (rw size fits)
                (ground (arith, made)))
      ]

  -- The store `s` with one entry, under `key`, and the policy `lru`.
  abbrev pub only_entry : CacheEntry N → InMemoryCacheStore N → InMemoryCacheStore N
  only_entry old s = record s {
    entries = (key, old) ∷ [];
    memory_used = old.size;
    eviction_policy = lru;
  }

  evict_only :
      (old : CacheEntry N) (needed : ℕ) (s : InMemoryCacheStore N)
      → old.size + needed < word
      → s.memory_limit < old.size + needed
      → needed ≤ s.memory_limit
      → ((evict_for_space choose c needed (only_entry old s)).0 ≡ ok tt)
        × (((evict_for_space choose c needed (only_entry old s)).1).memory_used ≡ 0)
        × (((evict_for_space choose c needed (only_entry old s)).1).entries ≡ [])
  unfolding evict_for_space make_room evict_loop evict_round evict_entry key_to_evict min_by_key
      HashMap.get HashMap.remove is_no_eviction
  evict_only old needed s fits over small =
      let same = text_eq_refl key in
      (ground (arith, same), ground (arith, same), ground (arith, same))

  -- An overwrite is charged only the growth of its entry, and eviction may take that very entry.
  -- Where the store holds one entry, evicts the least recently used and has no default time to live,
  -- a value for its key, without a time to live, that is no smaller than the entry and over the limit
  -- by no more than the old size is stored, and `memory_used` is over the limit.
  pub set_overwrite_exceeds :
      (old : CacheEntry N) (s : InMemoryCacheStore N)
      → s.default_ttl ≡ none
      → old.size ≤ size_for key value
      → s.memory_limit < size_for key value
      → size_for key value ≤ s.memory_limit + old.size
      → ((set choose c key value none (only_entry old s)).0 ≡ returned (ok tt))
        × (s.memory_limit < ((set choose c key value none (only_entry old s)).1).memory_used)
  unfolding set set_entry store_entry new_entry HashMap.get
  set_overwrite_exceeds old s d grows over within =
      let needed = size_for key value - old.size in
      let r = evict_only old needed s (omega arith) (omega arith) (omega arith) in
      let gone = ap (HashMap.get key) r.2 in
      let same = text_eq_refl key in (ground (arith, r, gone, same), ground (arith, r, gone, same))
