-- ===== src/Cache/Operations/Reads.antt =====
-- What a client reads after a write.
use squirreldb.Base.{
  ℕ, ◌+◌, ◌≡◌, inl, inr, arith, Text, text_eq, text_eq_iff, Option, none, some, List, Bool, true,
  false, not, leb, if◌then◌else◌, Option-cases, Bool-cases,
}
use mathlib.Core.Option
use squirreldb.Base.HashMap
use squirreldb.Base.HashMap.{get-insert_self, get-remove_self, get-remove}
use squirreldb.Cache.Entry.{
  Clock, returned, CacheEntry, CacheValue, new_entry, add_instant, is_expired, touch,
}
use squirreldb.Cache.Store.{InMemoryCacheStore, ok, evict_for_space}
use squirreldb.Cache.Operations.{
  get, store_entry, set_entry, set, delete, exists, effective_ttl, size_diff,
}

-- The value that a GET returns.
abbrev pub read : {N : Type 0} → Clock → Text → InMemoryCacheStore N → Option (CacheValue N)
read c key s = Option.map (λ e. e.value) (get c key s).0

-- Whether a value written at one time with this time to live can be read at a later time.
abbrev pub lasts : Clock → Option ℕ → Clock → Bool
lasts c none c' = true
lasts c (some d) c' = leb c'.instant (c.instant + d)

module _ {N : Type 0} (c : Clock) (key : Text) (e : CacheEntry N) (s : InMemoryCacheStore N) where
  pub read_found :
      HashMap.get key s.entries ≡ some e
      → read c key s ≡ (if is_expired c e then none else some e.value)
  unfolding get touch
  read_found h = ground arith

module _ {N : Type 0} (choose : ℕ → List Text → Option Text) (c : Clock) (key : Text)
    (value : CacheValue N) where
  set_entry-found :
      (d : Option ℕ) (e : CacheEntry N) (s : InMemoryCacheStore N)
      → (set_entry choose c key value d e s).0 ≡ ok tt
      → HashMap.get key ((set_entry choose c key value d e s).1).entries ≡ some e
  unfolding set_entry store_entry
  set_entry-found d e s h = ground (
    arith,
    get-insert_self key e s.entries,
    get-insert_self key e ((evict_for_space choose c (size_diff e.size key s) s).1).entries,
  )

  new_entry-lasts :
      (d : Option ℕ) (c' : Clock) (e : CacheEntry N)
      → new_entry c key value d ≡ some e
      → (e.value ≡ value) × (is_expired c' e ≡ not (lasts c d c'))
  unfolding new_entry is_expired add_instant
  new_entry-lasts none c' e h = ground arith
  new_entry-lasts (some d) c' e h = ground arith

  -- After a SET that returned OK, a GET at any time returns the value until the time to live, its
  -- own or the store's default, has passed, and nothing from then on.
  pub read-set :
      (ttl : Option ℕ) (s : InMemoryCacheStore N) (c' : Clock)
      → (set choose c key value ttl s).0 ≡ returned (ok tt)
      → read c' key (set choose c key value ttl s).1
        ≡ (if lasts c (effective_ttl ttl s) c' then some value else none)
  unfolding set
  read-set ttl s c' h = elim (Option-cases (new_entry c key value (effective_ttl ttl s))) [
    | inl n ↦ ground arith
    | inr (e, made) ↦
        let facts = new_entry-lasts (effective_ttl ttl s) c' e made in
        let r = set_entry choose c key value (effective_ttl ttl s) e s in
        rw (made, set)
          (ground
            (arith, facts, set_entry-found (effective_ttl ttl s) e s, read_found c' key e r.1))
  ]

-- Whether there is an entry.
abbrev pub is_some : {N : Type 0} → Option (CacheEntry N) → Bool
is_some none = false
is_some (some e) = true

module _ {N : Type 0} (c : Clock) (key : Text) (s : InMemoryCacheStore N) where
  pub get-delete :
      (j : Text)
      → HashMap.IsUnique s.entries
      → HashMap.get j ((delete c key s).1).entries
        ≡ (if text_eq key j then none else HashMap.get j s.entries)
  unfolding delete
  get-delete j u = elim (Option-cases (HashMap.get key s.entries)) [
    | inr (e, found) ↦ rw (found, delete) (get-remove key j s.entries u)
    | inl n ↦
        rw (n, delete)
          (elim (Bool-cases (text_eq key j)) [
            | inl same ↦ rw same (rw (← (text_eq_iff key j).0 same) n)
            | inr other ↦ rw other
          ])
  ]

  -- On a store with distinct keys, DEL returns whether the key had an entry. Afterwards the key
  -- cannot be read at any time, and any other key has the entry that it had.
  pub delete_lem :
      (c' : Clock) (j : Text)
      → HashMap.IsUnique s.entries
      → ((delete c key s).0 ≡ is_some (HashMap.get key s.entries))
        × (read c' key (delete c key s).1 ≡ none)
        × (exists c' key (delete c key s).1 ≡ false)
        × (HashMap.get j ((delete c key s).1).entries
            ≡ (if text_eq key j then none else HashMap.get j s.entries))
  unfolding delete get exists
  delete_lem c' j u =
      let gone = get-remove_self key s.entries u in
      (ground arith, ground (arith, gone), ground (arith, gone), get-delete j u)
