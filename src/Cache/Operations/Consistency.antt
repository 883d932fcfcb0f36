-- ===== src/Cache/Operations/Consistency.antt =====
-- Every operation of the store keeps it consistent.
use squirreldb.Base.{
  ℕ, ◌≡◌, inl, inr, refl, arith, Text, Option, none, some, List, [], ℤ, Option-cases, Bool-cases,
  add_i64,
}
use squirreldb.Base.HashMap
use squirreldb.Base.HashMap.{remove-IsUnique, insert-IsUnique}
use squirreldb.Cache.Entry.{
  Clock, CacheEntry, CacheValue, new_entry, integer, touch, update_ttl, is_expired,
}
use squirreldb.Cache.Store.{
  InMemoryCacheStore, EvictionPolicy, new_store, evict_expired, evict_for_space,
}
use squirreldb.Cache.Store.Accounting.{total, total-remove, total-insert, IsConsistent}
use squirreldb.Cache.Store.Eviction.{evict_for_space-IsConsistent}
use squirreldb.Cache.Store.Expiry.{evict_expired-IsConsistent}
use squirreldb.Cache.Entry.{returned, SnapshotEntry}
use squirreldb.Cache.Operations.Listing.{restore_from_snapshot}
use squirreldb.Cache.Operations.Snapshots.{AreNew, restore_from_snapshot-IsConsistent}
use squirreldb.Cache.Operations.{
  get, store_entry, set_entry, set, delete, write_entry, expire, persist, flush, incr,
  fresh_counter, incr_entry, counter_of, effective_ttl, size_diff,
}

module _ {N : Type 0} (c : Clock) (key : Text) (s : InMemoryCacheStore N) (h : IsConsistent s) where
  -- Writing a new version of an entry of the same size.
  write_entry-IsConsistent :
      (e e' : CacheEntry N)
      → HashMap.get key s.entries ≡ some e
      → e'.size ≡ e.size
      → IsConsistent (write_entry key e' s)
  write_entry-IsConsistent e e' found same =
      ground (arith, total-insert key e' s.entries, insert-IsUnique key e' s.entries h.unique)

  pub get-IsConsistent : IsConsistent (get c key s).1
  unfolding get touch
  get-IsConsistent = elim (Option-cases (HashMap.get key s.entries)) [
    | inl n ↦ ground arith
    | inr (e, found) ↦ ground (
      arith,
      write_entry-IsConsistent e (touch c e) found refl,
      total-remove key s.entries,
      remove-IsUnique key s.entries h.unique,
    )
  ]

  pub delete-IsConsistent : IsConsistent (delete c key s).1
  unfolding delete
  delete-IsConsistent =
      ground (arith, total-remove key s.entries, remove-IsUnique key s.entries h.unique)

  pub expire-IsConsistent : (d : ℕ) → IsConsistent (expire c key d s).1
  unfolding expire update_ttl
  expire-IsConsistent d = elim (Option-cases (HashMap.get key s.entries)) [
    | inl n ↦ ground arith
    | inr (e, found) ↦ ground (arith, write_entry-IsConsistent e (update_ttl c (some d) e).1 found)
  ]

  pub persist-IsConsistent : IsConsistent (persist c key s).1
  unfolding persist update_ttl
  persist-IsConsistent = elim (Option-cases (HashMap.get key s.entries)) [
    | inl n ↦ ground arith
    | inr (e, found) ↦ ground (arith, write_entry-IsConsistent e (update_ttl c none e).1 found)
  ]

  incr_entry-IsConsistent :
      (delta : ℤ) (e : CacheEntry N)
      → HashMap.get key s.entries ≡ some e
      → IsConsistent (incr_entry c key delta e s).1
  unfolding incr_entry touch
  incr_entry-IsConsistent delta e found = elim (Option-cases (counter_of e.value)) [
    | inl n ↦ ground arith
    | inr (i, read) ↦ ground (
      arith,
      write_entry-IsConsistent e (touch c (record e { value = integer (add_i64 i delta) })) found
          refl,
    )
  ]

  pub incr-IsConsistent : (delta : ℤ) → IsConsistent (incr c key delta s).1
  unfolding incr
  incr-IsConsistent delta =
      let new : CacheEntry N = fresh_counter c key delta in
      elim (Option-cases (HashMap.get key s.entries)) [
        | inl n ↦
            rw (n, incr)
              (ground
                (arith, total-insert key new s.entries, insert-IsUnique key new s.entries h.unique))
        | inr (e, found) ↦
            rw (found, incr)
              (elim (Bool-cases (is_expired c e)) [
                | inl old ↦ rw old (
                    ground (
                      arith,
                      total-insert key new s.entries,
                      insert-IsUnique key new s.entries h.unique,
                    ))
                | inr live ↦ rw live (incr_entry-IsConsistent delta e found)
              ])
      ]

  store_entry-IsConsistent :
      (value : CacheValue N) (d : Option ℕ) (e : CacheEntry N)
      → IsConsistent (store_entry c key value d e s)
  unfolding store_entry
  store_entry-IsConsistent value d e =
      ground (arith, total-insert key e s.entries, insert-IsUnique key e s.entries h.unique)

  pub flush-IsConsistent : IsConsistent (flush c s)
  unfolding flush total HashMap.IsUnique
  flush-IsConsistent = ground arith

module _ {N : Type 0} (choose : ℕ → List Text → Option Text) (c : Clock) (key : Text)
    (value : CacheValue N) where
  set_entry-IsConsistent :
      (d : Option ℕ) (e : CacheEntry N) (s : InMemoryCacheStore N)
      → IsConsistent s
      → IsConsistent (set_entry choose c key value d e s).1
  unfolding set_entry
  set_entry-IsConsistent d e s h =
      let room = evict_for_space choose c (size_diff e.size key s) s in
      let kept = evict_for_space-IsConsistent choose c (size_diff e.size key s) s h in
      ground (
        arith,
        store_entry-IsConsistent c key s h value d e,
        kept,
        store_entry-IsConsistent c key room.1 kept value d e,
      )

  pub set-IsConsistent :
      (d : Option ℕ) (s : InMemoryCacheStore N)
      → IsConsistent s
      → IsConsistent (set choose c key value d s).1
  unfolding set
  set-IsConsistent d s h = elim (Option-cases (new_entry c key value (effective_ttl d s))) [
    | inl n ↦ rw (n, set) h
    | inr (e, made) ↦ rw (made, set) (set_entry-IsConsistent (effective_ttl d s) e s h)
  ]

-- One operation on the store, at some time and with some draws.
pub data Step {N : Type 0} : InMemoryCacheStore N → InMemoryCacheStore N → Type 0 where
  get_step : (c : Clock) (key : Text) (s : InMemoryCacheStore N) → Step s (get c key s).1
  set_step :
      (choose : ℕ → List Text → Option Text) (c : Clock) (key : Text) (value : CacheValue N)
      (ttl : Option ℕ) (s : InMemoryCacheStore N)
      → Step s (set choose c key value ttl s).1
  delete_step : (c : Clock) (key : Text) (s : InMemoryCacheStore N) → Step s (delete c key s).1
  expire_step :
      (c : Clock) (key : Text) (ttl : ℕ) (s : InMemoryCacheStore N) → Step s (expire c key ttl s).1
  persist_step : (c : Clock) (key : Text) (s : InMemoryCacheStore N) → Step s (persist c key s).1
  incr_step :
      (c : Clock) (key : Text) (delta : ℤ) (s : InMemoryCacheStore N)
      → Step s (incr c key delta s).1
  flush_step : (c : Clock) (s : InMemoryCacheStore N) → Step s (flush c s)
  expiry_step : (c : Clock) (s : InMemoryCacheStore N) → Step s (evict_expired c s).1

-- The stores that operations lead to, from an empty one or from one that was restored, as the server
-- does before it serves, from a snapshot whose keys are distinct.
pub data Reach {N : Type 0} : InMemoryCacheStore N → Type 0 where
  start :
      (limit : ℕ) (policy : EvictionPolicy) (ttl : Option ℕ) → Reach (new_store limit policy ttl)
  restored :
      (limit : ℕ) (policy : EvictionPolicy) (ttl : Option ℕ) (c : Clock)
      (es : List (SnapshotEntry N))
      → AreNew es []
      → (restore_from_snapshot c es (new_store limit policy ttl)).0 ≡ returned tt
      → Reach (restore_from_snapshot c es (new_store limit policy ttl)).1
  next : {s t : InMemoryCacheStore N} → Reach s → Step s t → Reach t

module _ {N : Type 0} where
  Step-IsConsistent : {s t : InMemoryCacheStore N} → Step s t → IsConsistent s → IsConsistent t
  Step-IsConsistent (get_step c key s) h = get-IsConsistent c key s h
  Step-IsConsistent (set_step choose c key value ttl s) h =
      set-IsConsistent choose c key value ttl s h
  Step-IsConsistent (delete_step c key s) h = delete-IsConsistent c key s h
  Step-IsConsistent (expire_step c key ttl s) h = expire-IsConsistent c key s h ttl
  Step-IsConsistent (persist_step c key s) h = persist-IsConsistent c key s h
  Step-IsConsistent (incr_step c key delta s) h = incr-IsConsistent c key s h delta
  Step-IsConsistent (flush_step c s) h = flush-IsConsistent c [] s h
  Step-IsConsistent (expiry_step c s) h = evict_expired-IsConsistent c s h

  -- In every store that get, set, delete, expire, persist, incr, flush and the sweep lead to, from an
  -- empty one or from one into which a snapshot with distinct keys was restored without a panic, keys
  -- are distinct and `memory_used` is the sum of the sizes of the entries, modulo 2 ^ 64.
  pub Reach-IsConsistent : {s : InMemoryCacheStore N} → Reach s → IsConsistent s
  unfolding new_store total HashMap.IsUnique
  Reach-IsConsistent (start limit policy ttl) = ground arith
  Reach-IsConsistent (restored limit policy ttl c es new done) =
      restore_from_snapshot-IsConsistent c es (new_store limit policy ttl) refl new done
  Reach-IsConsistent (next r st) = Step-IsConsistent st (Reach-IsConsistent r)
