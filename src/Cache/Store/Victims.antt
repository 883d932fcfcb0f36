-- ===== src/Cache/Store/Victims.antt =====
-- Which entry a round of eviction takes.
use squirreldb.Base.{
  ℕ, ◌≤◌, ◌≡◌, ◌⊎◌, inl, inr, refl, sym, ◌∙◌, leb→le, leb→gt, ap, arith, Text, text_eq, text_eq_iff,
  text_eq_refl, Option, none, some, List, [], ◌∷◌, false, leb, Bool-cases,
}
use squirreldb.Base.HashMap
use squirreldb.Cache.Entry.{CacheEntry}
use squirreldb.Cache.Store.{
  EvictionPolicy, lru, lfu, random, no_eviction, is_no_eviction, min_by_key, key_to_evict,
}

abbrev pub IsIn : Text → List Text → Type 0
IsIn j [] = ⊥
IsIn j (k ∷ ks) = (k ≡ j) ⊎ IsIn j ks

-- What `SliceRandom::choose` documents: some element of a slice that is not empty.
pub record IsChoice (choose : ℕ → List Text → Option Text) : Type 0 where
  pub chosen :
      (draw : ℕ) (k : Text) (ks : List Text)
      → (j : Text) × (choose draw (k ∷ ks) ≡ some j) × IsIn j (k ∷ ks)

module _ {N : Type 0} where
  -- The key is in the map.
  abbrev pub IsKey : Text → List (Text × CacheEntry N) → Type 0
  IsKey k m = (e : CacheEntry N) × (HashMap.get k m ≡ some e)

  pub IsKey-cons :
      (k j : Text) (v : CacheEntry N) (m : List (Text × CacheEntry N))
      → IsKey k m
      → IsKey k ((j, v) ∷ m)
  unfolding HashMap.get
  IsKey-cons k j v m (e, h) = elim (Bool-cases (text_eq j k)) [
    | inl same ↦ (v, rw (same, HashMap.get))
    | inr other ↦ (e, rw (other, HashMap.get) h)
  ]

  IsKey-head : (k : Text) (v : CacheEntry N) (m : List (Text × CacheEntry N)) → IsKey k ((k, v) ∷ m)
  unfolding HashMap.get
  IsKey-head k v m = (v, rw (text_eq_refl k))

  keys-IsKey : (j : Text) (m : List (Text × CacheEntry N)) → IsIn j (HashMap.keys m) → IsKey j m
  unfolding HashMap.keys
  keys-IsKey j [] h = elim h [ ]
  keys-IsKey j ((k, v) ∷ m) (inl e) = rw (← e) (IsKey-head k v m)
  keys-IsKey j ((k, v) ∷ m) (inr h) = IsKey-cons j k v m (keys-IsKey j m h)

  get-cons_cases :
      (j k : Text) (v e : CacheEntry N) (m : List (Text × CacheEntry N))
      → HashMap.get j ((k, v) ∷ m) ≡ some e
      → (v ≡ e) ⊎ (HashMap.get j m ≡ some e)
  unfolding HashMap.get
  get-cons_cases j k v e m h = ground arith

  pub get-cons_fresh :
      (j k : Text) (v e : CacheEntry N) (m : List (Text × CacheEntry N))
      → HashMap.get k m ≡ none
      → HashMap.get j m ≡ some e
      → HashMap.get j ((k, v) ∷ m) ≡ some e
  unfolding HashMap.get
  get-cons_fresh j k v e m fresh h = elim (Bool-cases (text_eq k j)) [
    | inl same ↦ cc (sym fresh ∙ ap (λ i. HashMap.get i m) ((text_eq_iff k j).0 same) ∙ h)
    | inr other ↦ rw (other, HashMap.get) h
  ]

  module _ (f : CacheEntry N → ℕ) where
    -- The least entry of a map that is not empty: it is in the map, and none is below it.
    record Least (m : List (Text × CacheEntry N)) : Type 0 where
      pub victim : Text × CacheEntry N
      pub found : min_by_key (λ kv. f kv.1) m ≡ some victim
      pub present : HashMap.IsUnique m → HashMap.get victim.0 m ≡ some victim.1
      pub in_map : IsKey victim.0 m
      pub least : (j : Text) (e : CacheEntry N) → HashMap.get j m ≡ some e → f victim.1 ≤ f e

    min_by_key-Least :
        (k : Text) (v : CacheEntry N) (m : List (Text × CacheEntry N)) → Least ((k, v) ∷ m)
    unfolding min_by_key HashMap.get HashMap.IsUnique
    min_by_key-Least k v [] = record {
      victim = (k, v);
      found = refl;
      present = λ u. rw (text_eq_refl k);
      in_map = IsKey-head k v [];
      least = λ j e h. ground arith;
    }
    min_by_key-Least k v ((k', v') ∷ m) =
        let r = min_by_key-Least k' v' m in
        elim (Bool-cases (leb (f v) (f (r.victim).1))) [
          | inl first ↦ record {
            victim = (k, v);
            found = rw (r.found, min_by_key) (rw first);
            present = λ u. rw (text_eq_refl k);
            in_map = IsKey-head k v ((k', v') ∷ m);
            least = λ j e h. elim (get-cons_cases j k v e ((k', v') ∷ m) h) [
              | inl here ↦ rw (← here) (omega arith)
              | inr there ↦ omega (arith, r.least j e there, leb→le (f v) (f (r.victim).1) first)
            ];
          }
          | inr later ↦ record {
            victim = r.victim;
            found = rw (r.found, min_by_key) (rw later);
            present = λ u.
                get-cons_fresh (r.victim).0 k v (r.victim).1 ((k', v') ∷ m) u.0 (r.present u.1);
            in_map = IsKey-cons (r.victim).0 k v ((k', v') ∷ m) r.in_map;
            least = λ j e h. elim (get-cons_cases j k v e ((k', v') ∷ m) h) [
              | inl here ↦ rw (← here) (omega (arith, leb→gt (f v) (f (r.victim).1) later))
              | inr there ↦ r.least j e there
            ];
          }
        ]

-- What a policy orders entries by.
abbrev pub rank : {N : Type 0} → EvictionPolicy → CacheEntry N → ℕ
rank lru e = e.accessed_at
rank lfu e = e.access_count
rank _ e = 0

module _ {N : Type 0} (choose : ℕ → List Text → Option Text) (draw : ℕ) where
  -- Under `lru` and `lfu`, on a map with distinct keys, the victim is an entry of the map that no
  -- entry is ranked below: no other was accessed earlier, or less often.
  pub key_to_evict-least :
      (policy : EvictionPolicy) (m : List (Text × CacheEntry N)) (key j : Text)
      (other : CacheEntry N)
      → (policy ≡ lru) ⊎ (policy ≡ lfu)
      → HashMap.IsUnique m
      → key_to_evict choose draw policy m ≡ some key
      → HashMap.get j m ≡ some other
      → (e : CacheEntry N) × (HashMap.get key m ≡ some e) × (rank policy e ≤ rank policy other)
  unfolding key_to_evict min_by_key
  key_to_evict-least lru [] key j other p u h g = cc
  key_to_evict-least lru ((k, v) ∷ m) key j other p u h g =
      let r = min_by_key-Least (λ e. e.accessed_at) k v m in
      let same : (r.victim).0 ≡ key = ground (arith, r.found) in
      ((r.victim).1, rw (← same) (r.present u), r.least j other g)
  key_to_evict-least lfu [] key j other p u h g = cc
  key_to_evict-least lfu ((k, v) ∷ m) key j other p u h g =
      let r = min_by_key-Least (λ e. e.access_count) k v m in
      let same : (r.victim).0 ≡ key = ground (arith, r.found) in
      ((r.victim).1, rw (← same) (r.present u), r.least j other g)
  key_to_evict-least random m key j other p u h g = absurd (ground arith)
  key_to_evict-least no_eviction m key j other p u h g = absurd (ground arith)

  -- A policy that evicts finds a victim as long as there is an entry.
  pub key_to_evict-IsKey :
      (policy : EvictionPolicy) (k : Text) (v : CacheEntry N) (m : List (Text × CacheEntry N))
      → IsChoice choose
      → is_no_eviction policy ≡ false
      → (key : Text) × (key_to_evict choose draw policy ((k, v) ∷ m) ≡ some key)
        × IsKey key ((k, v) ∷ m)
  unfolding key_to_evict is_no_eviction HashMap.keys
  key_to_evict-IsKey lru k v m ch h =
      let r = min_by_key-Least (λ e. e.accessed_at) k v m in ((r.victim).0, rw r.found, r.in_map)
  key_to_evict-IsKey lfu k v m ch h =
      let r = min_by_key-Least (λ e. e.access_count) k v m in ((r.victim).0, rw r.found, r.in_map)
  key_to_evict-IsKey random k v m ch h =
      let (j, chosen, present) = ch.chosen draw k (HashMap.keys m) in
      (j, chosen, keys-IsKey j ((k, v) ∷ m) present)
  key_to_evict-IsKey no_eviction k v m ch h = cc
