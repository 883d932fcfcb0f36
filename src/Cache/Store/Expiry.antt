-- ===== src/Cache/Store/Expiry.antt =====
-- The sweep of `evict_expired`.
use squirreldb.Base.{
  ◌≡◌, refl, arith, Text, text_eq, none, some, List, [], ◌∷◌, true, false, Option-cases, Bool-cases,
  text_eq_iff, text_eq_refl, inl, inr, ◌∙◌, ◌≢◌, if◌then◌else◌,
}
use mathlib.Core.Path.{subst}
use squirreldb.Base.HashMap
use squirreldb.Base.HashMap.{remove-IsUnique, get-remove_self, get-remove-none, get-remove_ne}
use squirreldb.Cache.Entry.{Clock, CacheEntry, is_expired}
use squirreldb.Cache.Store.{
  InMemoryCacheStore, expire_key, expire_keys, expired_keys, evict_expired,
}
use squirreldb.Cache.Store.Victims.{IsIn, get-cons_fresh}
use squirreldb.Cache.Store.Accounting.{total-remove, IsConsistent}

module _ {N : Type 0} (c : Clock) where
  expire_key-IsConsistent :
      (key : Text) (s : InMemoryCacheStore N) → IsConsistent s → IsConsistent (expire_key c key s)
  unfolding expire_key
  expire_key-IsConsistent key s h =
      ground (arith, total-remove key s.entries, remove-IsUnique key s.entries h.unique)

  expire_keys-IsConsistent :
      (ks : List Text) (s : InMemoryCacheStore N)
      → IsConsistent s
      → IsConsistent (expire_keys c ks s)
  unfolding expire_keys
  expire_keys-IsConsistent [] s h = h
  expire_keys-IsConsistent (key ∷ ks) s h =
      expire_keys-IsConsistent ks (expire_key c key s) (expire_key-IsConsistent key s h)

  pub evict_expired-IsConsistent :
      (s : InMemoryCacheStore N) → IsConsistent s → IsConsistent (evict_expired c s).1
  unfolding evict_expired
  evict_expired-IsConsistent s h = expire_keys-IsConsistent (expired_keys c s.entries) s h

module _ {N : Type 0} (c : Clock) (j : Text) where
  get-expire_key_self :
      (s : InMemoryCacheStore N)
      → HashMap.IsUnique s.entries
      → HashMap.get j (expire_key c j s).entries ≡ none
  unfolding expire_key
  get-expire_key_self s u = elim (Option-cases (HashMap.get j s.entries)) [
    | inl n ↦ rw (n, expire_key) n
    | inr (e, found) ↦ rw (found, expire_key) (get-remove_self j s.entries u)
  ]

  get-expire_key-none :
      (k : Text) (s : InMemoryCacheStore N)
      → HashMap.get j s.entries ≡ none
      → HashMap.get j (expire_key c k s).entries ≡ none
  unfolding expire_key
  get-expire_key-none k s h = ground (arith, get-remove-none k j s.entries)

  get-expire_key_ne :
      (k : Text) (s : InMemoryCacheStore N)
      → k ≢ j
      → HashMap.get j (expire_key c k s).entries ≡ HashMap.get j s.entries
  unfolding expire_key
  get-expire_key_ne k s ne = ground (arith, get-remove_ne k j s.entries ne)

  expire_key-IsUnique :
      (k : Text) (s : InMemoryCacheStore N)
      → HashMap.IsUnique s.entries
      → HashMap.IsUnique (expire_key c k s).entries
  unfolding expire_key
  expire_key-IsUnique k s u = ground (arith, remove-IsUnique k s.entries u)

  get-expire_keys-none :
      (ks : List Text) (s : InMemoryCacheStore N)
      → HashMap.get j s.entries ≡ none
      → HashMap.get j (expire_keys c ks s).entries ≡ none
  unfolding expire_keys
  get-expire_keys-none [] s h = h
  get-expire_keys-none (k ∷ ks) s h =
      get-expire_keys-none ks (expire_key c k s) (get-expire_key-none k s h)

  get-expire_keys_in :
      (ks : List Text) (s : InMemoryCacheStore N)
      → HashMap.IsUnique s.entries
      → IsIn j ks
      → HashMap.get j (expire_keys c ks s).entries ≡ none
  unfolding expire_keys
  get-expire_keys_in [] s u h = elim h [ ]
  get-expire_keys_in (k ∷ ks) s u (inl e) =
      get-expire_keys-none ks (expire_key c k s) (rw e (get-expire_key_self s u))
  get-expire_keys_in (k ∷ ks) s u (inr h) =
      get-expire_keys_in ks (expire_key c k s) (expire_key-IsUnique k s u) h

  get-expire_keys_out :
      (ks : List Text) (s : InMemoryCacheStore N)
      → ¬ IsIn j ks
      → HashMap.get j (expire_keys c ks s).entries ≡ HashMap.get j s.entries
  unfolding expire_keys
  get-expire_keys_out [] s h = refl
  get-expire_keys_out (k ∷ ks) s h =
      get-expire_keys_out ks (expire_key c k s) (λ i. h (inr i))
      ∙ get-expire_key_ne k s (λ e. h (inl e))

  IsIn-expired_keys :
      (e : CacheEntry N) (m : List (Text × CacheEntry N))
      → HashMap.get j m ≡ some e
      → is_expired c e ≡ true
      → IsIn j (expired_keys c m)
  unfolding HashMap.get HashMap.keys
  IsIn-expired_keys e [] h old = cc
  IsIn-expired_keys e ((k, v) ∷ m) h old = elim (Bool-cases (text_eq k j)) [
    | inl same ↦ ground (arith, (text_eq_iff k j).0 same)
    | inr other ↦ ground (arith, IsIn-expired_keys e m)
  ]

  expired_keys-old :
      (k : Text) (v : CacheEntry N) (m : List (Text × CacheEntry N))
      → is_expired c v ≡ true
      → expired_keys c ((k, v) ∷ m) ≡ k ∷ expired_keys c m
  unfolding HashMap.keys
  expired_keys-old k v m old = ground arith

  expired_keys-live :
      (k : Text) (v : CacheEntry N) (m : List (Text × CacheEntry N))
      → is_expired c v ≡ false
      → expired_keys c ((k, v) ∷ m) ≡ expired_keys c m
  unfolding HashMap.keys
  expired_keys-live k v m live = ground arith

  get-cons_self :
      (k : Text) (v : CacheEntry N) (m : List (Text × CacheEntry N))
      → HashMap.get k ((k, v) ∷ m) ≡ some v
  unfolding HashMap.get
  get-cons_self k v m = rw (text_eq_refl k)

  expired_later :
      (k : Text) (v : CacheEntry N) (m : List (Text × CacheEntry N))
      → HashMap.get k m ≡ none
      → (e : CacheEntry N) × (HashMap.get j m ≡ some e) × (is_expired c e ≡ true)
      → (e : CacheEntry N) × (HashMap.get j ((k, v) ∷ m) ≡ some e) × (is_expired c e ≡ true)
  expired_later k v m fresh (e, found, old) = (e, get-cons_fresh j k v e m fresh found, old)

  expired_keys-get :
      (m : List (Text × CacheEntry N))
      → HashMap.IsUnique m
      → IsIn j (expired_keys c m)
      → (e : CacheEntry N) × (HashMap.get j m ≡ some e) × (is_expired c e ≡ true)
  unfolding HashMap.IsUnique HashMap.keys
  expired_keys-get [] u h = elim h [ ]
  expired_keys-get ((k, v) ∷ m) (fresh, u) h = elim (Bool-cases (is_expired c v)) [
    | inr live ↦
        expired_later k v m fresh
          (expired_keys-get m u (subst (IsIn j) (expired_keys-live k v m live) h))
    | inl old ↦ elim (subst (IsIn j) (expired_keys-old k v m old) h) [
      | inl here ↦ (v, rw (← here) (get-cons_self k v m), old)
      | inr there ↦ expired_later k v m fresh (expired_keys-get m u there)
    ]
  ]

  -- On a store with distinct keys: after the sweep a key has its entry exactly if it had one that
  -- has not expired.
  pub evict_expired-get :
      (s : InMemoryCacheStore N)
      → HashMap.IsUnique s.entries
      → HashMap.get j ((evict_expired c s).1).entries ≡ elim (HashMap.get j s.entries) [
        | none ↦ none
        | some e ↦ if is_expired c e then none else some e
      ]
  unfolding evict_expired
  evict_expired-get s u = elim (Option-cases (HashMap.get j s.entries)) [
    | inl n ↦ rw n (get-expire_keys-none (expired_keys c s.entries) s n)
    | inr (e, found) ↦ elim (Bool-cases (is_expired c e)) [
      | inl old ↦ rw found (
          rw old (
            get-expire_keys_in (expired_keys c s.entries) s u
              (IsIn-expired_keys e s.entries found old)))
      | inr live ↦ rw found (
          rw live (
            get-expire_keys_out (expired_keys c s.entries) s
              (λ i. let (e', found', old) = expired_keys-get s.entries u i in cc)
            ∙ found))
    ]
  ]
