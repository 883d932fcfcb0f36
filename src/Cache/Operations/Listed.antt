-- ===== src/Cache/Operations/Listed.antt =====
-- What `keys` lists.
use squirreldb.Base.{
  ◌≡◌, inl, inr, refl, ap, arith, Text, lit, text_eq, text_eq_iff, Bool, false, not, ◌&&◌, ◌||◌,
  Option, none, some, List, [], ◌∷◌, length, filter, Bool-cases,
}
use squirreldb.Base.HashMap
use squirreldb.Cache.Entry.{Clock, CacheEntry, is_expired}
use squirreldb.Cache.Externals.{Externals}
use squirreldb.Cache.Store.{InMemoryCacheStore}
use squirreldb.Cache.Operations.{exists, dbsize, live}
use squirreldb.Cache.Operations.Listing.{keys, glob_to_regex}

-- Whether a key is one of those named.
abbrev pub named : Text → List Text → Bool
named j [] = false
named j (key ∷ ks) = text_eq key j || named j ks

-- Whether `keys` takes a key for this pattern.
abbrev pub wanted : {N : Type 0} → Externals N → Text → Text → Bool
wanted x pattern key = text_eq pattern (lit "*") || glob_to_regex x pattern key

module _ {N : Type 0} where
  -- A test of the entry that a key has.
  abbrev found_by : (Text × CacheEntry N → Bool) → Text → Option (CacheEntry N) → Bool
  found_by p j none = false
  found_by p j (some e) = p (j, e)

  named-filter :
      (p : Text × CacheEntry N → Bool) (j : Text) (m : List (Text × CacheEntry N))
      → HashMap.IsUnique m
      → named j (HashMap.keys (filter p m)) ≡ found_by p j (HashMap.get j m)
  unfolding HashMap.keys HashMap.get HashMap.IsUnique
  named-filter p j [] u = refl
  named-filter p j ((k, v) ∷ m) (fresh, u) = elim (Bool-cases (text_eq k j)) [
    | inr other ↦ ground (arith, named-filter p j m u)
    | inl same ↦
        let e : k ≡ j = (text_eq_iff k j).0 same in
        let gone : HashMap.get j m ≡ none = rw (← e) fresh in
        let head : p (k, v) ≡ p (j, v) = ap (λ i. p (i, v)) e in
        ground (arith, named-filter p j m u, gone, head)
  ]

  length-keys : (m : List (Text × CacheEntry N)) → length (HashMap.keys m) ≡ length m
  unfolding HashMap.keys
  length-keys [] = refl
  length-keys ((k, v) ∷ m) = ground (arith, length-keys m)

  -- On a store with distinct keys, KEYS names a key exactly if it exists at that time and the pattern
  -- wants it; for the pattern `*` it names as many keys as DBSIZE counts.
  pub keys_lem :
      (x : Externals N) (c : Clock) (pattern j : Text) (s : InMemoryCacheStore N)
      → HashMap.IsUnique s.entries
      → (named j (keys x c pattern s) ≡ (exists c j s && wanted x pattern j))
        × (length (keys x c (lit "*") s) ≡ dbsize c s)
  unfolding keys exists dbsize text_eq
  keys_lem x c pattern j s u =
      let all = named-filter (λ kv. not (is_expired c kv.1)) j s.entries u in
      let some_of =
        named-filter (λ kv. not (is_expired c kv.1) && glob_to_regex x pattern kv.0) j s.entries
          u in
      (
        elim (Bool-cases (text_eq pattern (lit "*"))) [
          | inl star ↦ rw (star, keys) (ground (arith, all))
          | inr other ↦ rw (other, keys) (ground (arith, some_of))
        ],
        length-keys (live c s.entries),
      )
