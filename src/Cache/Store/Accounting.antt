-- ===== src/Cache/Store/Accounting.antt =====
-- The sizes that the store adds up in `memory_used`, and the consistency of a store.
use squirreldb.Base.{ℕ, ◌+◌, ◌%◌, ◌≡◌, arith, Text, List, [], ◌∷◌}
use squirreldb.Base.HashMap
use squirreldb.Cache.Entry.{word, CacheEntry}
use squirreldb.Cache.Store.{InMemoryCacheStore, size_at}

module _ {N : Type 0} where
  unfoldable pub total : List (Text × CacheEntry N) → ℕ
  total [] = 0
  total ((k, e) ∷ m) = e.size + total m

  pub total-insert :
      (k : Text) (e : CacheEntry N) (m : List (Text × CacheEntry N))
      → total (HashMap.insert k e m) + size_at (HashMap.get k m) ≡ total m + e.size
  unfolding total HashMap.insert HashMap.get
  total-insert k e [] = omega arith
  total-insert k e ((j, w) ∷ m) = ground (arith, total-insert k e m)

  pub total-remove :
      (k : Text) (m : List (Text × CacheEntry N))
      → total (HashMap.remove k m) + size_at (HashMap.get k m) ≡ total m
  unfolding total HashMap.remove HashMap.get
  total-remove k [] = omega arith
  total-remove k ((j, w) ∷ m) = ground (arith, total-remove k m)

  -- Keys are distinct, and `memory_used` is the sum of the sizes, modulo the width of a word.
  pub record IsConsistent (s : InMemoryCacheStore N) : Type 0 where
    pub unique : HashMap.IsUnique s.entries
    pub accounted : s.memory_used ≡ total s.entries % word
