-- ===== src/Cache/Changes.antt =====
-- The change events of crates/sqrld/src/cache/events.rs.
use squirreldb.Base.{ℕ, Text, ℤ, Option}
use squirreldb.Cache.Entry.{CacheValue, Clock}

pub data CacheChangeOperation : Type 0 where
  set delete expire flush : CacheChangeOperation

pub record CacheChange (N : Type 0) : Type 0 where
  pub key : Text
  pub operation : CacheChangeOperation
  pub old_value : Option (CacheValue N)
  pub new_value : Option (CacheValue N)
  pub ttl : Option ℤ
  pub changed_at : ℕ

module _ {N : Type 0} where
  -- `CacheChange::new`
  abbrev pub new_change :
      Clock
      → Text
      → CacheChangeOperation
      → Option (CacheValue N)
      → Option (CacheValue N)
      → Option ℤ
      → CacheChange N
  new_change c key operation old_value new_value ttl = record {
    key = key;
    operation = operation;
    old_value = old_value;
    new_value = new_value;
    ttl = ttl;
    changed_at = c.system_time;
  }
