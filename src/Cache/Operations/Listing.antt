-- ===== src/Cache/Operations/Listing.antt =====
-- crates/sqrld/src/cache/store.rs: the operations that list entries or read lists of them.
use mathlib.Core.Option
use squirreldb.Base.{
  ℕ, ◌+◌, ◌%◌, Text, lit, text_eq, ◌==◌, Bool, not, ◌&&◌, ◌||◌, none, some, List, [], ◌∷◌, ◌++◌,
  map, filter, if◌then◌else◌,
}
use squirreldb.Base.HashMap
use squirreldb.Cache.Entry.{
  Clock, Outcome, returned, panicked, word, from_millis, CacheEntry, new_entry, is_expired,
  SnapshotEntry, to_snapshot,
}
use squirreldb.Cache.Externals.{Externals}
use squirreldb.Cache.Store.{InMemoryCacheStore}
use squirreldb.Cache.Operations.{live}

-- A character of a regular expression that has a meaning of its own.
abbrev pub is_special : ℕ → Bool
is_special c =
    c == b'.'
    || c == b'+'
    || c == b'('
    || c == b')'
    || c == b'['
    || c == b']'
    || c == b'{'
    || c == b'}'
    || c == b'|'
    || c == b'^'
    || c == b'$'
    || c == b'\\'

-- The loop of `glob_to_regex`.
unfoldable pub glob_body : Text → Text
glob_body [] = []
glob_body (c ∷ cs) =
    let rest = glob_body cs in
    if c == b'*'
    then b'.' ∷ b'*' ∷ rest
    else if c == b'?'
    then b'.' ∷ rest
    else if is_special c
    then b'\\' ∷ c ∷ rest
    else c ∷ rest

module _ {N : Type 0} (x : Externals N) where
  -- `glob_to_regex`; the expression `^$` matches the empty text only.
  unfoldable pub glob_to_regex : Text → Text → Bool
  unfolding glob_body
  glob_to_regex pattern = elim (x.regex (b'^' ∷ (glob_body pattern ++ b'$' ∷ []))) [
    | some is_match ↦ is_match
    | none ↦ λ key. text_eq key []
  ]

  unfoldable pub keys : Clock → Text → InMemoryCacheStore N → List Text
  unfolding glob_to_regex
  keys c pattern s =
      if text_eq pattern (lit "*")
      then HashMap.keys (live c s.entries)
      else HashMap.keys
          (filter (λ kv. not (is_expired c kv.1) && glob_to_regex pattern kv.0) s.entries)

module _ {N : Type 0} where
  unfoldable pub snapshot_entries : Clock → InMemoryCacheStore N → List (SnapshotEntry N)
  snapshot_entries c s =
      map (to_snapshot c) (filter (λ e. not (is_expired c e)) (HashMap.values s.entries))

  -- The loop of `restore_from_snapshot`, with the size added up; `none` where an entry panics.
  unfoldable pub restore_entries :
      Clock
      → List (SnapshotEntry N)
      → ℕ
      → List (Text × CacheEntry N)
      → Outcome ℕ × List (Text × CacheEntry N)
  restore_entries c [] total_size m = (returned total_size, m)
  restore_entries c (entry ∷ rest) total_size m =
      elim (new_entry c entry.key entry.value (Option.map from_millis entry.ttl_ms)) [
        | none ↦ (panicked, m)
        | some e ↦
            restore_entries c rest ((total_size + e.size) % word) (HashMap.insert entry.key e m)
      ]

  unfoldable pub restore_from_snapshot :
      Clock
      → List (SnapshotEntry N)
      → InMemoryCacheStore N
      → Outcome (Unit {0}) × InMemoryCacheStore N
  unfolding restore_entries
  restore_from_snapshot c es s =
      let (done, m) = restore_entries c es 0 s.entries in
      elim done [
        | returned size ↦ (returned tt, record s { entries = m; memory_used = size })
        | panicked ↦ (panicked, record s { entries = m })
      ]
