-- ===== src/Cache/Operations/Snapshots.antt =====
-- Snapshots: what `restore_from_snapshot` makes of entries.
use mathlib.Core.Option
use squirreldb.Base.{
  ℕ, ◌+◌, ◌%◌, ◌≡◌, inl, inr, refl, ◌∙◌, arith, Text, text_eq, false, none, List, [], ◌∷◌,
  Option-cases,
}
use squirreldb.Base.HashMap
use squirreldb.Base.HashMap.{insert-IsUnique, get-insert}
use squirreldb.Cache.Entry.{
  Clock, Outcome, returned, panicked, word, from_millis, CacheEntry, new_entry, SnapshotEntry,
}
use squirreldb.Cache.Store.{InMemoryCacheStore}
use squirreldb.Cache.Store.Accounting.{total, total-insert, IsConsistent}
use squirreldb.Cache.Operations.Listing.{restore_entries, restore_from_snapshot}

module _ {N : Type 0} where
  abbrev pub Apart : Text → List (SnapshotEntry N) → Type 0
  Apart key [] = Unit
  Apart key (e ∷ es) = (text_eq key e.key ≡ false) × Apart key es

  -- No entry of the snapshot has a key of the map, and their keys are distinct.
  unfoldable pub AreNew : List (SnapshotEntry N) → List (Text × CacheEntry N) → Type 0
  AreNew [] m = Unit
  AreNew (e ∷ es) m = (HashMap.get e.key m ≡ none) × AreNew es m × Apart e.key es

  AreNew-insert :
      (key : Text) (v : CacheEntry N) (es : List (SnapshotEntry N)) (m : List (Text × CacheEntry N))
      → AreNew es m
      → Apart key es
      → AreNew es (HashMap.insert key v m)
  unfolding AreNew
  AreNew-insert key v [] m h k = tt
  AreNew-insert key v (e ∷ es) m (h, t, a) (k, ks) =
      (get-insert key e.key v m ∙ rw k h, AreNew-insert key v es m t ks, a)

  -- What the loop of `restore_from_snapshot` reaches, where it does not panic.
  record Restored (r : Outcome ℕ × List (Text × CacheEntry N)) : Type 0 where
    unique : HashMap.IsUnique r.1
    accounted : (size : ℕ) → r.0 ≡ returned size → size ≡ total r.1 % word

  restore_entries-Restored :
      (c : Clock) (es : List (SnapshotEntry N)) (size : ℕ) (m : List (Text × CacheEntry N))
      → AreNew es m
      → HashMap.IsUnique m
      → size ≡ total m % word
      → Restored (restore_entries c es size m)
  unfolding restore_entries AreNew
  restore_entries-Restored c [] size m h u e = record {
    unique = u;
    accounted = λ n r. ground (arith, r, e);
  }
  restore_entries-Restored c (x ∷ es) size m (fresh, h, a) u e =
      elim (Option-cases (new_entry c x.key x.value (Option.map from_millis x.ttl_ms))) [
        | inl n ↦ rw (n, restore_entries) (record { unique = u; accounted = λ n' r. cc })
        | inr (v, made) ↦
            let m' = HashMap.insert x.key v m in
            let sum = total-insert x.key v m in
            let rest =
              restore_entries-Restored c es ((size + v.size) % word) m'
                (AreNew-insert x.key v es m h a) (insert-IsUnique x.key v m u)
                (ground (arith, sum, fresh, e)) in
            rw (made, restore_entries) (record { unique = rest.unique; accounted = rest.accounted })
      ]

  -- Restoring a snapshot with distinct keys on an empty store gives a consistent store, where no
  -- entry panics.
  pub restore_from_snapshot-IsConsistent :
      (c : Clock) (es : List (SnapshotEntry N)) (s : InMemoryCacheStore N)
      → s.entries ≡ []
      → AreNew es []
      → (restore_from_snapshot c es s).0 ≡ returned tt
      → IsConsistent (restore_from_snapshot c es s).1
  unfolding restore_from_snapshot total HashMap.IsUnique
  restore_from_snapshot-IsConsistent c es s void h done =
      let r = restore_entries-Restored c es 0 s.entries (rw void h) (rw void tt) (rw void refl) in
      by_outcome (restore_entries c es 0 s.entries).0 refl r
    where
      by_outcome :
          (o : Outcome ℕ)
          → (restore_entries c es 0 s.entries).0 ≡ o
          → Restored (restore_entries c es 0 s.entries)
          → IsConsistent (restore_from_snapshot c es s).1
      by_outcome (returned size) e k =
          rw (e, restore_from_snapshot)
            (record { unique = k.unique; accounted = k.accounted size e })
      by_outcome panicked e k = absurd (ground (arith, e))
