-- ===== src/Cache/Operations/Tests.antt =====
-- Tests of the store, and its theorems at concrete stores.
use squirreldb.Base.{
  add_i64, len, text_eq, if◌then◌else◌, parse_i64, parse_i64, ℕ, ◌+◌, ◌≤◌, ◌<◌, ◌≡◌, ◌⊎◌, inl, refl,
  arith, Text, lit, pos, Option, none, some, List, [], ◌∷◌,
}
use squirreldb.Base.HashMap
use squirreldb.Cache.Entry.{
  Clock, returned, CacheValue, string, CacheEntry, new_entry, entry_at, from_secs, is_expired,
  add_instant, instant_limit, approximate_size,
}
use squirreldb.Cache.Store.{
  InMemoryCacheStore, lru, ok, err, out_of_memory, new_store, evict_for_space, make_room,
  evict_loop, evict_round, evict_expired, key_to_evict, min_by_key, is_no_eviction,
}
use squirreldb.Cache.Store.Accounting.{IsConsistent, total}
use squirreldb.Cache.Store.Expiry.{evict_expired-get}
use squirreldb.Cache.Store.Room.{evict_for_space-ok, evict_for_space-err}
use squirreldb.Cache.Store.Victims.{IsChoice, key_to_evict-least, rank}
use squirreldb.Cache.Operations.{set, set_entry, store_entry, incr, incr_entry, counter_of}
use squirreldb.Cache.Operations.Consistency.{
  Reach, start, next, set_step, expiry_step, Reach-IsConsistent,
}
use squirreldb.Cache.Operations.Counter.{incr_lem, counted, read_after}
use squirreldb.Cache.Operations.Memory.{set-le-memory_limit, set_overwrite_exceeds, only_entry}
use squirreldb.Cache.Operations.Reads.{read, read-set}

-- JSON numbers do not matter here.
abbrev Store : Type 0
Store = InMemoryCacheStore ℕ

abbrev at_second : ℕ → Clock
at_second n = record { instant = from_secs n; system_time = n }

abbrev first_of : ℕ → List Text → Option Text
first_of draw [] = none
first_of draw (k ∷ ks) = some k

first_of-IsChoice : IsChoice first_of
first_of-IsChoice = record { chosen = λ draw k ks. (k, refl, inl refl) }

abbrev a : Text
a = lit "a"

abbrev b : Text
b = lit "b"

abbrev text : CacheValue ℕ
text = string (lit "12345")

abbrev empty : Store
empty = new_store 16 lru none

-- `SET a 12345 EX 5` at second 1, `SET b 12345` at second 2: 12 bytes are used.
abbrev one : Store
one = (set first_of (at_second 1) a text (some (from_secs 5)) empty).1

abbrev two : Store
two = (set first_of (at_second 2) b text none one).1

two-Reach : Reach two
two-Reach =
    next
      (next (start 16 lru none) (set_step first_of (at_second 1) a text (some (from_secs 5)) empty))
      (set_step first_of (at_second 2) b text none one)

two-IsConsistent : IsConsistent two
two-IsConsistent = Reach-IsConsistent two-Reach

set_runs : (two.memory_used ≡ 12) × (HashMap.keys two.entries ≡ a ∷ b ∷ [])
unfolding set set_entry store_entry new_entry HashMap.get HashMap.insert HashMap.keys new_store
    add_instant instant_limit approximate_size len text_eq is_no_eviction
set_runs = (refl, refl)

-- `SET c 12345` takes the place of `a`, which was accessed earliest.
set_evicts :
    HashMap.keys (set first_of (at_second 3) (lit "c") text none two).1.entries ≡ b ∷ lit "c" ∷ []
unfolding set set_entry store_entry new_entry evict_for_space make_room evict_loop evict_round
    key_to_evict min_by_key HashMap.get HashMap.insert HashMap.remove HashMap.keys new_store
    add_instant instant_limit approximate_size len text_eq is_no_eviction
set_evicts = refl

first_entry :
    HashMap.get a two.entries
    ≡ some (entry_at (at_second 1) a text (some (from_secs 5)) (some (from_secs 6)))
unfolding set set_entry store_entry new_entry HashMap.get HashMap.insert new_store add_instant
    instant_limit approximate_size len text_eq is_no_eviction
first_entry = refl

-- The theorems at these stores.

read-set_example :
    read (at_second 9) a (set first_of (at_second 3) a text (some (from_secs 5)) two).1 ≡ none
unfolding set set_entry store_entry new_entry HashMap.get HashMap.insert new_store add_instant
    instant_limit approximate_size len text_eq is_no_eviction
read-set_example =
    read-set first_of (at_second 3) a text (some (from_secs 5)) two (at_second 9) refl

Reach-IsConsistent_example : IsConsistent (evict_expired (at_second 9) two).1
Reach-IsConsistent_example = Reach-IsConsistent (next two-Reach (expiry_step (at_second 9) two))

evict_for_space-ok_example :
    ((evict_for_space first_of (at_second 3) 6 two).0 ≡ ok tt)
    × (((evict_for_space first_of (at_second 3) 6 two).1).memory_used + 6 ≤ two.memory_limit)
    × ((HashMap.get b ((evict_for_space first_of (at_second 3) 6 two).1).entries ≡ none)
        ⊎ (HashMap.get b ((evict_for_space first_of (at_second 3) 6 two).1).entries
            ≡ HashMap.get b two.entries))
unfolding set set_entry store_entry new_entry HashMap.get HashMap.insert new_store add_instant
    instant_limit approximate_size len text_eq is_no_eviction total
evict_for_space-ok_example =
    evict_for_space-ok first_of (at_second 3) first_of-IsChoice 6 two two-IsConsistent refl
      (omega arith) b (omega arith)

evict_for_space-err_example :
    ((evict_for_space first_of (at_second 3) 17 two).0 ≡ err out_of_memory)
    × (HashMap.get b ((evict_for_space first_of (at_second 3) 17 two).1).entries ≡ none)
unfolding set set_entry store_entry new_entry HashMap.get HashMap.insert new_store add_instant
    instant_limit approximate_size len text_eq is_no_eviction total
evict_for_space-err_example =
    evict_for_space-err first_of (at_second 3) first_of-IsChoice 17 two two-IsConsistent refl
      (omega arith) b (omega arith)

set-le-memory_limit_example :
    ((set first_of (at_second 3) (lit "c") text none two).1).memory_used ≤ two.memory_limit
unfolding set set_entry store_entry new_entry evict_for_space make_room evict_loop evict_round
    key_to_evict min_by_key HashMap.get HashMap.insert HashMap.remove new_store add_instant
    instant_limit approximate_size len text_eq is_no_eviction total
set-le-memory_limit_example =
    set-le-memory_limit first_of (at_second 3) (lit "c") text first_of-IsChoice none two
      two-IsConsistent refl (omega arith) refl

incr_lem_example :
    ((incr (at_second 3) b (pos 1) two).0
      ≡ counted (at_second 3) (pos 1) (HashMap.get b two.entries))
    × (read (at_second 3) b (incr (at_second 3) b (pos 1) two).1
        ≡ read_after (incr (at_second 3) b (pos 1) two).0 (read (at_second 3) b two))
incr_lem_example = incr_lem (at_second 3) b (pos 1) two

incr_counts : (incr (at_second 3) b (pos 1) two).0 ≡ ok (pos 12346)
unfolding incr incr_entry set set_entry store_entry new_entry HashMap.get HashMap.insert new_store
    add_instant instant_limit approximate_size len text_eq is_no_eviction counter_of is_expired
    parse_i64 add_i64
incr_counts = refl

evict_expired-get_example :
    HashMap.get a ((evict_expired (at_second 9) two).1).entries ≡ elim (HashMap.get a two.entries) [
      | none ↦ none
      | some e ↦ if is_expired (at_second 9) e then none else some e
    ]
evict_expired-get_example = evict_expired-get (at_second 9) a two two-IsConsistent.unique

key_to_evict-least_example :
    (e : CacheEntry ℕ) × (HashMap.get a two.entries ≡ some e)
    × (rank lru e ≤ rank lru (entry_at (at_second 2) b text none none))
unfolding set set_entry store_entry new_entry HashMap.get HashMap.insert new_store add_instant
    instant_limit approximate_size len text_eq is_no_eviction key_to_evict min_by_key
key_to_evict-least_example =
    key_to_evict-least first_of 0 lru two.entries a b (entry_at (at_second 2) b text none none)
      (inl refl) two-IsConsistent.unique refl refl

-- A value of 16 bytes behind one of 5 bytes, where the limit is 16.
set_overwrite_exceeds_example :
    ((set first_of (at_second 1) a (string (lit "1234567890123456")) none (
        only_entry first_of (at_second 1) a text (entry_at (at_second 1) a text none none) empty)).0
      ≡ returned (ok tt))
    × (16
        < ((set first_of (at_second 1) a (string (lit "1234567890123456")) none (
            only_entry first_of
              (at_second 1)
              a
              text
              (entry_at (at_second 1) a text none none)
              empty)).1
          ).memory_used)
unfolding new_store approximate_size len
set_overwrite_exceeds_example =
    set_overwrite_exceeds first_of (at_second 1) a (string (lit "1234567890123456"))
      (entry_at (at_second 1) a text none none) empty refl (omega arith) (omega arith) (omega arith)
