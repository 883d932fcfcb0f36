-- ===== src/Cache/Commands/Tests.antt =====
-- Tests of the commands, and their theorems at a concrete store.
use squirreldb.Base.{
  List, ℕ, ◌+◌, ◌-◌, ◌≡◌, refl, lit, parse_u64, text_eq, len, leb, ◌&&◌, none, some, [], ◌∷◌, map,
  length, if◌then◌else◌,
}
use squirreldb.Base.HashMap
use squirreldb.Cache.Entry.{
  SnapshotEntry, Clock, returned, string, from_secs, new_entry, add_instant, instant_limit,
  approximate_size, from_text,
}
use squirreldb.Cache.Externals.{Externals}
use squirreldb.Cache.Resp.{bulk, array, items}
use squirreldb.Cache.Store.{InMemoryCacheStore, lru, new_store}
use squirreldb.Cache.Store.Accounting.{IsConsistent}
use squirreldb.Cache.Operations.{set, delete}
use squirreldb.Cache.Operations.Consistency.{start, next, set_step, Reach-IsConsistent}
use squirreldb.Cache.Subscriptions.{new_manager}
use squirreldb.Cache.Commands.{CommandContext, execute_command, extract_command}
use squirreldb.Cache.Commands.Replies.{ok_reply}
use squirreldb.Cache.Commands.Strings.{set_options, cmd_set, run_set, cmd_get}
use squirreldb.Cache.Commands.Keys.{delete_all}
use squirreldb.Cache.Commands.Keeps.{execute_command-IsConsistent}
use squirreldb.Cache.Commands.Behaviour.{seconds, cmd_get-cmd_set, delete_all_lem}

abbrev upper_char : ℕ → ℕ
upper_char c = if leb b'a' c && leb c b'z' then c - 32 else c

-- No text is JSON, texts are ASCII, and the first candidate is chosen.
abbrev simple : Externals ℕ
simple = record {
  serde = record { number_as_i64 = λ n. none; from_str = λ t. none; to_string = λ v. [] };
  to_uppercase = map upper_char;
  to_lowercase = λ t. t;
  choose = λ draw ks. elim ks [ [] ↦ none | k ∷ rest ↦ some k ];
  regex = λ t. none;
  one_decimal = λ a b. [];
}

abbrev at_second : ℕ → Clock
at_second n = record { instant = from_secs n; system_time = from_secs n }

abbrev empty : InMemoryCacheStore ℕ
empty = new_store 100 lru none

abbrev context : CommandContext ℕ
context = record { store = empty; subscriptions = new_manager; client_id = 7 }

empty-IsConsistent : IsConsistent empty
empty-IsConsistent = Reach-IsConsistent (start 100 lru none)

-- A store with the keys `k` and `l`.
abbrev one : InMemoryCacheStore ℕ
one = (set simple.choose (at_second 1) (lit "k") (string (lit "v")) none empty).1

abbrev filled : InMemoryCacheStore ℕ
filled = (set simple.choose (at_second 1) (lit "l") (string (lit "w")) none one).1

filled-IsConsistent : IsConsistent filled
filled-IsConsistent = Reach-IsConsistent (
    next
      (next (start 100 lru none)
        (set_step simple.choose (at_second 1) (lit "k") (string (lit "v")) none empty))
      (set_step simple.choose (at_second 1) (lit "l") (string (lit "w")) none one))

del_counts : (delete_all (at_second 2) (lit "k" ∷ lit "m" ∷ lit "k" ∷ []) filled).0 ≡ 1
unfolding delete_all delete set new_entry HashMap.get HashMap.insert HashMap.remove new_store
    add_instant instant_limit approximate_size len text_eq
del_counts = refl

-- `set k v ex 5` arrives as an array of bulk strings.
extract :
    extract_command simple.to_uppercase
      (array (items (bulk (lit "set") ∷ bulk (lit "k") ∷ bulk (lit "v") ∷ [])))
    ≡ some (lit "SET", lit "k" ∷ lit "v" ∷ [])
unfolding extract_command items
extract = refl

set_replies :
    (cmd_set simple (at_second 1) (lit "k" ∷ lit "v" ∷ lit "ex" ∷ lit "5" ∷ []) empty).0
    ≡ returned ok_reply
unfolding cmd_set run_set set_options set new_entry HashMap.get HashMap.insert new_store add_instant
    instant_limit approximate_size len text_eq parse_u64 from_text
set_replies = refl

-- The theorems at this store.

execute_command-IsConsistent_example :
    IsConsistent
      ((execute_command simple (at_second 1) context (lit "MSET") (lit "k" ∷ lit "v" ∷ [])).1).store
execute_command-IsConsistent_example =
    execute_command-IsConsistent simple (at_second 1) context (lit "MSET") (lit "k" ∷ lit "v" ∷ [])
      empty-IsConsistent

cmd_get-cmd_set_example :
    (cmd_get simple
      (at_second 4)
      (lit "k" ∷ [])
      (cmd_set simple (at_second 1) (lit "k" ∷ lit "v" ∷ lit "ex" ∷ lit "5" ∷ []) empty).1).0
    ≡ returned (bulk (lit "v"))
unfolding parse_u64
cmd_get-cmd_set_example =
    cmd_get-cmd_set simple (at_second 1) (lit "k") (lit "v") empty (lit "ex" ∷ lit "5" ∷ []) []
      (some 5000000000) (at_second 4) refl (seconds (lit "ex") (lit "5") 5 refl refl) set_replies

delete_all_lem_example :
    (HashMap.get
        (lit "k")
        ((delete_all (at_second 2) (lit "k" ∷ lit "m" ∷ lit "k" ∷ []) filled).1).entries
      ≡ none)
    × (length ((delete_all (at_second 2) (lit "k" ∷ lit "m" ∷ lit "k" ∷ []) filled).1).entries
          + (delete_all (at_second 2) (lit "k" ∷ lit "m" ∷ lit "k" ∷ []) filled).0
        ≡ length filled.entries)
unfolding text_eq
delete_all_lem_example =
    delete_all_lem (at_second 2) (lit "k" ∷ lit "m" ∷ lit "k" ∷ []) (lit "k") filled
      filled-IsConsistent.unique

-- An entry with five seconds left, and one without an end.
abbrev saved : List (SnapshotEntry ℕ)
saved =
    record { key = lit "k"; value = string (lit "v"); ttl_ms = some 5000 }
    ∷ record { key = lit "l"; value = string (lit "w"); ttl_ms = none }
    ∷ []
