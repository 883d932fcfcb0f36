-- ===== src/Cache/Subscriptions/Tests.antt =====
-- Tests of the subscriptions, and their theorems at concrete inputs.
use squirreldb.Base.{ℕ, ◌≡◌, refl, lit, true, false, none, some, []}
use squirreldb.Cache.Json.{SerdeJson}
use squirreldb.Cache.Entry.{string}
use squirreldb.Cache.Changes.{CacheChange, set}
use squirreldb.Cache.Subscriptions.{CacheSubscriptionManager, new_manager, subscribe, glob_match}
use squirreldb.Cache.Subscriptions.Glob.{Matches, glob_match-Matches}

abbrev no_json : SerdeJson ℕ
no_json = record { number_as_i64 = λ n. none; from_str = λ t. none; to_string = λ v. [] }

abbrev change : CacheChange ℕ
change = record {
  key = lit "user:1";
  operation = set;
  old_value = none;
  new_value = some (string (lit "ann"));
  ttl = none;
  changed_at = 0;
}

globs :
    (glob_match (lit "user:*") (lit "user:1") ≡ true)
    × (glob_match (lit "u?er") (lit "user:1") ≡ false)
    × (glob_match (lit "*:1**") (lit "user:1") ≡ true)
unfolding glob_match
globs = (refl, refl, refl)

glob_match-Matches_example : Matches (lit "*:1**") (lit "user:1")
unfolding glob_match
glob_match-Matches_example = glob_match-Matches (lit "*:1**") (lit "user:1")

-- Two clients with one channel each.
abbrev manager : CacheSubscriptionManager ℕ
manager = (subscribe 2 (lit "user") (subscribe 1 (lit "user") new_manager).1).1
