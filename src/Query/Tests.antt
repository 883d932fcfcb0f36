-- ===== src/Query/Tests.antt =====
-- Tests of the engine and its pool, and their theorems at a concrete cache, engine and data base.
use squirreldb.Base.{
  ltb, ◌≤◌, ℕ, Text, lit, text_eq, text_eq_iff, show_nat, Bool, true, false, Option, none, some,
  List, [], ◌∷◌, ◌≡◌, ◌≢◌, refl, Bool-cases, inl, inr, arith, map, if◌then◌else◌,
}
use squirreldb.Base.Strings.{split_at}
use squirreldb.Base.Results.{ok}
use squirreldb.Cache.Json.{string, array, object, field, end, number}
use squirreldb.Sql.Dialect.{postgres}
use squirreldb.Sql.Filter.{QuerySpec}
use squirreldb.Subscriptions.{Document}
use squirreldb.Query.Externals.{Engines, LruCache, LruCacheLaws, Backend}
use squirreldb.Sql.Filter.{desc}
use squirreldb.Query.Engine.{
  order_of, panic, Answer, done, items, parse_query, filter_of, run_spec, execute,
}
use squirreldb.Query.Pool.{
  QueryEnginePool, CachedResult, with_cache_ttl, pool_parse_query, pool_execute, invalidate_table,
  get_cached, put_cached,
}
use squirreldb.Query.Transparent.{IsSound, IsStable, pool_parse_query_lem}
use squirreldb.Query.Fresh.{execute-invalidate_table}
use squirreldb.Query.Again.{pool_execute_again}

-- A cache that holds one entry.
abbrev pub Slot : Type 0 → Type 0
Slot V = Option (Text × V)

abbrev pub slot_find : {V : Type 0} → Text → Slot V → Option V
slot_find k none = none
slot_find k (some (j, v)) = if text_eq k j then some v else none

abbrev pub slot_pop : {V : Type 0} → Text → Slot V → Slot V
slot_pop k none = none
slot_pop k (some (j, v)) = if text_eq k j then none else some (j, v)

abbrev pub slot_keys : {V : Type 0} → Slot V → List Text
slot_keys none = []
slot_keys (some (j, v)) = j ∷ []

abbrev pub slot : {V : Type 0} → LruCache (Slot V) V
slot = record {
  get = λ k c. (slot_find k c, c);
  put = λ k v c. some (k, v);
  pop = slot_pop;
  clear = λ c. none;
  keys = slot_keys;
}

find-put_slot : {V : Type 0} (k : Text) (v : V) → slot_find k (some (k, v)) ≡ some v
find-put_slot k v = ground (arith, text_eq_iff k k)

find-put_other : {V : Type 0} (j k : Text) (v : V) → j ≢ k → slot_find j (some (k, v)) ≡ none
find-put_other j k v h = ground (arith, text_eq_iff j k)

find-pop_slot : {V : Type 0} (k : Text) (c : Slot V) → slot_find k (slot_pop k c) ≡ none
find-pop_slot k none = refl
find-pop_slot k (some (j, v)) = elim (Bool-cases (text_eq k j)) [
  | inl same ↦ rw same refl
  | inr other ↦ rw (other, other) refl
]

find-pop_other :
    {V : Type 0} (j k : Text) (c : Slot V) → j ≢ k → slot_find j (slot_pop k c) ≡ slot_find j c
find-pop_other j k none h = refl
find-pop_other j k (some (i, v)) h = elim (Bool-cases (text_eq k i)) [
  | inl same ↦
      let differ : text_eq j i ≡ false = ground (arith, text_eq_iff j i, text_eq_iff k i) in
      rw (same, differ) refl
  | inr other ↦ rw other refl
]

find-keys_slot :
    {V : Type 0} (k : Text) (c : Slot V)
    → squirreldb.Query.Externals.is_among k (slot_keys c) ≡ false
    → slot_find k c ≡ none
find-keys_slot k none h = refl
find-keys_slot k (some (j, v)) h =
    let differ : text_eq k j ≡ false = ground (arith, text_eq_iff k j, text_eq_iff j k) in
    rw differ refl

pub slot_laws : {V : Type 0} → LruCacheLaws (slot {V = V})
slot_laws = record {
  find = slot_find;
  get-find = λ k c. refl;
  find-get = λ j k c. refl;
  find-put_self = λ k v c. find-put_slot k v;
  find-put_ne = λ j k v c h. inr (find-put_other j k v h);
  find-pop_self = find-pop_slot;
  find-pop_ne = find-pop_other;
  find-keys = find-keys_slot;
}

-- Every script asks for all users.
abbrev pub all_users : Engines ℕ
all_users = record {
  Function = Text;
  evaluate = λ t. ok (object (field (lit "table") (string (lit "users")) end));
  compile_function = λ t. ok t;
  call_bool = λ f v. ok true;
  call_json = λ f v. ok v;
  as_u64 = λ n. some n;
  documents_to_value = λ docs. ok (array (items (map (λ d. d.content) docs)));
  id_to_string = show_nat;
  time_to_string = show_nat;
}

-- The world is what the data base holds.
abbrev pub Rows : Type 0
Rows = List (Document ℕ)

abbrev pub list_rows : Backend ℕ Rows
list_rows project table condition order limit offset w = (ok w, w)

abbrev pub user : ℕ → Document ℕ
user n = record {
  id = n;
  project_id = 0;
  collection = lit "users";
  content = number n;
  created_at = 0;
  updated_at = 0;
}

abbrev pub some_letters : ℕ → Bool
some_letters c = false

abbrev pub unchanged : Text → Text
unchanged t = t

abbrev pub Pool : Type 0
Pool = QueryEnginePool (Slot QuerySpec) (Slot (CachedResult ℕ))

unfoldable pub new_pool : Pool
unfolding with_cache_ttl
new_pool = with_cache_ttl (λ n. none) (λ n. none) 2 100

abbrev pub script : Text
script = lit "db.table('users').run()"

abbrev pub users_spec : QuerySpec
users_spec = record {
  project_id = none;
  table = lit "users";
  filter = none;
  projection = none;
  order_by = none;
  limit = none;
  offset = none;
  changes = none;
}

-- Filters hold up to the time 10 and no longer.
abbrev passing : ℕ → Engines ℕ
passing t = record all_users { call_bool = λ f v. ok (ltb t 10) }

-- An order that is given in full, and one without a field.
full_order :
    order_of all_users some_letters unchanged postgres (
      object (
        field
          (lit "field")
          (string (lit "age"))
          (field (lit "direction") (string (lit "desc")) end)))
    ≡ done (some (record { field = lit "age"; direction = desc }))
unfolding text_eq
full_order = refl

without_field :
    order_of all_users some_letters unchanged postgres
      (object (field (lit "direction") (string (lit "asc")) end))
    ≡ panic
unfolding text_eq
without_field = refl

abbrev pub IsSoundPool : ℕ → Pool → Type 0
IsSoundPool =
    IsSound slot slot_laws (slot {V = CachedResult ℕ}) passing some_letters unchanged postgres

script-IsStable :
    IsStable slot slot_laws
      (slot {V = CachedResult ℕ})
      passing
      some_letters
      unchanged
      postgres
      script
unfolding parse_query
script-IsStable t t' = refl

pub new_pool-IsSound : IsSoundPool 5 new_pool
unfolding IsSound new_pool with_cache_ttl slot_laws
new_pool-IsSound query spec found = cc

abbrev parsed : Answer QuerySpec × Pool
unfolding pool_parse_query new_pool with_cache_ttl
parsed = pool_parse_query slot slot (passing 5) some_letters unchanged postgres script new_pool

pool_parse_query_lem_example :
    ((t : ℕ) × (t ≤ 5)
      × (parsed.0 ≡ parse_query (passing t) some_letters unchanged postgres script))
    × IsSoundPool 5 parsed.1
unfolding parsed
pool_parse_query_lem_example =
    pool_parse_query_lem slot slot_laws slot passing some_letters unchanged postgres 5 script
      new_pool new_pool-IsSound

-- A result from before is kept.
abbrev stale : Pool
unfolding put_cached new_pool with_cache_ttl
stale = put_cached slot script (number 9) 0 new_pool

kept : get_cached slot script 5 stale ≡ (some (number 9), stale)
unfolding get_cached stale put_cached new_pool with_cache_ttl text_eq
kept = refl

stale-IsSound : IsSoundPool 5 stale
unfolding IsSound stale put_cached new_pool with_cache_ttl slot_laws
stale-IsSound query spec found = cc

execute-invalidate_table_example :
    ((pool_execute slot slot
        (passing 5)
        some_letters
        unchanged
        postgres
        list_rows
        script
        5
        6
        (invalidate_table slot (lit "users") stale)
        (user 1 ∷ [])).0
      ≡ (execute (passing 5) some_letters unchanged postgres list_rows script (user 1 ∷ [])).0)
    × ((pool_execute slot slot
          (passing 5)
          some_letters
          unchanged
          postgres
          list_rows
          script
          5
          6
          (invalidate_table slot (lit "users") stale)
          (user 1 ∷ [])).1.1
        ≡ (execute (passing 5) some_letters unchanged postgres list_rows script (user 1 ∷ [])).1)
unfolding split_at
execute-invalidate_table_example =
    execute-invalidate_table slot slot_laws slot slot_laws passing some_letters unchanged postgres
      list_rows (lit "users") script 5 6 stale (user 1 ∷ []) refl script-IsStable stale-IsSound

pool_execute_again_example :
    let first =
      pool_execute slot slot
        (passing 5)
        some_letters
        unchanged
        postgres
        list_rows
        script
        5
        6
        new_pool
        (user 1 ∷ []) in
    let second =
      pool_execute slot slot
        (passing 50)
        some_letters
        unchanged
        postgres
        list_rows
        script
        50
        51
        first.1.0
        [] in
    (first.0 ≡ done (array (items (number 1 ∷ []))))
    × (second.0 ≡ done (array (items (number 1 ∷ []))))
    × (second.1.1 ≡ [])
unfolding parse_query filter_of run_spec new_pool with_cache_ttl text_eq slot_laws
pool_execute_again_example =
    pool_execute_again slot slot_laws slot slot_laws passing some_letters unchanged postgres
      list_rows script 5 6 50 51 users_spec new_pool (user 1 ∷ []) (user 1 ∷ []) []
      (array (items (number 1 ∷ []))) new_pool-IsSound script-IsStable refl refl refl refl
      (omega arith) (omega arith)
