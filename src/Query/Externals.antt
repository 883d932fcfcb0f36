-- ===== src/Query/Externals.antt =====
-- What crates/sqrld/src/query/engine.rs calls of other code: the JavaScript engine rquickjs, the crate
-- lru, serde_json and the data base. They are parameters.
use squirreldb.Base.{
  ℕ, Text, Option, none, some, Bool, false, text_eq, ◌||◌, List, [], ◌∷◌, ◌≡◌, ◌≢◌, ◌⊎◌,
}
use squirreldb.Base.Results.{Result}
use squirreldb.Cache.Json.{Json}
use squirreldb.Sql.Filter.{SortSpec}
use squirreldb.Subscriptions.{Document}

-- What the engine answers at one moment: scripts may read the clock or draw numbers. A function of a
-- script, once it is compiled, is of the type `Function`. Errors are their texts.
pub record Engines (N : Type 0) : Type 1 where
  pub Function : Type 0
  -- The query builder and the script are run, and the result is read as JSON.
  pub evaluate : Text → Result Text (Json N)
  pub compile_function : Text → Result Text Function
  pub call_bool : Function → Json N → Result Text Bool
  pub call_json : Function → Json N → Result Text (Json N)
  pub as_u64 : N → Option ℕ
  pub documents_to_value : List (Document N) → Result Text (Json N)
  pub id_to_string : ℕ → Text
  pub time_to_string : ℕ → Text

abbrev pub is_among : Text → List Text → Bool
is_among k [] = false
is_among k (j ∷ ks) = text_eq j k || is_among k ks

-- `LruCache` with the type `C` of its states. `get` marks the entry as used.
pub record LruCache (C V : Type 0) : Type 0 where
  pub get : Text → C → Option V × C
  pub put : Text → V → C → C
  pub pop : Text → C → C
  pub clear : C → C
  pub keys : C → List Text

-- What the code relies on: looking up changes what is evicted later, and nothing that is found now;
-- an entry that was put is found, and every other is the one of before or was evicted.
pub record LruCacheLaws {C V : Type 0} (lru : LruCache C V) : Type 0 where
  pub find : Text → C → Option V
  pub get-find : (k : Text) (c : C) → (lru.get k c).0 ≡ find k c
  pub find-get : (j k : Text) (c : C) → find j (lru.get k c).1 ≡ find j c
  pub find-put_self : (k : Text) (v : V) (c : C) → find k (lru.put k v c) ≡ some v
  pub find-put_ne :
      (j k : Text) (v : V) (c : C)
      → j ≢ k
      → (find j (lru.put k v c) ≡ find j c) ⊎ (find j (lru.put k v c) ≡ none)
  pub find-pop_self : (k : Text) (c : C) → find k (lru.pop k c) ≡ none
  pub find-pop_ne : (j k : Text) (c : C) → j ≢ k → find j (lru.pop k c) ≡ find j c
  pub find-keys : (k : Text) (c : C) → is_among k (lru.keys c) ≡ false → find k c ≡ none

-- `DatabaseBackend::list`: project, collection, condition, order, limit and offset.
abbrev pub Backend : Type 0 → Type 0 → Type 0
Backend N W =
    ℕ
    → Text
    → Option Text
    → Option SortSpec
    → Option ℕ
    → Option ℕ
    → W
    → Result Text (List (Document N)) × W
