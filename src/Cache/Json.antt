-- ===== src/Cache/Json.antt =====
-- JSON values as cache/entry.rs meets them, and the operations of the crate serde_json that it
-- calls. The type of JSON numbers and these operations are parameters.
use squirreldb.Base.{ℕ, ◌+◌, Text, len, ℤ, Option, Bool}

-- `serde_json::Value` over the crate's type `N` of numbers. The lists that a value holds are types
-- of the same block.
mutual
  pub data Json (N : Type 0) : Type 0 where
    null : Json N
    bool : Bool → Json N
    number : N → Json N
    string : Text → Json N
    array : Items N → Json N
    object : Fields N → Json N

  pub data Items (N : Type 0) : Type 0 where
    nil : Items N
    cons : Json N → Items N → Items N

  pub data Fields (N : Type 0) : Type 0 where
    end : Fields N
    field : Text → Json N → Fields N → Fields N

abbrev pub count : {N : Type 0} → Items N → ℕ
count nil = 0
count (cons v vs) = 1 + count vs

-- What the cache calls of serde_json: `Number::as_i64`, `from_str` and `Value::to_string`.
pub record SerdeJson (N : Type 0) : Type 0 where
  pub number_as_i64 : N → Option ℤ
  pub from_str : Text → Option (Json N)
  pub to_string : Json N → Text

unfoldable mutual
  -- `estimate_json_size`
  pub estimate_json_size : {N : Type 0} → Json N → ℕ
  estimate_json_size null = 4
  estimate_json_size (bool b) = 5
  estimate_json_size (number n) = 8
  estimate_json_size (string s) = len s + 2
  estimate_json_size (array vs) = estimate_items vs + count vs
  estimate_json_size (object fs) = estimate_fields fs

  pub estimate_items : {N : Type 0} → Items N → ℕ
  estimate_items nil = 0
  estimate_items (cons v vs) = estimate_json_size v + estimate_items vs

  pub estimate_fields : {N : Type 0} → Fields N → ℕ
  estimate_fields end = 0
  estimate_fields (field k v fs) = (len k + estimate_json_size v + 4) + estimate_fields fs
