-- ===== src/Cache/Externals.antt =====
-- What the cache calls of crates and of the standard library and this development does not model.
use squirreldb.Base.{ℕ, Text, List, Option, Bool}
use squirreldb.Cache.Json.{SerdeJson}

-- serde_json; `str::to_uppercase` and `str::to_lowercase`, which read the tables of Unicode;
-- `SliceRandom::choose`; `Regex::new` with `is_match`; and the text of a quotient with one decimal
-- (`{:.1}` of a division of `f64`).
pub record Externals (N : Type 0) : Type 0 where
  pub serde : SerdeJson N
  pub to_uppercase : Text → Text
  pub to_lowercase : Text → Text
  pub choose : ℕ → List Text → Option Text
  pub regex : Text → Option (Text → Bool)
  pub one_decimal : ℕ → ℕ → Text
