-- ===== src/Cache/Config.antt =====
-- crates/sqrld/src/cache/config.rs: sizes of memory; and the names of the eviction policies of
-- crates/sqrld/src/cache/store.rs. `to_lowercase` of the standard library is a parameter.
pub mod Sizes
pub mod Policies
mod Tests
use mathlib.Core.Option
use squirreldb.Base.{
  ℕ, ◌*◌, ◌%◌, Text, lit, text_eq, parse_u64, ◌||◌, Option, none, some, [], ◌∷◌, ◌++◌,
  if◌then◌else◌,
}
use squirreldb.Base.Results.{Result, ok, err}
use squirreldb.Base.Strings.{trim}
use squirreldb.Cache.Entry.{word}
use squirreldb.Cache.Store.{EvictionPolicy, lru, lfu, random, no_eviction}
use squirreldb.Cache.Commands.Info.{kb, mb, gb}

-- What stands before the end, where the text ends so: `ends_with`, and the slice up to there.
unfoldable pub strip_suffix : Text → Text → Option Text
unfolding text_eq
strip_suffix p [] = if text_eq p [] then some [] else none
strip_suffix p (c ∷ cs) =
    let later = Option.map (◌∷◌ c) (strip_suffix p cs) in
    if text_eq p (c ∷ cs) then some [] else later

-- `n * factor` in a `usize`.
abbrev pub sized : ℕ → Option ℕ → Option ℕ
sized factor = Option.map (λ n. (n * factor) % word)

-- One branch of `parse_memory_size`, and what is tried when the text ends otherwise.
abbrev pub with_unit : Text → Text → ℕ → Option ℕ → Option ℕ
with_unit s unit factor otherwise = elim (strip_suffix unit s) [
  | some number ↦ sized factor (parse_u64 (trim number))
  | none ↦ otherwise
]

-- `parse_memory_size` on the trimmed text in small letters.
unfoldable pub size_of : Text → Option ℕ
unfolding strip_suffix trim parse_u64
size_of s = with_unit s (lit "gb") gb (
    with_unit s (lit "mb") mb (
      with_unit s (lit "kb") kb (elim (strip_suffix (lit "b") s) [
        | some number ↦ parse_u64 (trim number)
        | none ↦ parse_u64 s
      ])))

unfoldable pub parse_memory_size : (Text → Text) → Text → Option ℕ
unfolding size_of
parse_memory_size to_lowercase t = size_of (to_lowercase (trim t))

unfoldable pub max_memory_bytes : (Text → Text) → Text → ℕ
unfolding parse_memory_size
max_memory_bytes to_lowercase max_memory = elim (parse_memory_size to_lowercase max_memory) [
  | some n ↦ n
  | none ↦ 256 * mb
]

-- `FromStr` and `Display` of a policy.
unfoldable pub policy_of : (Text → Text) → Text → Result Text EvictionPolicy
policy_of to_lowercase s =
    let t = to_lowercase s in
    if text_eq t (lit "lru")
    then ok lru
    else if text_eq t (lit "lfu")
    then ok lfu
    else if text_eq t (lit "random")
    then ok random
    else if text_eq t (lit "noeviction")
        || text_eq t (lit "no-eviction")
        || text_eq t (lit "no_eviction")
    then ok no_eviction
    else err (lit "Unknown eviction policy: " ++ s)

unfoldable pub show_policy : EvictionPolicy → Text
show_policy lru = lit "lru"
show_policy lfu = lit "lfu"
show_policy random = lit "random"
show_policy no_eviction = lit "noeviction"
