-- ===== src/Storage/Routes/Range.antt =====
-- crates/sqrld/src/storage/routes/object.rs: `parse_range`.
use squirreldb.Base.{ℕ, Text, lit, parse_u64, Option, none, some, List, [], ◌∷◌}
use squirreldb.Base.Strings.{strip_prefix, split_on}

-- The second part; one that is empty or no number counts as missing.
abbrev pub range_end : List Text → Option ℕ
range_end [] = none
range_end (s ∷ rest) = elim s [ [] ↦ none | c ∷ cs ↦ parse_u64 (c ∷ cs) ]

abbrev pub range_of : List Text → Option (ℕ × Option ℕ)
range_of [] = none
range_of (s ∷ rest) = elim (parse_u64 s) [ none ↦ none | some start ↦ some (start, range_end rest) ]

unfoldable pub parse_range : Text → Option (ℕ × Option ℕ)
unfolding strip_prefix split_on parse_u64
parse_range header = elim (strip_prefix (lit "bytes=") header) [
  | none ↦ none
  | some ranges ↦ range_of (split_on b'-' ranges)
]
