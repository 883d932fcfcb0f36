-- ===== src/Sql/Dialect.antt =====
-- The dialects of crates/sqrld/src/db/backend.rs: how SQL reads a field of the column `data`.
use squirreldb.Base.{Text, lit, ◌==◌, ◌&&◌, List, [], ◌∷◌, ◌++◌, if◌then◌else◌}
use squirreldb.Base.Strings.{split_on}

pub data SqlDialect : Type 0 where
  postgres sqlite : SqlDialect

-- The steps of a path: `->` to each part but the last, and `->>` to the last.
unfoldable pub path_steps : List Text → Text
path_steps [] = []
path_steps (part ∷ []) = lit "->>'" ++ (part ++ lit "'")
path_steps (part ∷ q ∷ parts) = lit "->'" ++ (part ++ (lit "'" ++ path_steps (q ∷ parts)))

unfoldable pub field_to_path : SqlDialect → Text → Text
unfolding path_steps split_on
field_to_path postgres field = path_steps (split_on b'.' field)
field_to_path sqlite field = field

-- `replace("->>", "->")`
unfoldable pub shorten_arrows : Text → Text
shorten_arrows [] = []
shorten_arrows (a ∷ []) = a ∷ []
shorten_arrows (a ∷ b ∷ []) = a ∷ b ∷ []
shorten_arrows (a ∷ b ∷ c ∷ cs) =
    let short = b'-' ∷ b'>' ∷ shorten_arrows cs in
    let plain = a ∷ shorten_arrows (b ∷ c ∷ cs) in
    if a == b'-' && b == b'>' && c == b'>' then short else plain

-- `json_extract` of SQLite.
abbrev pub json_extract : Text → Text
json_extract field = lit "json_extract(data, '$." ++ (field ++ lit "')")

unfoldable pub json_text : SqlDialect → Text → Text
unfolding field_to_path
json_text postgres field = lit "data" ++ field_to_path postgres field
json_text sqlite field = json_extract field

unfoldable pub json_numeric : SqlDialect → Text → Text
unfolding field_to_path shorten_arrows
json_numeric postgres field =
    lit "(data" ++ (shorten_arrows (field_to_path postgres field) ++ lit ")::numeric")
json_numeric sqlite field = lit "CAST(" ++ (json_extract field ++ lit " AS REAL)")

unfoldable pub json_bool : SqlDialect → Text → Text
unfolding field_to_path shorten_arrows
json_bool postgres field =
    lit "(data" ++ (shorten_arrows (field_to_path postgres field) ++ lit ")::boolean")
json_bool sqlite field = json_extract field

unfoldable pub json_order : SqlDialect → Text → Text
unfolding json_text
json_order = json_text
