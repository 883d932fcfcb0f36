-- ===== src/Storage/Xml/Common.antt =====
-- What the documents of crates/sqrld/src/storage/xml.rs share: the declaration, `if let` and `for`
-- over `push_str`, and `Display` of a `bool`.
use squirreldb.Base.{Text, lit, Bool, true, false, Option, none, some, List, [], ◌∷◌, ◌++◌}

abbrev pub declaration : Text
declaration = lit "<?xml version=\"1.0\" encoding=\"UTF-8\"?>\n"

module _ {ℓ} {A : Type ℓ} where
  abbrev pub optional : (A → Text) → Option A → Text
  optional f none = []
  optional f (some a) = f a

  abbrev pub each : (A → Text) → List A → Text
  each f [] = []
  each f (a ∷ l) = f a ++ each f l

abbrev pub show_bool : Bool → Text
show_bool true = lit "true"
show_bool false = lit "false"

-- `format!` of a text with one gap.
abbrev pub wrap : Text → Text → Text → Text
wrap before gap behind = before ++ gap ++ behind
