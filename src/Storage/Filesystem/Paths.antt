-- ===== src/Storage/Filesystem/Paths.antt =====
-- `Path::join` and `Path::parent` of the standard library on Unix, on texts.
use squirreldb.Base.{
  Text, lit, Option, none, some, [], ◌∷◌, ◌++◌, ◌==◌, ◌||◌, is_empty, if◌then◌else◌,
}
use squirreldb.Base.Strings.{starts_with, ends_with_char}

-- An absolute path replaces what it is joined to.
unfoldable pub join : Text → Text → Text
unfolding starts_with ends_with_char
join base part =
    if starts_with part (lit "/")
    then part
    else if ends_with_char b'/' base || is_empty base
    then base ++ part
    else base ++ lit "/" ++ part

-- What stands before the last slash, of a path that does not end with one.
unfoldable pub parent : Text → Option Text
parent [] = none
parent (c ∷ cs) = elim (parent cs) [
  | some dir ↦ some (c ∷ dir)
  | none ↦ if c == b'/' then some [] else none
]
