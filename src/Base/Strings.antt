-- ===== src/Base/Strings.antt =====
-- Functions of Rust's `str` on texts.
use Prim.Native.Nat.{ℕ}
use mathlib.Core.Bool.{Bool, true, false, ◌&&◌, ◌||◌}
use mathlib.Core.List.{List, [], ◌∷◌, ◌++◌}
use mathlib.Core.Option
use mathlib.Core.Option.{Option, none, some}
use squirreldb.Base.Core.{leb, ◌==◌, if◌then◌else◌}
use squirreldb.Base.Lists.{is_empty}
use squirreldb.Base.Texts.{Text}

-- `char::is_whitespace`
unfoldable pub is_whitespace : ℕ → Bool
is_whitespace c =
    (leb 9 c && leb c 13)
    || c == 0x20
    || c == 0x85
    || c == 0xa0
    || c == 0x1680
    || (leb 0x2000 c && leb c 0x200a)
    || c == 0x2028
    || c == 0x2029
    || c == 0x202f
    || c == 0x205f
    || c == 0x3000

unfoldable pub starts_with : Text → Text → Bool
starts_with t [] = true
starts_with [] (p ∷ ps) = false
starts_with (c ∷ cs) (p ∷ ps) = c == p && starts_with cs ps

unfoldable pub strip_prefix : Text → Text → Option Text
strip_prefix [] t = some t
strip_prefix (p ∷ ps) [] = none
strip_prefix (p ∷ ps) (c ∷ cs) = let rest = strip_prefix ps cs in if p == c then rest else none

-- Whether the last character is this one.
unfoldable pub ends_with_char : ℕ → Text → Bool
ends_with_char e [] = false
ends_with_char e (c ∷ []) = c == e
ends_with_char e (c ∷ d ∷ cs) = ends_with_char e (d ∷ cs)

-- `find`: what stands before the first occurrence of a pattern, and what stands behind it.
unfoldable pub split_at : Text → Text → Option (Text × Text)
unfolding strip_prefix
split_at p [] = none
split_at p (c ∷ cs) =
    let later = Option.map (λ (r : Text × Text). (c ∷ r.0, r.1)) (split_at p cs) in
    elim (strip_prefix p (c ∷ cs)) [ some rest ↦ some ([], rest) | none ↦ later ]

unfoldable pub trim_start : Text → Text
unfolding is_whitespace
trim_start [] = []
trim_start (c ∷ cs) = let rest = trim_start cs in if is_whitespace c then rest else c ∷ cs

unfoldable pub trim_end : Text → Text
unfolding is_whitespace
trim_end [] = []
trim_end (c ∷ cs) =
    let rest = trim_end cs in if is_whitespace c && is_empty rest then [] else c ∷ rest

unfoldable pub trim : Text → Text
unfolding trim_start trim_end
trim t = trim_end (trim_start t)

-- `all` over the characters.
abbrev pub all_chars : (ℕ → Bool) → Text → Bool
all_chars p [] = true
all_chars p (c ∷ cs) = p c && all_chars p cs

-- A character in front of the first part.
abbrev pub push_front : ℕ → List Text → List Text
push_front c [] = (c ∷ []) ∷ []
push_front c (w ∷ ws) = (c ∷ w) ∷ ws

-- `split` at a character.
unfoldable pub split_on : ℕ → Text → List Text
split_on e [] = [] ∷ []
split_on e (c ∷ cs) = let rest = split_on e cs in if c == e then [] ∷ rest else push_front c rest

unfoldable pub join : Text → List Text → Text
join sep [] = []
join sep (t ∷ []) = t
join sep (t ∷ u ∷ ts) = t ++ (sep ++ join sep (u ∷ ts))

-- `replace` of a character.
unfoldable pub replace_char : ℕ → Text → Text → Text
replace_char e by [] = []
replace_char e by (c ∷ cs) = (if c == e then by else c ∷ []) ++ replace_char e by cs
