-- ===== src/Storage/Externals.antt =====
-- What crates/sqrld/src/storage calls of other crates: chrono, uuid, serde_json, urlencoding
-- and http. They
-- are parameters of the models.
use squirreldb.Base.{Text, Option, Bool, ◌≡◌, ℕ, ◌==◌, false}
use squirreldb.Base.Lists.{All}

pub record Platform : Type 1 where
  pub DateTime : Type 0
  pub to_rfc3339 : DateTime → Text
  pub to_rfc2822 : DateTime → Text
  pub Uuid : Type 0
  pub uuid_to_string : Uuid → Text
  pub parse_str : Text → Option Uuid
  pub Number : Type 0
  pub decode : Text → Option Text
  pub is_header_name : Text → Bool
  pub is_header_value : Text → Bool

-- A character that no markup gives a meaning to.
abbrev pub IsPlainChar : ℕ → Type 0
IsPlainChar c = ((c == b'<') ≡ false) × ((c == b'>') ≡ false) × ((c == b'&') ≡ false)

abbrev pub IsPlain : Text → Type 0
IsPlain t = All IsPlainChar t

-- What the XML documents rely on: times and identifiers are written in letters, digits and the
-- characters `-`, `+`, `:` and `.`.
pub record IsPlainPlatform (x : Platform) : Type 0 where
  pub times : (d : x.DateTime) → IsPlain (x.to_rfc3339 d)
  pub identifiers : (u : x.Uuid) → IsPlain (x.uuid_to_string u)
