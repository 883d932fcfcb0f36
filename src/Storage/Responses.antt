-- ===== src/Storage/Responses.antt =====
-- The responses of crates/sqrld/src/storage/routes, and what the handlers read of a request.
use squirreldb.Base.{
  Text, lit, ℕ, ℤ, pos, negsuc, Bytes, Bool, ltb, Option, none, some, List, [], ◌∷◌, ◌++◌,
  parse_i64, if◌then◌else◌,
}
use squirreldb.Base.HashMap
use squirreldb.Storage.Externals.{Platform}

pub data Body : Type 0 where
  empty_body : Body
  text_body : Text → Body
  bytes_body : Bytes → Body

pub record Response : Type 0 where
  pub status : ℕ
  pub headers : List (Text × Text)
  pub body : Body

abbrev pub status_only : ℕ → Response
status_only status = record { status = status; headers = []; body = empty_body }

abbrev pub xml_response : Text → Response
xml_response doc = record {
  status = 200;
  headers = (lit "Content-Type", lit "application/xml") ∷ [];
  body = text_body doc;
}

-- An entity tag in its header.
abbrev pub quoted_etag : Text → Text
quoted_etag etag = lit "\"" ++ etag ++ lit "\""

-- The parameters of the query, `Query<HashMap<String, String>>`.
abbrev pub Params : Type 0
Params = List (Text × Text)

abbrev pub contains_key : Params → Text → Bool
contains_key params key = elim (HashMap.get key params) [ none ↦ Bool.false | some v ↦ Bool.true ]

-- The headers of a request; `none` where `to_str` fails on the value.
abbrev pub Headers : Type 0
Headers = List (Text × Option Text)

abbrev pub header : Headers → Text → Option Text
header headers name = elim (HashMap.get name headers) [ none ↦ none | some v ↦ v ]

-- `s.parse::<i32>()`
abbrev pub in_i32 : ℤ → Option ℤ
in_i32 (pos n) = if ltb n 0x80000000 then some (pos n) else none
in_i32 (negsuc n) = if ltb n 0x80000000 then some (negsuc n) else none

abbrev pub parse_i32 : Text → Option ℤ
parse_i32 s = elim (parse_i64 s) [ none ↦ none | some z ↦ in_i32 z ]

-- `params.get(name).and_then(|s| s.parse().ok())`
abbrev pub i32_param : Params → Text → Option ℤ
i32_param params name = elim (HashMap.get name params) [ none ↦ none | some s ↦ parse_i32 s ]

-- `params.get(name).and_then(|s| Uuid::parse_str(s).ok())`
abbrev pub uuid_param : (x : Platform) → Params → Text → Option (x.Uuid)
uuid_param x params name = elim (HashMap.get name params) [ none ↦ none | some s ↦ x.parse_str s ]

abbrev pub unwrap_or {ℓ} : {A : Type ℓ} → A → Option A → A
unwrap_or a none = a
unwrap_or a (some b) = b
