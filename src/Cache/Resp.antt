-- ===== src/Cache/Resp.antt =====
-- crates/sqrld/src/cache/resp.rs (and its copy crates/client/src/resp.rs): values of the wire
-- protocol RESP, their encoding, and the parser of a byte stream.
pub mod Parser
pub mod Lines
pub mod Fuel
pub mod Stream
pub mod RoundTrip
pub mod Tests
use mathlib.Core.Option
use squirreldb.Base.Strings.{is_whitespace}
use squirreldb.Base.{
  ℕ, zero, suc, ◌+◌, Text, len, lit, ℤ, pos, negsuc, ◌&&◌, Option, none, some, List, [], ◌∷◌, ◌++◌,
  map, ltb, ◌==◌, if◌then◌else◌, length, take, drop, show_nat, show_i64, parse_i64, Bytes,
  encode_utf8, from_utf8_lossy,
}

-- `Array(None)` is `null_array`; the items of `Array(Some(items))` are a type of the same block.
mutual
  pub data RespValue : Type 0 where
    simple_string : Text → RespValue
    error : Text → RespValue
    integer : ℤ → RespValue
    bulk_string : Option Text → RespValue
    null_array : RespValue
    array : RespItems → RespValue

  pub data RespItems : Type 0 where
    nil : RespItems
    cons : RespValue → RespItems → RespItems

abbrev pub count : RespItems → ℕ
count nil = 0
count (cons v vs) = suc (count vs)

-- A vector of values as the items of an array.
unfoldable pub items : List RespValue → RespItems
items [] = nil
items (v ∷ vs) = cons v (items vs)

abbrev pub bulk : Text → RespValue
bulk s = bulk_string (some s)

abbrev pub null_bulk : RespValue
null_bulk = bulk_string none

abbrev pub crlf : Bytes
crlf = 13 ∷ 10 ∷ []

-- A line: a tag, the bytes of a text, and its end.
abbrev pub line : ℕ → Bytes → Bytes
line tag body = tag ∷ (body ++ crlf)

-- `write_to`
unfoldable mutual
  pub encode : RespValue → Bytes
  encode (simple_string s) = line b'+' (encode_utf8 s)
  encode (error e) = line b'-' (encode_utf8 e)
  encode (integer i) = line b':' (encode_utf8 (show_i64 i))
  encode (bulk_string none) = line b'$' (encode_utf8 (lit "-1"))
  encode (bulk_string (some s)) =
      line b'$' (encode_utf8 (show_nat (len s))) ++ (encode_utf8 s ++ crlf)
  encode null_array = line b'*' (encode_utf8 (lit "-1"))
  encode (array vs) = line b'*' (encode_utf8 (show_nat (count vs))) ++ encode_items vs

  pub encode_items : RespItems → Bytes
  encode_items nil = []
  encode_items (cons v vs) = encode v ++ encode_items vs

-- What a step of the parser comes to, with the bytes behind `pos`. `panicked` is the panic of
-- `Vec::with_capacity`; `out_of_fuel` does not come about (Resp/Fuel).
pub data Parsed {ℓ} (A : Type ℓ) : Type ℓ where
  done : A → Bytes → Parsed A
  incomplete : Parsed A
  invalid : Text → Bytes → Parsed A
  panicked : Parsed A
  out_of_fuel : Parsed A

-- The operator `?`: what is not done is passed on.
abbrev pub and_then {ℓ κ} : {A : Type ℓ} {B : Type κ} → Parsed A → (A → Bytes → Parsed B) → Parsed B
and_then (done a rest) f = f a rest
and_then incomplete f = incomplete
and_then (invalid msg rest) f = invalid msg rest
and_then panicked f = panicked
and_then out_of_fuel f = out_of_fuel

-- `read_line`: the bytes up to the first CR LF, and those behind it; `none` is `Incomplete`.
unfoldable pub read_line : Bytes → Option (Bytes × Bytes)
read_line [] = none
read_line (b ∷ []) = none
read_line (b ∷ d ∷ bs) =
    let later = Option.map (λ (p : Bytes × Bytes). (b ∷ p.0, p.1)) (read_line (d ∷ bs)) in
    if b == 13 && d == 10 then some ([], bs) else later

-- `parse_simple_string` and `parse_error`
unfoldable pub parse_text : (Text → RespValue) → Bytes → Parsed RespValue
parse_text make bs = elim (read_line bs) [
  | none ↦ incomplete
  | some (l, rest) ↦ done (make (from_utf8_lossy l)) rest
]

-- A line that is a number, or the error with this message.
unfoldable pub parse_number : Text → Bytes → Parsed ℤ
parse_number msg bs = elim (read_line bs) [
  | none ↦ incomplete
  | some (l, rest) ↦ elim (parse_i64 (from_utf8_lossy l)) [
    | some i ↦ done i rest
    | none ↦ invalid (msg ++ from_utf8_lossy l) rest
  ]
]

unfoldable pub parse_integer : Bytes → Parsed RespValue
parse_integer bs =
    and_then (parse_number (lit "invalid integer: ") bs) (λ i rest. done (integer i) rest)

-- The CR LF behind a bulk string.
unfoldable pub close_bulk : Text → Bytes → Parsed RespValue
close_bulk s (a ∷ b ∷ rest) =
    if a == 13 && b == 10
    then done (bulk s) rest
    else invalid (lit "missing CRLF after bulk string") (a ∷ b ∷ rest)
close_bulk s _ = incomplete

-- A bulk string of the given length.
unfoldable pub bulk_body : ℤ → Bytes → Parsed RespValue
unfolding close_bulk
bulk_body (negsuc n) bs = done null_bulk bs
bulk_body (pos n) bs =
    if ltb (length bs) (n + 2)
    then incomplete
    else close_bulk (from_utf8_lossy (take n bs)) (drop n bs)

unfoldable pub parse_bulk_string : Bytes → Parsed RespValue
unfolding bulk_body
parse_bulk_string bs = and_then (parse_number (lit "invalid bulk string length: ") bs) bulk_body

-- The loop over the items, by the parser of one value.
unfoldable pub parse_items : (Bytes → Parsed RespValue) → ℕ → Bytes → Parsed RespItems
parse_items parse zero bs = done nil bs
parse_items parse (suc n) bs =
    and_then (parse bs)
      (λ v rest. and_then (parse_items parse n rest) (λ vs rest'. done (cons v vs) rest'))

-- A word, read on in front of the words behind it.
abbrev pub add_word : Text → List Text → List Text
add_word [] ws = ws
add_word (c ∷ cs) ws = (c ∷ cs) ∷ ws

-- `split_whitespace`: the word that is being read, and those behind it.
unfoldable pub split_words : Text → Text → List Text
unfolding is_whitespace
split_words word [] = add_word word []
split_words word (c ∷ cs) =
    let next = split_words (if is_whitespace c then [] else word ++ c ∷ []) cs in
    if is_whitespace c then add_word word next else next

inline_command : List Text → Bytes → Parsed RespValue
inline_command [] rest = invalid (lit "empty command") rest
inline_command (w ∷ ws) rest = done (array (items (map bulk (w ∷ ws)))) rest

unfoldable pub parse_inline_command : Bytes → Parsed RespValue
unfolding inline_command items split_words
parse_inline_command bs = elim (read_line bs) [
  | none ↦ incomplete
  | some (l, rest) ↦ inline_command (split_words [] (from_utf8_lossy l)) rest
]
