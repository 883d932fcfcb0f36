-- ===== src/Cache/Resp/Parser.antt =====
-- The recursive part of the parser, and `RespParser`. `value_size` is `size_of::<RespValue>()`,
-- which the compiler chooses: `Vec::with_capacity` panics where the vector would pass `isize::MAX`
-- bytes.
use squirreldb.Base.{
  ℕ, zero, suc, ◌-◌, ◌*◌, Text, lit, ℤ, pos, negsuc, i64_half, true, false, [], ◌∷◌, ◌++◌, ltb, leb,
  ◌==◌, if◌then◌else◌, length, drop, Bytes,
}
use squirreldb.Cache.Resp.{
  RespValue, simple_string, error, null_array, array, Parsed, and_then, done, incomplete, invalid,
  panicked, out_of_fuel, parse_text, parse_number, parse_integer, parse_bulk_string, parse_items,
  parse_inline_command,
}

module _ (value_size : ℕ) where
  -- An array of the given length, by the parser of its items.
  unfoldable pub array_body : (Bytes → Parsed RespValue) → ℤ → Bytes → Parsed RespValue
  array_body parse (negsuc n) bs = done null_array bs
  array_body parse (pos n) bs = elim (ltb (n * value_size) i64_half) [
    | false ↦ panicked
    | true ↦ and_then (parse_items parse n bs) (λ vs rest. done (array vs) rest)
  ]

  unfoldable pub parse_array : (Bytes → Parsed RespValue) → Bytes → Parsed RespValue
  unfolding array_body
  parse_array parse bs =
      and_then (parse_number (lit "invalid array length: ") bs) (array_body parse)

  -- What `parse_value` does behind the first byte; `parse` is `parse_value`.
  unfoldable pub dispatch : (Bytes → Parsed RespValue) → ℕ → Bytes → Parsed RespValue
  unfolding parse_array
  dispatch parse b bs =
      if b == b'+'
      then parse_text simple_string bs
      else if b == b'-'
      then parse_text error bs
      else if b == b':'
      then parse_integer bs
      else if b == b'$'
      then parse_bulk_string bs
      else if b == b'*'
      then parse_array parse bs
      else parse_inline_command (b ∷ bs)

  -- `parse_value`, for so many levels of arrays.
  unfoldable pub parse_value : ℕ → Bytes → Parsed RespValue
  unfolding dispatch
  parse_value zero bs = out_of_fuel
  parse_value (suc fuel) [] = incomplete
  parse_value (suc fuel) (b ∷ bs) = dispatch (parse_value fuel) b bs

pub record RespParser : Type 0 where
  pub buffer : Bytes
  pub pos : ℕ

abbrev pub new_parser : RespParser
new_parser = record { buffer = []; pos = 0 }

abbrev pub feed : Bytes → RespParser → RespParser
feed bs p = record p { buffer = p.buffer ++ bs }

-- What `parse` returns: a value, nothing as yet, an error, or a panic.
pub data Reply : Type 0 where
  value : RespValue → Reply
  pending : Reply
  fails : Text → Reply
  panics : Reply

module _ (value_size : ℕ) where
  settle : RespParser → Parsed RespValue → Reply × RespParser
  settle p (done v rest) = (value v, record { buffer = rest; pos = 0 })
  settle p (invalid msg rest) = (fails msg, record p { pos = length p.buffer - length rest })
  settle p incomplete = (pending, p)
  settle p panicked = (panics, p)
  settle p out_of_fuel = (panics, p)

  -- `RespParser::parse`. An array lies in fewer bytes than those that hold it, so there is fuel.
  unfoldable pub parse : RespParser → Reply × RespParser
  unfolding settle
  parse p =
      if leb (length p.buffer) p.pos
      then (pending, p)
      else settle p (parse_value value_size (suc (length p.buffer)) (drop p.pos p.buffer))
