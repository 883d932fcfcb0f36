-- ===== src/Cache/Resp/Tests.antt =====
-- Tests of the protocol, and its theorems at a command. A value of RESP is taken to be 24 bytes wide.
use squirreldb.Base.{
  encode_utf8, show_nat, encode_char, len, show_i64, from_utf8_lossy, ◌≡◌, ◌≢◌, refl, arith, lit,
  negsuc, [], ◌∷◌, Bytes, length, ◌++◌, suc,
}
use squirreldb.Cache.Resp.{
  RespValue, integer, bulk, array, items, encode, parse_inline_command, read_line, done,
  out_of_fuel,
}
use squirreldb.Cache.Resp.Fuel.{parse_value-ne-out_of_fuel}
use squirreldb.Cache.Resp.Parser.{parse_value, parse, new_parser, feed, value, pending}
use squirreldb.Cache.Resp.RoundTrip.{IsWire, parse_value-encode}
use squirreldb.Cache.Resp.Stream.{parse-fragments}

-- The bytes of an ASCII text are its code points.
abbrev command : RespValue
command = array (items (bulk (lit "GET") ∷ integer (negsuc 6) ∷ []))

abbrev bytes : Bytes
bytes = lit "*2\r\n$3\r\nGET\r\n:-7\r\n"

command-IsWire : IsWire 24 command
unfolding items IsWire len
command-IsWire = ground arith

encode-command : encode command ≡ bytes
unfolding encode items encode_utf8 show_nat encode_char len show_i64
encode-command = refl

parse-inline : (parse 24 (feed (lit "GET  a\r\nPING") new_parser)) ≡ (
  value (array (items (bulk (lit "GET") ∷ bulk (lit "a") ∷ []))),
  record { buffer = lit "PING"; pos = 0 },
)
unfolding parse parse_value parse_inline_command read_line from_utf8_lossy items
parse-inline = refl

parse_value-encode_example :
    parse_value 24 (suc (length (encode command ++ lit "+OK"))) (encode command ++ lit "+OK")
    ≡ done command (lit "+OK")
parse_value-encode_example = parse_value-encode 24 command (lit "+OK") command-IsWire

-- The cut is inside the CR LF of the first line.
parse-fragments_example :
    (parse 24 (feed (lit "*2\r") new_parser) ≡ (pending, feed (lit "*2\r") new_parser))
    × (parse 24 (feed (lit "\n$3\r\nGET\r\n:-7\r\n") (parse 24 (feed (lit "*2\r") new_parser)).1)
        ≡ (value command, new_parser))
unfolding encode items encode_utf8 show_nat encode_char len show_i64
parse-fragments_example =
    parse-fragments 24 command command-IsWire (lit "*2\r") (lit "\n$3\r\nGET\r\n:-7\r\n") refl
      (omega arith)

parse_value-ne-out_of_fuel_example : parse_value 24 8 (lit "*1\r\n$3\r") ≢ out_of_fuel
parse_value-ne-out_of_fuel_example =
    parse_value-ne-out_of_fuel 24 8 (lit "*1\r\n$3\r") (omega arith)
