-- ===== src/Cache/Resp/RoundTrip.antt =====
-- The parser reads back what `encode` writes.
use mathlib.Core.List.{append_assoc}
use squirreldb.Base.{
  lit, parse_i64, lt→ltb, ℕ, zero, suc, ◌+◌, ◌*◌, ◌<◌, ◌≡◌, refl, ap, ◌∙◌, arith, Text, len, ℤ, pos,
  negsuc, i64_half, IsI64, false, none, some, ◌∷◌, ◌++◌, ltb, Bytes, length, length-append,
  take-append, drop-append, encode_char, encode_utf8, from_utf8_lossy, IsText, show_nat, show_i64,
}
use squirreldb.Base.Utf8.Length.{length-encode_utf8}
use squirreldb.Base.Utf8.RoundTrip.{from_utf8_lossy-encode_utf8}
use squirreldb.Cache.Resp.{
  RespValue, simple_string, error, integer, bulk_string, null_array, array, RespItems, nil, cons,
  count, bulk, crlf, encode, encode_items, Parsed, done, parse_text, parse_number, parse_integer,
  parse_bulk_string, bulk_body, parse_items, read_line,
}
use squirreldb.Cache.Resp.Lines.{NoCrlf, parse_number-show_i64, parse_text-line}
use squirreldb.Cache.Resp.Parser.{parse_value, parse_array, array_body}

-- Values that the wire format can carry: strings of characters, lines without CR LF, numbers and
-- lengths in the range of `i64`, arrays that a vector can hold.
unfoldable mutual
  pub IsWire : ℕ → RespValue → Type 0
  IsWire size (simple_string s) = IsText s × NoCrlf s
  IsWire size (error e) = IsText e × NoCrlf e
  IsWire size (integer i) = IsI64 i
  IsWire size (bulk_string none) = Unit
  IsWire size (bulk_string (some s)) = IsText s × (len s < i64_half)
  IsWire size null_array = Unit
  IsWire size (array vs) = (count vs < i64_half) × (count vs * size < i64_half) × AreWire size vs

  pub AreWire : ℕ → RespItems → Type 0
  AreWire size nil = Unit
  AreWire size (cons v vs) = IsWire size v × AreWire size vs

line_end : (body rest : Bytes) → (body ++ crlf) ++ rest ≡ body ++ (13 ∷ 10 ∷ rest)
line_end body rest = append_assoc body crlf rest

two_ends :
    (head body rest : Bytes)
    → ((head ++ crlf) ++ (body ++ crlf)) ++ rest ≡ head ++ (13 ∷ 10 ∷ (body ++ (13 ∷ 10 ∷ rest)))
two_ends head body rest = simp append_assoc

items_end :
    (head body rest : Bytes) → ((head ++ crlf) ++ body) ++ rest ≡ head ++ (13 ∷ 10 ∷ (body ++ rest))
items_end head body rest = simp append_assoc

room_for_bulk : (l rest : Bytes) → ltb (length (l ++ (13 ∷ 10 ∷ rest))) (length l + 2) ≡ false
room_for_bulk l rest = ground (arith, length-append l (13 ∷ 10 ∷ rest))

bulk_body-bytes :
    (l rest : Bytes)
    → bulk_body (pos (length l)) (l ++ (13 ∷ 10 ∷ rest)) ≡ done (bulk (from_utf8_lossy l)) rest
unfolding bulk_body
bulk_body-bytes l rest =
    rw (room_for_bulk l rest, bulk_body)
      (rw (take-append l (13 ∷ 10 ∷ rest), drop-append l (13 ∷ 10 ∷ rest)))

bulk_body-encode :
    (s : Text) (rest : Bytes)
    → IsText s
    → bulk_body (pos (len s)) (encode_utf8 s ++ (13 ∷ 10 ∷ rest)) ≡ done (bulk s) rest
bulk_body-encode s rest h =
    rw (← length-encode_utf8 s)
      (bulk_body-bytes (encode_utf8 s) rest ∙ rw (from_utf8_lossy-encode_utf8 s h))

parse_bulk-encode :
    (s : Text) (rest : Bytes)
    → IsText s
    → len s < i64_half
    → parse_bulk_string
        (encode_utf8 (show_nat (len s)) ++ (13 ∷ 10 ∷ (encode_utf8 s ++ (13 ∷ 10 ∷ rest))))
      ≡ done (bulk s) rest
unfolding parse_bulk_string show_i64
parse_bulk-encode s rest h k =
    rw
      (
        parse_number-show_i64 _ (pos (len s)) (encode_utf8 s ++ (13 ∷ 10 ∷ rest)) k,
        parse_bulk_string,
      )
      (bulk_body-encode s rest h)

module _ (size : ℕ) where
  -- Reading with enough fuel for the bytes that there are.
  abbrev Reads : RespValue → Type 0
  Reads v =
      (fuel : ℕ) (rest : Bytes)
      → length (encode v ++ rest) < fuel
      → parse_value size fuel (encode v ++ rest) ≡ done v rest

  Reads-simple_string : (s : Text) → IsText s → NoCrlf s → Reads (simple_string s)
  unfolding encode parse_value
  Reads-simple_string s h k zero rest room = absurd (omega arith)
  Reads-simple_string s h k (suc fuel) rest room =
      ap (parse_text simple_string) (line_end (encode_utf8 s) rest)
      ∙ parse_text-line simple_string s rest h k

  Reads-error : (s : Text) → IsText s → NoCrlf s → Reads (error s)
  unfolding encode parse_value
  Reads-error s h k zero rest room = absurd (omega arith)
  Reads-error s h k (suc fuel) rest room =
      ap (parse_text error) (line_end (encode_utf8 s) rest) ∙ parse_text-line error s rest h k

  parse_integer-show :
      (i : ℤ) (rest : Bytes)
      → IsI64 i
      → parse_integer (encode_utf8 (show_i64 i) ++ (13 ∷ 10 ∷ rest)) ≡ done (integer i) rest
  unfolding parse_integer
  parse_integer-show i rest h = rw (parse_number-show_i64 _ i rest h, parse_integer)

  Reads-integer : (i : ℤ) → IsI64 i → Reads (integer i)
  unfolding encode parse_value
  Reads-integer i h zero rest room = absurd (omega arith)
  Reads-integer i h (suc fuel) rest room =
      ap parse_integer (line_end (encode_utf8 (show_i64 i)) rest) ∙ parse_integer-show i rest h

  null_number :
      (rest : Bytes) (msg : Text)
      → parse_number msg ((encode_utf8 (lit "-1") ++ crlf) ++ rest) ≡ done (negsuc 0) rest
  unfolding parse_number read_line from_utf8_lossy parse_i64 encode_utf8 encode_char
  null_number rest msg = refl

  Reads-null_bulk : Reads (bulk_string none)
  unfolding encode parse_value parse_bulk_string
  Reads-null_bulk zero rest room = absurd (omega arith)
  Reads-null_bulk (suc fuel) rest room = rw (null_number rest _, parse_bulk_string)

  Reads-null_array : Reads null_array
  unfolding encode parse_value parse_array
  Reads-null_array zero rest room = absurd (omega arith)
  Reads-null_array (suc fuel) rest room = rw (null_number rest _, parse_array)

  Reads-bulk : (s : Text) → IsText s → len s < i64_half → Reads (bulk s)
  unfolding encode parse_value
  Reads-bulk s h k zero rest room = absurd (omega arith)
  Reads-bulk s h k (suc fuel) rest room =
      ap parse_bulk_string (two_ends (encode_utf8 (show_nat (len s))) (encode_utf8 s) rest)
      ∙ parse_bulk-encode s rest h k

  parse_array-encode :
      (vs : RespItems) (fuel : ℕ) (rest : Bytes)
      → count vs < i64_half
      → count vs * size < i64_half
      → parse_items (parse_value size fuel) (count vs) (encode_items vs ++ rest) ≡ done vs rest
      → parse_array size
          (parse_value size fuel)
          (encode_utf8 (show_nat (count vs)) ++ (13 ∷ 10 ∷ (encode_items vs ++ rest)))
        ≡ done (array vs) rest
  unfolding parse_array array_body show_i64
  parse_array-encode vs fuel rest small fits read =
      rw (parse_number-show_i64 _ (pos (count vs)) (encode_items vs ++ rest) small, parse_array)
        (rw (lt→ltb _ _ fits, array_body) (rw read))

  parse_items-cons :
      (parse : Bytes → Parsed RespValue) (n : ℕ) (v : RespValue) (vs : RespItems)
      (bs mid rest : Bytes)
      → parse bs ≡ done v mid
      → parse_items parse n mid ≡ done vs rest
      → parse_items parse (suc n) bs ≡ done (cons v vs) rest
  unfolding parse_items
  parse_items-cons parse n v vs bs mid rest h k = rw (h, parse_items) (rw k)

  abbrev ReadsItems : RespItems → Type 0
  ReadsItems vs =
      (fuel : ℕ) (rest : Bytes)
      → length (encode_items vs ++ rest) < fuel
      → parse_items (parse_value size fuel) (count vs) (encode_items vs ++ rest) ≡ done vs rest

  Reads-array :
      (vs : RespItems)
      → count vs < i64_half
      → count vs * size < i64_half
      → ReadsItems vs
      → Reads (array vs)
  unfolding encode parse_value
  Reads-array vs small fits read zero rest room = absurd (omega arith)
  Reads-array vs small fits read (suc fuel) rest room =
      let shape = items_end (encode_utf8 (show_nat (count vs))) (encode_items vs) rest in
      ap (parse_array size (parse_value size fuel)) shape
      ∙ parse_array-encode vs fuel rest small fits (
          read fuel rest (
            omega (
              arith,
              ap length shape,
              length-append (encode_utf8 (show_nat (count vs)))
                  (13 ∷ 10 ∷ (encode_items vs ++ rest)),
            )))

  mutual
    unfolding IsWire encode parse_items

    Reads-IsWire : (v : RespValue) → IsWire size v → Reads v
    Reads-IsWire (simple_string s) (h, k) = Reads-simple_string s h k
    Reads-IsWire (error e) (h, k) = Reads-error e h k
    Reads-IsWire (integer i) h = Reads-integer i h
    Reads-IsWire (bulk_string none) h = Reads-null_bulk
    Reads-IsWire (bulk_string (some s)) (h, k) = Reads-bulk s h k
    Reads-IsWire null_array h = Reads-null_array
    Reads-IsWire (array vs) (small, fits, h) = Reads-array vs small fits (items-AreWire vs h)

    items-AreWire : (vs : RespItems) → AreWire size vs → ReadsItems vs
    items-AreWire nil h fuel rest room = refl
    items-AreWire (cons v vs) (h, t) fuel rest room =
        let shape = append_assoc (encode v) (encode_items vs) rest in
        let sizes = length-append (encode v) (encode_items vs ++ rest) in
        parse_items-cons (parse_value size fuel) (count vs) v vs _ _ rest
          (ap (parse_value size fuel) shape
            ∙ Reads-IsWire v h fuel (encode_items vs ++ rest) (omega (arith, ap length shape)))
          (items-AreWire vs t fuel rest (omega (arith, ap length shape, sizes)))

  -- Whatever follows it, a value that the wire format can carry is read back from its encoding, and
  -- no byte more is taken.
  pub parse_value-encode :
      (v : RespValue) (rest : Bytes)
      → IsWire size v
      → parse_value size (suc (length (encode v ++ rest))) (encode v ++ rest) ≡ done v rest
  parse_value-encode v rest h =
      Reads-IsWire v h (suc (length (encode v ++ rest))) rest (omega arith)
