-- ===== src/Base/Utf8.antt =====
-- UTF-8 as Rust's `String` holds it, and `String::from_utf8_lossy`.
pub mod RoundTrip
pub mod Length
use Prim.Native.Nat.{ℕ, zero, suc, ◌+◌, ◌-◌, ◌*◌, ◌/◌, ◌%◌}
use mathlib.Core.Bool.{Bool, ◌&&◌}
use mathlib.Core.List.{List, [], ◌∷◌, ◌++◌}
use squirreldb.Base.Core.{ltb, leb, ◌==◌, if◌then◌else◌}
use squirreldb.Base.Texts.{Text}

abbrev pub Bytes : Type 0
Bytes = List ℕ

-- `char::encode_utf8`
unfoldable pub encode_char : ℕ → Bytes
encode_char c =
    if ltb c 0x80
    then c ∷ []
    else if ltb c 0x800
    then (0xc0 + c / 64) ∷ (0x80 + c % 64) ∷ []
    else if ltb c 0x10000
    then (0xe0 + c / 4096) ∷ (0x80 + c / 64 % 64) ∷ (0x80 + c % 64) ∷ []
    else (0xf0 + c / 262144) ∷ (0x80 + c / 4096 % 64) ∷ (0x80 + c / 64 % 64) ∷ (0x80 + c % 64) ∷ []

-- The bytes of a string.
unfoldable pub encode_utf8 : Text → Bytes
encode_utf8 [] = []
encode_utf8 (c ∷ cs) = encode_char c ++ encode_utf8 cs

-- Where the decoder stands in a sequence: the bits so far, the bytes to come, and the range of the
-- next one.
pub data Pending : Type 0 where
  idle : Pending
  more : ℕ → ℕ → ℕ → ℕ → Pending

abbrev pub replacement : ℕ
replacement = 0xfffd

abbrev pub between : ℕ → ℕ → ℕ → Bool
between lo hi b = leb lo b && leb b hi

-- The first byte of a sequence.
unfoldable pub lead : ℕ → Text × Pending
lead b =
    if ltb b 0x80
    then (b ∷ [], idle)
    else if between 0xc2 0xdf b
    then ([], more (b - 0xc0) 1 0x80 0xbf)
    else if b == 0xe0
    then ([], more 0 2 0xa0 0xbf)
    else if b == 0xed
    then ([], more 0xd 2 0x80 0x9f)
    else if between 0xe1 0xef b
    then ([], more (b - 0xe0) 2 0x80 0xbf)
    else if b == 0xf0
    then ([], more 0 3 0x90 0xbf)
    else if between 0xf1 0xf3 b
    then ([], more (b - 0xf0) 3 0x80 0xbf)
    else if b == 0xf4
    then ([], more 4 3 0x80 0x8f)
    else (replacement ∷ [], idle)

-- A byte that continues a sequence, with so many to come after it.
unfoldable pub continue : ℕ → ℕ → Text × Pending
continue bits zero = (bits ∷ [], idle)
continue bits (suc left) = ([], more bits (suc left) 0x80 0xbf)

-- A byte that does not continue the sequence ends it with U+FFFD, and begins another.
unfoldable pub decode_byte : Pending → ℕ → Text × Pending
unfolding lead continue
decode_byte idle b = lead b
decode_byte (more bits left lo hi) b =
    if between lo hi b
    then continue (bits * 64 + (b - 0x80)) (left - 1)
    else (let (out, p) = lead b in (replacement ∷ out, p))

unfoldable pub decode_from : Pending → Bytes → Text
unfolding decode_byte
decode_from idle [] = []
decode_from (more bits left lo hi) [] = replacement ∷ []
decode_from p (b ∷ bs) = let (out, q) = decode_byte p b in out ++ decode_from q bs

unfoldable pub from_utf8_lossy : Bytes → Text
unfolding decode_from
from_utf8_lossy = decode_from idle
