-- ===== src/Base/Utf8/RoundTrip.antt =====
-- A string is read back from its bytes.
use Prim.Native.Nat.{ℕ, ◌+◌, ◌/◌, ◌%◌, ◌≤◌, ◌<◌}
use mathlib.Core.Path.{◌≡◌, refl, ap, ◌∙◌}
use mathlib.Core.Bool.{true}
use mathlib.Core.List.{[], ◌∷◌, ◌++◌}
use native.Mathlib.Omega.{arith}
use squirreldb.Base.Texts.{Text, is_scalar, IsText}
use squirreldb.Base.Utf8.{Bytes, encode_char, encode_utf8, idle, decode_from, from_utf8_lossy}

module _ (c : ℕ) (rest : Bytes) where
  decode_one : c < 0x80 → decode_from idle (c ∷ rest) ≡ c ∷ decode_from idle rest
  unfolding decode_from
  decode_one h = ground arith

  decode_two :
      0x80 ≤ c
      → c < 0x800
      → decode_from idle ((0xc0 + c / 64) ∷ (0x80 + c % 64) ∷ rest) ≡ c ∷ decode_from idle rest
  unfolding decode_from
  decode_two h k = ground arith

  decode_three :
      0x800 ≤ c
      → c < 0x10000
      → is_scalar c ≡ true
      → decode_from idle ((0xe0 + c / 4096) ∷ (0x80 + c / 64 % 64) ∷ (0x80 + c % 64) ∷ rest)
        ≡ c ∷ decode_from idle rest
  unfolding decode_from
  decode_three h k s = ground arith

  decode_four :
      0x10000 ≤ c
      → c < 0x110000
      → decode_from idle (
          (0xf0 + c / 262144)
          ∷ (0x80 + c / 4096 % 64)
          ∷ (0x80 + c / 64 % 64)
          ∷ (0x80 + c % 64)
          ∷ rest)
        ≡ c ∷ decode_from idle rest
  unfolding decode_from
  decode_four h k = ground arith

  decode-encode_char :
      is_scalar c ≡ true → decode_from idle (encode_char c ++ rest) ≡ c ∷ decode_from idle rest
  unfolding encode_char
  decode-encode_char s = ground (arith, decode_one, decode_two, decode_three, decode_four)

pub from_utf8_lossy-encode_utf8 : (s : Text) → IsText s → from_utf8_lossy (encode_utf8 s) ≡ s
unfolding encode_utf8 from_utf8_lossy
from_utf8_lossy-encode_utf8 [] h = refl
from_utf8_lossy-encode_utf8 (c ∷ cs) (h, t) =
    decode-encode_char c (encode_utf8 cs) h ∙ ap (◌∷◌ c) (from_utf8_lossy-encode_utf8 cs t)
