-- ===== src/Base/Utf8/Length.antt =====
-- The length of a text is that of its UTF-8 form.
use Prim.Native.Nat.{ℕ}
use mathlib.Core.Path.{◌≡◌, refl}
use mathlib.Core.List.{[], ◌∷◌}
use native.Mathlib.Omega.{arith}
use squirreldb.Base.Lists.{length, length-append}
use squirreldb.Base.Texts.{Text, len}
use squirreldb.Base.Utf8.{encode_char, encode_utf8}

length-encode_char : (c : ℕ) → length (encode_char c) ≡ len (c ∷ [])
unfolding encode_char len
length-encode_char c = ground arith

pub length-encode_utf8 : (t : Text) → length (encode_utf8 t) ≡ len t
unfolding encode_utf8 len
length-encode_utf8 [] = refl
length-encode_utf8 (c ∷ cs) = omega (
  arith,
  length-append (encode_char c) (encode_utf8 cs),
  length-encode_utf8 cs,
  length-encode_char c,
)
