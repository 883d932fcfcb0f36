-- ===== src/Security/Equal.antt =====
-- The comparison in constant time decides equality.
use Prim.Native.Nat.{bit_or, bit_xor}
use squirreldb.Base.{
  ℕ, Text, IsText, len, Bytes, encode_utf8, true, [], ◌∷◌, ◌≡◌, refl, sym, ap, ◌∙◌, ◌↔◌, length,
  arith,
}
use squirreldb.Base.Utf8.{from_utf8_lossy}
use squirreldb.Base.Utf8.Length.{length-encode_utf8}
use squirreldb.Base.Utf8.RoundTrip.{from_utf8_lossy-encode_utf8}
use squirreldb.Security.Bits.{bit_xor-zero, bit_xor_self, bit_or-zero, bit_or_zero_zero}
use squirreldb.Security.Compare.{differences, constant_time_compare}

differences_zero :
    (r : ℕ) (xs ys : Bytes) → length xs ≡ length ys → differences r xs ys ≡ 0 → (r ≡ 0) × (xs ≡ ys)
unfolding differences
differences_zero r [] [] e h = (h, refl)
differences_zero r (x ∷ xs) [] e h = absurd (omega arith)
differences_zero r [] (y ∷ ys) e h = absurd (omega arith)
differences_zero r (x ∷ xs) (y ∷ ys) e h =
    let (both, rest) = differences_zero (bit_or r (bit_xor x y)) xs ys (omega arith) h in
    let (before, same) = bit_or-zero r (bit_xor x y) both in
    (before, rw (bit_xor-zero x y same, rest) refl)

differences_self : (xs : Bytes) → differences 0 xs xs ≡ 0
unfolding differences
differences_self [] = refl
differences_self (x ∷ xs) = rw (bit_xor_self, bit_or_zero_zero) (differences_self xs)

encode_utf8_inj : (a b : Text) → IsText a → IsText b → encode_utf8 a ≡ encode_utf8 b → a ≡ b
encode_utf8_inj a b h k e =
    sym (from_utf8_lossy-encode_utf8 a h) ∙ ap from_utf8_lossy e ∙ from_utf8_lossy-encode_utf8 b k

-- The comparison in constant time finds two strings equal exactly when they are the same.
pub constant_time_compare_iff :
    (a b : Text) → IsText a → IsText b → (constant_time_compare a b ≡ true) ↔ (a ≡ b)
unfolding constant_time_compare
constant_time_compare_iff a b h k = (
  (λ e.
      let lengths : len a ≡ len b = ground arith in
      let zero : differences 0 (encode_utf8 a) (encode_utf8 b) ≡ 0 = ground arith in
      encode_utf8_inj a b h k
        (differences_zero 0 (encode_utf8 a) (encode_utf8 b)
          (length-encode_utf8 a ∙ lengths ∙ sym (length-encode_utf8 b)) zero).1),
  (λ e. rw (← e) (let zero = differences_self (encode_utf8 a) in ground arith)),
)
