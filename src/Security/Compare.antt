-- ===== src/Security/Compare.antt =====
-- crates/sqrld/src/security/mod.rs: `constant_time_compare`, `hash_sha256` and `verify_hash`.
use Prim.Native.Nat.{bit_or, bit_xor}
use squirreldb.Base.{ℕ, Text, len, Bytes, encode_utf8, Bool, false, not, ◌∷◌, ◌==◌, if◌then◌else◌}

-- The loop over the pairs of bytes, with its variable.
unfoldable pub differences : ℕ → Bytes → Bytes → ℕ
differences result (x ∷ xs) (y ∷ ys) = differences (bit_or result (bit_xor x y)) xs ys
differences result _ _ = result

unfoldable pub constant_time_compare : Text → Text → Bool
unfolding differences
constant_time_compare a b =
    if not (len a == len b) then false else differences 0 (encode_utf8 a) (encode_utf8 b) == 0

unfoldable pub verify_hash : (Text → Text) → Text → Text → Bool
unfolding constant_time_compare
verify_hash hash_sha256 plaintext expected_hash =
    constant_time_compare (hash_sha256 plaintext) expected_hash
