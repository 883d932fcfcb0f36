-- ===== src/Base/Int.antt =====
-- Signed integers, and Rust's `i64` as those that lie in its range.
use Prim.Native.Nat.{ℕ, ◌+◌, ◌-◌, ◌<◌, ◌%◌, ◌*◌, ◌^◌}
use mathlib.Core.Path.{◌≡◌}
use mathlib.Core.Bool.{Bool, true, false}
use native.Mathlib.Omega.{arith}
use squirreldb.Base.Core.{ltb, if◌then◌else◌}

-- `negsuc n` is -(n + 1).
pub data ℤ : Type 0 where
  pos : ℕ → ℤ
  negsuc : ℕ → ℤ

abbrev pub i64_mod : ℕ
i64_mod = 2 ^ 64

abbrev pub i64_half : ℕ
i64_half = 2 ^ 63

abbrev pub IsI64 : ℤ → Type 0
IsI64 (pos n) = n < i64_half
IsI64 (negsuc n) = n < i64_half

-- The 64-bit pattern of an integer, and the `i64` that a pattern stands for.
abbrev pub to_bits : ℤ → ℕ
to_bits (pos n) = n % i64_mod
to_bits (negsuc n) = i64_mod - 1 - n % i64_mod

abbrev pub of_bits : ℕ → ℤ
of_bits b = if ltb b i64_half then pos b else negsuc (i64_mod - 1 - b)

-- `a + b` on `i64` as the release profile compiles it: it wraps around.
unfoldable pub add_i64 : ℤ → ℤ → ℤ
add_i64 a b = of_bits ((to_bits a + to_bits b) % i64_mod)

-- `-a` on `i64`, which wraps around at the least one.
unfoldable pub neg_i64 : ℤ → ℤ
neg_i64 a = of_bits ((i64_mod - to_bits a) % i64_mod)

-- `a * b` on `i64`, of numbers that are not negative.
unfoldable pub mul_i64 : ℕ → ℕ → ℤ
mul_i64 a b = of_bits (a * b % i64_mod)

-- `n as i64` of a `usize` or `u64`.
unfoldable pub as_i64 : ℕ → ℤ
as_i64 n = of_bits (n % i64_mod)

-- `a < 0`
abbrev pub is_negative : ℤ → Bool
is_negative (pos n) = false
is_negative (negsuc n) = true

pub add_i64-IsI64 : (a b : ℤ) → IsI64 (add_i64 a b)
unfolding add_i64
add_i64-IsI64 a b = ground arith

pub add_i64-pos : (a b : ℕ) → a + b < i64_half → add_i64 (pos a) (pos b) ≡ pos (a + b)
unfolding add_i64
add_i64-pos a b h = ground arith

pub as_i64-pos : (n : ℕ) → n < i64_half → as_i64 n ≡ pos n
unfolding as_i64
as_i64-pos n h = ground arith
