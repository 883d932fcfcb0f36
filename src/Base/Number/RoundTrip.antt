-- ===== src/Base/Number/RoundTrip.antt =====
-- What `to_string` writes, `parse` reads back.
use squirreldb.Base.Core.{ltb, Bool-cases}
use squirreldb.Base.Texts.{Text}
use squirreldb.Base.Int.{ℤ, pos, negsuc, i64_mod, i64_half, IsI64}
use Prim.Native.Nat.{ℕ, zero, suc, ◌+◌, ◌-◌, ◌*◌, ◌/◌, ◌%◌, ◌<◌}
use mathlib.Core.Path.{◌≡◌, ◌∙◌, ap}
use mathlib.Core.Logic.{inl, inr}
use mathlib.Core.Bool.{true}
use mathlib.Core.List.{[], ◌∷◌}
use mathlib.Core.Option.{some}
use native.Mathlib.Omega.{arith}
use squirreldb.Base.Number.{
  show_digits, show_nat, show_i64, is_digit, read_digits, read_below, parse_u64, parse_i64,
}

read_digit :
    (acc d : ℕ) (rest : Text)
    → d < 10
    → read_digits acc ((b'0' + d) ∷ rest) ≡ read_digits (acc * 10 + d) rest
unfolding read_digits
read_digit acc d rest h =
    let e : b'0' + d - b'0' ≡ d = omega arith in
    let t : is_digit (b'0' + d) ≡ true = ground arith in rw (t, e)

read-show_digits :
    (fuel n : ℕ) (rest : Text)
    → n < fuel
    → read_digits 0 (show_digits fuel n rest) ≡ read_digits n rest
unfolding show_digits
read-show_digits zero n rest h = absurd (omega arith)
read-show_digits (suc fuel) n rest h = elim (Bool-cases (ltb n 10)) [
  | inl small ↦
      rw small (read_digit 0 n rest (ground arith) ∙ ap (λ m. read_digits m rest) (omega arith))
  | inr large ↦ rw large (
      read-show_digits fuel (n / 10) ((b'0' + n % 10) ∷ rest) (ground arith)
      ∙ read_digit (n / 10) (n % 10) rest (omega arith)
      ∙ ap (λ m. read_digits m rest) (omega arith))
]

-- A number's text begins with a digit.
show_digits_head :
    (fuel n : ℕ) (rest : Text)
    → n < fuel
    → (c : ℕ) × (cs : Text) × (show_digits fuel n rest ≡ c ∷ cs) × (is_digit c ≡ true)
unfolding show_digits
show_digits_head zero n rest h = absurd (omega arith)
show_digits_head (suc fuel) n rest h = elim (Bool-cases (ltb n 10)) [
  | inl small ↦ (b'0' + n, rest, rw small, ground arith)
  | inr large ↦ rw large (show_digits_head fuel (n / 10) ((b'0' + n % 10) ∷ rest) (ground arith))
]

show_nat_head : (n : ℕ) → (c : ℕ) × (cs : Text) × (show_nat n ≡ c ∷ cs) × (is_digit c ≡ true)
unfolding show_nat
show_nat_head n = show_digits_head (suc n) n [] (omega arith)

read-show_nat : (n : ℕ) → read_digits 0 (show_nat n) ≡ some n
unfolding show_nat read_digits
read-show_nat n = read-show_digits (suc n) n [] (omega arith)

read_below-show : (bound n : ℕ) → n < bound → read_below bound (show_nat n) ≡ some n
unfolding read_below
read_below-show bound n h =
    let (c, cs, e, d) = show_nat_head n in
    let r = read-show_nat n in rw e (ground (arith, rw e at r))

-- An unsigned 64-bit number is read back from its decimal text.
pub parse_u64-show_nat : (n : ℕ) → n < i64_mod → parse_u64 (show_nat n) ≡ some n
unfolding parse_u64
parse_u64-show_nat n h =
    let (c, cs, e, d) = show_nat_head n in
    let r = read_below-show i64_mod n h in rw e (ground (arith, rw e at r))

parse_i64-show_pos : (n : ℕ) → n < i64_half → parse_i64 (show_nat n) ≡ some (pos n)
unfolding parse_i64
parse_i64-show_pos n h =
    let (c, cs, e, d) = show_nat_head n in
    let r = read_below-show i64_half n h in rw e (ground (arith, rw e at r))

-- An `i64` is read back from its decimal text.
pub parse_i64-show_i64 : (z : ℤ) → IsI64 z → parse_i64 (show_i64 z) ≡ some z
unfolding parse_i64 show_i64
parse_i64-show_i64 (pos n) h = parse_i64-show_pos n h
parse_i64-show_i64 (negsuc n) h = rw (read_below-show (suc i64_half) (suc n) (omega arith))

abbrev pub AllDigits : Text → Type 0
AllDigits [] = Unit
AllDigits (c ∷ cs) = (is_digit c ≡ true) × AllDigits cs

show_digits-AllDigits :
    (fuel n : ℕ) (rest : Text) → AllDigits rest → AllDigits (show_digits fuel n rest)
unfolding show_digits
show_digits-AllDigits zero n rest h = h
show_digits-AllDigits (suc fuel) n rest h = elim (Bool-cases (ltb n 10)) [
  | inl small ↦ rw small (ground arith, h)
  | inr large ↦
      rw large (show_digits-AllDigits fuel (n / 10) ((b'0' + n % 10) ∷ rest) (ground arith, h))
]

-- The text of an unsigned number consists of digits.
pub show_nat-AllDigits : (n : ℕ) → AllDigits (show_nat n)
unfolding show_nat
show_nat-AllDigits n = show_digits-AllDigits (suc n) n [] tt
