-- ===== src/Base/Number.antt =====
-- Decimal numbers as Rust's `to_string` and `parse` of `u64` and `i64` write and read them.
pub mod RoundTrip
pub mod Digits
use Prim.Native.Nat.{ℕ, zero, suc, ◌+◌, ◌-◌, ◌*◌, ◌/◌, ◌%◌}
use mathlib.Core.Bool.{Bool, ◌&&◌}
use mathlib.Core.List.{[], ◌∷◌}
use mathlib.Core.Option
use mathlib.Core.Option.{Option, none, some}
use squirreldb.Base.Core.{ltb, leb, ◌==◌, if◌then◌else◌}
use squirreldb.Base.Texts.{Text}
use squirreldb.Base.Int.{ℤ, pos, negsuc, i64_mod, i64_half}

-- The digits in front of `rest`; `fuel` bounds their number.
show_digits : ℕ → ℕ → Text → Text
show_digits zero n rest = rest
show_digits (suc fuel) n rest =
    let front = show_digits fuel (n / 10) ((b'0' + n % 10) ∷ rest) in
    if ltb n 10 then (b'0' + n) ∷ rest else front

-- `to_string` of an unsigned number. There are fewer digits than `n + 1`.
unfoldable pub show_nat : ℕ → Text
unfolding show_digits
show_nat n = show_digits (suc n) n []

-- `to_string` of an `i64`.
unfoldable pub show_i64 : ℤ → Text
unfolding show_nat
show_i64 (pos n) = show_nat n
show_i64 (negsuc n) = b'-' ∷ show_nat (suc n)

abbrev pub is_digit : ℕ → Bool
is_digit c = leb b'0' c && leb c b'9'

-- The value of a text of digits, read on from `acc`.
read_digits : ℕ → Text → Option ℕ
read_digits acc [] = some acc
read_digits acc (c ∷ cs) =
    let rest = read_digits (acc * 10 + (c - b'0')) cs in if is_digit c then rest else none

-- At least one digit; `none` where the number leaves the bound, as the checked loop of `parse`
-- finds at some digit.
read_below : ℕ → Text → Option ℕ
read_below bound [] = none
read_below bound (c ∷ cs) = elim (read_digits 0 (c ∷ cs)) [
  | none ↦ none
  | some n ↦ if ltb n bound then some n else none
]

-- `s.parse::<u64>()`, and of `usize`: a sign `+` may stand in front.
unfoldable pub parse_u64 : Text → Option ℕ
unfolding read_digits read_below
parse_u64 [] = none
parse_u64 (c ∷ cs) = if c == b'+' then read_below i64_mod cs else read_below i64_mod (c ∷ cs)

negate : ℕ → ℤ
negate zero = pos 0
negate (suc n) = negsuc n

-- `s.parse::<i64>()`
unfoldable pub parse_i64 : Text → Option ℤ
unfolding read_digits read_below negate
parse_i64 [] = none
parse_i64 (c ∷ cs) =
    if c == b'+'
    then Option.map pos (read_below i64_half cs)
    else if c == b'-'
    then Option.map negate (read_below (suc i64_half) cs)
    else Option.map pos (read_below i64_half (c ∷ cs))
