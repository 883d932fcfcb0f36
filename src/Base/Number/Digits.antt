-- ===== src/Base/Number/Digits.antt =====
-- What holds of the characters that numbers are written in holds of every character of a number.
use Prim.Native.Nat.{ℕ, zero, suc, ◌+◌, ◌/◌, ◌%◌, ◌<◌}
use mathlib.Core.List.{[], ◌∷◌}
use mathlib.Core.Logic.{inl, inr}
use native.Mathlib.Omega.{arith}
use squirreldb.Base.Core.{ltb, Bool-cases}
use squirreldb.Base.Lists.{All}
use squirreldb.Base.Texts.{Text}
use squirreldb.Base.Int.{ℤ, pos, negsuc}
use squirreldb.Base.Number.{show_digits, show_nat, show_i64}

module _ (P : ℕ → Type 0) (digits : (d : ℕ) → d < 10 → P (b'0' + d)) where
  show_digits-All : (fuel n : ℕ) (rest : Text) → All P rest → All P (show_digits fuel n rest)
  unfolding show_digits
  show_digits-All zero n rest h = h
  show_digits-All (suc fuel) n rest h = elim (Bool-cases (ltb n 10)) [
    | inl small ↦ rw small (digits n (ground arith), h)
    | inr large ↦
        rw large (
          show_digits-All fuel (n / 10) ((b'0' + n % 10) ∷ rest) (digits (n % 10) (omega arith), h))
  ]

  show_nat-All : (n : ℕ) → All P (show_nat n)
  unfolding show_nat
  show_nat-All n = show_digits-All (suc n) n [] tt

  pub show_i64-All : P b'-' → (z : ℤ) → All P (show_i64 z)
  unfolding show_i64
  show_i64-All minus (pos n) = show_nat-All n
  show_i64-All minus (negsuc n) = (minus, show_nat-All (suc n))
