-- ===== src/Security/Bits.antt =====
-- When an exclusive or is zero, and when an inclusive one is.
use Prim.Native.Nat.{
  ℕ, zero, suc, ◌/◌, ◌%◌, ◌≤◌, max, digits, differ, bit_or, bit_xor, bit_or-bitwise,
  bit_xor-bitwise,
}
use mathlib.Core.Path.{◌≡◌, refl, sym, ◌∙◌}
use native.Mathlib.Omega.{arith}

differ_self : (x : ℕ) → differ x x ≡ 0
differ_self zero = refl
differ_self (suc x) = differ_self x

differ-zero : (x y : ℕ) → differ x y ≡ 0 → x ≡ y
differ-zero zero y h = sym h
differ-zero (suc x) zero h = absurd (omega arith)
differ-zero (suc x) (suc y) h = omega (arith, differ-zero x y h)

xor-digits_zero : (n a b : ℕ) → a ≤ n → digits (λ b. b) differ n a b ≡ 0 → a ≡ b
xor-digits_zero zero a b l h = omega arith
xor-digits_zero (suc n) zero b l h = sym h
xor-digits_zero (suc n) (suc a) b l h =
    let high = xor-digits_zero n (suc a / 2) (b / 2) (omega arith) (omega arith) in
    let low = differ-zero (suc a % 2) (b % 2) (omega arith) in omega arith

xor-digits_self : (n a : ℕ) → a ≤ n → digits (λ b. b) differ n a a ≡ 0
xor-digits_self zero a l = omega arith
xor-digits_self (suc n) zero l = refl
xor-digits_self (suc n) (suc a) l =
    let high = xor-digits_self n (suc a / 2) (omega arith) in
    let low = differ_self (suc a % 2) in omega arith

or-digits_zero : (n a b : ℕ) → a ≤ n → digits (λ b. b) max n a b ≡ 0 → (a ≡ 0) × (b ≡ 0)
or-digits_zero zero a b l h = (omega arith, h)
or-digits_zero (suc n) zero b l h = (refl, h)
or-digits_zero (suc n) (suc a) b l h =
    let (high, other) = or-digits_zero n (suc a / 2) (b / 2) (omega arith) (omega arith) in
    absurd (omega arith)

pub bit_xor-zero : (a b : ℕ) → bit_xor a b ≡ 0 → a ≡ b
bit_xor-zero a b h = xor-digits_zero a a b (omega arith) (sym (λ i. bit_xor-bitwise a b i) ∙ h)

pub bit_xor_self : (a : ℕ) → bit_xor a a ≡ 0
bit_xor_self a = (λ i. bit_xor-bitwise a a i) ∙ xor-digits_self a a (omega arith)

pub bit_or-zero : (a b : ℕ) → bit_or a b ≡ 0 → (a ≡ 0) × (b ≡ 0)
bit_or-zero a b h = or-digits_zero a a b (omega arith) (sym (λ i. bit_or-bitwise a b i) ∙ h)

pub bit_or_zero_zero : bit_or 0 0 ≡ 0
bit_or_zero_zero = refl
