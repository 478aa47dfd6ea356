-- ===== src/Base/Bits.antt =====
-- When `bit_or` and `bit_xor` are zero.
use Prim.Native.Nat.{
  ℕ, zero, suc, ◌/◌, ◌%◌, ◌≤◌, max, digits, differ, bit_or, bit_xor, bit_or-bitwise,
  bit_xor-bitwise,
}
use mathlib.Core.Path.{◌≡◌, refl, sym}
use native.Mathlib.Omega.{arith}

differ-eq_zero : (x y : ℕ) → differ x y ≡ 0 → x ≡ y
differ-eq_zero zero y h = sym h
differ-eq_zero (suc x) zero h = absurd (omega arith)
differ-eq_zero (suc x) (suc y) h = omega (arith, differ-eq_zero x y h)

differ-same : (x : ℕ) → differ x x ≡ 0
differ-same zero = refl
differ-same (suc x) = differ-same x

digits-max-eq_zero : (n a b : ℕ) → a ≤ n → digits (λ b. b) max n a b ≡ 0 → (a ≡ 0) × (b ≡ 0)
digits-max-eq_zero zero a b k h = (omega arith, h)
digits-max-eq_zero (suc n) zero b k h = (refl, h)
digits-max-eq_zero (suc n) (suc a) b k h =
    let (left, right) = digits-max-eq_zero n (suc a / 2) (b / 2) (omega arith) (omega arith) in
    (omega arith, omega arith)

digits-differ-eq_zero : (n a b : ℕ) → a ≤ n → digits (λ b. b) differ n a b ≡ 0 → a ≡ b
digits-differ-eq_zero zero a b k h = omega arith
digits-differ-eq_zero (suc n) zero b k h = sym h
digits-differ-eq_zero (suc n) (suc a) b k h = omega (
  arith,
  digits-differ-eq_zero n (suc a / 2) (b / 2) (omega arith) (omega arith),
  differ-eq_zero (suc a % 2) (b % 2) (omega arith),
)

digits-differ-same : (n a : ℕ) → a ≤ n → digits (λ b. b) differ n a a ≡ 0
digits-differ-same zero a k = omega arith
digits-differ-same (suc n) zero k = refl
digits-differ-same (suc n) (suc a) k =
    omega (arith, digits-differ-same n (suc a / 2) (omega arith), differ-same (suc a % 2))

pub bit_or-eq_zero : (a b : ℕ) → bit_or a b ≡ 0 → (a ≡ 0) × (b ≡ 0)
bit_or-eq_zero a b h = digits-max-eq_zero a a b (omega arith) (omega (arith, bit_or-bitwise a b))

pub bit_xor-eq_zero : (a b : ℕ) → bit_xor a b ≡ 0 → a ≡ b
bit_xor-eq_zero a b h =
    digits-differ-eq_zero a a b (omega arith) (omega (arith, bit_xor-bitwise a b))

pub bit_xor-same : (a : ℕ) → bit_xor a a ≡ 0
bit_xor-same a = omega (arith, bit_xor-bitwise a a, digits-differ-same a a (omega arith))
