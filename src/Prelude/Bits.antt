-- ===== src/Prelude/Bits.antt =====
-- When `bit_or` and `bit_xor` give 0, from the definition that the native operations stand for.
use Prim.Native.Nat.{
  ℕ, zero, suc, ◌/◌, ◌%◌, ◌≤◌, max, bit_or, bit_xor, digits, differ, bit_or-bitwise,
  bit_xor-bitwise,
}
use mathlib.Core.Path.{◌≡◌, refl, sym, ◌∙◌}
use native.Mathlib.Omega.{arith}

or_digits : (n a b : ℕ) → a ≤ n → digits (λ b. b) max n a b ≡ 0 → (a ≡ 0) × (b ≡ 0)
or_digits zero a b p h = omega arith
or_digits (suc n) zero b p h = omega arith
or_digits (suc n) (suc a) b p h =
    omega (arith, or_digits n (suc a / 2) (b / 2) (omega arith) (omega arith))

differ-zero : (x y : ℕ) → differ x y ≡ 0 → x ≡ y
differ-zero zero y h = sym h
differ-zero (suc x) zero h = absurd (omega arith)
differ-zero (suc x) (suc y) h = omega (arith, differ-zero x y h)

differ-same : (x : ℕ) → differ x x ≡ 0
differ-same zero = refl
differ-same (suc x) = differ-same x

xor_digits : (n a b : ℕ) → a ≤ n → digits (λ b. b) differ n a b ≡ 0 → a ≡ b
xor_digits zero a b p h = omega arith
xor_digits (suc n) zero b p h = omega arith
xor_digits (suc n) (suc a) b p h = omega (
  arith,
  differ-zero (suc a % 2) (b % 2) (omega arith),
  xor_digits n (suc a / 2) (b / 2) (omega arith) (omega arith),
)

xor_same : (n a : ℕ) → a ≤ n → digits (λ b. b) differ n a a ≡ 0
xor_same zero a p = omega arith
xor_same (suc n) zero p = refl
xor_same (suc n) (suc a) p =
    omega (arith, differ-same (suc a % 2), xor_same n (suc a / 2) (omega arith))

pub bit_or-zero : (a b : ℕ) → bit_or a b ≡ 0 → (a ≡ 0) × (b ≡ 0)
bit_or-zero a b h = or_digits a a b (omega arith) (sym (bit_or-bitwise a b) ∙ h)

pub bit_xor-zero : (a b : ℕ) → bit_xor a b ≡ 0 → a ≡ b
bit_xor-zero a b h = xor_digits a a b (omega arith) (sym (bit_xor-bitwise a b) ∙ h)

pub bit_xor-same : (a : ℕ) → bit_xor a a ≡ 0
bit_xor-same a = bit_xor-bitwise a a ∙ xor_same a a (omega arith)
