-- ===== src/Base/Bits.antt =====
-- When `bit_xor` and `bit_or` are 0, from the recursion on binary digits that they stand for.
use Prim.Native.Nat.{
  ℕ, zero, suc, ◌/◌, ◌%◌, ◌≤◌, ◌<◌, max, bit_or, bit_xor, digits, differ, bit_or-bitwise,
  bit_xor-bitwise,
}
use mathlib.Core.Path.{◌≡◌, refl, sym, ◌∙◌}
use mathlib.Core.Logic.{◌↔◌}
use native.Mathlib.Omega.{arith}

digits_or-zero : (n a b : ℕ) → a ≤ n → digits (λ y. y) max n a b ≡ 0 → (a ≡ 0) × (b ≡ 0)
digits_or-zero zero zero b h e = (refl, e)
digits_or-zero zero (suc a) b h e = absurd (omega arith)
digits_or-zero (suc n) zero b h e = (refl, e)
digits_or-zero (suc n) (suc a) b h e =
    let (p, q) = digits_or-zero n (suc a / 2) (b / 2) (omega arith) (omega arith) in omega arith

bit_or-eq_zero : (a b : ℕ) → bit_or a b ≡ 0 → (a ≡ 0) × (b ≡ 0)
bit_or-eq_zero a b e = digits_or-zero a a b (omega arith) (sym (bit_or-bitwise a b) ∙ e)

-- `bit_or` is 0 exactly if both numbers are.
pub bit_or-zero : (a b : ℕ) → (bit_or a b ≡ 0) ↔ ((a ≡ 0) × (b ≡ 0))
bit_or-zero a b = (bit_or-eq_zero a b, λ h. rw (h.0, h.1))

differ_zero : (x y : ℕ) → differ x y ≡ 0 → x < 2 → y < 2 → x ≡ y
differ_zero x y e p q = ground arith

differ_self : (x : ℕ) → differ x x ≡ 0
differ_self zero = refl
differ_self (suc x) = differ_self x

digits_xor-zero : (n a b : ℕ) → a ≤ n → digits (λ y. y) differ n a b ≡ 0 → a ≡ b
digits_xor-zero zero zero b h e = sym e
digits_xor-zero zero (suc a) b h e = absurd (omega arith)
digits_xor-zero (suc n) zero b h e = sym e
digits_xor-zero (suc n) (suc a) b h e =
    let p = digits_xor-zero n (suc a / 2) (b / 2) (omega arith) (omega arith) in
    omega (arith, differ_zero (suc a % 2) (b % 2) (omega arith) (omega arith) (omega arith))

digits_xor_self : (n a : ℕ) → a ≤ n → digits (λ y. y) differ n a a ≡ 0
digits_xor_self zero zero h = refl
digits_xor_self zero (suc a) h = absurd (omega arith)
digits_xor_self (suc n) zero h = refl
digits_xor_self (suc n) (suc a) h =
    omega (arith, digits_xor_self n (suc a / 2) (omega arith), differ_self (suc a % 2))

-- `bit_xor` is 0 exactly if the numbers are equal.
pub bit_xor-zero : (a b : ℕ) → (bit_xor a b ≡ 0) ↔ (a ≡ b)
bit_xor-zero a b = (
  λ e. digits_xor-zero a a b (omega arith) (sym (bit_xor-bitwise a b) ∙ e),
  λ e. rw (← e) (bit_xor-bitwise a a ∙ digits_xor_self a a (omega arith)),
)
