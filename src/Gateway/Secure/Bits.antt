-- ===== src/Gateway/Secure/Bits.antt =====
-- When `|` and `^` are zero, from the digit recursion that they stand for.
use Prim.Native.Nat.{max, digits, differ, bit_or, bit_xor, bit_or-bitwise, bit_xor-bitwise}
use mcphub.Prelude.{ℕ, zero, suc, ◌/◌, ◌%◌, ◌≤◌, ◌≡◌, refl, arith}

or_digits : (n a b : ℕ) → a ≤ n → digits (λ x. x) max n a b ≡ 0 → (a ≡ 0) × (b ≡ 0)
or_digits zero zero b h e = omega arith
or_digits zero (suc a) b h e = absurd (omega arith)
or_digits (suc n) zero b h e = omega arith
or_digits (suc n) (suc a) b h e =
    omega (arith, or_digits n (suc a / 2) (b / 2) (omega arith) (omega arith))

pub bit_or-eq-zero : (a b : ℕ) → bit_or a b ≡ 0 → (a ≡ 0) × (b ≡ 0)
bit_or-eq-zero a b e = or_digits a a b (omega arith) (rw bit_or-bitwise at e)

differ-eq-zero : (a b : ℕ) → differ a b ≡ 0 → a ≡ b
differ-eq-zero zero b e = omega arith
differ-eq-zero (suc a) zero e = omega arith
differ-eq-zero (suc a) (suc b) e = omega (arith, differ-eq-zero a b e)

differ_self : (a : ℕ) → differ a a ≡ 0
differ_self zero = refl
differ_self (suc a) = differ_self a

xor_digits : (n a b : ℕ) → a ≤ n → digits (λ x. x) differ n a b ≡ 0 → a ≡ b
xor_digits zero zero b h e = omega arith
xor_digits zero (suc a) b h e = absurd (omega arith)
xor_digits (suc n) zero b h e = omega arith
xor_digits (suc n) (suc a) b h e = omega (
  arith,
  xor_digits n (suc a / 2) (b / 2) (omega arith) (omega arith),
  differ-eq-zero (suc a % 2) (b % 2) (omega arith),
)

xor_digits_self : (n a : ℕ) → a ≤ n → digits (λ x. x) differ n a a ≡ 0
xor_digits_self zero zero h = refl
xor_digits_self zero (suc a) h = absurd (omega arith)
xor_digits_self (suc n) zero h = refl
xor_digits_self (suc n) (suc a) h =
    omega (arith, xor_digits_self n (suc a / 2) (omega arith), differ_self (suc a % 2))

pub bit_xor-eq-zero : (a b : ℕ) → bit_xor a b ≡ 0 → a ≡ b
bit_xor-eq-zero a b e = xor_digits a a b (omega arith) (rw bit_xor-bitwise at e)

pub bit_xor_self : (a : ℕ) → bit_xor a a ≡ 0
bit_xor_self a = rw bit_xor-bitwise (xor_digits_self a a (omega arith))
