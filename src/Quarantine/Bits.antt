-- ===== src/Quarantine/Bits.antt =====
-- Exclusive or of numbers, digit by digit: applied twice it cancels.
use Prim.Native.Nat.{
  ℕ, zero, suc, ◌+◌, ◌*◌, ◌/◌, ◌%◌, ◌≤◌, ◌<◌, bit_xor, digits, differ, bit_xor-bitwise,
}
use mathlib.Core.Path.{◌≡◌, refl}
use native.Mathlib.Omega.{arith}

abbrev xor_digits : ℕ → ℕ → ℕ → ℕ
xor_digits n a b = digits (λ b. b) differ n a b

zero-bit_xor : (b : ℕ) → bit_xor 0 b ≡ b
zero-bit_xor b = bit_xor-bitwise 0 b

-- fuel at least as large as the first number suffices
xor_digits_fuel : (n m a b : ℕ) → a ≤ n → a ≤ m → xor_digits n a b ≡ xor_digits m a b
xor_digits_fuel zero zero a b p q = refl
xor_digits_fuel zero (suc m) zero b p q = refl
xor_digits_fuel zero (suc m) (suc a) b p q = absurd (omega arith)
xor_digits_fuel (suc n) zero zero b p q = refl
xor_digits_fuel (suc n) zero (suc a) b p q = absurd (omega arith)
xor_digits_fuel (suc n) (suc m) zero b p q = refl
xor_digits_fuel (suc n) (suc m) (suc a) b p q =
    omega (arith, xor_digits_fuel n m (suc a / 2) (b / 2) (omega arith) (omega arith))

abbrev last_digits_differ : ℕ → ℕ → ℕ
last_digits_differ a b = differ (a % 2) (b % 2)

differ_zero : (d : ℕ) → d < 2 → differ 0 d ≡ d
differ_zero zero h = refl
differ_zero (suc zero) h = refl
differ_zero (suc (suc d)) h = absurd (omega arith)

differ_twice : (a b : ℕ) → a < 2 → b < 2 → differ (differ a b) b ≡ a
differ_twice zero zero h k = refl
differ_twice zero (suc zero) h k = refl
differ_twice (suc zero) zero h k = refl
differ_twice (suc zero) (suc zero) h k = refl
differ_twice (suc (suc a)) b h k = absurd (omega arith)
differ_twice a (suc (suc b)) h k = absurd (omega arith)

differ-lt : (a b : ℕ) → a < 2 → b < 2 → differ a b < 2
differ-lt zero zero h k = omega arith
differ-lt zero (suc zero) h k = omega arith
differ-lt (suc zero) zero h k = omega arith
differ-lt (suc zero) (suc zero) h k = omega arith
differ-lt (suc (suc a)) b h k = absurd (omega arith)
differ-lt a (suc (suc b)) h k = absurd (omega arith)

bit_xor_step : (a b : ℕ) → bit_xor a b ≡ bit_xor (a / 2) (b / 2) * 2 + last_digits_differ a b
bit_xor_step zero b =
    omega (arith, zero-bit_xor b, zero-bit_xor (b / 2), differ_zero (b % 2) (omega arith))
bit_xor_step (suc a) b = omega (
  arith,
  bit_xor-bitwise (suc a) b,
  bit_xor-bitwise (suc a / 2) (b / 2),
  xor_digits_fuel a (suc a / 2) (suc a / 2) (b / 2) (omega arith) (omega arith),
)

xor_cancel_fuel : (n a b : ℕ) → a ≤ n → b ≤ n → bit_xor (bit_xor a b) b ≡ a
xor_cancel_fuel zero zero zero h k = refl
xor_cancel_fuel zero (suc a) b h k = absurd (omega arith)
xor_cancel_fuel zero a (suc b) h k = absurd (omega arith)
xor_cancel_fuel (suc n) a b h k =
    let small = differ-lt (a % 2) (b % 2) (omega arith) (omega arith) in
    let halved : bit_xor a b / 2 ≡ bit_xor (a / 2) (b / 2) =
      omega (arith, bit_xor_step a b, small) in
    let last : bit_xor a b % 2 ≡ last_digits_differ a b = omega (arith, bit_xor_step a b, small) in
    rw (bit_xor_step (bit_xor a b) b, halved, last)
      (omega (
        arith,
        xor_cancel_fuel n (a / 2) (b / 2) (omega arith) (omega arith),
        differ_twice (a % 2) (b % 2) (omega arith) (omega arith),
      ))

pub xor_cancel : (a b : ℕ) → bit_xor (bit_xor a b) b ≡ a
xor_cancel a b = xor_cancel_fuel (a + b) a b (omega arith) (omega arith)
