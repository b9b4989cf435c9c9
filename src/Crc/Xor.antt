-- ===== src/Crc/Xor.antt =====
-- Exclusive or, digit by digit.
use Prim.Native.Nat.{bit_xor, bit_xor-bitwise, digits, differ}
use t1_sistemas_embarcados.Prelude.{
  ℕ, zero, suc, ◌+◌, ◌*◌, ◌/◌, ◌%◌, ◌^◌, ◌≤◌, ◌<◌, ◌≡◌, refl, ◌∙◌, ap, ap₂, sym, arith,
}
use native.Mathlib.Nat.{pow-suc, mul_assoc, mul_comm}

abbrev xor_digits : ℕ → ℕ → ℕ → ℕ
xor_digits n a b = digits (λ b. b) differ n a b

xor_digits_fuel : (n m a b : ℕ) → a ≤ n → a ≤ m → xor_digits n a b ≡ xor_digits m a b
xor_digits_fuel zero zero a b p q = refl
xor_digits_fuel zero (suc m) zero b p q = refl
xor_digits_fuel zero (suc m) (suc a) b p q = absurd (omega arith)
xor_digits_fuel (suc n) zero zero b p q = refl
xor_digits_fuel (suc n) zero (suc a) b p q = absurd (omega arith)
xor_digits_fuel (suc n) (suc m) zero b p q = refl
xor_digits_fuel (suc n) (suc m) (suc a) b p q =
    omega (arith, xor_digits_fuel n m (suc a / 2) (b / 2) (omega arith) (omega arith))

zero-bit_xor : (b : ℕ) → bit_xor 0 b ≡ b
zero-bit_xor b = bit_xor-bitwise 0 b

differ_bit : (a b : ℕ) → a < 2 → b < 2 → differ a b ≡ (a + b) % 2
differ_bit zero b h k = omega arith
differ_bit (suc zero) zero h k = refl
differ_bit (suc zero) (suc zero) h k = refl
differ_bit (suc zero) (suc (suc b)) h k = absurd (omega arith)
differ_bit (suc (suc a)) b h k = absurd (omega arith)

-- The law for the lowest digit.
pub bit_xor_step : (a b : ℕ) → bit_xor a b ≡ bit_xor (a / 2) (b / 2) * 2 + (a + b) % 2
bit_xor_step zero b = omega (arith, zero-bit_xor b, zero-bit_xor (b / 2))
bit_xor_step (suc a) b = omega (
  arith,
  bit_xor-bitwise (suc a) b,
  bit_xor-bitwise (suc a / 2) (b / 2),
  xor_digits_fuel a (suc a / 2) (suc a / 2) (b / 2) (omega arith) (omega arith),
  differ_bit (suc a % 2) (b % 2) (omega arith) (omega arith),
)

bit_xor-zero_fuel : (n a : ℕ) → a ≤ n → bit_xor a 0 ≡ a
bit_xor-zero_fuel n zero h = zero-bit_xor 0
bit_xor-zero_fuel zero (suc a) h = absurd (omega arith)
bit_xor-zero_fuel (suc n) (suc a) h =
    omega (arith, bit_xor_step (suc a) 0, bit_xor-zero_fuel n (suc a / 2) (omega arith))

pub bit_xor-zero : (a : ℕ) → bit_xor a 0 ≡ a
bit_xor-zero a = bit_xor-zero_fuel a a (omega arith)

bit_xor-self_fuel : (n a : ℕ) → a ≤ n → bit_xor a a ≡ 0
bit_xor-self_fuel n zero h = zero-bit_xor 0
bit_xor-self_fuel zero (suc a) h = absurd (omega arith)
bit_xor-self_fuel (suc n) (suc a) h =
    omega (arith, bit_xor_step (suc a) (suc a), bit_xor-self_fuel n (suc a / 2) (omega arith))

-- A number with its own digits from the `k`-th on taken out.
pub bit_xor-high : (k h l : ℕ) → l < 2 ^ k → bit_xor (h * 2 ^ k + l) (h * 2 ^ k) ≡ l
bit_xor-high zero h l below =
    let none : l ≡ 0 = omega arith in
    ap₂ bit_xor (omega arith) (omega arith) ∙ bit_xor-self_fuel h h (omega arith) ∙ sym none
bit_xor-high (suc k) h l below =
    let double : h * 2 ^ suc k ≡ 2 * (h * 2 ^ k) =
      ap (λ q. h * q) (pow-suc 2 k) ∙ sym (mul_assoc h (2 ^ k) 2) ∙ mul_comm (h * 2 ^ k) 2 in
    let halves : bit_xor ((h * 2 ^ suc k + l) / 2) (h * 2 ^ suc k / 2) ≡ l / 2 =
      ap₂ bit_xor (omega (arith, double)) (omega (arith, double))
      ∙ bit_xor-high k h (l / 2) (omega (arith, pow-suc 2 k)) in
    bit_xor_step (h * 2 ^ suc k + l) (h * 2 ^ suc k) ∙ omega (arith, halves, double)
