-- ===== src/Libc/Divide/Shifted.antt =====
-- A number shifted to the left, and a bit added below its digits.
use Prim.Native.Nat.{bit_or, bit_or-bitwise, digits, max}
use t1_sistemas_embarcados.Prelude.{
  ℕ, zero, suc, ◌+◌, ◌*◌, ◌/◌, ◌%◌, ◌^◌, ◌≤◌, ◌<◌, ◌≡◌, refl, ◌∙◌, arith,
}
use native.Mathlib.Nat.{pow-suc}

-- `x << k` without a bound.
abbrev pub shl : ℕ → ℕ → ℕ
shl x zero = x
shl x (suc k) = 2 * shl x k

pub shl-add : (x y k : ℕ) → shl (x + y) k ≡ shl x k + shl y k
shl-add x y zero = refl
shl-add x y (suc k) = omega (arith, shl-add x y k)

pub shl-double : (x k : ℕ) → shl (2 * x) k ≡ 2 * shl x k
shl-double x zero = refl
shl-double x (suc k) = omega (arith, shl-double x k)

pub shl-pow : (x k : ℕ) → shl x k ≡ x * 2 ^ k
shl-pow x zero = omega arith
shl-pow x (suc k) = grind (arith, shl-pow x k, pow-suc 2 k)

-- The law of `bit_or` for the lowest digit.
abbrev or_digits : ℕ → ℕ → ℕ → ℕ
or_digits n a b = digits (λ b. b) max n a b

or_digits_fuel : (n m a b : ℕ) → a ≤ n → a ≤ m → or_digits n a b ≡ or_digits m a b
or_digits_fuel zero zero a b p q = refl
or_digits_fuel zero (suc m) zero b p q = refl
or_digits_fuel zero (suc m) (suc a) b p q = absurd (omega arith)
or_digits_fuel (suc n) zero zero b p q = refl
or_digits_fuel (suc n) zero (suc a) b p q = absurd (omega arith)
or_digits_fuel (suc n) (suc m) zero b p q = refl
or_digits_fuel (suc n) (suc m) (suc a) b p q =
    omega (arith, or_digits_fuel n m (suc a / 2) (b / 2) (omega arith) (omega arith))

zero-bit_or : (b : ℕ) → bit_or 0 b ≡ b
zero-bit_or b = bit_or-bitwise 0 b

bit_or_step : (a b : ℕ) → bit_or a b ≡ bit_or (a / 2) (b / 2) * 2 + max (a % 2) (b % 2)
bit_or_step zero b = omega (arith, zero-bit_or b, zero-bit_or (b / 2))
bit_or_step (suc a) b = omega (
  arith,
  bit_or-bitwise (suc a) b,
  bit_or-bitwise (suc a / 2) (b / 2),
  or_digits_fuel a (suc a / 2) (suc a / 2) (b / 2) (omega arith) (omega arith),
)

bit_or-zero_fuel : (n a : ℕ) → a ≤ n → bit_or a 0 ≡ a
bit_or-zero_fuel n zero h = refl
bit_or-zero_fuel zero (suc a) h = absurd (omega arith)
bit_or-zero_fuel (suc n) (suc a) h =
    omega (arith, bit_or_step (suc a) 0, bit_or-zero_fuel n (suc a / 2) (omega arith))

-- A bit below the digits of `m` is added by `|`.
pub bit_or-shl : (m k : ℕ) → bit_or (shl m (suc k)) (shl 1 k) ≡ shl m (suc k) + shl 1 k
bit_or-shl m zero =
    omega (arith, bit_or_step (2 * m) 1, bit_or-zero_fuel (2 * m / 2) (2 * m / 2) (omega arith))
bit_or-shl m (suc k) =
    let half : 2 * shl m (suc k) / 2 ≡ shl m (suc k) = omega arith in
    let half' : 2 * shl 1 k / 2 ≡ shl 1 k = omega arith in
    bit_or_step (2 * shl m (suc k)) (2 * shl 1 k) ∙ rw (half, half') (omega (arith, bit_or-shl m k))

pub shl_one-le : (d k : ℕ) → 0 < d → shl 1 k ≤ shl d k
shl_one-le d zero h = omega arith
shl_one-le d (suc k) h = omega (arith, shl_one-le d k h)

pub shl_one-pos : (k : ℕ) → 0 < shl 1 k
shl_one-pos zero = omega arith
shl_one-pos (suc k) = omega (arith, shl_one-pos k)

pub shl_one-mul : (d k : ℕ) → shl 1 k * d ≡ shl d k
shl_one-mul d zero = omega arith
shl_one-mul d (suc k) = grind (arith, shl_one-mul d k)

pub shl_below : (m k : ℕ) → shl (2 * m + 1) k ≡ shl m (suc k) + shl 1 k
shl_below m k = omega (arith, shl-add (2 * m) 1 k, shl-double m k)
