-- ===== src/Libc/Divide/Signed.antt =====
-- Division of signed words.
use t1_sistemas_embarcados.Prelude.{
  ℕ, ◌/◌, ◌-◌, ◌%◌, ◌^◌, ◌≤◌, ◌<◌, ◌≡◌, Bool, true, false, not, ap, some, ◌==◌, Bool-cases, inl,
  inr, arith,
}
use native.Mathlib.Nat.{div-add-mod', le-mul_of_pos_right}
use t1_sistemas_embarcados.Libc.{◌>>=◌}
use t1_sistemas_embarcados.Libc.Divide.{
  is_negative, magnitude, signed, differ, divsi3, modsi3, divdi3, moddi3,
}
use t1_sistemas_embarcados.Libc.Divide.Quotients.{udivmodsi4_lem, udivmoddi4_lem}

magnitude32-lt : (x : ℕ) → x < 2 ^ 32 → magnitude 32 x < 2 ^ 32
magnitude32-lt x h = ground arith

magnitude64-lt : (x : ℕ) → x < 2 ^ 64 → magnitude 64 x < 2 ^ 64
magnitude64-lt x h = ground arith

magnitude32-pos : (x : ℕ) → x < 2 ^ 32 → 0 < x → 0 < magnitude 32 x
magnitude32-pos x h l = ground arith

magnitude64-pos : (x : ℕ) → x < 2 ^ 64 → 0 < x → 0 < magnitude 64 x
magnitude64-pos x h l = ground arith

-- For a divisor that is not 0 `__divsi3` and `__modsi3` return the quotient and the remainder of the
-- magnitudes, the quotient negated where the signs of the operands differ and the remainder where
-- the dividend is negative, as C asks.
pub divsi3-modsi3_lem :
    (a b : ℕ)
    → a < 2 ^ 32
    → b < 2 ^ 32
    → 0 < b
    → (divsi3 a b
        ≡ some (
            signed 32
              (differ (is_negative 32 a) (is_negative 32 b))
              (magnitude 32 a / magnitude 32 b)))
      × (modsi3 a b ≡ some (signed 32 (is_negative 32 a) (magnitude 32 a % magnitude 32 b)))
unfolding divsi3 modsi3
divsi3-modsi3_lem a b ha hb pos =
    let e =
      udivmodsi4_lem (magnitude 32 a) (magnitude 32 b) (magnitude32-lt a ha) (magnitude32-lt b hb)
        (magnitude32-pos b hb pos) in
    (
      ap (λ o. o >>= λ p. some (signed 32 (differ (is_negative 32 a) (is_negative 32 b)) p.0)) e,
      ap (λ o. o >>= λ p. some (signed 32 (is_negative 32 a) p.1)) e,
    )

-- The double word for the number `a`, or for `-a`, in two's complement.
pub word64 : Bool → ℕ → ℕ
word64 true a = (2 ^ 64 - a) % 2 ^ 64
word64 false a = a

-- The numbers for which there is a word.
unfoldable pub InWord : Bool → ℕ → Type 0
InWord true a = a ≤ 2 ^ 63
InWord false a = a < 2 ^ 63

pub unlike : Bool → Bool → Bool
unlike true t = not t
unlike false t = t

magnitude-word64 : (s : Bool) (a : ℕ) → InWord s a → magnitude 64 (word64 s a) ≡ a
unfolding word64 InWord
magnitude-word64 true a h = ground arith
magnitude-word64 false a h = ground arith

-- A result that is 0 for a dividend 0 gets the right sign.
signed-word64 :
    (s t : Bool) (a b r : ℕ)
    → InWord s a
    → InWord t b
    → 0 < b
    → (a ≡ 0 → r ≡ 0)
    → r ≤ 2 ^ 63
    → signed 64 (differ (is_negative 64 (word64 s a)) (is_negative 64 (word64 t b))) r
      ≡ word64 (unlike s t) r
unfolding word64 InWord unlike
signed-word64 true true a b r h g pos z l = elim (Bool-cases (a == 0)) [
  | inl y ↦ let none_left : r ≡ 0 = z (ground arith) in ground arith
  | inr y ↦ ground arith
]
signed-word64 true false a b r h g pos z l = elim (Bool-cases (a == 0)) [
  | inl y ↦ let none_left : r ≡ 0 = z (ground arith) in ground arith
  | inr y ↦ ground arith
]
signed-word64 false true a b r h g pos z l = elim (Bool-cases (a == 0)) [
  | inl y ↦ let none_left : r ≡ 0 = z (ground arith) in ground arith
  | inr y ↦ ground arith
]
signed-word64 false false a b r h g pos z l = elim (Bool-cases (a == 0)) [
  | inl y ↦ let none_left : r ≡ 0 = z (ground arith) in ground arith
  | inr y ↦ ground arith
]

InWord-le : (s : Bool) (a : ℕ) → InWord s a → a ≤ 2 ^ 63
unfolding InWord
InWord-le true a h = h
InWord-le false a h = omega arith

-- `__divdi3` divides as C asks: the quotient of the numbers without their signs, negative where one of them is. The
-- result of `__moddi3` is the remainder, but negative where one of the operands is, so it has the wrong sign for a
-- negative divisor.
pub divdi3-moddi3_lem :
    (s t : Bool) (a b : ℕ)
    → InWord s a
    → InWord t b
    → 0 < b
    → (divdi3 (word64 s a) (word64 t b) ≡ some (word64 (unlike s t) (a / b)))
      × (moddi3 (word64 s a) (word64 t b) ≡ some (word64 (unlike s t) (a % b)))
unfolding divdi3 moddi3
divdi3-moddi3_lem s t a b ha hb pos =
    let small = InWord-le s a ha in
    let low = InWord-le t b hb in
    let e = udivmoddi4_lem a b (omega arith) (omega arith) pos in
    let whole = div-add-mod' a b in
    let quotient : a / b ≤ a = omega (arith, le-mul_of_pos_right (a / b) pos) in
    let remainder : a % b ≤ a = omega arith in
    let upper = magnitude-word64 s a ha in
    let lower = magnitude-word64 t b hb in
    rw (upper, lower, e)
      (
        ap some (signed-word64 s t a b (a / b) ha hb pos (λ z. omega arith) (omega arith)),
        ap some (signed-word64 s t a b (a % b) ha hb pos (λ z. omega arith) (omega arith)),
      )
