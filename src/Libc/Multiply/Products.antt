-- ===== src/Libc/Multiply/Products.antt =====
-- The products that the routines compute, against multiplication.
use t1_sistemas_embarcados.Prelude.{
  ℕ, zero, suc, ◌+◌, ◌*◌, ◌/◌, ◌%◌, ◌^◌, ◌≤◌, ◌<◌, ◌≡◌, ap, Bool-cases, inl, inr, ◌∙◌, true, some,
  arith, ◌==◌, if◌then◌else◌,
}
use native.Mathlib.Nat.{pow-suc}
use t1_sistemas_embarcados.Libc.Multiply.{mul_loop, mulsi3, dwords, muldsi3, muldi3}

prod_bound : (x y : ℕ) → x < 2 ^ 16 → y < 2 ^ 16 → x * y ≤ 65535 * 65535
prod_bound x y hx hy = grind arith

-- The sum of the four products of halves, with the carries as the routine takes them.
halves :
    (p q r s : ℕ)
    → p ≤ 65535 * 65535
    → q ≤ 65535 * 65535
    → r ≤ 65535 * 65535
    → s ≤ 65535 * 65535
    → (let low = p % 2 ^ 32 in
        let t = (low / 2 ^ 16 + q) % 2 ^ 32 in
        let low2 = (low % 2 ^ 16 + t % 2 ^ 16 * 2 ^ 16) % 2 ^ 32 in
        let t2 = (low2 / 2 ^ 16 + r) % 2 ^ 32 in
        let low3 = (low2 % 2 ^ 16 + t2 % 2 ^ 16 * 2 ^ 16) % 2 ^ 32 in
        dwords ((t / 2 ^ 16 + t2 / 2 ^ 16 + s) % 2 ^ 32) low3)
      ≡ s * 2 ^ 32 + (q + r) * 2 ^ 16 + p
halves p q r s hp hq hr hs = omega arith

split_product :
    (a b : ℕ)
    → (a / 2 ^ 16) * (b / 2 ^ 16) * 2 ^ 32
        + ((a / 2 ^ 16) * (b % 2 ^ 16) + (b / 2 ^ 16) * (a % 2 ^ 16)) * 2 ^ 16
        + (a % 2 ^ 16) * (b % 2 ^ 16)
      ≡ a * b
split_product a b =
    by_parts (a % 2 ^ 16) (a / 2 ^ 16) (b % 2 ^ 16) (b / 2 ^ 16) a b (omega arith) (omega arith)
  where
    by_parts :
        (al ah bl bh a b : ℕ)
        → ah * 2 ^ 16 + al ≡ a
        → bh * 2 ^ 16 + bl ≡ b
        → ah * bh * 2 ^ 32 + (ah * bl + bh * al) * 2 ^ 16 + al * bl ≡ a * b
    by_parts al ah bl bh a b e f = rw (← e, ← f) (grind arith)

-- `__muldsi3` is the whole product of two words of 32 bits.
pub muldsi3_lem : (a b : ℕ) → a < 2 ^ 32 → b < 2 ^ 32 → muldsi3 a b ≡ a * b
unfolding muldsi3
muldsi3_lem a b ha hb =
    halves (a % 2 ^ 16 * (b % 2 ^ 16)) (a / 2 ^ 16 * (b % 2 ^ 16)) (b / 2 ^ 16 * (a % 2 ^ 16))
      (a / 2 ^ 16 * (b / 2 ^ 16)) (prod_bound _ _ (omega arith) (omega arith))
      (prod_bound _ _ (omega arith) (omega arith)) (prod_bound _ _ (omega arith) (omega arith))
      (prod_bound _ _ (omega arith) (omega arith))
    ∙ split_product a b

half-lt : (b n : ℕ) → b < 2 ^ suc n → b / 2 < 2 ^ n
half-lt b n h = omega (arith, pow-suc 2 n)

-- What is left to add after one round stands for the same sum.
half_round :
    (a b s : ℕ)
    → ((s + b % 2 * a) % 2 ^ 32 + a * 2 % 2 ^ 32 * (b / 2)) % 2 ^ 32 ≡ (s + a * b) % 2 ^ 32
half_round a b s =
    by_parts (b / 2) (b % 2) (a * 2 / 2 ^ 32) (a * 2 % 2 ^ 32) (omega arith) (omega arith)
  where
    by_parts :
        (c d q r : ℕ)
        → c * 2 + d ≡ b
        → q * 2 ^ 32 + r ≡ a * 2
        → ((s + d * a) % 2 ^ 32 + r * c) % 2 ^ 32 ≡ (s + a * b) % 2 ^ 32
    by_parts c d q r e f =
        let whole : s + a * b ≡ 2 ^ 32 * (q * c) + (s + d * a + r * c) =
          grind (arith, ap (λ x. x * c) f, ap (λ x. a * x) e) in
        omega arith

nothing_left : (a b s : ℕ) → b ≡ 0 → s < 2 ^ 32 → s ≡ (s + a * b) % 2 ^ 32
nothing_left a b s e h = rw e (omega arith)

-- One round for each digit of `b`, and one to stop, is enough.
loop_lem :
    (n a b s : ℕ) → b < 2 ^ n → s < 2 ^ 32 → mul_loop (suc n) a b s ≡ some ((s + a * b) % 2 ^ 32)
unfolding mul_loop
loop_lem zero a b s hb hs = rw stop (ap some (nothing_left a b s (omega arith) hs))
  where
    stop : (b == 0) ≡ true
    stop = ground arith
loop_lem (suc n) a b s hb hs = elim (Bool-cases (b == 0)) [
  | inl y ↦ rw y (ap some (nothing_left a b s (ground arith) hs))
  | inr y ↦
      rw (y, added)
        (loop_lem n (a * 2 % 2 ^ 32) (b / 2) ((s + b % 2 * a) % 2 ^ 32) (half-lt b n hb)
            (omega arith)
          ∙ ap some (half_round a b s))
]
  where
    added : (if b % 2 == 1 then (s + a) % 2 ^ 32 else s) ≡ (s + b % 2 * a) % 2 ^ 32
    added = elim (Bool-cases (b % 2 == 1)) [
      | inl y ↦ let one : b % 2 ≡ 1 = ground arith in rw (y, one) (omega arith)
      | inr y ↦ let none : b % 2 ≡ 0 = ground arith in rw (y, none) (omega arith)
    ]

-- `__mulsi3` is the product of two words, in 32 bits.
pub mulsi3_lem : (a b : ℕ) → b < 2 ^ 32 → mulsi3 a b ≡ some (a * b % 2 ^ 32)
unfolding mulsi3
mulsi3_lem a b h = loop_lem 32 a b 0 h (omega arith) ∙ ap some (omega arith)

-- `__mulsi3` and `__muldi3` are the products of words of 32 and of 64 bits, wrapped around; their
-- loops end.
pub muldi3_lem : (a b : ℕ) → a < 2 ^ 64 → b < 2 ^ 64 → muldi3 a b ≡ some (a * b % 2 ^ 64)
unfolding muldi3
muldi3_lem a b ha hb =
    rw
      (
        mulsi3_lem (a / 2 ^ 32) (b % 2 ^ 32) (omega arith),
        mulsi3_lem (a % 2 ^ 32) (b / 2 ^ 32) (omega arith),
        muldsi3_lem (a % 2 ^ 32) (b % 2 ^ 32) (omega arith) (omega arith),
      )
      (ap some (
        by_parts (a % 2 ^ 32) (a / 2 ^ 32) (b % 2 ^ 32) (b / 2 ^ 32) a b (omega arith)
          (omega arith)))
  where
    by_parts :
        (al ah bl bh a b : ℕ)
        → ah * 2 ^ 32 + al ≡ a
        → bh * 2 ^ 32 + bl ≡ b
        → dwords
            ((al * bl / 2 ^ 32 + (ah * bl % 2 ^ 32 + al * bh % 2 ^ 32)) % 2 ^ 32)
            (al * bl % 2 ^ 32)
          ≡ a * b % 2 ^ 64
    by_parts al ah bl bh a b e f =
        let whole : a * b ≡ 2 ^ 64 * (ah * bh) + (2 ^ 32 * (ah * bl + al * bh) + al * bl) =
          rw (← e, ← f) (grind arith) in
        omega arith
