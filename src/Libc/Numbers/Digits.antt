-- ===== src/Libc/Numbers/Digits.antt =====
-- The digits that `itoa` computes.
use t1_sistemas_embarcados.Prelude.{
  ℕ, zero, suc, ◌+◌, ◌-◌, ◌*◌, ◌/◌, ◌%◌, ◌^◌, ◌≤◌, ◌<◌, ◌≡◌, refl, arith, true, false, ltb, ◌==◌,
  ◌&&◌, Bool, get_or, ap, ap₂, Bool-cases, inl, inr, ◌∙◌, sym,
}
use native.Mathlib.Nat.{
  le-mul_of_pos_right, mul-add-mod_self_left, div-mul-le_self, mul-le-mul_left, mod-eq-sub-div-mul,
  div-le_self, mod-lt, add-mul, pow-suc,
}
use t1_sistemas_embarcados.Libc.Divide.{is_negative, negate, magnitude}
use t1_sistemas_embarcados.Libc.Numbers.{digit_table, digit_at, quotient}

-- The character of the digit `r`.
abbrev pub digit : ℕ → ℕ
digit r = get_or digit_table (35 + r) 0

abbrev all_below : ℕ → (ℕ → Bool) → Bool
all_below zero p = true
all_below (suc n) p = p n && all_below n p

all_below_lem : (n : ℕ) (p : ℕ → Bool) → all_below n p ≡ true → (k : ℕ) → k < n → p k ≡ true
all_below_lem zero p h k l = absurd (omega arith)
all_below_lem (suc n) p h k l = elim (Bool-cases (k == n)) [
  | inl y ↦ let e : k ≡ n = ground arith in ap p e ∙ ground arith
  | inr y ↦ all_below_lem n p (ground arith) k (ground arith)
]

-- The table is the same read in both directions from its middle.
digit_mirror : (r : ℕ) → r < 36 → get_or digit_table (35 - r) 0 ≡ digit r
digit_mirror r h =
    let found = all_below_lem 36 (λ k. get_or digit_table (35 - k) 0 == digit k) refl r h in
    ground arith

pub digit-nonzero : (r : ℕ) → r < 36 → (digit r == 0) ≡ false
digit-nonzero r h = let found = all_below_lem 36 (λ k. ltb 0 (digit k)) refl r h in ground arith

pub digit_ten : (r : ℕ) → r < 10 → digit r ≡ 48 + r
digit_ten r h = let found = all_below_lem 10 (λ k. digit k == 48 + k) refl r h in ground arith

-- `-q * b` in 32 bits.
negate-mul : (q b : ℕ) → 0 < b → q * b ≤ 2 ^ 31 → negate 32 q * b % 2 ^ 32 ≡ negate 32 (q * b)
negate-mul zero b h l = omega arith
negate-mul (suc q) zero h l = absurd (omega arith)
negate-mul (suc q) (suc b) h l =
    let low : suc q ≤ suc q * suc b = le-mul_of_pos_right (suc q) (omega arith) in
    let turned : negate 32 (suc q) ≡ 2 ^ 32 - suc q = omega arith in
    let split : (2 ^ 32 - suc q) * suc b ≡ 2 ^ 32 * b + (2 ^ 32 - suc q * suc b) =
      let sum : 2 ^ 32 - suc q + suc q ≡ 2 ^ 32 = omega arith in
      omega (arith, sym (ap (λ c. c * suc b) sum), add-mul (2 ^ 32 - suc q) (suc q) (suc b)) in
    rw (turned, split) (mul-add-mod_self_left (2 ^ 32) b (2 ^ 32 - suc q * suc b))

negate-magnitude : (q : ℕ) → q ≤ 2 ^ 30 → magnitude 32 (negate 32 q) ≡ q
negate-magnitude q h = ground arith

negate-zero : (q : ℕ) → q ≤ 2 ^ 30 → (negate 32 q == 0) ≡ (q == 0)
negate-zero q h = ground arith

half_bound : (x base : ℕ) → x ≤ 2 ^ 31 → 1 < base → x / base ≤ 2 ^ 30
half_bound x base h l =
    let fits = div-mul-le_self x base in
    let twice : x / base * 2 ≤ x / base * base = mul-le-mul_left (x / base) (omega arith) in
    omega arith

index_below :
    (i p : ℕ)
    → p ≤ i
    → i < 2 ^ 31
    → i - p < 36
    → (35 + (i + (2 ^ 32 - p % 2 ^ 32))) % 2 ^ 32 ≡ 35 + (i - p)
index_below i p h l k = omega arith

index_above :
    (x p : ℕ)
    → p ≤ x
    → 0 < x
    → x ≤ 2 ^ 31
    → x - p < 36
    → (35 + (2 ^ 32 - x + (2 ^ 32 - (2 ^ 32 - p) % 2 ^ 32))) % 2 ^ 32 ≡ 35 - (x - p)
index_above x p h z l k = ground arith

module _ (i base : ℕ) (word : i < 2 ^ 32) (low : 1 < base) (high : base < 37) where
  -- The digit of a division step.
  digit_at_below : i < 2 ^ 31 → digit_at i (i / base) base ≡ digit (i % base)
  digit_at_below h =
      let small = mod-lt i {m = base} (omega arith) in
      let rest = mod-eq-sub-div-mul i base in
      ap (λ k. get_or digit_table k 0)
        (index_below i (i / base * base) (div-mul-le_self i base) h (omega arith)
          ∙ ap (λ r. 35 + r) (sym rest))

  digit_at_above :
      (x : ℕ)
      → 0 < x
      → x ≤ 2 ^ 31
      → i ≡ 2 ^ 32 - x
      → digit_at i (negate 32 (x / base)) base ≡ digit (x % base)
  digit_at_above x z h e =
      let small = mod-lt x {m = base} (omega arith) in
      let rest = mod-eq-sub-div-mul x base in
      let fits = div-mul-le_self x base in
      let turned = negate-mul (x / base) base (omega arith) (omega arith) in
      ap (λ k. get_or digit_table k 0)
        (ap₂ (λ j w. (35 + (j + (2 ^ 32 - w))) % 2 ^ 32) e turned
          ∙ index_above x (x / base * base) fits z h (omega arith)
          ∙ ap (λ r. 35 - r) (sym rest))
      ∙ digit_mirror (x % base) (omega arith)

  -- What a division step does to the magnitude of the number, to the loop's test and to the digit.
  pub quotient_lem :
      (magnitude 32 (quotient i base) ≡ magnitude 32 i / base)
      × ((quotient i base == 0) ≡ (magnitude 32 i / base == 0))
      × (digit_at i (quotient i base) base ≡ digit (magnitude 32 i % base))
  quotient_lem = elim (Bool-cases (is_negative 32 i)) [
    | inl y ↦
        let x = (2 ^ 32 - i) % 2 ^ 32 in
        let quotient_eq : quotient i base ≡ negate 32 (x / base) = rw y refl in
        let magnitude_eq : magnitude 32 i ≡ x = rw y refl in
        let half = half_bound x base (ground arith) low in
        rw (quotient_eq, magnitude_eq)
          (
            negate-magnitude (x / base) half,
            negate-zero (x / base) half,
            digit_at_above x (ground arith) (ground arith) (ground arith),
          )
    | inr y ↦
        let quotient_eq : quotient i base ≡ i / base = rw y refl in
        let magnitude_eq : magnitude 32 i ≡ i = rw y refl in
        let half = half_bound i base (ground arith) low in
        rw (quotient_eq, magnitude_eq) (ground arith, refl, digit_at_below (ground arith))
  ]

  -- As long as the loop goes on, the sign stays.
  pub quotient_sign :
      (quotient i base == 0) ≡ false → is_negative 32 (quotient i base) ≡ is_negative 32 i
  quotient_sign h = elim (Bool-cases (is_negative 32 i)) [
    | inl y ↦
        let quotient_eq : quotient i base ≡ negate 32 ((2 ^ 32 - i) % 2 ^ 32 / base) = rw y refl in
        let half = half_bound ((2 ^ 32 - i) % 2 ^ 32) base (ground arith) low in
        let goes_on = sym (ap (λ q. q == 0) quotient_eq) ∙ h in
        ap (is_negative 32) quotient_eq ∙ ground arith
    | inr y ↦
        let quotient_eq : quotient i base ≡ i / base = rw y refl in
        let half = half_bound i base (ground arith) low in
        ap (is_negative 32) quotient_eq ∙ ground arith
  ]

  pub quotient-word : quotient i base < 2 ^ 32
  quotient-word = ground (arith, div-le_self i base)

pub half_below : (x base k : ℕ) → 1 < base → x < 2 ^ suc (suc k) → x / base < 2 ^ suc k
half_below x base k low h =
    let fits = div-mul-le_self x base in
    let twice : x / base * 2 ≤ x / base * base = mul-le-mul_left (x / base) (omega arith) in
    omega (arith, pow-suc 2 (suc k))
