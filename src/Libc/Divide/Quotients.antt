-- ===== src/Libc/Divide/Quotients.antt =====
-- The quotients and remainders that the routines compute, against division.
use Prim.Native.Nat.{bit_or}
use t1_sistemas_embarcados.Prelude.{
  ℕ, zero, suc, ◌+◌, ◌-◌, ◌*◌, ◌/◌, ◌%◌, ◌^◌, ◌≤◌, ◌<◌, ◌≡◌, refl, sym, ap, ap₂, ◌∙◌, false, not,
  ◌&&◌, Option, none, some, arith, ltb, leb, ◌==◌, if◌then◌else◌, Bool-cases, inl, inr,
}
use mathlib.Core.Path.{subst}
use t1_sistemas_embarcados.Libc.{◌>>=◌}
use native.Mathlib.Nat.{mul_comm, mul-add-mod_self_left, mod-eq_of_lt, div-eq_of_lt-le}
use t1_sistemas_embarcados.Libc.Divide.{
  is_negative, sub_loop, up_loop, up_loop64, udivmodsi4, udivmoddi4,
}
use t1_sistemas_embarcados.Libc.Divide.Shifted.{
  shl, shl-double, bit_or-shl, shl_one-le, shl_one-pos, shl_one-mul, shl_below,
}

-- A bit enters the quotient below its digits.
abbrev Joins : (ℕ → ℕ → ℕ) → Type 0
Joins join = (m k : ℕ) → join (shl m (suc k)) (shl 1 k) ≡ shl m (suc k) + shl 1 k

-- `some (res + q, r)`, where `q` and `r` are the quotient and the remainder.
abbrev Divides : ℕ → ℕ → ℕ → Option (ℕ × ℕ) → Type 0
Divides num d res o = (q r : ℕ) × (o ≡ some (res + q, r)) × (q * d + r ≡ num) × (r < d)

module _ (join : ℕ → ℕ → ℕ) (joins : Joins join) (d : ℕ) (pos : 0 < d) where
  sub_loop-zero :
      (fuel num den res : ℕ) → 0 < fuel → sub_loop join fuel num den 0 res ≡ some (res, num)
  unfolding sub_loop
  sub_loop-zero zero num den res h = absurd (omega arith)
  sub_loop-zero (suc fuel) num den res h = refl

  sub_loop_lem :
      (k fuel num m : ℕ)
      → k + 1 < fuel
      → num < 2 * shl d k
      → Divides num d (shl m (suc k)) (sub_loop join fuel num (shl d k) (shl 1 k) (shl m (suc k)))
  unfolding sub_loop
  sub_loop_lem k zero num m f l = absurd (omega arith)
  sub_loop_lem zero (suc fuel) num m f l = elim (Bool-cases (leb d num)) [
    | inl y ↦ (
      1,
      num - d,
      rw (y, joins m 0, sub_loop-zero fuel (num - d) (d / 2) (2 * m + 1) (omega arith)) refl,
      ground arith,
      ground arith,
    )
    | inr y ↦ (
      0,
      num,
      rw (y, sub_loop-zero fuel num (d / 2) (2 * m) (omega arith))
          (ap (λ x. some (x, num)) (omega arith)),
      omega arith,
      ground arith,
    )
  ]
  sub_loop_lem (suc k) (suc fuel) num m f l =
      let half : 2 * shl d k / 2 ≡ shl d k = omega arith in
      let half_bit : 2 * shl 1 k / 2 ≡ shl 1 k = omega arith in
      let bit : (2 * shl 1 k == 0) ≡ false = ground (arith, shl_one-pos k) in
      elim (Bool-cases (leb (2 * shl d k) num)) [
        | inl y ↦
            let (q, r, e, sum, low) =
              sub_loop_lem k fuel (num - 2 * shl d k) (2 * m + 1) (omega arith) (ground arith) in
            (
              shl 1 (suc k) + q,
              r,
              rw (bit, y, half, half_bit, joins m (suc k), ← shl_below m (suc k))
                  (e ∙ ap (λ x. some (x, r)) (omega (arith, shl_below m (suc k)))),
              grind (arith, shl_one-mul d (suc k)),
              low,
            )
        | inr y ↦
            let (q, r, e, sum, low) =
              sub_loop_lem k fuel num (2 * m) (omega arith) (ground arith) in
            (
              q,
              r,
              rw (bit, y, half, half_bit)
                  (subst (λ x. sub_loop join fuel num (shl d k) (shl 1 k) x ≡ some (x + q, r))
                    (shl-double m (suc k)) e),
              sum,
              low,
            )
      ]

up_loop_lem :
    (n j num d : ℕ)
    → 0 < d
    → num < 2 ^ 32
    → shl d j < 2 ^ 32
    → 2 ^ 32 ≤ shl (shl d j) n
    → (k : ℕ) × (up_loop n num (shl d j) (shl 1 j) ≡ some (shl d k, shl 1 k))
      × (num < 2 * shl d k)
      × (shl d k < 2 ^ 32)
unfolding up_loop
up_loop_lem zero j num d pos small den far = absurd (omega arith)
up_loop_lem (suc n) j num d pos small den far =
    elim (Bool-cases (ltb (shl d j) num && not (shl 1 j == 0) && not (is_negative 32 (shl d j)))) [
      | inl y ↦
          let next : shl d j * 2 % 2 ^ 32 ≡ shl d (suc j) = ground arith in
          let next_bit : shl 1 j * 2 % 2 ^ 32 ≡ shl 1 (suc j) =
            ground (arith, shl_one-le d j pos) in
          let (k, e, low, few) =
            up_loop_lem n (suc j) num d pos small (ground arith)
              (omega (arith, shl-double (shl d j) n)) in
          (k, rw (y, next, next_bit) e, low, few)
      | inr y ↦ (j, rw y refl, ground (arith, shl_one-pos j, shl_one-le d j pos), den)
    ]

up_loop64_lem :
    (n j d : ℕ)
    → 0 < d
    → shl d j < 2 ^ 64
    → 2 ^ 64 ≤ shl (shl d j) n
    → (k : ℕ) × (up_loop64 n (shl d j) (shl 1 j) ≡ some (shl d k, shl 1 k))
      × (2 ^ 63 ≤ shl d k)
      × (shl d k < 2 ^ 64)
unfolding up_loop64
up_loop64_lem zero j d pos den far = absurd (omega arith)
up_loop64_lem (suc n) j d pos den far = elim (Bool-cases (is_negative 64 (shl d j))) [
  | inl y ↦ (j, rw y refl, ground arith, den)
  | inr y ↦
      let next : shl d j * 2 % 2 ^ 64 ≡ shl d (suc j) = ground arith in
      let next_bit : shl 1 j * 2 % 2 ^ 64 ≡ shl 1 (suc j) = ground (arith, shl_one-le d j pos) in
      let (k, e, low, few) =
        up_loop64_lem n (suc j) d pos (ground arith) (omega (arith, shl-double (shl d j) n)) in
      (k, rw (y, next, next_bit) e, low, few)
]

shl_one-lt : (n k : ℕ) → shl 1 k < shl 1 n → k < n
shl_one-lt zero zero h = absurd (omega arith)
shl_one-lt zero (suc k) h = absurd (omega (arith, shl_one-pos k))
shl_one-lt (suc n) zero h = omega arith
shl_one-lt (suc n) (suc k) h = omega (arith, shl_one-lt n k (omega arith))

shl-le : (x y k : ℕ) → x ≤ y → shl x k ≤ shl y k
shl-le x y zero h = h
shl-le x y (suc k) h = omega (arith, shl-le x y k h)

-- Division has one result.
quotient : (num d q r : ℕ) → q * d + r ≡ num → r < d → (num / d ≡ q) × (num % d ≡ r)
quotient num d q r e l = (
  div-eq_of_lt-le d (omega arith) (grind arith),
  rw (← e) (ap (λ x. (x + r) % d) (mul_comm q d) ∙ mul-add-mod_self_left d q r ∙ mod-eq_of_lt l),
)

zero-shl : (k : ℕ) → shl 0 k ≡ 0
zero-shl zero = refl
zero-shl (suc k) = omega (arith, zero-shl k)

-- The second loop from an empty quotient.
sub_loop_whole :
    (join : ℕ → ℕ → ℕ) (k fuel num d : ℕ)
    → Joins join
    → 0 < d
    → k + 1 < fuel
    → num < 2 * shl d k
    → sub_loop join fuel num (shl d k) (shl 1 k) 0 ≡ some (num / d, num % d)
sub_loop_whole join k fuel num d joins pos f low =
    let (q, r, e, sum, rest) = sub_loop_lem join joins d pos k fuel num 0 f low in
    let (at_q, at_r) = quotient num d q r sum rest in
    let empty : shl 0 (suc k) ≡ 0 = zero-shl (suc k) in
    ap (λ z. sub_loop join fuel num (shl d k) (shl 1 k) z) (sym empty)
    ∙ e
    ∙ ap₂ (λ x y. some (x, y)) (ap (λ z. z + q) empty ∙ (omega (arith, at_q))) (sym at_r)

few_bits : (n d k : ℕ) → 0 < d → shl d k < shl 1 n → k + 1 < suc n
few_bits n d k pos h = omega (arith, shl_one-lt n k (omega (arith, shl_one-le d k pos)))

-- `__udivmodsi4` returns for two words, the divisor not 0, the quotient and the remainder; its loops
-- end.
pub udivmodsi4_lem :
    (num den : ℕ)
    → num < 2 ^ 32
    → den < 2 ^ 32
    → 0 < den
    → udivmodsi4 num den ≡ some (num / den, num % den)
unfolding udivmodsi4
udivmodsi4_lem num den hn hd pos =
    let (k, e, low, few) =
      up_loop_lem 33 0 num den pos hn hd (omega (arith, shl-le 1 den 33 pos)) in
    ap (λ o. o >>= λ p. sub_loop bit_or 33 num p.0 p.1 0) e
    ∙ sub_loop_whole bit_or k 33 num den bit_or-shl pos (few_bits 32 den k pos few) low

-- `__udivmoddi4` does so for double words.
pub udivmoddi4_lem :
    (num den : ℕ)
    → num < 2 ^ 64
    → den < 2 ^ 64
    → 0 < den
    → udivmoddi4 num den ≡ some (num / den, num % den)
unfolding udivmoddi4
udivmoddi4_lem num den hn hd pos =
    let (k, e, low, few) = up_loop64_lem 64 0 den pos hd (omega (arith, shl-le 1 den 64 pos)) in
    ap (λ b. if b then none else (up_loop64 64 den 1 >>= λ p. sub_loop ◌+◌ 65 num p.0 p.1 0))
      not_zero
    ∙ ap (λ o. o >>= λ p. sub_loop ◌+◌ 65 num p.0 p.1 0) e
    ∙ sub_loop_whole ◌+◌ k 65 num den (λ m k. refl) pos (few_bits 64 den k pos few) (omega arith)
  where
    not_zero : (den == 0) ≡ false
    not_zero = ground arith
