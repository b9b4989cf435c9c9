-- ===== src/Libc/Divide.antt =====
-- libc.c: division in software. The first loop of each routine runs on fuel; `none` is a loop that
-- has not ended.
pub mod Shifted
pub mod Quotients
pub mod Signed
use Prim.Native.Nat.{bit_or}
use t1_sistemas_embarcados.Libc.{◌>>=◌}
use t1_sistemas_embarcados.Prelude.{
  ℕ, zero, suc, ◌+◌, ◌-◌, ◌*◌, ◌/◌, ◌%◌, ◌^◌, Bool, true, false, not, ◌&&◌, Option, none, some, ltb,
  leb, ◌==◌, if◌then◌else◌,
}

-- The sign bit of a word of `w` bits.
abbrev pub is_negative : ℕ → ℕ → Bool
is_negative w x = leb (2 ^ (w - 1)) x

-- `-x` in `w` bits.
abbrev pub negate : ℕ → ℕ → ℕ
negate w x = (2 ^ w - x) % 2 ^ w

-- `while (bit){ … }`, with the divisor and the bit at their places; `join` is the way that the bit
-- enters the quotient. The value is the quotient and the remainder.
sub_loop : (ℕ → ℕ → ℕ) → ℕ → ℕ → ℕ → ℕ → ℕ → Option (ℕ × ℕ)
sub_loop join zero num den bit res = none
sub_loop join (suc fuel) num den bit res =
    let taken = sub_loop join fuel (num - den) (den / 2) (bit / 2) (join res bit) in
    let left = sub_loop join fuel num (den / 2) (bit / 2) res in
    if bit == 0 then some (res, num) else if leb den num then taken else left

-- `while (den < num && bit && !(den & (1L << 31)))`: the divisor and the bit.
up_loop : ℕ → ℕ → ℕ → ℕ → Option (ℕ × ℕ)
up_loop zero num den bit = none
up_loop (suc fuel) num den bit =
    let rest = up_loop fuel num (den * 2 % 2 ^ 32) (bit * 2 % 2 ^ 32) in
    if ltb den num && not (bit == 0) && not (is_negative 32 den) then rest else some (den, bit)

-- `__udivmodsi4`, with both results.
pub udivmodsi4 : ℕ → ℕ → Option (ℕ × ℕ)
udivmodsi4 num den = do (den', bit) ← up_loop 33 num den 1; sub_loop bit_or 33 num den' bit 0

-- The first loop of `__udivmoddi4`.
up_loop64 : ℕ → ℕ → ℕ → Option (ℕ × ℕ)
up_loop64 zero den qbit = none
up_loop64 (suc fuel) den qbit =
    let rest = up_loop64 fuel (den * 2 % 2 ^ 64) (qbit * 2 % 2 ^ 64) in
    if is_negative 64 den then some (den, qbit) else rest

-- `__udivmoddi4`, with both results; for the divisor 0 it divides by zero.
pub udivmoddi4 : ℕ → ℕ → Option (ℕ × ℕ)
udivmoddi4 num den =
    if den == 0 then none else do (den', qbit) ← up_loop64 64 den 1; sub_loop ◌+◌ 65 num den' qbit 0

abbrev pub magnitude : ℕ → ℕ → ℕ
magnitude w x = if is_negative w x then negate w x else x

abbrev pub signed : ℕ → Bool → ℕ → ℕ
signed w neg x = if neg then negate w x else x

-- `neg = !neg` for each operand below zero.
abbrev pub differ : Bool → Bool → Bool
differ a b = if a then not b else b

-- `__divsi3`.
pub divsi3 : ℕ → ℕ → Option ℕ
divsi3 a b = do
  (res, num) ← udivmodsi4 (magnitude 32 a) (magnitude 32 b)
  some (signed 32 (differ (is_negative 32 a) (is_negative 32 b)) res)

-- `__modsi3`.
pub modsi3 : ℕ → ℕ → Option ℕ
modsi3 a b = do
  (res, num) ← udivmodsi4 (magnitude 32 a) (magnitude 32 b)
  some (signed 32 (is_negative 32 a) num)

-- `__divdi3`.
pub divdi3 : ℕ → ℕ → Option ℕ
divdi3 num den = do
  (quot, rem) ← udivmoddi4 (magnitude 64 num) (magnitude 64 den)
  some (signed 64 (differ (is_negative 64 num) (is_negative 64 den)) quot)

-- `__moddi3`, where the sign of the divisor counts too.
pub moddi3 : ℕ → ℕ → Option ℕ
moddi3 num den = do
  (quot, rem) ← udivmoddi4 (magnitude 64 num) (magnitude 64 den)
  some (signed 64 (differ (is_negative 64 num) (is_negative 64 den)) rem)
