-- ===== src/Libc/Shift.antt =====
-- libc.c: shifts of double words. `bm` is a `uint32_t`, so `bm <= 0` holds only of 0; a C shift of a word
-- by its width or more has no value, here `none`.
pub mod Range
use Prim.Native.Nat.{bit_or}
use t1_sistemas_embarcados.Libc.{◌>>=◌}
use t1_sistemas_embarcados.Libc.Multiply.{dwords}
use t1_sistemas_embarcados.Libc.Divide.{is_negative}
use t1_sistemas_embarcados.Prelude.{
  ℕ, ◌+◌, ◌-◌, ◌*◌, ◌/◌, ◌%◌, ◌^◌, Option, none, some, ltb, ◌==◌, if◌then◌else◌,
}

-- `x << b` and `x >> b` of a `uint32_t`, and `x >> b` of an `int32_t`.
abbrev pub shl32 : ℕ → ℕ → Option ℕ
shl32 x b = if ltb b 32 then some (x * 2 ^ b % 2 ^ 32) else none

abbrev pub shr32 : ℕ → ℕ → Option ℕ
shr32 x b = if ltb b 32 then some (x / 2 ^ b) else none

abbrev pub sar32 : ℕ → ℕ → Option ℕ
sar32 x b =
    if ltb b 32
    then some (if is_negative 32 x then 2 ^ 32 - 1 - (2 ^ 32 - 1 - x) / 2 ^ b else x / 2 ^ b)
    else none

-- `bm = 32 - b`.
abbrev pub bits_left : ℕ → ℕ
bits_left b = (32 + 2 ^ 32 - b) % 2 ^ 32

abbrev low_word : ℕ → ℕ
low_word u = u % 2 ^ 32

abbrev high_word : ℕ → ℕ
high_word u = u / 2 ^ 32 % 2 ^ 32

-- `-bm` as a count of bits.
abbrev minus : ℕ → ℕ
minus bm = (2 ^ 32 - bm) % 2 ^ 32

-- `__ashldi3`.
pub ashldi3 : ℕ → ℕ → Option ℕ
ashldi3 u b =
    if b == 0
    then some u
    else let bm = bits_left b in
      if bm == 0 then (do high ← shl32 (low_word u) (minus bm); some (dwords high 0)) else (do
        carries ← shr32 (low_word u) bm
        low ← shl32 (low_word u) b
        high ← shl32 (high_word u) b
        some (dwords (bit_or high carries) low))

-- `__ashrdi3`.
pub ashrdi3 : ℕ → ℕ → Option ℕ
ashrdi3 u b =
    if b == 0
    then some u
    else let bm = bits_left b in
      if bm == 0
      then (do
        high ← sar32 (high_word u) 31
        low ← shr32 (low_word u) (minus bm)
        some (dwords high low))
      else (do
        carries ← shl32 (high_word u) bm
        high ← sar32 (high_word u) b
        low ← shr32 (low_word u) b
        some (dwords high (bit_or low carries)))

-- `__lshrdi3`.
pub lshrdi3 : ℕ → ℕ → Option ℕ
lshrdi3 u b =
    if b == 0
    then some u
    else let bm = bits_left b in
      if bm == 0 then (do low ← shr32 (high_word u) (minus bm); some (dwords 0 low)) else (do
        carries ← shl32 (high_word u) bm
        high ← shr32 (high_word u) b
        low ← shr32 (low_word u) b
        some (dwords high (bit_or low carries)))
