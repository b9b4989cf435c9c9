-- ===== src/Libc/Multiply.antt =====
-- libc.c: multiplication in software. The loop runs on fuel; `none` is a loop that has not ended.
pub mod Products
use t1_sistemas_embarcados.Libc.{◌>>=◌}
use t1_sistemas_embarcados.Prelude.{
  ℕ, zero, suc, ◌+◌, ◌*◌, ◌/◌, ◌%◌, ◌^◌, Option, none, some, ◌==◌, if◌then◌else◌,
}

mul_loop : ℕ → ℕ → ℕ → ℕ → Option ℕ
mul_loop zero a b answer = none
mul_loop (suc fuel) a b answer =
    let answer' = if b % 2 == 1 then (answer + a) % 2 ^ 32 else answer in
    let rest = mul_loop fuel (a * 2 % 2 ^ 32) (b / 2) answer' in
    if b == 0 then some answer else rest

-- `__mulsi3`.
pub mulsi3 : ℕ → ℕ → Option ℕ
unfolding mul_loop
mulsi3 a b = mul_loop 33 a b 0

-- A `dwords`.
abbrev pub dwords : ℕ → ℕ → ℕ
dwords high low = high * 2 ^ 32 + low

-- `__muldsi3`, by halves.
pub muldsi3 : ℕ → ℕ → ℕ
muldsi3 a b =
    let al = a % 2 ^ 16 in
    let ah = a / 2 ^ 16 in
    let bl = b % 2 ^ 16 in
    let bh = b / 2 ^ 16 in
    let low = al * bl % 2 ^ 32 in
    let t = (low / 2 ^ 16 + ah * bl) % 2 ^ 32 in
    let low2 = (low % 2 ^ 16 + t % 2 ^ 16 * 2 ^ 16) % 2 ^ 32 in
    let t2 = (low2 / 2 ^ 16 + bh * al) % 2 ^ 32 in
    let low3 = (low2 % 2 ^ 16 + t2 % 2 ^ 16 * 2 ^ 16) % 2 ^ 32 in
    dwords ((t / 2 ^ 16 + t2 / 2 ^ 16 + ah * bh) % 2 ^ 32) low3

-- `__muldi3`.
pub muldi3 : ℕ → ℕ → Option ℕ
muldi3 a b = do
  let r = muldsi3 (a % 2 ^ 32) (b % 2 ^ 32)
  x ← mulsi3 (a / 2 ^ 32) (b % 2 ^ 32)
  y ← mulsi3 (a % 2 ^ 32) (b / 2 ^ 32)
  some (dwords ((r / 2 ^ 32 + (x + y)) % 2 ^ 32) (r % 2 ^ 32))
