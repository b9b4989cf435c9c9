-- ===== src/Libc/Numbers.antt =====
-- libc.c: numbers and their texts, the absolute value and the random numbers. An `int32_t` is its 32 bits.
-- A loop runs on fuel; `none` is a loop that has not ended.
pub mod Turned
pub mod Digits
pub mod Written
pub mod Printed
pub mod RoundTrip
use t1_sistemas_embarcados.Libc.{◌>>=◌}
use t1_sistemas_embarcados.Libc.Memory.{Memory, write}
use t1_sistemas_embarcados.Libc.Text.{extend}
use t1_sistemas_embarcados.Libc.Divide.{is_negative, negate, magnitude, signed}
use t1_sistemas_embarcados.Prelude.{
  ℕ, zero, suc, ◌+◌, ◌-◌, ◌*◌, ◌/◌, ◌^◌, ◌%◌, Bool, true, false, not, ◌&&◌, ◌||◌, Option, none,
  some, List, [], ◌∷◌, get_or, ltb, leb, ◌==◌, if◌then◌else◌,
}

-- "zyx…a9…10123…9ab…xyz"
abbrev pub digit_table : List ℕ
digit_table =
    122 ∷ 121 ∷ 120 ∷ 119 ∷ 118 ∷ 117 ∷ 116 ∷ 115 ∷ 114 ∷ 113 ∷ 112 ∷ 111 ∷ 110 ∷ 109 ∷ 108 ∷ 107
    ∷ 106 ∷ 105 ∷ 104 ∷ 103 ∷ 102 ∷ 101 ∷ 100 ∷ 99 ∷ 98 ∷ 97 ∷ 57 ∷ 56 ∷ 55 ∷ 54 ∷ 53 ∷ 52 ∷ 51 ∷ 50
    ∷ 49 ∷ 48 ∷ 49 ∷ 50 ∷ 51 ∷ 52 ∷ 53 ∷ 54 ∷ 55 ∷ 56 ∷ 57 ∷ 97 ∷ 98 ∷ 99 ∷ 100 ∷ 101 ∷ 102 ∷ 103
    ∷ 104 ∷ 105 ∷ 106 ∷ 107 ∷ 108 ∷ 109 ∷ 110 ∷ 111 ∷ 112 ∷ 113 ∷ 114 ∷ 115 ∷ 116 ∷ 117 ∷ 118 ∷ 119
    ∷ 120 ∷ 121 ∷ 122 ∷ []

-- `digit_table [35 + (tmp_value - i * base)]`, with `i` already divided.
abbrev pub digit_at : ℕ → ℕ → ℕ → ℕ
digit_at tmp_value i base =
    get_or digit_table ((35 + (tmp_value + (2 ^ 32 - i * base % 2 ^ 32))) % 2 ^ 32) 0

-- `i / base`, cut off towards 0.
abbrev pub quotient : ℕ → ℕ → ℕ
quotient i base = signed 32 (is_negative 32 i) (magnitude 32 i / base)

-- `do { … } while (i);` of `itoa`: the last `tmp_value`, the pointer and the memory.
pub put_digits : ℕ → ℕ → ℕ → ℕ → Memory → Option (ℕ × ℕ × Memory)
put_digits zero i base ptr m = none
put_digits (suc fuel) i base ptr m =
    let next = quotient i base in
    let put = write ptr (digit_at i next base) m in
    let rest = put_digits fuel next base (ptr + 1) put in
    if next == 0 then some (i, ptr + 1, put) else rest

-- `while (ptr1 < ptr) { … }`: the bytes from `ptr1` to `ptr` change places.
pub swap_ends : ℕ → ℕ → ℕ → Memory → Option Memory
swap_ends zero ptr1 ptr m = none
swap_ends (suc fuel) ptr1 ptr m =
    let rest = swap_ends fuel (ptr1 + 1) (ptr - 1) (write ptr1 (m ptr) (write ptr (m ptr1) m)) in
    if ltb ptr1 ptr then rest else some m

-- `itoa`.
pub itoa : ℕ → ℕ → ℕ → ℕ → Memory → Option (ℕ × Memory)
itoa fuel i s base m =
    if is_negative 32 base || ltb base 2 || ltb 36 base then some (s, write s 0 m) else do
      (tmp_value, ptr, put) ← put_digits fuel i base s m
      let last = if is_negative 32 tmp_value then ptr + 1 else ptr in
          let marked = if is_negative 32 tmp_value then write ptr 45 put else put in
          do turned ← swap_ends fuel s (last - 1) (write last 0 marked); some (s, turned)

-- `for (;; s++)` of `atoi`: whether a minus was read, and the pointer.
pub skip_sign : ℕ → ℕ → Memory → Option (Bool × ℕ)
skip_sign zero s m = none
skip_sign (suc fuel) s m =
    let rest = skip_sign fuel (s + 1) m in
    if (m s == 32) || (m s == 9)
    then rest
    else if m s == 45
    then some (true, s + 1)
    else if m s == 43
    then some (false, s + 1)
    else some (false, s)

-- `while (*s >= '0' && *s <= '9') n = n*10 + *s++ - '0';`
pub read_digits : ℕ → ℕ → ℕ → Memory → Option ℕ
read_digits zero s n m = none
read_digits (suc fuel) s n m =
    let rest = read_digits fuel (s + 1) ((n * 10 + m s - 48) % 2 ^ 32) m in
    if leb 48 (m s) && leb (m s) 57 then rest else some n

-- `atoi`.
pub atoi : ℕ → ℕ → Memory → Option ℕ
atoi fuel s m = do
  (f, start) ← skip_sign fuel s m
  n ← read_digits fuel start 0 m
  some (if f then negate 32 n else n)

-- The digit that `strtol` takes a character for, if it is one.
abbrev pub digit_value : ℕ → Option ℕ
digit_value ch =
    if leb 48 ch && leb ch 57
    then some (ch - 48)
    else if leb 65 ch && leb ch 90
    then some (ch - 65 + 10)
    else if leb 97 ch && leb ch 122
    then some (ch - 97 + 10)
    else none

-- `for (i = 0; i <= 8; ++i)` of `strtol`, `rounds` being 9 - i: the value and the pointer.
pub take_digits : ℕ → ℕ → ℕ → ℕ → Memory → ℕ × ℕ
take_digits zero s value base m = (value, s)
take_digits (suc rounds) s value base m =
    let digit = digit_value (extend (m s)) in
    elim digit [
      | none ↦ (value, s + 1)
      | some ch ↦ take_digits rounds (s + 1) ((value * base + ch) % 2 ^ 32) base m
    ]

-- `strtol`: the result and what it stores to `end`.
pub strtol : ℕ → ℕ → Memory → ℕ × ℕ
strtol s base m =
    let neg = m s == 45 in
    let start = if neg then s + 1 else s in
    let hex = (m start == 48) && (m (start + 1) == 120) in
    let (value, s') =
      take_digits 9 (if hex then start + 2 else start) 0 (if hex then 16 else base) m in
    (if neg then negate 32 value else value, s' - 1)

-- `abs`.
abbrev pub abs : ℕ → ℕ
abs n = if is_negative 32 n then negate 32 n else n

-- `random`, with the state `rand1`: the number and the next state.
pub random : ℕ → ℕ × ℕ
random rand1 = let next = (rand1 * 1103515245 + 12345) % 2 ^ 32 in (next / 2 ^ 16 % 2 ^ 15, next)

-- `srand`: the state.
abbrev pub srand : ℕ → ℕ
srand seed = seed
