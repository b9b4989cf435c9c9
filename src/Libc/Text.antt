-- ===== src/Libc/Text.antt =====
-- libc.c: the routines on text, a sequence of bytes up to a byte 0. An `int8_t` is its byte, an
-- `int32_t` its 32 bits, NULL the address 0. A loop runs on fuel; `none` is a loop that has not ended.
pub mod Copies
pub mod Order
use t1_sistemas_embarcados.Libc.{◌>>=◌}
use t1_sistemas_embarcados.Libc.Memory.{Memory, write}
use t1_sistemas_embarcados.Libc.Divide.{is_negative}
use t1_sistemas_embarcados.Prelude.{
  ℕ, zero, suc, ◌+◌, ◌-◌, ◌*◌, ◌^◌, ◌%◌, Bool, true, false, not, ◌&&◌, ◌||◌, Option, none, some,
  ltb, leb, ◌==◌, if◌then◌else◌,
}

-- `--n` on an `int32_t`.
abbrev pub decrement : ℕ → ℕ
decrement n = (n + (2 ^ 32 - 1)) % 2 ^ 32

-- An `int8_t` as an `int32_t`; a char is signed, as the MIPS compilers have it.
abbrev pub extend : ℕ → ℕ
extend c = if is_negative 8 c then c + (2 ^ 32 - 2 ^ 8) else c

-- `*s1 - *s2`.
abbrev pub difference : ℕ → ℕ → ℕ
difference a b = (extend a + (2 ^ 32 - extend b)) % 2 ^ 32

-- `do { c = *dst++ = *src++; } while (c);`
pub copy_text : ℕ → ℕ → ℕ → Memory → Option Memory
copy_text zero dst src m = none
copy_text (suc fuel) dst src m =
    let copied = write dst (m src) m in
    let rest = copy_text fuel (dst + 1) (src + 1) copied in if m src == 0 then some copied else rest

-- `strcpy`.
pub strcpy : ℕ → ℕ → ℕ → Memory → Option (ℕ × Memory)
strcpy fuel dst src m = do copied ← copy_text fuel dst src m; some (dst, copied)

-- `while (*dst) ++dst;`
pub end_of : ℕ → ℕ → Memory → Option ℕ
end_of zero dst m = none
end_of (suc fuel) dst m =
    let rest = end_of fuel (dst + 1) m in if m dst == 0 then some dst else rest

-- `strcat`.
pub strcat : ℕ → ℕ → ℕ → Memory → Option (ℕ × Memory)
strcat fuel dst src m = do
  last ← end_of fuel dst m
  copied ← copy_text fuel last src m
  some (dst, copied)

-- The second loop of `strncat`; a length below zero ends it.
pub copy_at_most : ℕ → ℕ → ℕ → ℕ → Memory → Option Memory
copy_at_most zero s1 s2 n m = none
copy_at_most (suc fuel) s1 s2 n m =
    let copied = write s1 (m s2) m in
    let rest = copy_at_most fuel (s1 + 1) (s2 + 1) (decrement n) copied in
    if m s2 == 0
    then some copied
    else if is_negative 32 (decrement n)
    then some (write s1 0 copied)
    else rest

-- `strncat`.
pub strncat : ℕ → ℕ → ℕ → ℕ → Memory → Option (ℕ × Memory)
strncat fuel s1 s2 n m = do
  last ← end_of fuel s1 m
  copied ← copy_at_most fuel last s2 n m
  some (s1, copied)

-- `strcmp`.
pub strcmp : ℕ → ℕ → ℕ → Memory → Option ℕ
strcmp zero s1 s2 m = none
strcmp (suc fuel) s1 s2 m =
    let rest = strcmp fuel (s1 + 1) (s2 + 1) m in
    if m s1 == m s2 then if m s1 == 0 then some 0 else rest else some (difference (m s1) (m s2))

-- `strncmp`.
pub strncmp : ℕ → ℕ → ℕ → ℕ → Memory → Option ℕ
strncmp zero s1 s2 n m = none
strncmp (suc fuel) s1 s2 n m =
    let rest = strncmp fuel (s1 + 1) (s2 + 1) (decrement n) m in
    if is_negative 32 (decrement n)
    then some 0
    else if m s1 == m s2
    then if m s1 == 0 then some 0 else rest
    else some (difference (m s1) (m s2))

-- `while (*s++) n++;`
pub count_up : ℕ → ℕ → ℕ → Memory → Option ℕ
count_up zero s n m = none
count_up (suc fuel) s n m =
    let rest = count_up fuel (s + 1) ((n + 1) % 2 ^ 32) m in if m s == 0 then some n else rest

-- `strlen`.
pub strlen : ℕ → ℕ → Memory → Option ℕ
strlen fuel s m = count_up fuel s 0 m

-- `strchr`.
pub strchr : ℕ → ℕ → ℕ → Memory → Option ℕ
strchr zero s c m = none
strchr (suc fuel) s c m =
    let rest = strchr fuel (s + 1) c m in
    if m s == c % 2 ^ 8 then some s else if m s == 0 then some 0 else rest

-- The index that the inner loop of `strstr` ends with.
pub agree : ℕ → ℕ → ℕ → ℕ → Memory → Option ℕ
agree zero string find i m = none
agree (suc fuel) string find i m =
    let rest = agree fuel string find (i + 1) m in
    if (m (string + i) == m (find + i)) && not (m (find + i) == 0) then rest else some i

-- `strstr`.
pub strstr : ℕ → ℕ → ℕ → Memory → Option ℕ
strstr zero string find m = none
strstr (suc fuel) string find m =
    let rest = strstr fuel (string + 1) find m in
    do
      i ← agree (suc fuel) string find 0 m
      if m (find + i) == 0 then some string else if m string == 0 then some 0 else rest
