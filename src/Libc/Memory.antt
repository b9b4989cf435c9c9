-- ===== src/Libc/Memory.antt =====
-- libc.c: the routines on blocks of bytes. The memory is a function from an address to the byte there,
-- and `n` counts down as in the source.
pub mod Blocks
use t1_sistemas_embarcados.Prelude.{
  ℕ, zero, suc, ◌+◌, ◌-◌, ◌^◌, ◌%◌, Bool, ltb, leb, ◌==◌, if◌then◌else◌,
}

abbrev pub Memory : Type 0
Memory = ℕ → ℕ

-- `*a = v`.
abbrev pub write : ℕ → ℕ → Memory → Memory
write a v m x = if x == a then v else m x

-- `while (n--) *r1++ = *r2++;`
unfoldable pub copy_up : ℕ → ℕ → ℕ → Memory → Memory
copy_up zero r1 r2 m = m
copy_up (suc n) r1 r2 m = copy_up n (r1 + 1) (r2 + 1) (write r1 (m r2) m)

-- `while (n--) *--s = *--p;`
pub copy_down : ℕ → ℕ → ℕ → Memory → Memory
copy_down zero s p m = m
copy_down (suc n) s p m = copy_down n (s - 1) (p - 1) (write (s - 1) (m (p - 1)) m)

-- `memcpy`.
pub memcpy : ℕ → ℕ → ℕ → Memory → ℕ × Memory
memcpy dst src n m = (dst, copy_up n dst src m)

-- `memmove`.
pub memmove : ℕ → ℕ → ℕ → Memory → ℕ × Memory
memmove dst src n m =
    if leb dst src then (dst, copy_up n dst src m) else (dst, copy_down n (dst + n) (src + n) m)

-- `memset`.
pub memset : ℕ → ℕ → ℕ → Memory → ℕ × Memory
memset s c zero m = (s, m)
memset s c (suc n) m = (s, (memset (s + 1) c n (write s (c % 2 ^ 8) m)).1)

-- `memcmp`, -1 being `2 ^ 32 - 1`.
pub memcmp : ℕ → ℕ → ℕ → Memory → ℕ
memcmp cs ct zero m = 0
memcmp cs ct (suc n) m =
    let rest = memcmp (cs + 1) (ct + 1) n m in
    if m cs == m ct then rest else if ltb (m cs) (m ct) then 2 ^ 32 - 1 else 1
