-- ===== src/Crc.antt =====
-- hellfireos/lib/misc/crc.c: three cyclic redundancy checks, of 16, 32 and 64 bits, that take one bit
-- of the data at a time. The data are bytes in the memory of Libc.
pub mod Xor
pub mod Residue
use Prim.Native.Nat.{bit_xor}
use t1_sistemas_embarcados.Libc.Memory.{Memory}
use t1_sistemas_embarcados.Libc.Divide.{is_negative}
use t1_sistemas_embarcados.Prelude.{ℕ, zero, suc, ◌+◌, ◌-◌, ◌*◌, ◌^◌, ◌%◌, if◌then◌else◌}

-- `crc = crc << 1 ^ (crc & top ? poly : 0)`, in `w` bits.
abbrev pub shift : ℕ → ℕ → ℕ → ℕ
shift w poly crc = bit_xor (crc * 2) (if is_negative w crc then poly else 0) % 2 ^ w

-- `for (i = 0; i < 8; ++i)`, `n` being 8 - i.
unfoldable pub shifts : ℕ → ℕ → ℕ → ℕ → ℕ
shifts w poly zero crc = crc
shifts w poly (suc n) crc = shifts w poly n (shift w poly crc)

-- `while (len--)`.
unfoldable pub update : ℕ → ℕ → ℕ → ℕ → ℕ → Memory → ℕ
update w poly crc ptr zero m = crc
update w poly crc ptr (suc len) m =
    update w poly (shifts w poly 8 (bit_xor crc (m ptr * 2 ^ (w - 8)))) (ptr + 1) len m

abbrev pub poly16 : ℕ
poly16 = 0x1021

abbrev pub poly32 : ℕ
poly32 = 0x04c11db7

abbrev pub poly64 : ℕ
poly64 = 0x42f0e1eba9ea3693

-- `crc16`, `crc32` and `crc64`.
unfoldable pub crc16 : ℕ → ℕ → Memory → ℕ
crc16 ptr len m = update 16 poly16 0xffff ptr len m

unfoldable pub crc32 : ℕ → ℕ → Memory → ℕ
crc32 ptr len m = update 32 poly32 0xffffffff ptr len m

unfoldable pub crc64 : ℕ → ℕ → Memory → ℕ
crc64 ptr len m = update 64 poly64 0 ptr len m
