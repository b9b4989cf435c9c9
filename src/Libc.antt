-- ===== src/Libc.antt =====
-- hellfireos/lib/libc/libc.c, compiled into the kernel. An integer of w bits is the number that its bits
-- stand for; `x & (2^k - 1)`, `x << k` and `x >> k` are a remainder, a product and a quotient.
pub mod Multiply
pub mod Divide
pub mod Shift
pub mod Memory
pub mod Text
pub mod Numbers
use t1_sistemas_embarcados.Prelude.{Option, none, some}

infixl 5 ◌>>=◌
abbrev pub ◌>>=◌ : {A B : Type 0} → Option A → (A → Option B) → Option B
none >>= f = none
some a >>= f = f a
