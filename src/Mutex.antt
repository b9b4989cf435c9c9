-- ===== src/Mutex.antt =====
-- hellfireos/sys/sync/mutex.c, the spinlock (MUTEX_TYPE 0, the default of the build).
pub mod Exclusion
use t1_sistemas_embarcados.Prelude.{ℕ, Bool, not, ◌==◌}

-- `mutex_t`.
pub record Mutex : Type 0 where
  pub lock : ℕ

-- `tsl` runs with interrupts off: it is one step.
abbrev tsl : Mutex → ℕ × Mutex
tsl m = (m.lock, record { lock = 1 })

unfoldable pub mtxinit : Mutex → Mutex
mtxinit m = record { lock = 0 }

-- One round of `while (tsl(m) == 1);`: does the loop end, and the mutex after it.
unfoldable pub lock_round : Mutex → Bool × Mutex
lock_round m = let (init, m') = tsl m in (not (init == 1), m')

unfoldable pub mtxunlock : Mutex → Mutex
mtxunlock m = record { lock = 0 }
