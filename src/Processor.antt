-- ===== src/Processor.antt =====
-- hellfireos/sys/kernel/processor.c: the load of the processor, and the lock of the scheduler. `krnl_free`
-- and the tick time, which two calls return, are not in the model.
pub mod Load
pub mod Lock
use t1_sistemas_embarcados.Prelude.{
  ℕ, zero, suc, ◌+◌, ◌-◌, ◌*◌, ◌/◌, ◌%◌, ◌^◌, Bool, not, ◌&&◌, ltb, ◌==◌, if◌then◌else◌,
}
use t1_sistemas_embarcados.Kernel.{
  Tcb, Kernel, err_invalid_id, Cmd, fault, pure, read, modify, ◌>>=◌,
}
use t1_sistemas_embarcados.Kernel.Steps.{is_blocked}
use t1_sistemas_embarcados.Task.{is_task, exists_at, Answer, value, code}

pub schedlock : ℕ → Cmd (Unit {0})
schedlock lock = modify λ k. record k { schedule = if lock == 0 then 1 else 0 }

-- What a task adds to the load: the share that it reserves, in percent.
abbrev share : Tcb → ℕ
share e =
    if is_task e && not (is_blocked e) && not (e.period == 0)
    then e.capacity * 100 / e.period
    else 0

share_loop : (ℕ → Tcb) → ℕ → ℕ → ℕ → ℕ
share_loop f zero i s = s
share_loop f (suc n) i s = share_loop f n (i + 1) (s + share (f i))

-- The bits of `100 - s`.
pub freecpu : Cmd ℕ
unfolding share_loop
freecpu = read λ k. (100 + 2 ^ 32 - share_loop k.tcb k.max_tasks 0 0 % 2 ^ 32) % 2 ^ 32

abbrev pub jobs_of : Tcb → ℕ
jobs_of e = if e.period == 0 then e.bgjobs else e.rtjobs

abbrev pub counted_jobs : Tcb → ℕ
counted_jobs e = if is_task e && not (is_blocked e) then jobs_of e else 0

-- The sum of the jobs, in 32 bits.
pub jobs_loop : (ℕ → Tcb) → ℕ → ℕ → ℕ → ℕ
jobs_loop f zero i s = s
jobs_loop f (suc n) i s = jobs_loop f n (i + 1) ((s + counted_jobs (f i)) % 2 ^ 32)

-- A division by zero where no task that is not blocked has run.
pub cpuload : ℕ → Cmd (Answer ℕ)
unfolding jobs_loop
cpuload id = do
  k ← read (λ k. k)
  let s = jobs_loop k.tcb k.max_tasks 0 0
  if exists_at id k
      then (if s == 0 then (λ _. fault) else pure (value (jobs_of (k.tcb id) * 100 % 2 ^ 32 / s)))
      else pure (code err_invalid_id)
