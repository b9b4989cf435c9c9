-- ===== src/Task/Yield.antt =====
-- task.c: `hf_yield`, up to the switch of contexts, with the best effort scheduler that `krnl_pcb` names.
-- It shares its first steps with the dispatcher. The value is the task whose context is resumed.
pub mod Handover
use t1_sistemas_embarcados.Prelude.{ℕ, ◌%◌, ◌^◌, ◌==◌, if◌then◌else◌}
use t1_sistemas_embarcados.Kernel.{running, no_tasks_left, Cmd, ◌>>=◌, ◌>>◌, panic, read, modify}
use t1_sistemas_embarcados.Kernel.Steps.{inc}
use t1_sistemas_embarcados.Sched.{on_this}
use t1_sistemas_embarcados.Sched.Dispatch.{leave_current}

pub yield : Cmd ℕ → Cmd ℕ
yield sched_be = do
  leave_current
  n ← read (λ k. k.tasks)
  if n == 0 then panic no_tasks_left else do
    id ← sched_be
    modify (λ k. record k { current_task = id % 2 ^ 16 })
    modify (on_this (λ e. record e { state = running }))
    modify (λ k. record k { coop_cswitch = inc 32 k.coop_cswitch })
    read (λ k. k.current_task)
