-- ===== src/Sched/Dispatch.antt =====
-- scheduler.c: the dispatchers, up to the switch of contexts. `setjmp` returns 0 here; what runs when
-- the saved context is resumed is the task's own code.
pub mod Guards
pub mod Leaving
pub mod Switch
use t1_sistemas_embarcados.Prelude.{ℕ, ◌%◌, ◌^◌, Option, none, some, ◌==◌, if◌then◌else◌}
use t1_sistemas_embarcados.Kernel.{
  ready, running, stack_overflow, no_tasks_left, Cmd, fault, pure, ◌>>=◌, ◌>>◌, panic, read, modify,
  on_tcb, aperiodic,
}
use t1_sistemas_embarcados.Kernel.Steps.{inc, take_head}
use t1_sistemas_embarcados.Sched.{process_delay_queue, this_task, on_this}

abbrev pub stack_magic : ℕ
stack_magic = 0xb00bb00b

-- `krnl_task = &krnl_tcb[krnl_current_task]`, the task that was running becomes ready, and the word
-- at the bottom of its stack is checked.
pub leave_current : Cmd (Unit {0})
leave_current = do
  modify (λ k. record k { task = k.current_task })
  e ← read this_task
  modify (on_this (λ e. elim e.state [ running ↦ record e { state = ready } | _ ↦ e ]))
  if e.stack_word == stack_magic then pure tt else panic stack_overflow

-- The end of a dispatch: the context of `krnl_current_task` is what `_restoreexec` resumes.
enter : Cmd (Option ℕ)
enter = do
  modify (on_this (λ e. record e { state = running }))
  modify (λ k. record k { preempt_cswitch = inc 32 k.preempt_cswitch })
  read (λ k. some k.current_task)

-- The dispatcher, with the two schedulers that `krnl_pcb` names; `none` is a return without a
-- switch.
pub dispatch_isr : Cmd ℕ → Cmd ℕ → Cmd (Option ℕ)
unfolding leave_current enter
dispatch_isr sched_rt sched_be = do
  k ← read (λ k. k)
  if k.schedule == 0 then pure none else do
    leave_current
    if k.tasks == 0 then panic no_tasks_left else do
      process_delay_queue
      id ← sched_rt
      modify (λ k. record k { current_task = id % 2 ^ 16 })
      c ← read (λ k. k.current_task)
      if c == 0
          then (do id ← sched_be; modify (λ k. record k { current_task = id % 2 ^ 16 }); enter)
          else enter

pub polling_server_scheduler : Cmd (Option ℕ)
polling_server_scheduler = take_head aperiodic

-- The dispatcher of aperiodic tasks: `krnl_task` stays the task that was left.
pub dispatch_aperiodics : Cmd (Option ℕ)
unfolding leave_current
dispatch_aperiodics = do
  k ← read (λ k. k)
  if k.schedule == 0 then pure none else do
    leave_current
    if k.tasks == 0 then panic no_tasks_left else do
      process_delay_queue
      p ← take_head aperiodic
      elim p [
        | none ↦ λ _. fault
        | some t ↦ do
          e ← read (λ k. k.tcb t)
          modify (λ k. record k { current_task = e.id })
          if e.id == 0 then panic no_tasks_left else do
            modify (on_tcb t (λ e. record e { state = running }))
            modify (λ k. record k { preempt_cswitch = inc 32 k.preempt_cswitch })
            pure (some e.id)
      ]
