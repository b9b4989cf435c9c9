-- ===== src/Sched.antt =====
-- hellfireos/sys/kernel/scheduler.c: the delay queue and the turning of a queue. The schedulers and
-- the dispatcher stand in child modules.
pub mod BestEffort
pub mod Rma
pub mod Dispatch
pub mod Delay
pub mod Rotate
use t1_sistemas_embarcados.Prelude.{
  ℕ, zero, suc, ◌+◌, ◌-◌, ◌%◌, ◌^◌, Bool, true, false, not, ◌&&◌, ◌||◌, Option, none, some, ltb,
  ◌==◌, if◌then◌else◌,
}
use t1_sistemas_embarcados.Queue.{Status, done, failed, get, swap}
use t1_sistemas_embarcados.Kernel.{
  TaskState, ready, running, blocked, Tcb, Kernel, Cause, stack_overflow, no_tasks_left,
  no_tasks_run, no_tasks_rt, no_tasks_delay, cant_place_run, cant_place_delay, cant_place_rt,
  cant_swap, Cmd, ok, fault, out_of_fuel, pure, ◌>>=◌, ◌>>◌, panic, read, modify, on_tcb, QueueName,
  run, rt, delay, aperiodic,
}
use t1_sistemas_embarcados.Kernel.Steps.{inc, dec, is_blocked, take_head, place, count_of, times}

-- What `process_delay_queue` does with the task that it took from the delay queue.
tick : ℕ → Cmd (Unit {0})
tick t = do
  modify (on_tcb t (λ e. record e { delay = dec 32 e.delay }))
  e ← read (λ k. k.tcb t)
  if e.delay == 0
      then (if e.period == 0 then place run cant_place_run t else place rt cant_place_rt t)
      else place delay cant_place_delay t

tick_head : Cmd (Unit {0})
unfolding tick
tick_head = do p ← take_head delay; elim p [ none ↦ panic no_tasks_delay | some t ↦ tick t ]

pub process_delay_queue : Cmd (Unit {0})
unfolding tick_head
process_delay_queue = do n ← read (count_of delay); times n tick_head

-- `run_queue_next` and `rt_queue_next`: `krnl_task` is the head of the queue, which goes to the tail.
rotate : QueueName → Cause → Cause → Cmd (Unit {0})
rotate n empty full = do
  p ← take_head n
  elim p [ none ↦ panic empty | some t ↦ modify (λ k. record k { task = t }) >> place n full t ]

pub run_queue_next : Cmd (Unit {0})
unfolding rotate
run_queue_next = rotate run no_tasks_run cant_place_run

pub rt_queue_next : Cmd (Unit {0})
unfolding rotate
rt_queue_next = rotate rt no_tasks_rt cant_place_rt

abbrev pub this_task : Kernel → Tcb
this_task k = k.tcb k.task

abbrev pub on_this : (Tcb → Tcb) → Kernel → Kernel
on_this f k = on_tcb k.task f k
