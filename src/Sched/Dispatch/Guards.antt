-- ===== src/Sched/Dispatch/Guards.antt =====
-- The dispatchers with the scheduler off, and the task that they leave with it on.
use t1_sistemas_embarcados.Prelude.{ℕ, ◌≡◌, refl, true, none, ◌==◌}
use t1_sistemas_embarcados.Kernel.{Tcb, Kernel, Cmd, ok, ready, running, update}
use t1_sistemas_embarcados.Sched.Dispatch.{
  stack_magic, leave_current, dispatch_isr, dispatch_aperiodics,
}

-- With the scheduler off both dispatchers return without a switch and change nothing.
pub dispatch-off :
    (sched_rt sched_be : Cmd ℕ) (k : Kernel)
    → k.schedule ≡ 0
    → (dispatch_isr sched_rt sched_be k ≡ ok none k) × (dispatch_aperiodics k ≡ ok none k)
unfolding dispatch_isr dispatch_aperiodics
dispatch-off sched_rt sched_be k z = rw z (refl, refl)

-- The entry of the task that is left.
abbrev pub left_entry : Tcb → Tcb
left_entry e = elim e.state [ running ↦ record e { state = ready } | _ ↦ e ]

abbrev pub after_leaving : Kernel → Kernel
after_leaving k = record k {
  task = k.current_task;
  tcb = update k.tcb k.current_task (left_entry (k.tcb k.current_task));
}

pub leave_current-done :
    (k : Kernel)
    → ((k.tcb k.current_task).stack_word == stack_magic) ≡ true
    → leave_current k ≡ ok tt (after_leaving k)
unfolding leave_current
leave_current-done k o = rw o refl
