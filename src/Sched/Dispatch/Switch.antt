-- ===== src/Sched/Dispatch/Switch.antt =====
-- To whom the dispatcher hands the processor where only best effort tasks are there.
use t1_sistemas_embarcados.Prelude.{
  ℕ, ◌%◌, ◌^◌, ◌<◌, ◌≡◌, refl, ap, ◌∙◌, true, false, some, List, [], ◌∷◌, ◌++◌, ◌==◌, ==_refl,
  length,
}
use t1_sistemas_embarcados.Queue.{Queue}
use t1_sistemas_embarcados.Kernel.{Tcb, Kernel, ok, running}
use t1_sistemas_embarcados.Kernel.Steps.{inc, is_blocked}
use t1_sistemas_embarcados.Kernel.View.{Tasks}
use t1_sistemas_embarcados.Sched.Delay.{process_delay_queue-none}
use t1_sistemas_embarcados.Sched.BestEffort.{sched_rr}
use t1_sistemas_embarcados.Sched.BestEffort.RoundRobin.{AllBlocked, sched_rr_lem}
use t1_sistemas_embarcados.Sched.Rma.{sched_rma}
use t1_sistemas_embarcados.Sched.Rma.RateMonotonic.{sched_rma-none}
use t1_sistemas_embarcados.Sched.Dispatch.{stack_magic, enter, dispatch_isr}
use t1_sistemas_embarcados.Sched.Dispatch.Guards.{after_leaving, leave_current-done}
use t1_sistemas_embarcados.Sched.Dispatch.Leaving.{
  is_blocked-after_leaving, id-after_leaving, AllBlocked-after_leaving, counted, started, flip,
}

-- The kernel once the task `t` runs: the entries are `f`.
abbrev pub switched : Kernel → ℕ → Queue ℕ → (ℕ → Tcb) → Kernel
switched k t q f = record k {
  task = t;
  current_task = (k.tcb t).id % 2 ^ 16;
  preempt_cswitch = inc 32 k.preempt_cswitch;
  run_queue = q;
  tcb = f;
}

-- With the scheduler on, the stack of the running task intact, tasks in the system but none delayed
-- and none real-time, and fuel for the blocked tasks at the head of the run queue: the dispatcher,
-- with rate monotonic and round robin scheduling, resumes the first task of the run queue that is
-- not blocked, which goes to the tail. Its state is running, the task that was left is ready if it
-- was running, and no other entry changes.
pub dispatch_isr_lem :
    (fuel : ℕ) (k : Kernel) (bs : List ℕ) (t : ℕ) (ts : List ℕ)
    → (k.schedule == 0) ≡ false
    → ((k.tcb k.current_task).stack_word == stack_magic) ≡ true
    → (k.tasks == 0) ≡ false
    → Tasks k.delay_queue k.max_tasks []
    → Tasks k.rt_queue k.max_tasks []
    → Tasks k.run_queue k.max_tasks (bs ++ (t ∷ ts))
    → AllBlocked k.tcb bs
    → is_blocked (k.tcb t) ≡ false
    → length bs < fuel
    → (q : Queue ℕ) × (f : ℕ → Tcb) × (dispatch_isr sched_rma (sched_rr fuel) k
        ≡ ok (some ((k.tcb t).id % 2 ^ 16)) (switched k t q f))
      × Tasks q k.max_tasks (ts ++ (bs ++ (t ∷ [])))
      × ((f t).state ≡ running)
      × ((x : ℕ) → (x == t) ≡ false → f x ≡ (after_leaving k).tcb x)
unfolding dispatch_isr enter
dispatch_isr_lem fuel k bs t ts on o n hd hrt h b free l =
    let (q, e, r) =
      sched_rr_lem fuel (record (after_leaving k) { current_task = 0 }) bs t ts h
        (AllBlocked-after_leaving k bs b) (is_blocked-after_leaving k t ∙ free) l in
    let g = (after_leaving k).tcb in
    (
      q,
      started (counted g t) t,
      rw
          (
            on,
            leave_current-done k o,
            n,
            process_delay_queue-none (after_leaving k) hd,
            sched_rma-none (after_leaving k) hrt,
            e,
          )
          (ap
            (λ i.
              ok (some (i % 2 ^ 16))
                (record (switched k t q (started (counted g t) t)) { current_task = i % 2 ^ 16 }))
            (id-after_leaving k t)),
      r,
      rw (==_refl t) refl,
      λ x e. rw (flip x t e) refl,
    )
