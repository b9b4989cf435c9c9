-- ===== src/Processor/Lock.antt =====
-- The lock of the scheduler and the dispatchers.
use t1_sistemas_embarcados.Prelude.{ℕ, ◌≡◌, refl, false, none, ◌==◌}
use t1_sistemas_embarcados.Kernel.{Kernel, Cmd, ok, and_then}
use t1_sistemas_embarcados.Sched.Dispatch.{dispatch_isr, dispatch_aperiodics}
use t1_sistemas_embarcados.Sched.Dispatch.Guards.{dispatch-off}
use t1_sistemas_embarcados.Processor.{schedlock}

-- After `hf_schedlock` with a lock that is not 0, neither dispatcher switches tasks nor changes
-- anything, whatever the schedulers are.
pub dispatch-schedlock :
    (lock : ℕ) (sched_rt sched_be : Cmd ℕ) (k : Kernel)
    → (lock == 0) ≡ false
    → (and_then (schedlock lock k) (λ _. dispatch_isr sched_rt sched_be)
        ≡ ok none (record k { schedule = 0 }))
      × (and_then (schedlock lock k) (λ _. dispatch_aperiodics)
          ≡ ok none (record k { schedule = 0 }))
unfolding schedlock
dispatch-schedlock lock sched_rt sched_be k e =
    rw e (dispatch-off sched_rt sched_be (record k { schedule = 0 }) refl)
