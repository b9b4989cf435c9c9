-- ===== src/Tests/OnSched.antt =====
-- scheduler.c and processor.c on the small system.
use t1_sistemas_embarcados.Prelude.{
  ◌==◌, some, false, none, ◌≤◌, ℕ, ◌*◌, ◌≡◌, refl, [], ◌∷◌, arith, occ,
}
use t1_sistemas_embarcados.Queue.{Queue}
use t1_sistemas_embarcados.Kernel.{running, Tcb, Kernel, blocked, ok, fault, update, and_then}
use t1_sistemas_embarcados.Kernel.View.{Tasks, Queues}
use t1_sistemas_embarcados.Kernel.Returns.{Returns}
use t1_sistemas_embarcados.Sched.{process_delay_queue}
use t1_sistemas_embarcados.Sched.Delay.{Passed, process_delay_queue_lem}
use t1_sistemas_embarcados.Sched.BestEffort.{sched_rr, sched_priorityrr}
use t1_sistemas_embarcados.Sched.BestEffort.RoundRobin.{sched_rr_lem}
use t1_sistemas_embarcados.Sched.BestEffort.Choice.{IsChoice}
use t1_sistemas_embarcados.Sched.BestEffort.Priority.{
  scheduled, sched_priorityrr_lem, sched_priorityrr_none,
}
use t1_sistemas_embarcados.Sched.Rma.{sched_rma}
use t1_sistemas_embarcados.Sched.Rma.Sort.{IsSorted}
use t1_sistemas_embarcados.Sched.Rma.Loops.{period_of}
use t1_sistemas_embarcados.Sched.Rma.RateMonotonic.{
  IsRateMonotonic, by_period, rm_entries, sched_rma_lem,
}
use t1_sistemas_embarcados.Sched.Dispatch.{dispatch_isr, dispatch_aperiodics}
use t1_sistemas_embarcados.Sched.Dispatch.Guards.{after_leaving}
use t1_sistemas_embarcados.Sched.Dispatch.Switch.{switched, dispatch_isr_lem}
use t1_sistemas_embarcados.Task.{value}
use t1_sistemas_embarcados.Processor.{schedlock, cpuload}
use t1_sistemas_embarcados.Processor.Load.{cpuload_lem}
use t1_sistemas_embarcados.Processor.Lock.{dispatch-schedlock}
use t1_sistemas_embarcados.Tests.{
  plain, entries, queue_of_two, queue_of_one, queue_of_none, two-Tasks, one-Tasks, none-Tasks,
  system,
}

-- The tasks 2 and 3 are delayed.
abbrev delaying : Kernel
delaying = record system {
  run_queue = queue_of_one 1;
  delay_queue = queue_of_two 2 3;
  rt_queue = queue_of_none;
}

delaying-Queues : Queues delaying (1 ∷ []) [] (2 ∷ 3 ∷ []) []
delaying-Queues = record {
  on_run = one-Tasks 1;
  on_rt = none-Tasks;
  on_delay = two-Tasks 2 3;
  on_aperiodic = none-Tasks;
}

process_delay_queue_example :
    Returns (λ _. Passed delaying (1 ∷ []) [] (2 ∷ 3 ∷ []) [] []) (process_delay_queue delaying)
process_delay_queue_example =
    process_delay_queue_lem delaying-Queues (refl, (refl, tt)) (omega arith) (omega arith)

sched_rr_example :
    (q : Queue ℕ) × (sched_rr 2 system
      ≡ ok 2 (record system {
        task = 2;
        run_queue = q;
        tcb = update entries 2 (record (entries 2) { bgjobs = 1 });
      }))
    × Tasks q 4 (1 ∷ 2 ∷ [])
sched_rr_example = sched_rr_lem 2 system (1 ∷ []) 2 [] (two-Tasks 1 2) (refl, tt) refl (omega arith)

abbrev asleep : Kernel
asleep = record system {
  run_queue = queue_of_two 1 4;
  tcb = λ i. record (plain i) { state = blocked };
}

sched_priorityrr_example :
    (b : ℕ) × (q : Queue ℕ) × (f : ℕ → Tcb) × (sched_priorityrr system
      ≡ ok (entries b).id (record system { task = b; run_queue = q; tcb = f }))
    × IsChoice entries (2 ∷ 1 ∷ []) b
    × Tasks q 4 (2 ∷ 1 ∷ [])
    × ((y : ℕ) → f y ≡ scheduled entries b (2 ∷ 1 ∷ []) y)
sched_priorityrr_example =
    sched_priorityrr_lem system 1 (2 ∷ []) 2 (two-Tasks 1 2) (refl, (refl, tt)) (refl, (refl, tt))
      refl refl (omega arith)

-- Both tasks that can run have the priority 255.
abbrev lowest : Kernel
lowest = record system { tcb = λ i. record (plain i) { priority_rem = 255 } }

sched_priorityrr_none_example : sched_priorityrr lowest ≡ fault
sched_priorityrr_none_example =
    sched_priorityrr_none lowest 1 (2 ∷ []) (two-Tasks 1 2) (refl, (refl, tt))
      (λ x listed free. omega arith)

-- Two real-time tasks, the one with the longer period in front.
abbrev periodic : Kernel
periodic = record system {
  rt_queue = queue_of_two 2 1;
  tcb = λ i. record (plain i) { period = i * 10; capacity = 2; capacity_rem = 2; deadline_rem = 5 };
}

sched_rma_example :
    (c : ℕ) × (q : Queue ℕ) × (f : ℕ → Tcb) × (sched_rma periodic
      ≡ ok c (record periodic { task = c; rt_queue = q; tcb = f }))
    × IsRateMonotonic periodic.tcb (2 ∷ 1 ∷ []) c
    × Tasks q 4 (by_period periodic (2 ∷ 1 ∷ []))
    × IsSorted (period_of periodic) (by_period periodic (2 ∷ 1 ∷ []))
    × ((a : ℕ) → occ a (by_period periodic (2 ∷ 1 ∷ [])) ≡ occ a (2 ∷ 1 ∷ []))
    × ((x : ℕ) → f x ≡ rm_entries periodic.tcb (by_period periodic (2 ∷ 1 ∷ [])) c x)
sched_rma_example =
    sched_rma_lem periodic (2 ∷ 1 ∷ []) (two-Tasks 2 1) (refl, (refl, tt))
      (refl, omega arith, (refl, omega arith, tt)) (omega arith)

-- No real-time tasks.
abbrev best_effort : Kernel
best_effort = record system { rt_queue = queue_of_none }

dispatch_isr_example :
    (q : Queue ℕ) × (f : ℕ → Tcb) × (dispatch_isr sched_rma (sched_rr 2) best_effort
      ≡ ok (some 2) (switched best_effort 2 q f))
    × Tasks q 4 (1 ∷ 2 ∷ [])
    × ((f 2).state ≡ running)
    × ((x : ℕ) → (x == 2) ≡ false → f x ≡ (after_leaving best_effort).tcb x)
dispatch_isr_example =
    dispatch_isr_lem 2 best_effort (1 ∷ []) 2 [] refl refl refl none-Tasks none-Tasks
      (two-Tasks 1 2) (refl, tt) refl (omega arith)

-- The stack of the running task 2 has overflowed.
abbrev overflowed : Kernel
overflowed = record system { tcb = update entries 2 (record (entries 2) { stack_word = 0 }) }

dispatch-schedlock_example :
    (and_then (schedlock 1 system) (λ _. dispatch_isr sched_rma sched_priorityrr)
      ≡ ok none (record system { schedule = 0 }))
    × (and_then (schedlock 1 system) (λ _. dispatch_aperiodics)
        ≡ ok none (record system { schedule = 0 }))
dispatch-schedlock_example = dispatch-schedlock 1 sched_rma sched_priorityrr system refl

-- Task 2 has run 30 of the 90 jobs.
abbrev worked : Kernel
worked = record system { tcb = λ i. record (entries i) { bgjobs = 30; rtjobs = 30 } }

cpuload_example : (cpuload 2 worked ≡ ok (value 33) worked) × (33 ≤ 100)
cpuload_example = cpuload_lem 2 worked refl refl (omega arith) (omega arith)
