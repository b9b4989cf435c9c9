-- ===== src/Task/Yield/Handover.antt =====
-- To whom `hf_yield` hands the processor under round robin.
use t1_sistemas_embarcados.Prelude.{
  ℕ, ◌%◌, ◌^◌, ◌<◌, ◌≡◌, refl, ap, ◌∙◌, true, false, List, [], ◌∷◌, ◌++◌, ◌==◌, ==_refl, length,
}
use t1_sistemas_embarcados.Queue.{Queue}
use t1_sistemas_embarcados.Kernel.{Tcb, Kernel, ok, running}
use t1_sistemas_embarcados.Kernel.Steps.{inc, is_blocked}
use t1_sistemas_embarcados.Kernel.View.{Tasks}
use t1_sistemas_embarcados.Sched.BestEffort.{sched_rr}
use t1_sistemas_embarcados.Sched.BestEffort.RoundRobin.{AllBlocked, sched_rr_lem}
use t1_sistemas_embarcados.Sched.Dispatch.{stack_magic}
use t1_sistemas_embarcados.Sched.Dispatch.Guards.{after_leaving, leave_current-done}
use t1_sistemas_embarcados.Sched.Dispatch.Leaving.{
  is_blocked-after_leaving, id-after_leaving, AllBlocked-after_leaving, counted, started, flip,
}
use t1_sistemas_embarcados.Task.Yield.{yield}

-- The kernel once the task `t` runs: the entries are `f`.
abbrev pub handed_over : Kernel → ℕ → Queue ℕ → (ℕ → Tcb) → Kernel
handed_over k t q f = record k {
  task = t;
  current_task = (k.tcb t).id % 2 ^ 16;
  coop_cswitch = inc 32 k.coop_cswitch;
  run_queue = q;
  tcb = f;
}

-- With the stack of the running task intact, a task in the system, fuel for the blocked tasks at the
-- head of the run queue and round robin as the best effort scheduler, `hf_yield`
-- resumes the first task of the run queue that is not blocked, and that task goes to the tail. Its
-- state is running, the task that was left is ready if it was running, and no other entry changes.
pub yield_lem :
    (fuel : ℕ) (k : Kernel) (bs : List ℕ) (t : ℕ) (ts : List ℕ)
    → ((k.tcb k.current_task).stack_word == stack_magic) ≡ true
    → (k.tasks == 0) ≡ false
    → Tasks k.run_queue k.max_tasks (bs ++ (t ∷ ts))
    → AllBlocked k.tcb bs
    → is_blocked (k.tcb t) ≡ false
    → length bs < fuel
    → (q : Queue ℕ) × (f : ℕ → Tcb) × (yield (sched_rr fuel) k
        ≡ ok ((k.tcb t).id % 2 ^ 16) (handed_over k t q f))
      × Tasks q k.max_tasks (ts ++ (bs ++ (t ∷ [])))
      × ((f t).state ≡ running)
      × ((x : ℕ) → (x == t) ≡ false → f x ≡ (after_leaving k).tcb x)
unfolding yield
yield_lem fuel k bs t ts o n h b free l =
    let (q, e, r) =
      sched_rr_lem fuel (after_leaving k) bs t ts h (AllBlocked-after_leaving k bs b)
        (is_blocked-after_leaving k t ∙ free) l in
    let g = (after_leaving k).tcb in
    (
      q,
      started (counted g t) t,
      rw (leave_current-done k o, n, e)
          (ap
            (λ i.
              ok (i % 2 ^ 16) (record (handed_over k t q (started (counted g t) t)) {
                current_task = i % 2 ^ 16;
              }))
            (id-after_leaving k t)),
      r,
      rw (==_refl t) refl,
      λ x e. rw (flip x t e) refl,
    )
