-- ===== src/Tests/OnTask.antt =====
-- task.c on the small system.
use t1_sistemas_embarcados.Prelude.{
  ◌==◌, false, ℕ, ◌+◌, ◌≡◌, refl, false, none, some, [], ◌∷◌, arith, ltb, if◌then◌else◌, List,
}
use t1_sistemas_embarcados.Queue.{Allocator, Queue}
use t1_sistemas_embarcados.Kernel.{running, Tcb, Kernel, ok, out_of_fuel, err_ok, pure, update, run}
use t1_sistemas_embarcados.Kernel.View.{Tasks}
use t1_sistemas_embarcados.Task.{value}
use t1_sistemas_embarcados.Task.Blocking.{IsCallable, at_current}
use t1_sistemas_embarcados.Task.Blocking.Calls.{
  Call, blocks, resumes, performs, answers, with_states, callable, performs-answers,
}
use t1_sistemas_embarcados.Task.Create.{Body, free_entry, spawn}
use t1_sistemas_embarcados.Task.Create.Spawning.{IsFirstFree, with_task, spawn_lem}
use t1_sistemas_embarcados.Task.Remove.{hf_delay, kill}
use t1_sistemas_embarcados.Task.Remove.Delaying.{delayed_in, hf_delay_lem}
use t1_sistemas_embarcados.Task.Remove.Killing.{without, kill_lem}
use t1_sistemas_embarcados.Sched.BestEffort.{sched_rr}
use t1_sistemas_embarcados.Sched.Dispatch.Guards.{after_leaving}
use t1_sistemas_embarcados.Task.Yield.{yield}
use t1_sistemas_embarcados.Task.Yield.Handover.{handed_over, yield_lem}
use t1_sistemas_embarcados.Tests.{plain, entries, two-Tasks, none-Tasks, system}

two-IsCallable : IsCallable 2 system
two-IsCallable = record { not_idle = refl; exists = refl }

-- Task 2 is blocked twice, then resumed twice; task 1 is resumed, and the idle task is not blocked.
abbrev calls : List Call
calls = blocks 2 ∷ blocks 2 ∷ resumes 2 ∷ resumes 2 ∷ resumes 1 ∷ blocks 0 ∷ []

performs-answers_example :
    (t : ℕ) × (performs calls system
      ≡ ok
          (answers (callable system) (λ i. (entries i).state) calls).0
          (with_states (answers (callable system) (λ i. (entries i).state) calls).1 t system))
performs-answers_example = performs-answers calls system

abbrev heap : Allocator ℕ
heap = record {
  Heap = ℕ;
  malloc =
      λ bytes used. if ltb 4096 (used + bytes) then (none, used) else (some used, used + bytes);
  free = λ p used. used;
  words = λ p n used. [];
}

abbrev worker : Body
worker = record {
  entry = 9;
  period = 0;
  capacity = 0;
  deadline = 0;
  name = 119 ∷ [];
  stack_size = 1022;
}

-- The place 3 is free.
abbrev three : Kernel
three = record system { tcb = update entries 3 (record (plain 3) { entry = 0 }); tasks = 3 }

free_three : free_entry three.tcb 4 0 ≡ 3
unfolding free_entry
free_three = refl

spawn_example :
    (q : Queue ℕ) × (spawn heap worker 0 three
      ≡ ok (value 3, 1024) (at_current (record (with_task worker 3 0 three) { run_queue = q })))
    × Tasks q 4 (1 ∷ 2 ∷ 3 ∷ [])
    × IsFirstFree three.tcb 0 4 3
spawn_example =
    spawn_lem heap worker 3 0 0 three (1 ∷ 2 ∷ []) free_three (omega arith) (two-Tasks 1 2)
      (omega arith) refl

abbrev full : Kernel
full = record system { tcb = plain }

hf_delay_example :
    (q d : Queue ℕ) × (hf_delay 2 5 system ≡ ok err_ok (delayed_in run q d 2 5 system))
    × Tasks q 4 (1 ∷ [])
    × Tasks d 4 (2 ∷ [])
hf_delay_example =
    hf_delay_lem 2 5 system (1 ∷ []) [] [] two-IsCallable (omega arith) (two-Tasks 1 2) refl
      none-Tasks (omega arith)

-- The running task kills itself, with a `hf_yield` that would never return.
kill_example :
    (q : Queue ℕ) × (kill (λ p. pure tt) (λ k. out_of_fuel) 2 system
      ≡ ok (err_ok, 65535 ∷ 65535 ∷ []) (record (at_current (without 2 system)) { run_queue = q }))
    × Tasks q 4 (1 ∷ [])
kill_example =
    kill_lem (λ p. pure tt) (λ k. out_of_fuel) 2 system (1 ∷ []) [] (λ p k. refl) two-IsCallable
      (omega arith) refl (two-Tasks 1 2) refl

-- Task 2 yields; task 1 is blocked, so it goes on itself.
yield_example :
    (q : Queue ℕ) × (f : ℕ → Tcb) × (yield (sched_rr 2) system ≡ ok 2 (handed_over system 2 q f))
    × Tasks q 4 (1 ∷ 2 ∷ [])
    × ((f 2).state ≡ running)
    × ((x : ℕ) → (x == 2) ≡ false → f x ≡ (after_leaving system).tcb x)
yield_example =
    yield_lem 2 system (1 ∷ []) 2 [] refl refl (two-Tasks 1 2) (refl, tt) refl (omega arith)
