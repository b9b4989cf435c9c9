-- ===== src/Sched/BestEffort.antt =====
-- scheduler.c: round robin, lottery and priority round robin over the run queue. The `do` loops run
-- on fuel.
pub mod Choice
pub mod RoundRobin
pub mod Priority
use t1_sistemas_embarcados.Prelude.{
  ℕ, zero, suc, ◌+◌, ◌-◌, ◌%◌, ◌^◌, Bool, true, false, not, ◌&&◌, ◌||◌, Option, none, some, ltb,
  ◌==◌, if◌then◌else◌,
}
use t1_sistemas_embarcados.Kernel.{
  no_tasks_run, Cmd, fault, out_of_fuel, pure, ◌>>=◌, ◌>>◌, panic, read, modify, run,
}
use t1_sistemas_embarcados.Kernel.Steps.{inc, is_blocked, count_of, times}
use t1_sistemas_embarcados.Sched.{run_queue_next, this_task, on_this}

-- `krnl_task->bgjobs++; return krnl_task->id;`
pub finish_be : Cmd ℕ
finish_be = do
  modify (on_this (λ e. record e { bgjobs = inc 32 e.bgjobs }))
  read (λ k. (this_task k).id)

rr_loop : ℕ → Cmd (Unit {0})
rr_loop zero = λ k. out_of_fuel
rr_loop (suc fuel) = do
  run_queue_next
  e ← read this_task
  if is_blocked e then rr_loop fuel else pure tt

pub sched_rr : ℕ → Cmd ℕ
unfolding rr_loop finish_be
sched_rr fuel = do
  n ← read (count_of run)
  if n == 0 then panic no_tasks_run else (do rr_loop fuel; finish_be)

-- `i++` counts the tasks that are not blocked.
lottery_loop : ℕ → ℕ → ℕ → Cmd (Unit {0})
lottery_loop r zero i = λ k. out_of_fuel
lottery_loop r (suc fuel) i = do
  run_queue_next
  k ← read (λ k. k)
  if is_blocked (this_task k)
      then lottery_loop r fuel i
      else if not (i % k.tasks == r)
      then lottery_loop r fuel (i + 1)
      else pure tt

-- `draw` is what `random()` returned. With no tasks the remainder has no value.
pub sched_lottery : ℕ → ℕ → Cmd ℕ
unfolding lottery_loop finish_be
sched_lottery fuel draw = do
  k ← read (λ k. k)
  if k.tasks == 0
      then (λ _. fault)
      else if count_of run k == 0
      then panic no_tasks_run
      else (do lottery_loop (draw % k.tasks) fuel 0; finish_be)

-- The search of `sched_priorityrr`: the lowest remaining priority seen, and its task (`none` is
-- NULL); the value `true` is the jump to `done`.
pub record Search : Type 0 where
  pub highestp : ℕ
  pub best : Option ℕ

search_loop : ℕ → Search → Cmd (Bool × Search)
search_loop zero s = pure (false, s)
search_loop (suc n) s = do
  run_queue_next
  k ← read (λ k. k)
  let e = this_task k
  if not (e.critical == 0) && not (is_blocked e)
      then (do modify (on_this (λ e. record e { critical = 0 })); pure (true, s))
      else search_loop n (
          if ltb e.priority_rem s.highestp && not (is_blocked e)
          then record { highestp = e.priority_rem; best = some k.task }
          else s)

age_step : Option ℕ → Cmd (Unit {0})
age_step best = do
  run_queue_next
  k ← read (λ k. k)
  elim best [
    | none ↦ λ _. fault
    | some b ↦
        if k.task == b
        then pure tt
        else modify (
            on_this (λ e. record e {
              priority_rem = (e.priority_rem + 2 ^ 8 - (k.tcb b).priority_rem) % 2 ^ 8;
            }))
  ]

-- The second run over the queue, and the choice of the task that the first run found.
age_all : ℕ → Option ℕ → Cmd (Unit {0})
unfolding age_step
age_all n best = do
  times n (age_step best)
  elim best [
    | none ↦ λ _. fault
    | some b ↦ do
      modify (λ k. record k { task = b })
      modify (on_this (λ e. record e { priority_rem = e.priority }))
  ]

pub sched_priorityrr : Cmd ℕ
unfolding search_loop age_all finish_be
sched_priorityrr = do
  n ← read (count_of run)
  if n == 0 then panic no_tasks_run else do
    run_queue_next
    (at_once, s) ← search_loop n (record { highestp = 255; best = none })
    if at_once then finish_be else (do age_all n s.best; finish_be)
