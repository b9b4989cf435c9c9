-- ===== src/Task.antt =====
-- hellfireos/sys/kernel/task.c: the system calls on tasks. Each runs with interrupts off. The entry at an
-- index of MAX_TASKS or more, which the code reads before it tests the index, has some value here;
-- the messages are left out, and of the saved contexts only which entries `hf_kill` writes is modelled.
pub mod Create
pub mod Blocking
pub mod Yield
pub mod Remove
use t1_sistemas_embarcados.Prelude.{
  ℕ, zero, suc, ◌+◌, ◌-◌, ◌%◌, ◌^◌, Bool, true, false, not, ◌&&◌, ◌||◌, Option, none, some, List,
  [], ◌∷◌, ltb, leb, ◌==◌, if◌then◌else◌,
}
use t1_sistemas_embarcados.Kernel.{
  TaskState, idle, ready, blocked, delayed, Tcb, Kernel, Code, err_ok, err_error, err_invalid_id,
  Cmd, pure, ◌>>=◌, ◌>>◌, read, modify, on_tcb,
}
use t1_sistemas_embarcados.Kernel.Steps.{is_blocked}
use t1_sistemas_embarcados.Sched.{this_task, on_this}

-- `krnl_tcb[id].ptask` is not NULL.
abbrev pub is_task : Tcb → Bool
is_task e = not (e.entry == 0)

-- `if (id < MAX_TASKS) if (krnl_tcb[id].ptask)`.
abbrev pub exists_at : ℕ → Kernel → Bool
exists_at id k = ltb id k.max_tasks && is_task (k.tcb id)

-- A negative code or a value.
pub data Answer (A : Type 0) : Type 0 where
  value : A → Answer A
  code : Code → Answer A

abbrev of_task : {A : Type 0} → (Tcb → A) → ℕ → Cmd (Answer A)
of_task f id = read λ k. if exists_at id k then value (f (k.tcb id)) else code err_invalid_id

pub task_state : ℕ → Cmd (Answer TaskState)
task_state = of_task λ e. e.state

pub jobs : ℕ → Cmd (Answer ℕ)
jobs = of_task λ e. if e.period == 0 then e.bgjobs else e.rtjobs

pub dlm : ℕ → Cmd (Answer ℕ)
dlm = of_task λ e. e.deadline_misses

abbrev is_best_effort : ℕ → Kernel → Bool
is_best_effort id k = exists_at id k && (k.tcb id).period == 0

pub priorityset : ℕ → ℕ → Cmd Code
priorityset id p = do
  k ← read (λ k. k)
  if is_best_effort id k
      then (do modify (on_tcb id (λ e. record e { priority = p; priority_rem = p })); pure err_ok)
      else pure err_invalid_id

pub priorityget : ℕ → Cmd (Answer ℕ)
priorityget id =
    read λ k. if is_best_effort id k then value (k.tcb id).priority else code err_invalid_id

-- `krnl_task = &krnl_tcb[krnl_current_task]`.
abbrev pub back : Cmd (Unit {0})
back = modify λ k. record k { task = k.current_task }

-- The tests with which `hf_block`, `hf_resume`, `hf_kill` and `hf_delay` begin, the result where there is no
-- such task, and the rest of the call, with `krnl_task` at the task.
pub guarded : {A : Type 0} → A → ℕ → Cmd A → Cmd A
guarded invalid id rest = if id == 0 then pure invalid else do
  modify (λ k. record k { task = id })
  k ← read (λ k. k)
  if not (is_task (k.tcb id)) || leb k.max_tasks id then (do back; pure invalid) else rest

pub block : ℕ → Cmd Code
unfolding guarded
block id = guarded err_invalid_id id do
  e ← read this_task
  if is_blocked e
      then (do back; pure err_error)
      else (do modify (on_this (λ e. record e { state = blocked })); back; pure err_ok)

pub resume : ℕ → Cmd Code
unfolding guarded
resume id = guarded err_invalid_id id do
  e ← read this_task
  if not (is_blocked e)
      then (do back; pure err_error)
      else (do modify (on_this (λ e. record e { state = ready })); back; pure err_ok)
