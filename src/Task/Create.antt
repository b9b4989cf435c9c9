-- ===== src/Task/Create.antt =====
-- task.c: `hf_spawn`.
pub mod Spawning
use t1_sistemas_embarcados.Prelude.{
  ℕ, zero, suc, ◌+◌, ◌-◌, ◌*◌, ◌/◌, ◌%◌, ◌^◌, Bool, true, false, not, Option, none, some, List, [],
  ◌∷◌, ltb, ◌==◌, if◌then◌else◌,
}
use t1_sistemas_embarcados.Queue.{Allocator}
use t1_sistemas_embarcados.Kernel.{
  idle, Tcb, Kernel, Code, err_exceed_max_num, err_out_of_memory, Cmd, pure, ◌>>=◌, ◌>>◌, read,
  modify, on_tcb, cant_place_rt, cant_place_run, run, rt, aperiodic,
}
use t1_sistemas_embarcados.Kernel.Steps.{inc, dec, place}
use t1_sistemas_embarcados.Sched.{on_this}
use t1_sistemas_embarcados.Sched.Dispatch.{stack_magic}
use t1_sistemas_embarcados.Task.{is_task, Answer, value, code, back}

-- The arguments of `hf_spawn`; `name` is the string up to its NUL.
pub record Body : Type 0 where
  pub entry : ℕ
  pub period : ℕ
  pub capacity : ℕ
  pub deadline : ℕ
  pub name : List ℕ
  pub stack_size : ℕ

-- `while ((krnl_tcb[i].ptask != 0) && (i < MAX_TASKS)) i++;` with `n` places left.
unfoldable pub free_entry : (ℕ → Tcb) → ℕ → ℕ → ℕ
free_entry f zero i = i
free_entry f (suc n) i = if is_task (f i) then free_entry f n (i + 1) else i

-- `strncpy(s1, s2, n)`: the `n` bytes written.
abbrev pub strncpy : ℕ → List ℕ → List ℕ
strncpy zero s = []
strncpy (suc n) [] = 0 ∷ strncpy n []
strncpy (suc n) (c ∷ s) = c ∷ strncpy n s

-- The size of the stack in whole words.
abbrev pub whole_words : ℕ → ℕ
whole_words size = (size + 3) % 2 ^ 32 / 4 * 4

abbrev pub new_entry : Body → ℕ → Tcb → Tcb
new_entry b i e = record e {
  id = i % 2 ^ 16;
  name = strncpy 20 b.name;
  state = idle;
  priority = 100;
  priority_rem = 100;
  delay = 0;
  period = b.period;
  capacity = b.capacity;
  deadline = b.deadline;
  capacity_rem = b.capacity;
  deadline_rem = b.deadline;
  rtjobs = 0;
  bgjobs = 0;
  deadline_misses = 0;
  entry = b.entry;
  stack_size = whole_words b.stack_size;
}

-- The queue for the new task.
enqueue : Body → ℕ → Cmd (Unit {0})
enqueue b i =
    if not (b.period == 0)
    then place rt cant_place_rt i
    else if not (b.capacity == 0)
    then place aperiodic cant_place_rt i
    else place run cant_place_run i

-- The rest of the call with the block that the heap gave.
set_up : Body → ℕ → Option ℕ → Cmd (Answer ℕ)
unfolding enqueue
set_up b i (some p) = do
  modify (on_this (λ e. record e { pstack = some p; stack_word = stack_magic }))
  enqueue b i
  back
  pure (value i)
set_up b i none = do
  modify (on_this (λ e. record e { pstack = none; entry = 0 }))
  modify (λ k. record k { tasks = dec 16 k.tasks })
  back
  pure (code err_out_of_memory)

module _ (a : Allocator ℕ) where
  open a use {Heap, malloc}

  pub spawn : Body → Heap → Cmd (Answer ℕ × Heap)
  unfolding free_entry set_up
  spawn b h = do
    i ← read (λ k. free_entry k.tcb k.max_tasks 0)
    k ← read (λ k. k)
    if i == k.max_tasks then pure (code err_exceed_max_num, h) else do
      modify (λ k. record k { tasks = inc 16 k.tasks; task = i })
      modify (on_this (new_entry b i))
      let (got, h') = malloc (whole_words b.stack_size) h
      r ← set_up b i got
      pure (r, h')
