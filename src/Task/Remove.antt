-- ===== src/Task/Remove.antt =====
-- task.c: `hf_kill` and `hf_delay`, which take a task out of the middle of a queue.
pub mod Bubble
pub mod Delaying
pub mod Killing
use t1_sistemas_embarcados.Prelude.{
  ℕ, zero, suc, ◌+◌, ◌-◌, ◌%◌, ◌^◌, Bool, true, false, not, ◌&&◌, ◌||◌, Option, none, some, List,
  [], ◌∷◌, ◌==◌, if◌then◌else◌,
}
use t1_sistemas_embarcados.Queue.{Allocator, Queue, done, failed, get, swap, addtail}
use t1_sistemas_embarcados.Kernel.{
  idle, delayed, Tcb, Kernel, Cause, no_tasks_rt, no_tasks_run, cant_swap, cant_place_delay,
  unknown_task_state, Code, err_ok, err_error, err_invalid_id, Cmd, pure, ◌>>=◌, ◌>>◌, panic, read,
  modify, on_tcb, QueueName, run, rt, delay, aperiodic, queue_of, with_queue,
}
use t1_sistemas_embarcados.Kernel.Steps.{dec, take_head, count_of}
use t1_sistemas_embarcados.Sched.{this_task, on_this}
use t1_sistemas_embarcados.Task.{guarded, back}

-- `if (hf_queue_get(queue, i) == krnl_task)`.
abbrev pub is_at : Option ℕ → ℕ → Bool
is_at none t = false
is_at (some u) t = u == t

-- `for (i = 0; i < k; i++) if (hf_queue_get(queue, i) == krnl_task) break;` with `n` rounds left.
position : Queue ℕ → ℕ → ℕ → ℕ → ℕ
position q t zero i = i
position q t (suc n) i =
    let later = position q t n (i + 1) in if is_at (get q i) t then i else later

swap_down : QueueName → ℕ → Cmd (Unit {0})
swap_down n j k =
    let (s, q) = swap (queue_of n k) j (j - 1) in
    elim s [ done ↦ pure tt (with_queue n q k) | failed ↦ panic cant_swap k ]

-- `for (j = i; j > 0; j--) if (hf_queue_swap(queue, j, j-1)) panic(PANIC_CANT_SWAP);`
bubble : QueueName → ℕ → Cmd (Unit {0})
unfolding swap_down
bubble n zero = pure tt
bubble n (suc j) = do swap_down n (suc j); bubble n j

-- The task is found in the queue, swapped to the head and removed from there.
pub take_out : QueueName → Cause → ℕ → Cmd (Option ℕ)
unfolding position bubble
take_out n cause t = do
  k ← read (λ k. k)
  let c = count_of n k
  let i = position (queue_of n k) t c 0
  if c == 0 || i == c then panic cause else (do bubble n i; take_head n)

-- `hf_queue_addtail(krnl_delay_queue, krnl_task2)`, where `krnl_task2` may be NULL.
place_delayed : Option ℕ → Cmd (Unit {0})
place_delayed p k =
    let (s, q) = addtail k.delay_queue p in
    elim s [ done ↦ pure tt (record k { delay_queue = q }) | failed ↦ panic cant_place_delay k ]

-- The queue from which `hf_delay` takes a task, and the cause if it is not there.
abbrev pub delay_from : Tcb → QueueName × Cause
delay_from e =
    if not (e.period == 0)
    then (rt, no_tasks_rt)
    else if not (e.capacity == 0)
    then (aperiodic, no_tasks_run)
    else (run, no_tasks_run)

pub hf_delay : ℕ → ℕ → Cmd Code
unfolding guarded take_out place_delayed
hf_delay id ticks =
    if ticks == 0
    then pure err_error
    else guarded err_invalid_id id do
      e ← read this_task
      let (n, cause) = delay_from e
      p ← take_out n cause id
      modify (on_this (λ e. record e { state = delayed; delay = ticks }))
      place_delayed p
      back
      pure err_ok

-- The queue from which `hf_kill` takes a task: an aperiodic one is looked for among the best effort
-- ones.
abbrev pub kill_from : Tcb → QueueName × Cause
kill_from e = if not (e.period == 0) then (rt, no_tasks_rt) else (run, no_tasks_run)

-- The test `!krnl_task2 || krnl_task2 != krnl_task`.
removed_other : Option ℕ → ℕ → Cmd (Unit {0})
removed_other p t = if is_at p t then pure tt else panic unknown_task_state

-- `hf_kill` with an action in place of the heap's `hf_free(pstack)` and of `hf_yield`, with which
-- it ends when `hf_selfid()` is the task. Beside the code it gives the indexes of the entries whose saved
-- context it writes, those of `_set_task_sp(krnl_task->id, 0)` and `_set_task_tp(krnl_task->id, 0)`; the
-- memory behind an index outside of the table is not part of the model.
pub kill : (Option ℕ → Cmd (Unit {0})) → Cmd (Unit {0}) → ℕ → Cmd (Code × List ℕ)
unfolding guarded take_out removed_other
kill free yield id =
    guarded (err_invalid_id, []) id
      do
        modify (on_this (λ e. record e { id = 2 ^ 16 - 1; entry = 0 }))
        e ← read this_task
        free e.pstack
        modify (on_this (λ e. record e { state = idle }))
        modify (λ k. record k { tasks = dec 16 k.tasks })
        let (n, cause) = kill_from e
        p ← take_out n cause id
        removed_other p id
        back
        self ← read this_task
        if self.id == id then yield else pure tt
        pure (err_ok, e.id ∷ e.id ∷ [])
