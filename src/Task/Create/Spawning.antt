-- ===== src/Task/Create/Spawning.antt =====
-- What `hf_spawn` makes of a free entry, a full table and an empty heap.
use t1_sistemas_embarcados.Prelude.{
  ℕ, zero, suc, ◌+◌, ◌^◌, ◌≤◌, ◌<◌, ◌≡◌, refl, sym, ap, ◌∙◌, true, false, not, none, some, List, [],
  ◌∷◌, ◌++◌, arith, ◌==◌, ==_refl, if◌then◌else◌, length, Bool-cases, inl, inr, ℕ_discrete,
}
use mathlib.Core.Path.{subst}
use t1_sistemas_embarcados.Queue.{Allocator, Queue}
use t1_sistemas_embarcados.Kernel.{
  Kernel, Tcb, ok, and_then, err_exceed_max_num, err_out_of_memory, update, on_tcb, QueueName, run,
  rt, delay, aperiodic, queue_of, with_queue, cant_place_rt, cant_place_run,
}
use t1_sistemas_embarcados.Kernel.Steps.{inc, dec}
use t1_sistemas_embarcados.Kernel.View.{Tasks, place-done}
use t1_sistemas_embarcados.Sched.Dispatch.{stack_magic}
use t1_sistemas_embarcados.Task.{is_task, value, code}
use t1_sistemas_embarcados.Task.Blocking.{update-update, at_current}
use t1_sistemas_embarcados.Task.Create.{
  Body, free_entry, whole_words, new_entry, enqueue, set_up, spawn,
}

-- The search stops at the first entry without a task, or behind the last place.
pub record IsFirstFree (f : ℕ → Tcb) (from n r : ℕ) : Type 0 where
  pub low : from ≤ r
  pub high : r ≤ from + n
  pub free : r < from + n → is_task (f r) ≡ false
  pub taken : (j : ℕ) → from ≤ j → j < r → is_task (f j) ≡ true

pub free_entry_lem : (f : ℕ → Tcb) (n i : ℕ) → IsFirstFree f i n (free_entry f n i)
unfolding free_entry
free_entry_lem f zero i = record {
  low = omega arith;
  high = omega arith;
  free = λ l. absurd (omega arith);
  taken = λ j l u. absurd (omega arith);
}
free_entry_lem f (suc n) i = elim (Bool-cases (is_task (f i))) [
  | inl y ↦
      let h = free_entry_lem f n (i + 1) in
      rw y (record {
        low = omega (arith, h.low);
        high = omega (arith, h.high);
        free = λ l. h.free (omega arith);
        taken =
            λ j l u. elim (ℕ_discrete j i) [ yes e ↦ rw e y | no e ↦ h.taken j (omega arith) u ];
      })
  | inr y ↦ rw y (record {
    low = omega arith;
    high = omega arith;
    free = λ l. y;
    taken = λ j l u. absurd (omega arith);
  })
]

-- Where the code queues a new task: real-time, aperiodic or best effort.
abbrev pub queue_for : Body → QueueName
queue_for b = if not (b.period == 0) then rt else if not (b.capacity == 0) then aperiodic else run

enqueue_lem :
    (b : Body) (i : ℕ) (k : Kernel) {ts : List ℕ}
    → Tasks (queue_of (queue_for b) k) k.max_tasks ts
    → length ts < k.max_tasks
    → (q : Queue ℕ) × (enqueue b i k ≡ ok tt (with_queue (queue_for b) q k))
      × Tasks q k.max_tasks (ts ++ (i ∷ []))
unfolding enqueue
enqueue_lem b i k h l = elim (Bool-cases (not (b.period == 0))) [
  | inl y ↦ rw y (place-done rt k cant_place_rt i (rw y at h) l)
  | inr y ↦ elim (Bool-cases (not (b.capacity == 0))) [
    | inl z ↦ rw (y, z) (place-done aperiodic k cant_place_rt i (rw (y, z) at h) l)
    | inr z ↦ rw (y, z) (place-done run k cant_place_run i (rw (y, z) at h) l)
  ]
]

-- The entry of a task that was spawned with its stack at `p`.
abbrev pub spawned : Body → ℕ → ℕ → Tcb → Tcb
spawned b i p e = record (new_entry b i e) { pstack = some p; stack_word = stack_magic }

-- The kernel in which the new task is queued.
abbrev pub with_task : Body → ℕ → ℕ → Kernel → Kernel
with_task b i p k = record k {
  tasks = inc 16 k.tasks;
  task = i;
  tcb = update k.tcb i (spawned b i p (k.tcb i));
}

queue_of-with_task :
    (n : QueueName) (b : Body) (i p : ℕ) (k : Kernel)
    → queue_of n (with_task b i p k) ≡ queue_of n k
queue_of-with_task run b i p k = refl
queue_of-with_task rt b i p k = refl
queue_of-with_task delay b i p k = refl
queue_of-with_task aperiodic b i p k = refl

abbrev started : Body → ℕ → Kernel → Kernel
started b i k = record k {
  tasks = inc 16 k.tasks;
  task = i;
  tcb = update k.tcb i (new_entry b i (k.tcb i));
}

set_up_lem :
    (b : Body) (i p : ℕ) (k : Kernel) {ts : List ℕ}
    → Tasks (queue_of (queue_for b) k) k.max_tasks ts
    → length ts < k.max_tasks
    → (q : Queue ℕ) × (set_up b i (some p) (started b i k)
        ≡ ok (value i) (at_current (with_queue (queue_for b) q (with_task b i p k))))
      × Tasks q k.max_tasks (ts ++ (i ∷ []))
unfolding set_up
set_up_lem b i p k {ts} h l =
    let (q, e, r) =
      enqueue_lem b i (with_task b i p k)
        (subst (λ q. Tasks q k.max_tasks ts) (sym (queue_of-with_task (queue_for b) b i p k)) h)
        l in
    (
      q,
      ap (λ k. and_then (enqueue b i k) (λ _ k. ok (value i) (at_current k))) (twice p)
          ∙ ap (λ o. and_then o (λ _ k. ok (value i) (at_current k))) e,
      r,
    )
  where
    twice :
        (p : ℕ)
        → on_tcb i (λ e. record e { pstack = some p; stack_word = stack_magic }) (started b i k)
          ≡ with_task b i p k
    twice p = rw (==_refl i) (
        ap (λ f. record k { tasks = inc 16 k.tasks; task = i; tcb = f })
          (update-update k.tcb i (new_entry b i (k.tcb i)) (spawned b i p (k.tcb i))))

module _ (a : Allocator ℕ) where
  open a use {Heap, malloc}

  -- With a free entry, room in the queue that the task belongs to, and memory for its stack,
  -- `hf_spawn` returns the first free index. The entry there is that of the new task, which stands at
  -- the tail of its queue; no other entry changes, and there is one task more.
  pub spawn_lem :
      (b : Body) (i p : ℕ) (h : Heap) (k : Kernel) (ts : List ℕ)
      → free_entry k.tcb k.max_tasks 0 ≡ i
      → i < k.max_tasks
      → Tasks (queue_of (queue_for b) k) k.max_tasks ts
      → length ts < k.max_tasks
      → (malloc (whole_words b.stack_size) h).0 ≡ some p
      → (q : Queue ℕ) × (spawn a b h k
          ≡ ok
              (value i, (malloc (whole_words b.stack_size) h).1)
              (at_current (with_queue (queue_for b) q (with_task b i p k))))
        × Tasks q k.max_tasks (ts ++ (i ∷ []))
        × IsFirstFree k.tcb 0 k.max_tasks i
  unfolding spawn
  spawn_lem b i p h k ts e l t room got =
      let (q, f, r) = set_up_lem b i p k t room in
      (
        q,
        rw (e, not_full, got, f) refl,
        r,
        subst (IsFirstFree k.tcb 0 k.max_tasks) e (free_entry_lem k.tcb k.max_tasks 0),
      )
    where
      not_full : (i == k.max_tasks) ≡ false
      not_full = ground arith

  -- With a task in every entry, `hf_spawn` returns ERR_EXCEED_MAX_NUM and changes nothing.
  pub spawn_full :
      (b : Body) (h : Heap) (k : Kernel)
      → ((j : ℕ) → j < k.max_tasks → is_task (k.tcb j) ≡ true)
      → spawn a b h k ≡ ok (code err_exceed_max_num, h) k
  unfolding spawn
  spawn_full b h k taken = rw full refl
    where
      found : IsFirstFree k.tcb 0 k.max_tasks (free_entry k.tcb k.max_tasks 0)
      found = free_entry_lem k.tcb k.max_tasks 0

      full : (free_entry k.tcb k.max_tasks 0 == k.max_tasks) ≡ true
      full = ground (arith, found.free, found.high, taken (free_entry k.tcb k.max_tasks 0))

  -- Without memory for the stack `hf_spawn` returns ERR_OUT_OF_MEMORY: the queues, the number of
  -- tasks and the other entries are as before, and the entry that it tried is still free.
  pub spawn_out_of_memory :
      (b : Body) (i : ℕ) (h : Heap) (k : Kernel)
      → free_entry k.tcb k.max_tasks 0 ≡ i
      → i < k.max_tasks
      → k.tasks < 2 ^ 16
      → (malloc (whole_words b.stack_size) h).0 ≡ none
      → (e : Tcb) × (spawn a b h k
          ≡ ok
              (code err_out_of_memory, (malloc (whole_words b.stack_size) h).1)
              (record (at_current k) { tcb = update k.tcb i e }))
        × (is_task e ≡ false)
  unfolding spawn set_up
  spawn_out_of_memory b i h k e l small got = (
    record (new_entry b i (k.tcb i)) { pstack = none; entry = 0 },
    rw (e, not_full, got, ==_refl i, dec-inc k.tasks small)
        (ap
          (λ f.
            ok (code err_out_of_memory, (malloc (whole_words b.stack_size) h).1)
              (record (at_current k) { tcb = f }))
          (update-update k.tcb i (new_entry b i (k.tcb i))
            (record (new_entry b i (k.tcb i)) { pstack = none; entry = 0 }))),
    refl,
  )
    where
      not_full : (i == k.max_tasks) ≡ false
      not_full = ground arith

      dec-inc : (n : ℕ) → n < 2 ^ 16 → dec 16 (inc 16 n) ≡ n
      dec-inc n s = ground arith
