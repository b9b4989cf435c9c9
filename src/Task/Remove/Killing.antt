-- ===== src/Task/Remove/Killing.antt =====
-- What `hf_kill` does: the task leaves its queue and the table; no call of it ends in `hf_yield`, and each writes outside of the table.
use t1_sistemas_embarcados.Prelude.{
  ℕ, ◌-◌, ◌<◌, ◌^◌, ◌≡◌, refl, ap, ◌∙◌, false, Option, some, List, [], ◌∷◌, ◌++◌, arith, ◌==◌,
  ==_refl, if◌then◌else◌, mem, Bool-cases, inl, inr,
}
use t1_sistemas_embarcados.Queue.{Queue}
use t1_sistemas_embarcados.Kernel.{
  idle, Tcb, Kernel, Cause, Cmd, Code, err_ok, ok, and_then, pure, ◌>>◌, ◌>>=◌, read, update,
  QueueName, run, rt, delay, aperiodic, queue_of, with_queue,
}
use t1_sistemas_embarcados.Kernel.Steps.{dec}
use t1_sistemas_embarcados.Kernel.View.{Tasks}
use t1_sistemas_embarcados.Sched.{this_task}
use t1_sistemas_embarcados.Task.{guarded, back}
use t1_sistemas_embarcados.Task.Blocking.{IsCallable, at_current, passes, update-update}
use t1_sistemas_embarcados.Task.Remove.{take_out, removed_other, kill_from, kill}
use t1_sistemas_embarcados.Task.Remove.Bubble.{take_out_lem}

-- The entry of a task that was killed.
abbrev pub dead : Tcb → Tcb
dead e = record e { id = 2 ^ 16 - 1; entry = 0; state = idle }

abbrev pub without : ℕ → Kernel → Kernel
without id k = record k { tasks = dec 16 k.tasks; tcb = update k.tcb id (dead (k.tcb id)) }

module _ (free : Option ℕ → Cmd (Unit {0})) (yield : Cmd (Unit {0})) (id : ℕ) where
  -- The entry with the id -1, twice.
  abbrev contexts : List ℕ
  contexts = (2 ^ 16 - 1) ∷ (2 ^ 16 - 1) ∷ []

  abbrev rest : Option ℕ → Cmd (Code × List ℕ)
  rest p = do
    removed_other p id
    back
    self ← read this_task
    if self.id == id then yield else pure tt
    pure (err_ok, contexts)

  rest_lem :
      (k : Kernel)
      → ((k.tcb k.current_task).id == id) ≡ false
      → rest (some id) k ≡ ok (err_ok, contexts) (at_current k)
  unfolding removed_other
  rest_lem k e = rw (==_refl id, e) refl

  module _ (k : Kernel) (pre post : List ℕ) (out : mem id pre ≡ false)
      (other : (((without id k).tcb k.current_task).id == id) ≡ false) where
    abbrev at_task : Kernel
    at_task = record (without id k) { task = id }

    remove :
        (n : QueueName) (c : Cause)
        → Tasks (queue_of n k) k.max_tasks (pre ++ (id ∷ post))
        → (q : Queue ℕ) × (and_then (take_out n c id at_task) rest
            ≡ ok (err_ok, contexts) (with_queue n q (at_current (without id k))))
          × Tasks q k.max_tasks (pre ++ post)
    remove run c t =
        let (q, e, r) = take_out_lem run id c at_task pre post t out in
        (q, ap (λ o. and_then o rest) e ∙ rest_lem (with_queue run q at_task) other, r)
    remove rt c t =
        let (q, e, r) = take_out_lem rt id c at_task pre post t out in
        (q, ap (λ o. and_then o rest) e ∙ rest_lem (with_queue rt q at_task) other, r)
    remove delay c t =
        let (q, e, r) = take_out_lem delay id c at_task pre post t out in
        (q, ap (λ o. and_then o rest) e ∙ rest_lem (with_queue delay q at_task) other, r)
    remove aperiodic c t =
        let (q, e, r) = take_out_lem aperiodic id c at_task pre post t out in
        (q, ap (λ o. and_then o rest) e ∙ rest_lem (with_queue aperiodic q at_task) other, r)

  marked :
      (k : Kernel)
      → IsCallable id k
      → ((p : Option ℕ) (k : Kernel) → free p k ≡ ok tt k)
      → kill free yield id k
        ≡ and_then
            (take_out
              (kill_from (k.tcb id)).0
              (kill_from (k.tcb id)).1
              id
              (record (without id k) { task = id }))
            rest
  unfolding kill guarded
  marked k c f =
      rw (c.not_idle, passes id k c.exists)
        (rw f (
          rw (==_refl id) (
            ap
              (λ g.
                and_then
                  (take_out (kill_from (k.tcb id)).0 (kill_from (k.tcb id)).1 id
                    (record k { task = id; tasks = dec 16 k.tasks; tcb = g }))
                  rest)
              (update-update k.tcb id (record (k.tcb id) { id = 2 ^ 16 - 1; entry = 0 })
                (dead (k.tcb id))))))

  -- With `hf_free` leaving the kernel alone, the running task's id its place, and fewer than 2^16
  -- places: `hf_kill` of a task other than the idle one that exists and stands in the queue searched
  -- (the real-time queue if it has a period, the run queue if not) returns ERR_OK. The entry is free,
  -- the queue has lost the task and kept the others in order, there is one task fewer, and nothing
  -- else of the kernel's data has changed but `krnl_task`. The two writes to a saved context go to the entry
  -- 65535, outside of the table; what they change there is not part of the kernel's data. So it is for the
  -- running task too: the call of `hf_yield` at the end is not made, whatever it would do.
  pub kill_lem :
      (k : Kernel) (pre post : List ℕ)
      → ((p : Option ℕ) (k : Kernel) → free p k ≡ ok tt k)
      → IsCallable id k
      → k.max_tasks < 2 ^ 16
      → (k.tcb k.current_task).id ≡ k.current_task
      → Tasks (queue_of (kill_from (k.tcb id)).0 k) k.max_tasks (pre ++ (id ∷ post))
      → mem id pre ≡ false
      → (q : Queue ℕ) × (kill free yield id k
          ≡ ok
              (err_ok, contexts)
              (with_queue (kill_from (k.tcb id)).0 q (at_current (without id k))))
        × Tasks q k.max_tasks (pre ++ post)
  kill_lem k pre post f c small own t out =
      let (q, e, r) =
        remove k pre post out other (kill_from (k.tcb id)).0 (kill_from (k.tcb id)).1 t in
      (q, marked k c f ∙ e, r)
    where
      low : id < 2 ^ 16 - 1
      low = ground (arith, c.exists)

      no_id : (2 ^ 16 - 1 == id) ≡ false
      no_id = ground arith

      other : (((without id k).tcb k.current_task).id == id) ≡ false
      other = elim (Bool-cases (id == k.current_task)) [
        | inl y ↦ rw y no_id
        | inr y ↦ rw y (ground arith)
      ]
