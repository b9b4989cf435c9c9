-- ===== src/Task/Remove/Delaying.antt =====
-- What `hf_delay` does: the task leaves its queue for the tail of the delay queue.
use t1_sistemas_embarcados.Prelude.{
  ℕ, ◌<◌, ◌≡◌, refl, sym, ap, ◌∙◌, false, Option, some, List, [], ◌∷◌, ◌++◌, arith, ◌==◌, length,
  mem,
}
use mathlib.Core.Path.{subst}
use t1_sistemas_embarcados.Queue.{Queue, addtail}
use t1_sistemas_embarcados.Queue.Refine.{Holds, addtail-done}
use t1_sistemas_embarcados.Kernel.{
  delayed, Tcb, Kernel, Cause, Cmd, Run, Code, err_ok, ok, and_then, pure, ◌>>◌, modify, on_tcb,
  QueueName, run, rt, delay, aperiodic, queue_of, with_queue,
}
use t1_sistemas_embarcados.Kernel.View.{Tasks, ptrs-append, length-ptrs}
use t1_sistemas_embarcados.Sched.{on_this}
use t1_sistemas_embarcados.Task.{guarded, back}
use t1_sistemas_embarcados.Task.Blocking.{IsCallable, at_current, passes}
use t1_sistemas_embarcados.Task.Remove.{take_out, place_delayed, delay_from, hf_delay}
use t1_sistemas_embarcados.Task.Remove.Bubble.{take_out_lem}

abbrev pub put_off : ℕ → Tcb → Tcb
put_off ticks e = record e { state = delayed; delay = ticks }

-- `hf_delay` once the task is out of its queue.
abbrev rest : ℕ → Option ℕ → Cmd Code
rest ticks p = do
  modify (on_this (λ e. record e { state = delayed; delay = ticks }))
  place_delayed p
  back
  pure err_ok

rest_lem :
    (ticks : ℕ) (k : Kernel) (ds : List ℕ)
    → Tasks k.delay_queue k.max_tasks ds
    → length ds < k.max_tasks
    → (q : Queue ℕ) × (rest ticks (some k.task) k
        ≡ ok err_ok (record (on_tcb k.task (put_off ticks) (at_current k)) { delay_queue = q }))
      × Tasks q k.max_tasks (ds ++ (k.task ∷ []))
unfolding place_delayed
rest_lem ticks k ds h l =
    let (e, r) = addtail-done h.holds (some k.task) (omega (arith, length-ptrs ds)) in
    (
      (addtail k.delay_queue (some k.task)).1,
      rw (e, place_delayed) refl,
      record { holds = subst (Holds _ k.max_tasks) (sym (ptrs-append ds (k.task ∷ []))) r },
    )

abbrev pub delayed_in : QueueName → Queue ℕ → Queue ℕ → ℕ → ℕ → Kernel → Kernel
delayed_in n q r id ticks k =
    with_queue n q (record (on_tcb id (put_off ticks) (at_current k)) { delay_queue = r })

abbrev Moves : QueueName → ℕ → ℕ → Kernel → List ℕ → List ℕ → Run Code → Type 0
Moves n id ticks k others ds r =
    (q d : Queue ℕ) × (r ≡ ok err_ok (delayed_in n q d id ticks k))
    × Tasks q k.max_tasks others
    × Tasks d k.max_tasks (ds ++ (id ∷ []))

module _ (id ticks : ℕ) (k : Kernel) (pre post ds : List ℕ) (out : mem id pre ≡ false)
    (h : Tasks k.delay_queue k.max_tasks ds) (l : length ds < k.max_tasks) where
  abbrev at_task : Kernel
  at_task = record k { task = id }

  move :
      (n : QueueName) (c : Cause)
      → ¬ (n ≡ delay)
      → Tasks (queue_of n k) k.max_tasks (pre ++ (id ∷ post))
      → Moves n id ticks k (pre ++ post) ds (and_then (take_out n c id at_task) (rest ticks))
  move run c ne t =
      let (q, e, r) = take_out_lem run id c at_task pre post t out in
      let (d, f, s) = rest_lem ticks (with_queue run q at_task) ds h l in
      (q, d, ap (λ o. and_then o (rest ticks)) e ∙ f, r, s)
  move rt c ne t =
      let (q, e, r) = take_out_lem rt id c at_task pre post t out in
      let (d, f, s) = rest_lem ticks (with_queue rt q at_task) ds h l in
      (q, d, ap (λ o. and_then o (rest ticks)) e ∙ f, r, s)
  move delay c ne t = absurd (ne refl)
  move aperiodic c ne t =
      let (q, e, r) = take_out_lem aperiodic id c at_task pre post t out in
      let (d, f, s) = rest_lem ticks (with_queue aperiodic q at_task) ds h l in
      (q, d, ap (λ o. and_then o (rest ticks)) e ∙ f, r, s)

delay_from-ne : (e : Tcb) → ¬ ((delay_from e).0 ≡ delay)
delay_from-ne e = ground arith

-- A task that exists, stands in the queue of its class and is delayed by one tick or more leaves
-- that queue, whose other tasks keep their order, for the tail of the delay queue, with its state
-- and its delay set; `hf_delay` returns ERR_OK and nothing else changes.
pub hf_delay_lem :
    (id ticks : ℕ) (k : Kernel) (pre post ds : List ℕ)
    → IsCallable id k
    → 0 < ticks
    → Tasks (queue_of (delay_from (k.tcb id)).0 k) k.max_tasks (pre ++ (id ∷ post))
    → mem id pre ≡ false
    → Tasks k.delay_queue k.max_tasks ds
    → length ds < k.max_tasks
    → (q d : Queue ℕ) × (hf_delay id ticks k
        ≡ ok err_ok (delayed_in (delay_from (k.tcb id)).0 q d id ticks k))
      × Tasks q k.max_tasks (pre ++ post)
      × Tasks d k.max_tasks (ds ++ (id ∷ []))
unfolding hf_delay guarded
hf_delay_lem id ticks k pre post ds c some_ticks t out h l =
    let (q, d, e, r, s) =
      move id ticks k pre post ds out h l (delay_from (k.tcb id)).0 (delay_from (k.tcb id)).1
        (delay_from-ne (k.tcb id)) t in
    (q, d, rw (not_zero, c.not_idle, passes id k c.exists) e, r, s)
  where
    not_zero : (ticks == 0) ≡ false
    not_zero = ground arith
