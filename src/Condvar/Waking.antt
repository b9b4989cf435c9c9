-- ===== src/Condvar/Waking.antt =====
-- Who waits on a condition variable, and whom a signal and a broadcast wake.
use t1_sistemas_embarcados.Prelude.{
  ℕ, zero, suc, ◌<◌, ◌≡◌, refl, sym, ap, ◌∙◌, false, some, List, [], ◌∷◌, ◌++◌, arith, ◌==◌, length,
}
use mathlib.Core.Path.{subst}
use t1_sistemas_embarcados.Queue.{Queue, count, addtail, remhead}
use t1_sistemas_embarcados.Queue.Refine.{
  Holds, addtail-done, remhead-cons, remhead-nil, count-Holds,
}
use t1_sistemas_embarcados.Kernel.{Kernel, ok, and_then, ready, blocked, on_tcb}
use t1_sistemas_embarcados.Kernel.View.{Tasks, ptrs-append, length-ptrs}
use t1_sistemas_embarcados.Semaphore.{with_state}
use t1_sistemas_embarcados.Mutex.{Mutex, mtxunlock}
use t1_sistemas_embarcados.Condvar.{Cond, condwait, condsignal, broadcast_loop, condbroadcast}

-- Every task of the list is ready.
abbrev pub all_ready : List ℕ → Kernel → Kernel
all_ready [] k = k
all_ready (t ∷ ts) k = all_ready ts (on_tcb t (with_state ready) k)

-- With room in the queue `hf_condwait` blocks the running task, queues it behind those that wait and
-- releases the mutex, in one step.
condwait_lem :
    (c : Cond) (m : Mutex) (k : Kernel) (n : ℕ) (ws : List ℕ)
    → Tasks c.cond_queue n ws
    → length ws < n
    → (q : Queue ℕ) × (condwait c m k
        ≡ ok
            (record { cond_queue = q }, mtxunlock m)
            (on_tcb k.current_task (with_state blocked) k))
      × Tasks q n (ws ++ (k.current_task ∷ []))
unfolding condwait
condwait_lem c m k n ws h room =
    let (e, r) = addtail-done h.holds (some k.current_task) (omega (arith, length-ptrs ws)) in
    (
      (addtail c.cond_queue (some k.current_task)).1,
      rw (e, condwait) refl,
      record { holds = subst (Holds _ n) (sym (ptrs-append ws (k.current_task ∷ []))) r },
    )

signal-cons :
    (c : Cond) (k : Kernel) (n t : ℕ) (ts : List ℕ)
    → Tasks c.cond_queue n (t ∷ ts)
    → (q : Queue ℕ) × (condsignal c k
        ≡ ok (record { cond_queue = q }) (on_tcb t (with_state ready) k))
      × Tasks q n ts
unfolding condsignal
signal-cons c k n t ts h =
    let (e, r) = remhead-cons h.holds in
    ((remhead c.cond_queue).1, rw (e, condsignal) refl, record { holds = r })

-- `hf_condsignal` wakes the task that has waited longest; where nobody waits it changes nothing.
condsignal_lem :
    (c : Cond) (k : Kernel) (n : ℕ) (ws : List ℕ)
    → Tasks c.cond_queue n ws
    → (q : Queue ℕ) × (condsignal c k
        ≡ ok
            (record { cond_queue = q })
            (elim ws [ [] ↦ k | t ∷ ts ↦ on_tcb t (with_state ready) k ]))
      × Tasks q n (elim ws [ [] ↦ [] | t ∷ ts ↦ ts ])
condsignal_lem c k n [] h =
    let e = remhead-nil h.holds in
    (
      c.cond_queue,
      unfold condsignal in
          rw (ap (λ r. r.0) e, condsignal) (ap (λ r. ok (record { cond_queue = r.1 }) k) e),
      h,
    )
condsignal_lem c k n (t ∷ ts) h = signal-cons c k n t ts h

loop_lem :
    (ws : List ℕ) (fuel : ℕ) (c : Cond) (k : Kernel) (n : ℕ)
    → Tasks c.cond_queue n ws
    → length ws < fuel
    → (q : Queue ℕ) × (broadcast_loop fuel c k ≡ ok (record { cond_queue = q }) (all_ready ws k))
      × Tasks q n []
unfolding broadcast_loop
loop_lem ws zero c k n h l = absurd (omega arith)
loop_lem [] (suc fuel) c k n h l = (c.cond_queue, rw (count-Holds h.holds) refl, h)
loop_lem (t ∷ ts) (suc fuel) c k n h l =
    let (q, e, r) = signal-cons c k n t ts h in
    let (q', e', r') =
      loop_lem ts fuel (record { cond_queue = q }) (on_tcb t (with_state ready) k) n r
        (omega arith) in
    (q', rw (some_wait) (ap (λ o. and_then o (λ c. broadcast_loop fuel c)) e ∙ e'), r')
  where
    some_wait : (count c.cond_queue == 0) ≡ false
    some_wait = ground (arith, count-Holds h.holds)

-- `hf_condbroadcast` makes every waiting task ready and leaves nobody waiting; one round of its loop
-- for each of them, and one more, is enough.
pub condbroadcast_lem :
    (ws : List ℕ) (fuel : ℕ) (c : Cond) (k : Kernel) (n : ℕ)
    → Tasks c.cond_queue n ws
    → length ws < fuel
    → (q : Queue ℕ) × (condbroadcast fuel c k ≡ ok (record { cond_queue = q }) (all_ready ws k))
      × Tasks q n []
unfolding condbroadcast
condbroadcast_lem = loop_lem
