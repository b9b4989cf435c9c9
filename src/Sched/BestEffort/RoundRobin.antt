-- ===== src/Sched/BestEffort/RoundRobin.antt =====
-- What `sched_rr` chooses.
use t1_sistemas_embarcados.Prelude.{
  ℕ, zero, suc, ◌<◌, ◌≡◌, refl, true, false, List, [], ◌∷◌, ◌++◌, arith, ◌==◌, length,
  length-append, ==_refl,
}
use mathlib.Core.List.{append_assoc}
use mathlib.Core.Path.{subst}
use t1_sistemas_embarcados.Queue.{Queue}
use t1_sistemas_embarcados.Kernel.{Tcb, Kernel, ok, out_of_fuel, update, run}
use t1_sistemas_embarcados.Kernel.Steps.{inc, is_blocked, count_of}
use t1_sistemas_embarcados.Kernel.View.{Tasks, count_of-length}
use t1_sistemas_embarcados.Sched.Rotate.{run_queue_next_lem}
use t1_sistemas_embarcados.Sched.BestEffort.{rr_loop, finish_be, sched_rr}

abbrev pub AllBlocked : (ℕ → Tcb) → List ℕ → Type 0
AllBlocked f [] = Unit
AllBlocked f (t ∷ ts) = (is_blocked (f t) ≡ true) × AllBlocked f ts

-- The loop passes over the blocked tasks and stops at the first other one.
rr_loop_lem :
    (bs : List ℕ) (fuel : ℕ) (k : Kernel) (t : ℕ) (ts : List ℕ)
    → Tasks k.run_queue k.max_tasks (bs ++ (t ∷ ts))
    → AllBlocked k.tcb bs
    → is_blocked (k.tcb t) ≡ false
    → length bs < fuel
    → (q : Queue ℕ) × (rr_loop fuel k ≡ ok tt (record k { task = t; run_queue = q }))
      × Tasks q k.max_tasks (ts ++ (bs ++ (t ∷ [])))
unfolding rr_loop
rr_loop_lem bs zero k t ts h b n l = absurd (omega arith)
rr_loop_lem [] (suc fuel) k t ts h b n l =
    let (q, e, r) = run_queue_next_lem k h in (q, rw (e, n) refl, r)
rr_loop_lem (s ∷ bs) (suc fuel) k t ts h b n l =
    let (q, e, r) = run_queue_next_lem k h in
    let (q', e', r') =
      rr_loop_lem bs fuel (record k { task = s; run_queue = q }) t (ts ++ (s ∷ []))
        (subst (Tasks q k.max_tasks) (append_assoc bs (t ∷ ts) (s ∷ [])) r) b.1 n (omega arith) in
    (
      q',
      rw (e, b.0) e',
      subst (Tasks q' k.max_tasks) (append_assoc ts (s ∷ []) (bs ++ (t ∷ []))) r',
    )

-- Round robin: with the tasks `bs` at the head of the run queue blocked and the next one, `t`, not,
-- `sched_rr` returns the id of `t` and counts a job of it; the queue is turned so that `t` is last.
-- One round of the loop for each task that it passes is enough.
pub sched_rr_lem :
    (fuel : ℕ) (k : Kernel) (bs : List ℕ) (t : ℕ) (ts : List ℕ)
    → Tasks k.run_queue k.max_tasks (bs ++ (t ∷ ts))
    → AllBlocked k.tcb bs
    → is_blocked (k.tcb t) ≡ false
    → length bs < fuel
    → (q : Queue ℕ) × (sched_rr fuel k
        ≡ ok (k.tcb t).id (record k {
          task = t;
          run_queue = q;
          tcb = update k.tcb t (record (k.tcb t) { bgjobs = inc 32 (k.tcb t).bgjobs });
        }))
      × Tasks q k.max_tasks (ts ++ (bs ++ (t ∷ [])))
unfolding sched_rr
sched_rr_lem fuel k bs t ts h b n l =
    let (q, e, r) = rr_loop_lem bs fuel k t ts h b n l in
    (q, rw (some_task, e, ==_refl t, finish_be) refl, r)
  where
    some_task : (count_of run k == 0) ≡ false
    some_task = ground (arith, count_of-length run k h, length-append bs (t ∷ ts))

AllBlocked-append :
    (f : ℕ → Tcb) (ts us : List ℕ) → AllBlocked f ts → AllBlocked f us → AllBlocked f (ts ++ us)
AllBlocked-append f [] us h g = g
AllBlocked-append f (t ∷ ts) us h g = (h.0, AllBlocked-append f ts us h.1 g)

rr_loop_blocked :
    (fuel : ℕ) (k : Kernel) (ts : List ℕ)
    → Tasks k.run_queue k.max_tasks ts
    → AllBlocked k.tcb ts
    → 0 < length ts
    → rr_loop fuel k ≡ out_of_fuel
unfolding rr_loop
rr_loop_blocked zero k ts h b l = refl
rr_loop_blocked (suc fuel) k [] h b l = absurd (omega arith)
rr_loop_blocked (suc fuel) k (t ∷ ts) h b l =
    let (q, e, r) = run_queue_next_lem k h in
    rw (e, b.0)
      (rr_loop_blocked fuel (record k { task = t; run_queue = q }) (ts ++ (t ∷ [])) r
        (AllBlocked-append k.tcb ts (t ∷ []) b.1 (b.0, tt))
        (omega (arith, length-append {0} ts (t ∷ []))))

-- With every task blocked the loop never ends, whatever the fuel: the idle task must stay ready.
sched_rr_blocked :
    (fuel : ℕ) (k : Kernel) (t : ℕ) (ts : List ℕ)
    → Tasks k.run_queue k.max_tasks (t ∷ ts)
    → AllBlocked k.tcb (t ∷ ts)
    → sched_rr fuel k ≡ out_of_fuel
unfolding sched_rr
sched_rr_blocked fuel k t ts h b =
    rw (some_task, rr_loop_blocked fuel k (t ∷ ts) h b (omega arith)) refl
  where
    some_task : (count_of run k == 0) ≡ false
    some_task = ground (arith, count_of-length run k h)
