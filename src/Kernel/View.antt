-- ===== src/Kernel/View.antt =====
-- The kernel's queues as lists of task indices, and the shared steps on them.
use t1_sistemas_embarcados.Prelude.{
  ℕ, suc, ◌≤◌, ◌<◌, ◌≡◌, refl, sym, ap, ◌∙◌, Option, some, List, [], ◌∷◌, ◌++◌, arith, length,
}
use mathlib.Core.Path.{subst}
use t1_sistemas_embarcados.Queue.{Queue, Status, done, failed, addtail, remhead}
use t1_sistemas_embarcados.Queue.Refine.{
  Holds, addtail-done, addtail-full, remhead-cons, count-Holds, length-le,
}
use t1_sistemas_embarcados.Kernel.{
  Kernel, Cause, ok, panicked, QueueName, run, rt, delay, aperiodic, queue_of, with_queue,
}
use t1_sistemas_embarcados.Kernel.Steps.{take_head, place, count_of}

-- The pointers to the tasks of a list.
abbrev pub ptrs : List ℕ → List (Option ℕ)
ptrs [] = []
ptrs (t ∷ ts) = some t ∷ ptrs ts

pub ptrs-append : (ts us : List ℕ) → ptrs (ts ++ us) ≡ ptrs ts ++ ptrs us
ptrs-append [] us = refl
ptrs-append (t ∷ ts) us = ap (λ v. some t ∷ v) (ptrs-append ts us)

pub length-ptrs : (ts : List ℕ) → length (ptrs ts) ≡ length ts
length-ptrs [] = refl
length-ptrs (t ∷ ts) = ap suc (length-ptrs ts)

-- The queue stands for the tasks of a list, in order, and takes `m` of them.
pub record Tasks (q : Queue ℕ) (m : ℕ) (ts : List ℕ) : Type 0 where
  pub holds : Holds q m (ptrs ts)

pub Tasks-length : {q : Queue ℕ} {m : ℕ} {ts : List ℕ} → Tasks q m ts → length ts ≤ m
Tasks-length {ts} h = omega (arith, length-le h.holds, length-ptrs ts)

-- The four queues, each with room for every task.
pub record Queues (k : Kernel) (ru rts ds ap : List ℕ) : Type 0 where
  pub on_run : Tasks k.run_queue k.max_tasks ru
  pub on_rt : Tasks k.rt_queue k.max_tasks rts
  pub on_delay : Tasks k.delay_queue k.max_tasks ds
  pub on_aperiodic : Tasks k.aperiodic_queue k.max_tasks ap

pub queue_of-with_queue :
    (n : QueueName) (q : Queue ℕ) (k : Kernel) → queue_of n (with_queue n q k) ≡ q
queue_of-with_queue run q k = refl
queue_of-with_queue rt q k = refl
queue_of-with_queue delay q k = refl
queue_of-with_queue aperiodic q k = refl

pub with_queue-with_queue :
    (n : QueueName) (q r : Queue ℕ) (k : Kernel)
    → with_queue n q (with_queue n r k) ≡ with_queue n q k
with_queue-with_queue run q r k = refl
with_queue-with_queue rt q r k = refl
with_queue-with_queue delay q r k = refl
with_queue-with_queue aperiodic q r k = refl

module _ (n : QueueName) (k : Kernel) {m : ℕ} where
  -- Taking the head leaves the rest, and the other globals as they are.
  pub take_head-cons :
      {t : ℕ} {ts : List ℕ}
      → Tasks (queue_of n k) m (t ∷ ts)
      → (q : Queue ℕ) × (take_head n k ≡ ok (some t) (with_queue n q k)) × Tasks q m ts
  unfolding take_head
  take_head-cons h =
      let (e, r) = remhead-cons h.holds in
      (
        (remhead (queue_of n k)).1,
        ap (λ p. ok p (with_queue n (remhead (queue_of n k)).1 k)) e,
        record { holds = r },
      )

  pub count_of-length : {ts : List ℕ} → Tasks (queue_of n k) m ts → count_of n k ≡ length ts
  unfolding count_of
  count_of-length {ts} h = count-Holds h.holds ∙ length-ptrs ts

  -- Placing a task where there is room.
  pub place-done :
      (c : Cause) (t : ℕ) {ts : List ℕ}
      → Tasks (queue_of n k) m ts
      → length ts < m
      → (q : Queue ℕ) × (place n c t k ≡ ok tt (with_queue n q k)) × Tasks q m (ts ++ (t ∷ []))
  unfolding place
  place-done c t {ts} h l =
      let (e, r) = addtail-done h.holds (some t) (omega (arith, length-ptrs ts)) in
      (
        (addtail (queue_of n k) (some t)).1,
        placed (addtail (queue_of n k) (some t)) e,
        record { holds = subst (Holds _ m) (sym (ptrs-append ts (t ∷ []))) r },
      )
    where
      placed :
          (r : Status × Queue ℕ)
          → r.0 ≡ done
          → (elim r.0 [ done ↦ ok tt (with_queue n r.1 k) | failed ↦ panicked c ])
            ≡ ok tt (with_queue n r.1 k)
      placed r e = ground arith

  -- A full queue is a panic.
  pub place-full :
      (c : Cause) (t : ℕ) {ts : List ℕ}
      → Tasks (queue_of n k) m ts
      → length ts ≡ m
      → place n c t k ≡ panicked c
  unfolding place
  place-full c t {ts} h l = rw (addtail-full h.holds (some t) (length-ptrs ts ∙ l), place) refl
