-- ===== src/Semaphore/Counting.antt =====
-- What a semaphore counts: units that are free, or tasks that wait, first come first served.
use t1_sistemas_embarcados.Prelude.{
  ℕ, zero, suc, ◌+◌, ◌-◌, ◌^◌, ◌<◌, ◌≡◌, refl, sym, ap, ◌∙◌, Bool, true, false, ◌||◌, some, List,
  [], ◌∷◌, ◌++◌, arith, ◌==◌, if◌then◌else◌, length, length-append, mod_wrap,
}
use t1_sistemas_embarcados.Queue.{Queue, addtail, remhead}
use t1_sistemas_embarcados.Queue.Refine.{Holds, addtail-done, remhead-cons}
use t1_sistemas_embarcados.Kernel.{Kernel, ok, blocked, ready, on_tcb}
use t1_sistemas_embarcados.Kernel.Steps.{inc, dec}
use t1_sistemas_embarcados.Kernel.View.{Tasks, ptrs-append, length-ptrs}
use t1_sistemas_embarcados.Semaphore.{Sem, is_negative, with_state, semwait, sempost}
use mathlib.Core.Path.{subst}

-- The abstract semaphore: `free v`, nobody waits, or `waiting t ts`, the task `t` waits longest.
pub data View : Type 0 where
  free : ℕ → View
  waiting : ℕ → List ℕ → View

abbrev pub waiters : View → List ℕ
waiters (free v) = []
waiters (waiting t ts) = t ∷ ts

-- The bits of `count`.
abbrev pub count_for : View → ℕ
count_for (free v) = v
count_for (waiting t ts) = 2 ^ 32 - suc (length ts)

abbrev pub InRange : View → Type 0
InRange (free v) = v < 2 ^ 31
InRange (waiting t ts) = suc (length ts) < 2 ^ 31

-- The semaphore stands for the view, and `m` tasks may wait.
pub record Counts (s : Sem) (m : ℕ) (v : View) : Type 0 where
  pub queued : Tasks s.sem_queue m (waiters v)
  pub counted : s.count ≡ count_for v
  pub in_range : InRange v

down_free : (v : ℕ) → v < 2 ^ 31 → 0 < v → (dec 32 v ≡ v - 1) × (is_negative (v - 1) ≡ false)
down_free v l p = (ground arith, ground arith)

pred_suc : (v : ℕ) → suc v - 1 ≡ v
pred_suc v = omega arith

down_none : (v : ℕ) → v ≡ 0 → dec 32 v ≡ 2 ^ 32 - 1
down_none v e = ground arith

down_waiting : (n : ℕ) → n < 2 ^ 31 - 1 → (dec 32 (2 ^ 32 - suc n) ≡ 2 ^ 32 - suc (suc n))
down_waiting n l = ground arith

neg_waiting : (n : ℕ) → n < 2 ^ 31 → is_negative (2 ^ 32 - suc n) ≡ true
neg_waiting n l = ground arith

up_free :
    (v : ℕ) → v < 2 ^ 31 - 1 → (inc 32 v ≡ v + 1) × ((is_negative (v + 1) || v + 1 == 0) ≡ false)
up_free v l = (ground arith, ground arith)

up_waiting :
    (n : ℕ)
    → n < 2 ^ 31
    → (is_negative (inc 32 (2 ^ 32 - suc n)) || inc 32 (2 ^ 32 - suc n) == 0) ≡ true
up_waiting zero l = ground arith
up_waiting (suc n) l = ground (arith, mod_wrap (2 ^ 32 - suc (suc n) + 1) (2 ^ 32))

up_count : (n : ℕ) → n < 2 ^ 31 → inc 32 (2 ^ 32 - suc (suc n)) ≡ 2 ^ 32 - suc n
up_count n l = ground arith

-- `hf_semwait` by the task `t`: does it wait, and what does the semaphore stand for?
abbrev pub after_wait : View → ℕ → Bool × View
after_wait (free zero) t = (true, waiting t [])
after_wait (free (suc v)) t = (false, free v)
after_wait (waiting u us) t = (true, waiting u (us ++ (t ∷ [])))

abbrev pub after_post : View → View
after_post (free v) = free (v + 1)
after_post (waiting t []) = free 0
after_post (waiting t (u ∷ us)) = waiting u us

-- The task that has waited longest is ready.
abbrev pub woken : View → Kernel → Kernel
woken (free v) k = k
woken (waiting t ts) k = on_tcb t (with_state ready) k

-- A post that would take `count` past the largest `int32_t` is left aside.
abbrev pub HasRoom : View → Type 0
HasRoom (free v) = v + 1 < 2 ^ 31
HasRoom (waiting t ts) = Unit

-- The task is queued, behind those that wait.
enqueue :
    (s : Sem) (k : Kernel) (m : ℕ) (ws : List ℕ) (c : ℕ)
    → Tasks s.sem_queue m ws
    → length ws < m
    → dec 32 s.count ≡ c
    → is_negative c ≡ true
    → (q : Queue ℕ) × (semwait s k
        ≡ ok
            (true, record { sem_queue = q; count = c })
            (on_tcb k.current_task (with_state blocked) k))
      × Tasks q m (ws ++ (k.current_task ∷ []))
unfolding semwait
enqueue s k m ws c h room e n =
    let (d, r) = addtail-done h.holds (some k.current_task) (omega (arith, length-ptrs ws)) in
    (
      (addtail s.sem_queue (some k.current_task)).1,
      rw (ap is_negative e ∙ n, d)
          (ap
            (λ c.
              ok
                (
                  true,
                  record { sem_queue = (addtail s.sem_queue (some k.current_task)).1; count = c },
                )
                (on_tcb k.current_task (with_state blocked) k))
            e),
      record { holds = subst (Holds _ m) (sym (ptrs-append ws (k.current_task ∷ []))) r },
    )

-- `hf_semwait` takes a free unit and lets the task go on, or, where there is none, blocks the task
-- and queues it behind those that wait; for a semaphore with room in its queue, of fewer than 2^31
-- places.
pub semwait_lem :
    (v : View) (s : Sem) (k : Kernel) (m : ℕ)
    → Counts s m v
    → length (waiters v) < m
    → m < 2 ^ 31
    → (s' : Sem) × (semwait s k
        ≡ ok
            ((after_wait v k.current_task).0, s')
            (if (after_wait v k.current_task).0
              then on_tcb k.current_task (with_state blocked) k
              else k))
      × Counts s' m (after_wait v k.current_task).1
semwait_lem (free zero) s k m h room l =
    let (q, e, r) =
      enqueue s k m [] (2 ^ 32 - 1) h.queued room (down_none s.count h.counted) (ground arith) in
    (_, e, record { queued = r; counted = refl; in_range = omega arith })
semwait_lem (free (suc v)) s k m h room l =
    let (e, n) = down_free (suc v) h.in_range (omega arith) in
    (
      record s { count = v },
      unfold semwait in rw (h.counted, e) (rw (n, pred_suc v) refl),
      record { queued = h.queued; counted = refl; in_range = ground (arith, h.in_range) },
    )
semwait_lem (waiting u us) s k m h room l =
    let (q, e, r) =
      enqueue s k m (u ∷ us) (2 ^ 32 - suc (suc (length us))) h.queued room
        (ap (dec 32) h.counted ∙ down_waiting (length us) (omega arith))
        (neg_waiting (suc (length us)) (omega arith)) in
    (
      _,
      e,
      record {
        queued = r;
        counted = omega (arith, length-append {0} us (k.current_task ∷ []));
        in_range = omega (arith, length-append {0} us (k.current_task ∷ []));
      },
    )

dequeue :
    (s : Sem) (k : Kernel) (m t : ℕ) (ts : List ℕ) (c : ℕ)
    → Tasks s.sem_queue m (t ∷ ts)
    → inc 32 s.count ≡ c
    → (is_negative c || c == 0) ≡ true
    → (q : Queue ℕ) × (sempost s k
        ≡ ok (record { sem_queue = q; count = c }) (on_tcb t (with_state ready) k))
      × Tasks q m ts
unfolding sempost
dequeue s k m t ts c h e n =
    let (d, r) = remhead-cons h.holds in
    (
      (remhead s.sem_queue).1,
      rw (ap (λ c. is_negative c || c == 0) e ∙ n, d)
          (ap
            (λ c.
              ok (record { sem_queue = (remhead s.sem_queue).1; count = c })
                (on_tcb t (with_state ready) k))
            e),
      record { holds = r },
    )

-- `hf_sempost` wakes the task that has waited longest, or, where nobody waits, adds a free unit; it
-- does not panic, where a new unit leaves the count an `int32_t`.
pub sempost_lem :
    (v : View) (s : Sem) (k : Kernel) (m : ℕ)
    → Counts s m v
    → HasRoom v
    → (s' : Sem) × (sempost s k ≡ ok s' (woken v k)) × Counts s' m (after_post v)
sempost_lem (free v) s k m h room =
    let (e, n) = up_free v (ground arith) in
    (
      record s { count = v + 1 },
      unfold sempost in rw (h.counted, e) (rw n refl),
      record { queued = h.queued; counted = refl; in_range = room },
    )
sempost_lem (waiting t []) s k m h room =
    let (q, e, r) =
      dequeue s k m t [] 0 h.queued (ap (inc 32) h.counted ∙ (ground arith)) (ground arith) in
    (_, e, record { queued = r; counted = refl; in_range = ground arith })
sempost_lem (waiting t (u ∷ us)) s k m h room =
    let (q, e, r) =
      dequeue s k m t (u ∷ us) (2 ^ 32 - suc (length us)) h.queued
        (ap (inc 32) h.counted ∙ up_count (length us) (ground (arith, h.in_range)))
        (ground (arith, neg_waiting (length us), h.in_range)) in
    (_, e, record { queued = r; counted = refl; in_range = ground (arith, h.in_range) })
