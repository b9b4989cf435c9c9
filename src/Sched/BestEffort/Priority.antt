-- ===== src/Sched/BestEffort/Priority.antt =====
-- What `sched_priorityrr` chooses.
use t1_sistemas_embarcados.Prelude.{
  ℕ, ◌+◌, ◌-◌, ◌%◌, ◌^◌, ◌≤◌, ◌<◌, ◌≡◌, refl, sym, ap, ◌∙◌, true, false, not, ◌&&◌, ◌||◌, none,
  some, List, [], ◌∷◌, ◌++◌, arith, ◌==◌, ==_refl, ℕ_discrete, if◌then◌else◌, length, mem, Distinct,
  length-append, mem-append, Distinct-turn, Bool-cases, inl, inr,
}
use mathlib.Core.List.{append-nil, append_assoc}
use mathlib.Core.Path.{subst}
use t1_sistemas_embarcados.Queue.{Queue}
use t1_sistemas_embarcados.Kernel.{Tcb, Kernel, and_then, ok, fault, update, run}
use t1_sistemas_embarcados.Kernel.Steps.{inc, is_blocked, count_of, times}
use t1_sistemas_embarcados.Kernel.View.{Tasks, count_of-length}
use t1_sistemas_embarcados.Sched.Rotate.{run_queue_next_lem}
use t1_sistemas_embarcados.Sched.BestEffort.Choice.{
  better, found, start, IsChoice, found-IsChoice, found-some, found-none,
}
use t1_sistemas_embarcados.Sched.BestEffort.{
  Search, search_loop, age_step, age_all, finish_be, sched_priorityrr,
}

-- No task of the list has a critical event that it could take.
abbrev pub NoCritical : (ℕ → Tcb) → List ℕ → Type 0
NoCritical f [] = Unit
NoCritical f (t ∷ ts) =
    ((not ((f t).critical == 0) && not (is_blocked (f t))) ≡ false) × NoCritical f ts

-- `krnl_task` after a turn over the list.
abbrev last_of : ℕ → List ℕ → ℕ
last_of a [] = a
last_of a (t ∷ ts) = last_of t ts

search_loop_lem :
    (ts us : List ℕ) (k : Kernel) (s : Search)
    → Tasks k.run_queue k.max_tasks (ts ++ us)
    → NoCritical k.tcb ts
    → (q : Queue ℕ) × (search_loop (length ts) s k
        ≡ ok (false, found k.tcb s ts) (record k { task = last_of k.task ts; run_queue = q }))
      × Tasks q k.max_tasks (us ++ ts)
unfolding search_loop
search_loop_lem [] us k s h c = (k.run_queue, refl, rw append-nil h)
search_loop_lem (t ∷ ts) us k s h c =
    let (q, e, r) = run_queue_next_lem k h in
    let (q', e', r') =
      search_loop_lem ts (us ++ (t ∷ [])) (record k { task = t; run_queue = q }) (better k.tcb s t)
        (subst (Tasks q k.max_tasks) (append_assoc ts us (t ∷ [])) r) c.1 in
    (q', rw (e, c.0) e', subst (Tasks q' k.max_tasks) (append_assoc us (t ∷ []) ts) r')

-- The remaining priority of another task, less that of the chosen one (a `uint8_t`).
abbrev pub aged : Tcb → Tcb → Tcb
aged chosen e = record e { priority_rem = (e.priority_rem + 2 ^ 8 - chosen.priority_rem) % 2 ^ 8 }

-- The entries after the second run over a list.
abbrev aged_by : (ℕ → Tcb) → ℕ → List ℕ → ℕ → Tcb
aged_by f b [] = f
aged_by f b (t ∷ ts) = aged_by (if t == b then f else update f t (aged (f b) (f t))) b ts

abbrev pub aged_in : (ℕ → Tcb) → ℕ → List ℕ → ℕ → Tcb
aged_in f b ts x = if mem x ts && not (x == b) then aged (f b) (f x) else f x

apart : (x t : ℕ) → ¬ (x ≡ t) → (t == x) ≡ false
apart x t e = ground arith

apart_back : (x t : ℕ) → ¬ (x ≡ t) → (x == t) ≡ false
apart_back x t e = ground arith

aged_by_lem :
    (f : ℕ → Tcb) (b : ℕ) (ts : List ℕ) (x : ℕ) → Distinct ts → aged_by f b ts x ≡ aged_in f b ts x
aged_by_lem f b [] x d = refl
aged_by_lem f b (t ∷ ts) x d = elim (Bool-cases (t == b)) [
  | inl y ↦ rw y (aged_by_lem f b ts x d.1 ∙ ap (λ c. if c then aged (f b) (f x) else f x) (skip y))
  | inr y ↦ rw y (
      aged_by_lem (update f t (aged (f b) (f t))) b ts x d.1 ∙ elim (ℕ_discrete x t) [
        | yes e ↦ rw (e, d.0, ==_refl t, y) refl
        | no e ↦ rw (y, apart x t e, apart_back x t e) refl
      ])
]
  where
    skip : (t == b) ≡ true → (mem x ts && not (x == b)) ≡ ((x == t || mem x ts) && not (x == b))
    skip y = ground arith

age_step_lem :
    (b t : ℕ) (k : Kernel) {ts : List ℕ}
    → Tasks k.run_queue k.max_tasks (t ∷ ts)
    → (q : Queue ℕ) × (age_step (some b) k
        ≡ ok tt (record k {
          task = t;
          run_queue = q;
          tcb = if t == b then k.tcb else update k.tcb t (aged (k.tcb b) (k.tcb t));
        }))
      × Tasks q k.max_tasks (ts ++ (t ∷ []))
unfolding age_step
age_step_lem b t k h =
    let (q, e, r) = run_queue_next_lem k h in
    (q, elim (Bool-cases (t == b)) [ inl y ↦ rw (e, y) refl | inr y ↦ rw (e, y) refl ], r)

age_loop_lem :
    (b : ℕ) (ts us : List ℕ) (k : Kernel)
    → Tasks k.run_queue k.max_tasks (ts ++ us)
    → (q : Queue ℕ) × (times (length ts) (age_step (some b)) k
        ≡ ok tt (record k { task = last_of k.task ts; run_queue = q; tcb = aged_by k.tcb b ts }))
      × Tasks q k.max_tasks (us ++ ts)
unfolding times
age_loop_lem b [] us k h = (k.run_queue, refl, rw append-nil h)
age_loop_lem b (t ∷ ts) us k h =
    let (q, e, r) = age_step_lem b t k h in
    let (q', e', r') =
      age_loop_lem b ts (us ++ (t ∷ []))
        (record k {
          task = t;
          run_queue = q;
          tcb = if t == b then k.tcb else update k.tcb t (aged (k.tcb b) (k.tcb t));
        })
        (subst (Tasks q k.max_tasks) (append_assoc ts us (t ∷ [])) r) in
    (q', rw e e', subst (Tasks q' k.max_tasks) (append_assoc us (t ∷ []) ts) r')

-- The chosen task starts anew and counts a job.
abbrev pub served : Tcb → Tcb
served e = record e { priority_rem = e.priority; bgjobs = inc 32 e.bgjobs }

-- The entries after a whole call that chose `b`: the others are aged, `b` starts anew and counts a
-- job.
abbrev pub scheduled : (ℕ → Tcb) → ℕ → List ℕ → ℕ → Tcb
scheduled f b ts x = if x == b then served (f b) else aged_in f b ts x

aged_by_self : (f : ℕ → Tcb) (b : ℕ) (ts : List ℕ) → Distinct ts → aged_by f b ts b ≡ f b
aged_by_self f b ts d =
    aged_by_lem f b ts b d ∙ ap (λ c. if c then aged (f b) (f b) else f b) chosen
  where
    chosen : (mem b ts && not (b == b)) ≡ false
    chosen = ground arith

-- The second run and the end of the call, from the state that the search left.
age_all_lem :
    (k : Kernel) (b : ℕ) (ts : List ℕ)
    → Tasks k.run_queue k.max_tasks ts
    → Distinct ts
    → (q : Queue ℕ) × (f : ℕ → Tcb) × (and_then (age_all (length ts) (some b) k) (λ _. finish_be)
        ≡ ok (k.tcb b).id (record k { task = b; run_queue = q; tcb = f }))
      × Tasks q k.max_tasks ts
      × ((y : ℕ) → f y ≡ scheduled k.tcb b ts y)
unfolding age_all finish_be
age_all_lem k b ts h d =
    let (q, e, r) =
      age_loop_lem b ts [] k (subst (Tasks k.run_queue k.max_tasks) (sym (append-nil ts)) h) in
    (
      q,
      update
          (update (aged_by k.tcb b ts) b (record (k.tcb b) { priority_rem = (k.tcb b).priority })) b
          (served (k.tcb b)),
      rw e (rw (==_refl b, aged_by_self k.tcb b ts d) refl),
      r,
      λ y. elim (ℕ_discrete y b) [
        | yes z ↦ rw (z, ==_refl b) refl
        | no z ↦ rw (apart y b z) (
            aged_by_lem k.tcb b ts y d
            ∙ sym
                (ap (λ c. if c then served (k.tcb b) else aged_in k.tcb b ts y) (apart_back y b z)))
      ],
    )

-- With no critical event, and a task that can run whose remaining priority is below 255,
-- `sched_priorityrr` returns the id of a task `b` of the run queue that is not blocked and has the
-- lowest remaining priority of those. The queue has turned by one; every other task of it has its
-- remaining priority lowered by that of `b`, that of `b` is back at its priority, and `b` counts a
-- job.
pub sched_priorityrr_lem :
    (k : Kernel) (t : ℕ) (ts : List ℕ) (x : ℕ)
    → Tasks k.run_queue k.max_tasks (t ∷ ts)
    → Distinct (t ∷ ts)
    → NoCritical k.tcb (ts ++ (t ∷ []))
    → mem x (t ∷ ts) ≡ true
    → is_blocked (k.tcb x) ≡ false
    → (k.tcb x).priority_rem < 255
    → (b : ℕ) × (q : Queue ℕ) × (f : ℕ → Tcb) × (sched_priorityrr k
        ≡ ok (k.tcb b).id (record k { task = b; run_queue = q; tcb = f }))
      × IsChoice k.tcb (ts ++ (t ∷ [])) b
      × Tasks q k.max_tasks (ts ++ (t ∷ []))
      × ((y : ℕ) → f y ≡ scheduled k.tcb b (ts ++ (t ∷ [])) y)
unfolding sched_priorityrr
sched_priorityrr_lem k t ts x h d c m n l =
    let (q1, e1, r1) = run_queue_next_lem k h in
    let (q2, e2, r2) =
      search_loop_lem (ts ++ (t ∷ [])) [] (record k { task = t; run_queue = q1 }) start
        (subst (Tasks q1 k.max_tasks) (sym (append-nil (ts ++ (t ∷ [])))) r1) c in
    let (b, chose) = found-some k.tcb (ts ++ (t ∷ [])) x (turned_mem) n l in
    let (q3, f, e3, r3, same) =
      age_all_lem (record k { task = last_of t (ts ++ (t ∷ [])); run_queue = q2 }) b
        (ts ++ (t ∷ [])) r2 (Distinct-turn t ts d) in
    (b, q3, f, rw (rounds, some_task, e1, e2, chose) e3, found-IsChoice k.tcb _ b chose, r3, same)
  where
    rounds : count_of run k ≡ length (ts ++ (t ∷ []))
    rounds = omega (arith, count_of-length run k h, length-append {0} ts (t ∷ []))

    some_task : (length (ts ++ (t ∷ [])) == 0) ≡ false
    some_task = ground (arith, length-append ts (t ∷ []))

    turned_mem : mem x (ts ++ (t ∷ [])) ≡ true
    turned_mem = ground (arith, mem-append x ts (t ∷ []))

-- The second run for a NULL choice.
age_all-none :
    (ts : List ℕ) (k : Kernel)
    → Tasks k.run_queue k.max_tasks ts
    → 0 < length ts
    → age_all (length ts) none k ≡ fault
unfolding age_all age_step times
age_all-none [] k h l = absurd (omega arith)
age_all-none (t ∷ ts) k h l = let (q, e, r) = run_queue_next_lem k h in rw e refl

-- With no critical event, and every task that can run at a remaining priority of 255, the search
-- finds nothing and `sched_priorityrr` uses a NULL pointer.
pub sched_priorityrr_none :
    (k : Kernel) (t : ℕ) (ts : List ℕ)
    → Tasks k.run_queue k.max_tasks (t ∷ ts)
    → NoCritical k.tcb (ts ++ (t ∷ []))
    → ((x : ℕ)
        → mem x (ts ++ (t ∷ [])) ≡ true
        → is_blocked (k.tcb x) ≡ false
        → 255 ≤ (k.tcb x).priority_rem)
    → sched_priorityrr k ≡ fault
unfolding sched_priorityrr
sched_priorityrr_none k t ts h c none_below =
    let (q1, e1, r1) = run_queue_next_lem k h in
    let (q2, e2, r2) =
      search_loop_lem (ts ++ (t ∷ [])) [] (record k { task = t; run_queue = q1 }) start
        (subst (Tasks q1 k.max_tasks) (sym (append-nil (ts ++ (t ∷ [])))) r1) c in
    rw
      (
        rounds,
        some_task,
        e1,
        e2,
        found-none k.tcb (ts ++ (t ∷ [])) none_below,
        age_all-none (ts ++ (t ∷ []))
            (record k { task = last_of t (ts ++ (t ∷ [])); run_queue = q2 }) r2
            (omega (arith, length-append {0} ts (t ∷ []))),
      )
      refl
  where
    rounds : count_of run k ≡ length (ts ++ (t ∷ []))
    rounds = omega (arith, count_of-length run k h, length-append {0} ts (t ∷ []))

    some_task : (length (ts ++ (t ∷ [])) == 0) ≡ false
    some_task = ground (arith, length-append ts (t ∷ []))
