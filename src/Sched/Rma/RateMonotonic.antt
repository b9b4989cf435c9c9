-- ===== src/Sched/Rma/RateMonotonic.antt =====
-- What `sched_rma` chooses: a task of the shortest period among those that can run.
use t1_sistemas_embarcados.Prelude.{
  ℕ, ◌-◌, ◌≤◌, ◌<◌, ◌≡◌, refl, sym, ap, ◌∙◌, Bool, true, false, ◌&&◌, not, List, [], ◌∷◌, arith,
  ◌==◌, ==_refl, ℕ_discrete, if◌then◌else◌, length, mem, occ, mem_of_occ, Distinct, Distinct-of_occ,
  occ_of_Distinct, Bool-cases, inl, inr,
}
use mathlib.Core.List.{append-nil}
use mathlib.Core.Bool.{false≢true}
use mathlib.Core.Path.{subst}
use t1_sistemas_embarcados.Queue.{Queue}
use t1_sistemas_embarcados.Kernel.{Tcb, Kernel, and_then, ok, update, rt}
use t1_sistemas_embarcados.Kernel.Steps.{inc}
use t1_sistemas_embarcados.Kernel.View.{Tasks, count_of-length}
use t1_sistemas_embarcados.Sched.Rma.Sort.{
  sorted_by, length-sorted_by, sorted_by-IsSorted, sorted_by-occ, IsSorted, AllAbove-mem,
}
use t1_sistemas_embarcados.Sched.Rma.Loops.{outer_lem, period_of}
use t1_sistemas_embarcados.Sched.Rma.Update.{
  can_run, first_ready, HaveIds, update_loop_lem, updated_lem, updated_in, updated, picked, last_of,
  picked_lem,
}
use t1_sistemas_embarcados.Sched.Rma.{update_loop, select, sched_rma}

-- The queue as `sched_rma` sorts it.
abbrev pub by_period : Kernel → List ℕ → List ℕ
by_period k ts = sorted_by (period_of k) (length ts - 1) ts

-- `c` is a task that can run, with no shorter period among those that can; or it is 0, the idle task,
-- and none can run.
pub record IsRateMonotonic (f : ℕ → Tcb) (ts : List ℕ) (c : ℕ) : Type 0 where
  pub none_ready : c ≡ 0 → (x : ℕ) → mem x ts ≡ true → can_run (f x) ≡ false
  pub member : 0 < c → mem c ts ≡ true
  pub ready : 0 < c → can_run (f c) ≡ true
  pub shortest :
      0 < c → (x : ℕ) → mem x ts ≡ true → can_run (f x) ≡ true → (f c).period ≤ (f x).period

module _ (f : ℕ → Tcb) where
  at_head : (t : ℕ) (ts : List ℕ) → can_run (f t) ≡ true → first_ready f (t ∷ ts) ≡ t
  at_head t ts y = ap (λ b. if b then t else first_ready f ts) y

  past_head :
      (t : ℕ) (ts : List ℕ) → can_run (f t) ≡ false → first_ready f (t ∷ ts) ≡ first_ready f ts
  past_head t ts y = ap (λ b. if b then t else first_ready f ts) y

  first_ready-mem : (ts : List ℕ) → 0 < first_ready f ts → mem (first_ready f ts) ts ≡ true
  first_ready-mem [] l = absurd (omega arith)
  first_ready-mem (t ∷ ts) l = elim (Bool-cases (can_run (f t))) [
    | inl y ↦ subst (λ c. mem c (t ∷ ts) ≡ true) (sym (at_head t ts y)) (ground arith)
    | inr y ↦
        let below = first_ready-mem ts (rw y at l) in
        subst (λ c. mem c (t ∷ ts) ≡ true) (sym (past_head t ts y)) (ground arith)
  ]

  first_ready-can_run : (ts : List ℕ) → 0 < first_ready f ts → can_run (f (first_ready f ts)) ≡ true
  first_ready-can_run [] l = absurd (omega arith)
  first_ready-can_run (t ∷ ts) l = elim (Bool-cases (can_run (f t))) [
    | inl y ↦ rw y y
    | inr y ↦ rw y (first_ready-can_run ts (rw y at l))
  ]

  first_ready_none :
      (ts : List ℕ) (x : ℕ)
      → HaveIds f ts
      → first_ready f ts ≡ 0
      → mem x ts ≡ true
      → can_run (f x) ≡ false
  first_ready_none [] x h e m = cc
  first_ready_none (t ∷ ts) x h e m = elim (Bool-cases (can_run (f t))) [
    | inl y ↦ absurd (omega (arith, h.1, at_head t ts y))
    | inr y ↦ elim (ℕ_discrete x t) [
      | yes z ↦ rw z y
      | no z ↦ first_ready_none ts x h.2 (sym (past_head t ts y) ∙ e) (ground arith)
    ]
  ]

  first_ready_shortest :
      (ts : List ℕ) (x : ℕ)
      → IsSorted (λ t. (f t).period) ts
      → mem x ts ≡ true
      → can_run (f x) ≡ true
      → (f (first_ready f ts)).period ≤ (f x).period
  first_ready_shortest [] x s m r = cc
  first_ready_shortest (t ∷ ts) x s m r = elim (Bool-cases (can_run (f t))) [
    | inl y ↦ rw y (elim (ℕ_discrete x t) [
      | yes z ↦ rw z (omega arith)
      | no z ↦ AllAbove-mem (λ t. (f t).period) (f t).period x ts s.0 (ground arith)
    ])
    | inr y ↦ rw y (
        first_ready_shortest ts x s.1
          (elim (ℕ_discrete x t) [
            | yes z ↦ absurd (false≢true (sym y ∙ ap (λ z. can_run (f z)) (sym z) ∙ r))
            | no z ↦ ground arith
          ])
          r)
  ]

  id_at : (ts : List ℕ) (x : ℕ) → HaveIds f ts → mem x ts ≡ true → ((f x).id ≡ x) × (0 < x)
  id_at [] x h m = cc
  id_at (t ∷ ts) x h m = elim (ℕ_discrete x t) [
    | yes z ↦ rw z (h.0, h.1)
    | no z ↦ id_at ts x h.2 (ground arith)
  ]

  HaveIds-of_mem :
      (ts us : List ℕ) → ((x : ℕ) → mem x us ≡ true → mem x ts ≡ true) → HaveIds f ts → HaveIds f us
  HaveIds-of_mem ts [] sub h = tt
  HaveIds-of_mem ts (u ∷ us) sub h =
      let (own, pos) = id_at ts u h (sub u (ground arith)) in
      (own, pos, HaveIds-of_mem ts us (λ x m. sub x (ground arith)) h)

-- The entries after a call that chose `c`.
abbrev count_job : Tcb → Bool → Tcb
count_job e c = if c then record e { rtjobs = inc 32 e.rtjobs } else e

abbrev pub rm_entries : (ℕ → Tcb) → List ℕ → ℕ → ℕ → Tcb
rm_entries f ts c x = count_job (updated_in f 0 ts x) (not (c == 0) && c == x)

-- What `select` does with the choice `c`, for entries that are given point by point.
select_lem :
    (c : ℕ) (k : Kernel) (g : ℕ → Tcb)
    → ((x : ℕ) → k.tcb x ≡ g x)
    → (f : ℕ → Tcb) × (select c k ≡ ok c (record k { task = c; tcb = f }))
      × ((x : ℕ) → f x ≡ count_job (g x) (not (c == 0) && c == x))
unfolding select
select_lem c k g h = elim (Bool-cases (c == 0)) [
  | inl z ↦ (k.tcb, rw (z, eq_of_test c 0 z) refl, λ x. rw z (h x))
  | inr z ↦ (
    update k.tcb c (count_job (k.tcb c) true),
    rw z refl,
    λ x. elim (ℕ_discrete x c) [
      | yes y ↦ rw (y, ==_refl c, z, h c) refl
      | no y ↦ rw (ne_test y, z) (h x)
    ],
  )
]
  where
    eq_of_test : (a b : ℕ) → (a == b) ≡ true → a ≡ b
    eq_of_test a b e = ground arith

    ne_test : {a b : ℕ} → ¬ (a ≡ b) → (b == a) ≡ false
    ne_test n = ground arith

module _ (f : ℕ → Tcb) (ts s : List ℕ) (same : (a : ℕ) → occ a s ≡ occ a ts) where
  same_mem : (x : ℕ) → mem x s ≡ mem x ts
  same_mem x = mem_of_occ x s ts (same x)

  HaveIds-same : HaveIds f ts → HaveIds f s
  HaveIds-same = HaveIds-of_mem f ts s (λ x m. sym (same_mem x) ∙ m)

  first_ready-IsRateMonotonic :
      HaveIds f s → IsSorted (λ t. (f t).period) s → IsRateMonotonic f ts (first_ready f s)
  first_ready-IsRateMonotonic i o = record {
    none_ready = λ e x m. first_ready_none f s x i e (same_mem x ∙ m);
    member = λ l. sym (same_mem (first_ready f s)) ∙ first_ready-mem f s l;
    ready = first_ready-can_run f s;
    shortest = λ l x m r. first_ready_shortest f s x o (same_mem x ∙ m) r;
  }

-- `sched_rma` behind the sort: the update of every task, and the selection.
update_select :
    (k : Kernel) (s : List ℕ)
    → Tasks k.rt_queue k.max_tasks s
    → Distinct s
    → HaveIds k.tcb s
    → (q : Queue ℕ) × (f : ℕ → Tcb) × (and_then (update_loop (length s) 0 k) select
        ≡ ok (first_ready k.tcb s) (record k { task = first_ready k.tcb s; rt_queue = q; tcb = f }))
      × Tasks q k.max_tasks s
      × ((x : ℕ) → f x ≡ rm_entries k.tcb s (first_ready k.tcb s) x)
update_select k s h d i =
    let (q, e, r) =
      update_loop_lem 0 s [] k (subst (Tasks k.rt_queue k.max_tasks) (sym (append-nil s)) h) in
    let c : picked k.tcb 0 s ≡ first_ready k.tcb s = picked_lem k.tcb 0 s d i in
    let (f, e', p) =
      select_lem (first_ready k.tcb s)
        (record k { task = last_of k.task s; rt_queue = q; tcb = updated k.tcb 0 s })
        (updated_in k.tcb 0 s) (λ x. updated_lem k.tcb 0 s x d i) in
    (
      q,
      f,
      ap (λ o. and_then o select)
            (e
              ∙ ap
                  (λ c.
                    ok c
                      (record k { task = last_of k.task s; rt_queue = q; tcb = updated k.tcb 0 s }))
                  c)
          ∙ e',
      r,
      p,
    )

-- Rate monotonic scheduling: for real-time tasks whose ids are their places, none of them the idle
-- task, `sched_rma` returns a task of the shortest period among those that are not blocked and have
-- capacity left, or 0 if there is none. It leaves the queue in the order of the periods, with the
-- same tasks, and every task one tick further; the chosen one has used a unit of its capacity and
-- counts a job.
pub sched_rma_lem :
    (k : Kernel) (ts : List ℕ)
    → Tasks k.rt_queue k.max_tasks ts
    → Distinct ts
    → HaveIds k.tcb ts
    → 0 < length ts
    → (c : ℕ) × (q : Queue ℕ) × (f : ℕ → Tcb) × (sched_rma k
        ≡ ok c (record k { task = c; rt_queue = q; tcb = f }))
      × IsRateMonotonic k.tcb ts c
      × Tasks q k.max_tasks (by_period k ts)
      × IsSorted (period_of k) (by_period k ts)
      × ((a : ℕ) → occ a (by_period k ts) ≡ occ a ts)
      × ((x : ℕ) → f x ≡ rm_entries k.tcb (by_period k ts) c x)
unfolding sched_rma
sched_rma_lem k ts h d i l =
    let s = by_period k ts in
    let same : ((a : ℕ) → occ a s ≡ occ a ts) =
      λ a. sorted_by-occ (period_of k) a (length ts - 1) ts in
    let sorted : IsSorted (period_of k) s =
      sorted_by-IsSorted (period_of k) (length ts - 1) ts (omega arith) in
    let ids = HaveIds-same k.tcb ts s same i in
    let (q1, e1, r1) = outer_lem (length ts - 1) k [] ts 0 refl (omega arith) h in
    let (q, f, e, r, p) =
      update_select (record k { rt_queue = q1 }) s r1
        (Distinct-of_occ s (λ a. omega (arith, same a, occ_of_Distinct ts a d))) ids in
    (
      first_ready k.tcb s,
      q,
      f,
      rw (count_of-length rt k h, nonempty)
          (ap (λ o. and_then o (λ _. (λ k. and_then (update_loop (length ts) 0 k) select))) e1
            ∙ ap (λ n. and_then (update_loop n 0 (record k { rt_queue = q1 })) select)
                (sym (length-sorted_by (period_of k) (length ts - 1) ts))
            ∙ e),
      first_ready-IsRateMonotonic k.tcb ts s same ids sorted,
      r,
      sorted,
      same,
      p,
    )
  where
    nonempty : (length ts == 0) ≡ false
    nonempty = ground arith

-- Without real-time tasks nothing is chosen and nothing changes.
pub sched_rma-none : (k : Kernel) {m : ℕ} → Tasks k.rt_queue m [] → sched_rma k ≡ ok 0 k
unfolding sched_rma
sched_rma-none k h = rw (count_of-length rt k h) refl
