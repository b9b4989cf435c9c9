-- ===== src/Sched/Delay.antt =====
-- What `process_delay_queue` does, once for each delayed task.
use t1_sistemas_embarcados.Prelude.{
  ℕ, ◌+◌, ◌≤◌, ◌<◌, ◌≡◌, refl, sym, ap, ◌∙◌, Bool, false, not, ◌&&◌, List, [], ◌∷◌, ◌++◌, arith,
  ◌==◌, if◌then◌else◌, length, mem, Distinct, keep, length-keep, keep_cong, ne_of_mem,
  length-append, Bool-cases, ==_refl, ℕ_discrete, inl, inr,
}
use mathlib.Core.List.{append-nil, append_assoc}
use mathlib.Core.Path.{subst}
use t1_sistemas_embarcados.Queue.{Queue}
use t1_sistemas_embarcados.Kernel.{
  ok, Tcb, Kernel, cant_place_run, cant_place_delay, cant_place_rt, update, on_tcb, with_queue, run,
  rt, delay,
}
use t1_sistemas_embarcados.Kernel.Steps.{dec, times}
use t1_sistemas_embarcados.Kernel.View.{
  Tasks, Tasks-length, Queues, take_head-cons, place-done, count_of-length,
}
use t1_sistemas_embarcados.Kernel.Returns.{Returns, returns, bind, mono, Kept}
use t1_sistemas_embarcados.Sched.{tick, tick_head, process_delay_queue}

-- The delay of a task after one tick, and whether its wait ends with it.
abbrev pub ticked : Tcb → Tcb
ticked e = record e { delay = dec 32 e.delay }

abbrev pub due : Tcb → Bool
due e = dec 32 e.delay == 0

abbrev pub is_rt : Tcb → Bool
is_rt e = not (e.period == 0)

module _ (f : ℕ → Tcb) where
  abbrev pub woken_be : List ℕ → List ℕ
  woken_be = keep (λ t. due (f t) && not (is_rt (f t)))

  abbrev pub woken_rt : List ℕ → List ℕ
  woken_rt = keep (λ t. due (f t) && is_rt (f t))

  abbrev pub waiting : List ℕ → List ℕ
  waiting = keep (λ t. not (due (f t)))

  abbrev pub ticked_in : List ℕ → ℕ → Tcb
  ticked_in ds t = if mem t ds then ticked (f t) else f t

-- The update of a task outside a list does not show in it.
keep-update :
    (p : Tcb → Bool) (f : ℕ → Tcb) (t : ℕ) (e : Tcb) (ds : List ℕ)
    → mem t ds ≡ false
    → keep (λ x. p (update f t e x)) ds ≡ keep (λ x. p (f x)) ds
keep-update p f t e ds out =
    keep_cong _ _ ds λ x m. ap (λ (b : Bool). p (if b then e else f x)) (ne_of_mem t x ds out m)

-- What is kept of a list is what is kept of its head, then of the rest.
keep_split :
    (p : Tcb → Bool) (f : ℕ → Tcb) (t : ℕ) (e : Tcb) (ds ts : List ℕ)
    → mem t ds ≡ false
    → (ts ++ keep (λ x. p (f x)) (t ∷ [])) ++ keep (λ x. p (update f t e x)) ds
      ≡ ts ++ keep (λ x. p (f x)) (t ∷ ds)
keep_split p f t e ds ts out =
    append_assoc ts _ _
    ∙ ap (λ v. ts ++ v)
        (elim (Bool-cases (p (f t))) [
          | inl y ↦ rw (y, keep-update p f t e ds out)
          | inr y ↦ rw (y, keep-update p f t e ds out)
        ])

-- The lists that one pass leaves, and the tasks' new delays.
pub record Passed (k : Kernel) (ru rts ds kept aps : List ℕ) (k' : Kernel) : Type 0 where
  pub kept_globals : Kept k k'
  pub same_task : k'.task ≡ k.task
  pub queues :
      Queues k' (ru ++ woken_be k.tcb ds) (rts ++ woken_rt k.tcb ds) (kept ++ waiting k.tcb ds) aps
  pub entries : (t : ℕ) → k'.tcb t ≡ ticked_in k.tcb ds t

nothing_more : {q : Queue ℕ} {m : ℕ} {ts : List ℕ} → Tasks q m ts → Tasks q m (ts ++ [])
nothing_more {q} {m} {ts} h = rw append-nil h

all-Kept :
    (k k' : Kernel)
    → Kept k (record k' {
      max_tasks = k.max_tasks;
      tasks = k.tasks;
      current_task = k.current_task;
      schedule = k.schedule;
      coop_cswitch = k.coop_cswitch;
      preempt_cswitch = k.preempt_cswitch;
    })
all-Kept k k' = record {
  max_tasks = refl;
  tasks = refl;
  current_task = refl;
  schedule = refl;
  coop_cswitch = refl;
  preempt_cswitch = refl;
}

-- One task has gone where it belongs.
abbrev Ticked : ℕ → Kernel → (ru rts ds aps : List ℕ) → Kernel → Type 0
Ticked t k ru rts ds aps k' =
    Kept k k'
    × (k'.task ≡ k.task)
    × (k'.tcb ≡ update k.tcb t (ticked (k.tcb t)))
    × Queues k' (ru ++ woken_be k.tcb (t ∷ [])) (rts ++ woken_rt k.tcb (t ∷ []))
        (ds ++ waiting k.tcb (t ∷ [])) aps

tick_lem :
    (t : ℕ) {k : Kernel} {ru rts ds aps : List ℕ}
    → Queues k ru rts ds aps
    → length ru < k.max_tasks
    → length rts < k.max_tasks
    → length ds < k.max_tasks
    → Returns (λ _. Ticked t k ru rts ds aps) (tick t k)
unfolding tick
tick_lem t {k} {ru} {rts} {ds} {aps} q l m n =
    let k1 = on_tcb t ticked k in
    elim (Bool-cases (due (k.tcb t))) [
      | inl d ↦ elim (Bool-cases ((k.tcb t).period == 0)) [
        | inl z ↦
            let (r, e, h) = place-done run k1 cant_place_run t q.on_run l in
            rw (==_refl t, d, z, e)
              (returns (
                all-Kept k (with_queue run r k1),
                refl,
                refl,
                rw (d, z)
                    (record {
                      on_run = h;
                      on_rt = nothing_more q.on_rt;
                      on_delay = nothing_more q.on_delay;
                      on_aperiodic = q.on_aperiodic;
                    }),
              ))
        | inr z ↦
            let (r, e, h) = place-done rt k1 cant_place_rt t q.on_rt m in
            rw (==_refl t, d, z, e)
              (returns (
                all-Kept k (with_queue rt r k1),
                refl,
                refl,
                rw (d, z)
                    (record {
                      on_run = nothing_more q.on_run;
                      on_rt = h;
                      on_delay = nothing_more q.on_delay;
                      on_aperiodic = q.on_aperiodic;
                    }),
              ))
      ]
      | inr d ↦
          let (r, e, h) = place-done delay k1 cant_place_delay t q.on_delay n in
          rw (==_refl t, d, e)
            (returns (
              all-Kept k (with_queue delay r k1),
              refl,
              refl,
              rw d (record {
                on_run = nothing_more q.on_run;
                on_rt = nothing_more q.on_rt;
                on_delay = h;
                on_aperiodic = q.on_aperiodic;
              }),
            ))
    ]

entry_split :
    (f : ℕ → Tcb) (t x : ℕ) (ds : List ℕ)
    → mem t ds ≡ false
    → ticked_in (update f t (ticked (f t))) ds x ≡ ticked_in f (t ∷ ds) x
entry_split f t x ds out = elim (ℕ_discrete x t) [
  | yes e ↦ rw (e, ==_refl t, out) refl
  | no e ↦ ground arith
]

Passed-cons :
    (t : ℕ) (ds : List ℕ) {k k1 k2 : Kernel} {ru rts kept aps : List ℕ}
    → mem t ds ≡ false
    → Kept k k1
    → k1.task ≡ k.task
    → k1.tcb ≡ update k.tcb t (ticked (k.tcb t))
    → Passed k1
        (ru ++ woken_be k.tcb (t ∷ []))
        (rts ++ woken_rt k.tcb (t ∷ []))
        ds
        (kept ++ waiting k.tcb (t ∷ []))
        aps
        k2
    → Passed k ru rts (t ∷ ds) kept aps k2
Passed-cons t ds {k} {k1} {k2} {ru} {rts} {kept} {aps} out kp tk tc p = record {
  kept_globals = omega arith;
  same_task = p.same_task ∙ tk;
  queues =
      let moved =
        subst
          (λ (f : ℕ → Tcb).
            Queues k2 ((ru ++ woken_be k.tcb (t ∷ [])) ++ woken_be f ds)
              ((rts ++ woken_rt k.tcb (t ∷ [])) ++ woken_rt f ds)
              ((kept ++ waiting k.tcb (t ∷ [])) ++ waiting f ds) aps)
          tc p.queues in
      record {
        on_run =
            subst (Tasks _ _) (keep_split (λ e. due e && not (is_rt e)) k.tcb t _ ds ru out)
              moved.on_run;
        on_rt =
            subst (Tasks _ _) (keep_split (λ e. due e && is_rt e) k.tcb t _ ds rts out) moved.on_rt;
        on_delay =
            subst (Tasks _ _) (keep_split (λ e. not (due e)) k.tcb t _ ds kept out) moved.on_delay;
        on_aperiodic = p.queues.on_aperiodic;
      };
  entries =
      λ x. p.entries x ∙ ap (λ (f : ℕ → Tcb). ticked_in f ds x) tc ∙ entry_split k.tcb t x ds out;
}

tick_head-cons :
    (t : ℕ) {k : Kernel} {ru rts ds aps : List ℕ}
    → Queues k ru rts (t ∷ ds) aps
    → length ru < k.max_tasks
    → length rts < k.max_tasks
    → Returns (λ _. Ticked t k ru rts ds aps) (tick_head k)
unfolding tick_head
tick_head-cons t {k} q l m =
    let (r, e, h) = take_head-cons delay k q.on_delay in
    rw e (
      mono
        (tick_lem t {k = with_queue delay r k}
          (record {
            on_run = q.on_run;
            on_rt = q.on_rt;
            on_delay = h;
            on_aperiodic = q.on_aperiodic;
          })
          l m (omega (arith, Tasks-length q.on_delay)))
        λ _ k1 (kp, tk, tc, qs). (omega (arith, kp), tk, tc, qs))

times_tick :
    (ds : List ℕ) {k : Kernel} {ru rts kept aps : List ℕ}
    → Queues k ru rts (ds ++ kept) aps
    → Distinct ds
    → length ru + length ds ≤ k.max_tasks
    → length rts + length ds ≤ k.max_tasks
    → Returns (λ _. Passed k ru rts ds kept aps) (times (length ds) tick_head k)
unfolding times
times_tick [] {k} q d l m = returns (record {
  kept_globals = all-Kept k k;
  same_task = refl;
  queues = record {
    on_run = nothing_more q.on_run;
    on_rt = nothing_more q.on_rt;
    on_delay = nothing_more q.on_delay;
    on_aperiodic = q.on_aperiodic;
  };
  entries = λ t. refl;
})
times_tick (t ∷ ds) {k} {ru} {rts} {kept} {aps} q d l m =
    bind (tick_head-cons t q (omega arith) (omega arith)) λ _ k1 (kp, tk, tc, qs).
      let short = length-keep (λ x. due (k.tcb x) && not (is_rt (k.tcb x))) (t ∷ []) in
      let short_rt = length-keep (λ x. due (k.tcb x) && is_rt (k.tcb x)) (t ∷ []) in
      mono
        (times_tick ds {kept = kept ++ waiting k.tcb (t ∷ [])}
          (subst
            (λ v. Queues k1 (ru ++ woken_be k.tcb (t ∷ [])) (rts ++ woken_rt k.tcb (t ∷ [])) v aps)
            (append_assoc ds kept _) qs)
          d.1 (omega (arith, short, length-append {0} ru (woken_be k.tcb (t ∷ []))))
          (omega (arith, short_rt, length-append {0} rts (woken_rt k.tcb (t ∷ [])))))
        λ _ k2. Passed-cons t ds d.0 kp tk tc

-- One pass over the delay queue takes one tick off every delay. The tasks whose delay ends go to the
-- tails of the run queue and of the real-time queue, the others stay in the delay queue, all in their
-- order; nothing else changes. It does not panic where the queues have room.
pub process_delay_queue_lem :
    {k : Kernel} {ru rts ds aps : List ℕ}
    → Queues k ru rts ds aps
    → Distinct ds
    → length ru + length ds ≤ k.max_tasks
    → length rts + length ds ≤ k.max_tasks
    → Returns (λ _. Passed k ru rts ds [] aps) (process_delay_queue k)
unfolding process_delay_queue
process_delay_queue_lem {k} {ru} {rts} {ds} {aps} q d l m =
    rw (count_of-length delay k q.on_delay)
      (times_tick ds (subst (λ v. Queues k ru rts v aps) (sym (append-nil ds)) q) d l m)

-- Without delayed tasks nothing changes.
pub process_delay_queue-none :
    (k : Kernel) {m : ℕ} → Tasks k.delay_queue m [] → process_delay_queue k ≡ ok tt k
unfolding process_delay_queue times
process_delay_queue-none k h = rw (count_of-length delay k h) refl
