-- ===== src/Sched/Rma/Update.antt =====
-- The update of every real-time task, and the one that is chosen to run.
use t1_sistemas_embarcados.Prelude.{
  ℕ, ◌<◌, ◌≡◌, refl, sym, ap, ap₂, ◌∙◌, Bool, false, ◌||◌, ◌&&◌, not, List, [], ◌∷◌, ◌++◌, arith,
  ltb, ◌==◌, ==_refl, ℕ_discrete, if◌then◌else◌, length, mem, Distinct, Bool-cases, inl, inr,
}
use mathlib.Core.List.{append-nil, append_assoc}
use mathlib.Core.Path.{subst}
use t1_sistemas_embarcados.Queue.{Queue}
use t1_sistemas_embarcados.Kernel.{Tcb, Kernel, and_then, ok, update}
use t1_sistemas_embarcados.Kernel.Steps.{is_blocked, dec}
use t1_sistemas_embarcados.Kernel.View.{Tasks}
use t1_sistemas_embarcados.Sched.Rotate.{rt_queue_next_lem}
use t1_sistemas_embarcados.Sched.Rma.{chosen, charge, turn, update_step, update_loop}

-- A task that the real-time scheduler may run: not blocked, with work left in its period.
abbrev pub can_run : Tcb → Bool
can_run e = not (is_blocked e) && ltb 0 e.capacity_rem

-- The first such task of a list; 0 if there is none.
abbrev pub first_ready : (ℕ → Tcb) → List ℕ → ℕ
first_ready f [] = 0
first_ready f (t ∷ ts) = if can_run (f t) then t else first_ready f ts

-- Every task of the list has its index as its id, and is not the idle task.
abbrev pub HaveIds : (ℕ → Tcb) → List ℕ → Type 0
HaveIds f [] = Unit
HaveIds f (t ∷ ts) = ((f t).id ≡ t) × (0 < t) × HaveIds f ts

-- The entries and the choice after the update of a list.
abbrev pub updated : (ℕ → Tcb) → ℕ → List ℕ → ℕ → Tcb
updated f id [] = f
updated f id (t ∷ ts) =
    updated (update f t (turn (charge id (f t)))) (if chosen (f t) id then (f t).id else id) ts

abbrev pub picked : (ℕ → Tcb) → ℕ → List ℕ → ℕ
picked f id [] = id
picked f id (t ∷ ts) =
    picked (update f t (turn (charge id (f t)))) (if chosen (f t) id then (f t).id else id) ts

abbrev pub last_of : ℕ → List ℕ → ℕ
last_of a [] = a
last_of a (t ∷ ts) = last_of t ts

update_step_lem :
    (id t : ℕ) (k : Kernel) {ts : List ℕ}
    → Tasks k.rt_queue k.max_tasks (t ∷ ts)
    → (q : Queue ℕ) × (update_step id k
        ≡ ok (if chosen (k.tcb t) id then (k.tcb t).id else id) (record k {
          task = t;
          rt_queue = q;
          tcb = update k.tcb t (turn (charge id (k.tcb t)));
        }))
      × Tasks q k.max_tasks (ts ++ (t ∷ []))
unfolding update_step
update_step_lem id t k h = let (q, e, r) = rt_queue_next_lem k h in (q, rw e refl, r)

pub update_loop_lem :
    (id : ℕ) (ts us : List ℕ) (k : Kernel)
    → Tasks k.rt_queue k.max_tasks (ts ++ us)
    → (q : Queue ℕ) × (update_loop (length ts) id k
        ≡ ok
            (picked k.tcb id ts)
            (record k { task = last_of k.task ts; rt_queue = q; tcb = updated k.tcb id ts }))
      × Tasks q k.max_tasks (us ++ ts)
unfolding update_loop
update_loop_lem id [] us k h = (k.rt_queue, refl, rw append-nil h)
update_loop_lem id (t ∷ ts) us k h =
    let (q, e, r) = update_step_lem id t k h in
    let id' = if chosen (k.tcb t) id then (k.tcb t).id else id in
    let (q', e', r') =
      update_loop_lem id' ts (us ++ (t ∷ []))
        (record k { task = t; rt_queue = q; tcb = update k.tcb t (turn (charge id (k.tcb t))) })
        (subst (Tasks q k.max_tasks) (append_assoc ts us (t ∷ [])) r) in
    (
      q',
      ap (λ o. and_then o (λ i. update_loop (length ts) i)) e ∙ e',
      subst (Tasks q' k.max_tasks) (append_assoc us (t ∷ []) ts) r',
    )

-- A write outside the list shows in none of its tests.
first_ready-update :
    (f : ℕ → Tcb) (t : ℕ) (e : Tcb) (ts : List ℕ)
    → mem t ts ≡ false
    → first_ready (update f t e) ts ≡ first_ready f ts
first_ready-update f t e [] out = refl
first_ready-update f t e (x ∷ ts) out =
    rw (other)
      (ap (λ r. if can_run (f x) then x else r) (first_ready-update f t e ts (ground arith)))
  where
    other : (t == x) ≡ false
    other = ground arith

HaveIds-update :
    (f : ℕ → Tcb) (t : ℕ) (e : Tcb) (ts : List ℕ)
    → mem t ts ≡ false
    → HaveIds f ts
    → HaveIds (update f t e) ts
HaveIds-update f t e [] out h = tt
HaveIds-update f t e (x ∷ ts) out h =
    rw other (h.0, h.1, HaveIds-update f t e ts (ground arith) h.2)
  where
    other : (t == x) ≡ false
    other = ground arith

pick_step :
    (a b : Bool) (id t r : ℕ)
    → 0 < t
    → (if (if a && b && id == 0 then t else id) == 0
        then r
        else (if a && b && id == 0 then t else id))
      ≡ (if id == 0 then (if a && b then t else r) else id)
pick_step a b id t r h = ground arith

-- Once a task is chosen it stays chosen; before, the first one that can run is.
pub picked_lem :
    (f : ℕ → Tcb) (id : ℕ) (ts : List ℕ)
    → Distinct ts
    → HaveIds f ts
    → picked f id ts ≡ (if id == 0 then first_ready f ts else id)
picked_lem f id [] d h = ground arith
picked_lem f id (t ∷ ts) d h =
    picked_lem (update f t (turn (charge id (f t)))) (if chosen (f t) id then (f t).id else id) ts
      d.1 (HaveIds-update f t _ ts d.0 h.2)
    ∙ rw (first_ready-update f t _ ts d.0, h.0)
        (pick_step (not (is_blocked (f t))) (ltb 0 (f t).capacity_rem) id t (first_ready f ts) h.1)

first_ready-ne :
    (f : ℕ → Tcb) (t : ℕ) (ts : List ℕ) → mem t ts ≡ false → 0 < t → (t == first_ready f ts) ≡ false
first_ready-ne f t [] out l = ground arith
first_ready-ne f t (x ∷ ts) out l = elim (Bool-cases (can_run (f x))) [
  | inl y ↦ rw y (ground arith)
  | inr y ↦ rw y (first_ready-ne f t ts (ground arith) l)
]

own :
    (a b : Bool) (id t r : ℕ)
    → (t == r) ≡ false
    → (a && b && id == 0) ≡ (id == 0 && t == (if a && b then t else r))
own a b id t r h = ground arith

flag :
    (a b : Bool) (id t i x r : ℕ)
    → i ≡ t
    → 0 < t
    → ¬ (x ≡ t)
    → ((if a && b && id == 0 then i else id) == 0 && x == r)
      ≡ (id == 0 && x == (if a && b then t else r))
flag a b id t i x r e l n = ground arith

-- One unit of the capacity is used.
abbrev pub spend : Tcb → Tcb
spend e = record e { capacity_rem = dec 16 e.capacity_rem }

-- What the update makes of a task: a tick if it is in the list, and a unit of work if it is the
-- choice.
abbrev pub one_updated : Tcb → Bool → Bool → Tcb
one_updated e listed choice = if listed then turn (if choice then spend e else e) else e

abbrev pub updated_in : (ℕ → Tcb) → ℕ → List ℕ → ℕ → Tcb
updated_in f id ts x = one_updated (f x) (mem x ts) (id == 0 && x == first_ready f ts)

pub updated_lem :
    (f : ℕ → Tcb) (id : ℕ) (ts : List ℕ) (x : ℕ)
    → Distinct ts
    → HaveIds f ts
    → updated f id ts x ≡ updated_in f id ts x
updated_lem f id [] x d h = refl
updated_lem f id (t ∷ ts) x d h =
    updated_lem (update f t (turn (charge id (f t)))) (if chosen (f t) id then (f t).id else id) ts
      x d.1 (HaveIds-update f t _ ts d.0 h.2)
    ∙ elim (ℕ_discrete x t) [
      | yes e ↦
          rw (e, d.0, ==_refl t)
            (ap (λ (b : Bool). turn (if b then spend (f t) else f t))
              (own (not (is_blocked (f t))) (ltb 0 (f t).capacity_rem) id t (first_ready f ts)
                (first_ready-ne f t ts d.0 h.1)))
      | no e ↦
          rw (first_ready-update f t _ ts d.0, apart e)
            (ap₂ (one_updated (f x)) (sym (not_head e)) (
              flag (not (is_blocked (f t))) (ltb 0 (f t).capacity_rem) id t (f t).id x
                (first_ready f ts) h.0 h.1 e))
    ]
  where
    apart : ¬ (x ≡ t) → (t == x) ≡ false
    apart e = ground arith

    not_head : ¬ (x ≡ t) → (x == t || mem x ts) ≡ mem x ts
    not_head e = ground arith
