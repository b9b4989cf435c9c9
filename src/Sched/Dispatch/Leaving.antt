-- ===== src/Sched/Dispatch/Leaving.antt =====
-- The entries after the running task is left, and after another one starts.
use t1_sistemas_embarcados.Prelude.{
  ℕ, ◌≡◌, refl, ◌∙◌, false, List, [], ◌∷◌, arith, ◌==◌, ==_refl, ℕ_discrete,
}
use t1_sistemas_embarcados.Kernel.{Tcb, Kernel, running, update}
use t1_sistemas_embarcados.Kernel.Steps.{inc, is_blocked}
use t1_sistemas_embarcados.Sched.BestEffort.RoundRobin.{AllBlocked}
use t1_sistemas_embarcados.Sched.Dispatch.Guards.{left_entry, after_leaving}

is_blocked-left_entry : (e : Tcb) → is_blocked (left_entry e) ≡ is_blocked e
is_blocked-left_entry e = ground arith

-- Leaving a task blocks none and wakes none.
pub is_blocked-after_leaving :
    (k : Kernel) (x : ℕ) → is_blocked ((after_leaving k).tcb x) ≡ is_blocked (k.tcb x)
is_blocked-after_leaving k x = elim (ℕ_discrete x k.current_task) [
  | yes e ↦ rw (e, ==_refl k.current_task) (is_blocked-left_entry (k.tcb k.current_task))
  | no e ↦ rw (apart e) refl
]
  where
    apart : ¬ (x ≡ k.current_task) → (k.current_task == x) ≡ false
    apart e = ground arith

pub id-after_leaving : (k : Kernel) (x : ℕ) → ((after_leaving k).tcb x).id ≡ (k.tcb x).id
id-after_leaving k x = elim (ℕ_discrete x k.current_task) [
  | yes e ↦ rw (e, ==_refl k.current_task) (id-left_entry (k.tcb k.current_task))
  | no e ↦ rw (apart e) refl
]
  where
    id-left_entry : (e : Tcb) → (left_entry e).id ≡ e.id
    id-left_entry e = ground arith

    apart : ¬ (x ≡ k.current_task) → (k.current_task == x) ≡ false
    apart e = ground arith

pub AllBlocked-after_leaving :
    (k : Kernel) (bs : List ℕ) → AllBlocked k.tcb bs → AllBlocked (after_leaving k).tcb bs
AllBlocked-after_leaving k [] b = tt
AllBlocked-after_leaving k (x ∷ bs) b =
    (is_blocked-after_leaving k x ∙ b.0, AllBlocked-after_leaving k bs b.1)

-- The task `t` counts a job and runs.
abbrev pub counted : (ℕ → Tcb) → ℕ → ℕ → Tcb
counted g t = update g t (record (g t) { bgjobs = inc 32 (g t).bgjobs })

abbrev pub started : (ℕ → Tcb) → ℕ → ℕ → Tcb
started g t = update g t (record (g t) { state = running })

pub flip : (x t : ℕ) → (x == t) ≡ false → (t == x) ≡ false
flip x t e = ground arith
