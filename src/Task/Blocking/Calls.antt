-- ===== src/Task/Blocking/Calls.antt =====
-- Sequences of `hf_block` and `hf_resume`, against a table that has only the states of the tasks.
use t1_sistemas_embarcados.Prelude.{
  ℕ, ◌≡◌, refl, ap, ◌∙◌, Bool, true, false, not, ◌&&◌, ◌||◌, List, [], ◌∷◌, arith, ◌==◌,
  if◌then◌else◌, Bool-cases, inl, inr,
}
use t1_sistemas_embarcados.Kernel.{
  TaskState, ready, blocked, Kernel, Code, Cmd, ok, pure, ◌>>=◌, err_ok, err_error, err_invalid_id,
  update, on_tcb,
}
use t1_sistemas_embarcados.Task.{exists_at, block, resume}
use t1_sistemas_embarcados.Task.Blocking.{
  IsCallable, at_current, block-done, block-blocked, resume-done, resume-ready,
  block-resume_invalid,
}
use mathlib.Core.Path.{fun_ext}

-- A call, on the task with the index.
pub data Call : Type 0 where
  blocks : ℕ → Call
  resumes : ℕ → Call

abbrev perform : Call → Cmd Code
perform (blocks id) = block id
perform (resumes id) = resume id

pub performs : List Call → Cmd (List Code)
performs [] = pure []
performs (c ∷ cs) = do r ← perform c; rs ← performs cs; pure (r ∷ rs)

abbrev in_state : TaskState → Bool
in_state s = elim s [ blocked ↦ true | _ ↦ false ]

-- What the table `f` of states answers, `tasks` being the indexes of tasks other than the idle one: a task that is
-- not blocked can be blocked, one that is blocked can be resumed.
abbrev answer : (ℕ → Bool) → (ℕ → TaskState) → Call → Code × (ℕ → TaskState)
answer tasks f (blocks id) =
    if not (tasks id)
    then (err_invalid_id, f)
    else if in_state (f id)
    then (err_error, f)
    else (err_ok, update f id blocked)
answer tasks f (resumes id) =
    if not (tasks id)
    then (err_invalid_id, f)
    else if in_state (f id)
    then (err_ok, update f id ready)
    else (err_error, f)

pub answers : (ℕ → Bool) → (ℕ → TaskState) → List Call → List Code × (ℕ → TaskState)
answers tasks f [] = ([], f)
answers tasks f (c ∷ cs) =
    let (r, g) = answer tasks f c in let (rs, h) = answers tasks g cs in (r ∷ rs, h)

-- The kernel with the states of the table, and with another `krnl_task`.
abbrev pub with_states : (ℕ → TaskState) → ℕ → Kernel → Kernel
with_states f t k = record k { task = t; tcb = λ i. record (k.tcb i) { state = f i } }

-- A task that calls can be on.
abbrev pub callable : Kernel → ℕ → Bool
callable k id = not (id == 0) && exists_at id k

with_states-update :
    (f : ℕ → TaskState) (t id : ℕ) (s : TaskState) (k : Kernel)
    → on_tcb id (λ e. record e { state = s }) (at_current (with_states f t k))
      ≡ with_states (update f id s) k.current_task k
with_states-update f t id s k =
    ap (λ g. record k { task = k.current_task; tcb = g })
      (fun_ext λ j. elim (Bool-cases (id == j)) [
        | inl y ↦
            let place : id ≡ j = ground arith in
            rw y (ap (λ i. record (k.tcb i) { state = s }) place)
        | inr y ↦ rw y refl
      ])

kept :
    (b : Bool) (f : ℕ → TaskState) (t : ℕ) (k : Kernel)
    → (if b then with_states f t k else at_current (with_states f t k))
      ≡ with_states f (if b then t else k.current_task) k
kept true f t k = refl
kept false f t k = refl

one_call :
    (c : Call) (f : ℕ → TaskState) (t : ℕ) (k : Kernel)
    → (t' : ℕ) × (perform c (with_states f t k)
        ≡ ok (answer (callable k) f c).0 (with_states (answer (callable k) f c).1 t' k))
one_call (blocks id) f t k = elim (Bool-cases (callable k id)) [
  | inl y ↦
      let can : IsCallable id (with_states f t k) = record {
        not_idle = ground arith;
        exists = ground arith;
      } in
      elim (Bool-cases (in_state (f id))) [
        | inl z ↦ (k.current_task, rw (y, z) (block-blocked id (with_states f t k) can z))
        | inr z ↦ (
          k.current_task,
          rw (y, z)
              (block-done id (with_states f t k) can z
                ∙ ap (ok err_ok) (with_states-update f t id blocked k)),
        )
      ]
  | inr y ↦
      let absent : ((id == 0) || not (exists_at id k)) ≡ true = ground arith in
      (
        if id == 0 then t else k.current_task,
        rw y (
            (block-resume_invalid id (with_states f t k) absent).0
            ∙ ap (ok err_invalid_id) (kept (id == 0) f t k)),
      )
]
one_call (resumes id) f t k = elim (Bool-cases (callable k id)) [
  | inl y ↦
      let can : IsCallable id (with_states f t k) = record {
        not_idle = ground arith;
        exists = ground arith;
      } in
      elim (Bool-cases (in_state (f id))) [
        | inl z ↦ (
          k.current_task,
          rw (y, z)
              (resume-done id (with_states f t k) can z
                ∙ ap (ok err_ok) (with_states-update f t id ready k)),
        )
        | inr z ↦ (k.current_task, rw (y, z) (resume-ready id (with_states f t k) can z))
      ]
  | inr y ↦
      let absent : ((id == 0) || not (exists_at id k)) ≡ true = ground arith in
      (
        if id == 0 then t else k.current_task,
        rw y (
            (block-resume_invalid id (with_states f t k) absent).1
            ∙ ap (ok err_invalid_id) (kept (id == 0) f t k)),
      )
]

on_table :
    (cs : List Call) (f : ℕ → TaskState) (t : ℕ) (k : Kernel)
    → (t' : ℕ) × (performs cs (with_states f t k)
        ≡ ok (answers (callable k) f cs).0 (with_states (answers (callable k) f cs).1 t' k))
unfolding performs answers
on_table [] f t k = (t, refl)
on_table (c ∷ cs) f t k =
    let (t₁, e) = one_call c f t k in
    let (t₂, r) = on_table cs (answer (callable k) f c).1 t₁ k in (t₂, rw (e, r) refl)

-- Any sequence of `hf_block` and `hf_resume`, on any indexes, gets the answers of a table of states, in which a
-- task other than the idle one can be blocked if it is not blocked and resumed if it is. At the end the tasks have the
-- states of the table, and nothing else of the kernel has changed but `krnl_task`; there is no panic.
pub performs-answers :
    (cs : List Call) (k : Kernel)
    → (t : ℕ) × (performs cs k
        ≡ ok
            (answers (callable k) (λ i. (k.tcb i).state) cs).0
            (with_states (answers (callable k) (λ i. (k.tcb i).state) cs).1 t k))
performs-answers cs k = on_table cs (λ i. (k.tcb i).state) k.task k
