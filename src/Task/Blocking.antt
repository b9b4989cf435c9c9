-- ===== src/Task/Blocking.antt =====
-- `hf_block` and `hf_resume`: what they do to a task, and what undoes what.
pub mod Calls
use t1_sistemas_embarcados.Prelude.{
  ℕ, ◌≡◌, refl, ap, ◌∙◌, true, false, not, ◌||◌, arith, leb, ◌==◌, ==_refl, if◌then◌else◌,
  Bool-cases, inl, inr,
}
use t1_sistemas_embarcados.Kernel.{
  Kernel, ready, blocked, ok, and_then, err_ok, err_error, err_invalid_id, update, on_tcb,
}
use t1_sistemas_embarcados.Kernel.Steps.{is_blocked}
use t1_sistemas_embarcados.Semaphore.{with_state}
use t1_sistemas_embarcados.Task.{is_task, exists_at, guarded, block, resume}
use mathlib.Core.Path.{fun_ext}

-- A second write to an entry overrides the first.
pub update-update :
    {A : Type 0} (f : ℕ → A) (i : ℕ) (a b : A) → update (update f i a) i b ≡ update f i b
update-update f i a b =
    fun_ext λ j. elim (Bool-cases (i == j)) [ inl y ↦ rw y refl | inr y ↦ rw y refl ]

-- A task that a call can be on: it exists, and is not the idle task.
pub record IsCallable (id : ℕ) (k : Kernel) : Type 0 where
  pub not_idle : (id == 0) ≡ false
  pub exists : exists_at id k ≡ true

abbrev pub at_current : Kernel → Kernel
at_current k = record k { task = k.current_task }

pub passes :
    (id : ℕ) (k : Kernel)
    → exists_at id k ≡ true
    → (not (is_task (k.tcb id)) || leb k.max_tasks id) ≡ false
passes id k e = ground arith

module _ (id : ℕ) (k : Kernel) (c : IsCallable id k) where
  pub block-done :
      is_blocked (k.tcb id) ≡ false
      → block id k ≡ ok err_ok (on_tcb id (with_state blocked) (at_current k))
  unfolding block guarded
  block-done n = rw (c.not_idle, passes id k c.exists, n) refl

  pub block-blocked : is_blocked (k.tcb id) ≡ true → block id k ≡ ok err_error (at_current k)
  unfolding block guarded
  block-blocked n = rw (c.not_idle, passes id k c.exists, n) refl

  pub resume-done :
      is_blocked (k.tcb id) ≡ true
      → resume id k ≡ ok err_ok (on_tcb id (with_state ready) (at_current k))
  unfolding resume guarded
  resume-done n = rw (c.not_idle, passes id k c.exists, n) refl

  pub resume-ready : is_blocked (k.tcb id) ≡ false → resume id k ≡ ok err_error (at_current k)
  unfolding resume guarded
  resume-ready n = rw (c.not_idle, passes id k c.exists, n) refl

-- A second change of the state overrides the first.
with_state-with_state :
    (id : ℕ) (k : Kernel)
    → on_tcb id (with_state ready) (on_tcb id (with_state blocked) k)
      ≡ on_tcb id (with_state ready) k
with_state-with_state id k = rw (==_refl id) (
    ap (λ f. record k { tcb = f })
      (update-update k.tcb id (with_state blocked (k.tcb id)) (with_state ready (k.tcb id))))

still-IsCallable :
    (id : ℕ) (k : Kernel)
    → IsCallable id k
    → IsCallable id (on_tcb id (with_state blocked) (at_current k))
still-IsCallable id k c = record { not_idle = c.not_idle; exists = rw (==_refl id) c.exists }

now_blocked :
    (id : ℕ) (k : Kernel)
    → is_blocked ((on_tcb id (with_state blocked) (at_current k)).tcb id) ≡ true
now_blocked id k = rw (==_refl id) refl

-- A task that exists and is not blocked, blocked and then resumed, is ready; nothing else has
-- changed, but that `krnl_task` is the running task.
resume-block :
    (id : ℕ) (k : Kernel)
    → IsCallable id k
    → is_blocked (k.tcb id) ≡ false
    → and_then (block id k) (λ _. resume id)
      ≡ ok err_ok (on_tcb id (with_state ready) (at_current k))
resume-block id k c n =
    ap (λ o. and_then o (λ _. resume id)) (block-done id k c n)
    ∙ resume-done id (on_tcb id (with_state blocked) (at_current k)) (still-IsCallable id k c)
        (now_blocked id k)
    ∙ ap (ok err_ok) (with_state-with_state id (at_current k))

-- Blocking a task twice: the second call changes no task and returns ERR_ERROR.
block-block :
    (id : ℕ) (k : Kernel)
    → IsCallable id k
    → is_blocked (k.tcb id) ≡ false
    → and_then (block id k) (λ _. block id)
      ≡ ok err_error (on_tcb id (with_state blocked) (at_current k))
block-block id k c n =
    ap (λ o. and_then o (λ _. block id)) (block-done id k c n)
    ∙ block-blocked id (on_tcb id (with_state blocked) (at_current k)) (still-IsCallable id k c)
        (now_blocked id k)

-- The idle task, and any index without a task: `hf_block` and `hf_resume` return ERR_INVALID_ID and
-- change no task and no queue.
pub block-resume_invalid :
    (id : ℕ) (k : Kernel)
    → (id == 0) || not (exists_at id k) ≡ true
    → (block id k ≡ ok err_invalid_id (if id == 0 then k else at_current k))
      × (resume id k ≡ ok err_invalid_id (if id == 0 then k else at_current k))
unfolding block resume guarded
block-resume_invalid id k h = elim (Bool-cases (id == 0)) [
  | inl z ↦ rw z (refl, refl)
  | inr z ↦
      let absent : (not (is_task (k.tcb id)) || leb k.max_tasks id) ≡ true = ground arith in
      rw (z, absent) (refl, refl)
]
