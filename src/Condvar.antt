-- ===== src/Condvar.antt =====
-- hellfireos/sys/sync/condvar.c. `hf_condwait` is given up to its call of `hf_yield`; when the task runs
-- again it calls `hf_mtxlock`.
pub mod Waking
use t1_sistemas_embarcados.Prelude.{ℕ, zero, suc, Option, none, some, ◌==◌, if◌then◌else◌}
use t1_sistemas_embarcados.Queue.{
  Allocator, Queue, Status, done, failed, create, destroy, count, addtail, remhead,
}
use t1_sistemas_embarcados.Kernel.{
  ready, blocked, Kernel, Code, err_ok, err_error, nuts_sem, Cmd, ok, out_of_fuel, pure, panic,
  on_tcb, ◌>>=◌,
}
use t1_sistemas_embarcados.Semaphore.{with_state}
use t1_sistemas_embarcados.Mutex.{Mutex, mtxunlock}

-- `struct condvar`; its mutex is not used by the code.
pub record Cond : Type 0 where
  pub cond_queue : Queue ℕ

module _ (a : Allocator ℕ) where
  open a use {Heap}

  pub condinit : ℕ → Heap → (Code × Option Cond) × Heap
  condinit max_tasks h =
      let (got, h') = create a max_tasks h in
      elim got [
        | none ↦ ((err_error, none), h')
        | some q ↦ ((err_ok, some (record { cond_queue = q })), h')
      ]

  pub conddestroy : Cond → Heap → Code × Heap
  conddestroy c h =
      let (r, h') = destroy a c.cond_queue h in
      elim r [ done ↦ (err_ok, h') | failed ↦ (err_error, h') ]

pub condwait : Cond → Mutex → Cmd (Cond × Mutex)
condwait c m k =
    let (r, q) = addtail c.cond_queue (some k.current_task) in
    elim r [
      | done ↦
          ok (record { cond_queue = q }, mtxunlock m) (on_tcb k.current_task (with_state blocked) k)
      | failed ↦ panic nuts_sem k
    ]

pub condsignal : Cond → Cmd Cond
condsignal c k =
    let (p, q) = remhead c.cond_queue in
    elim p [
      | none ↦ ok (record { cond_queue = q }) k
      | some t ↦ ok (record { cond_queue = q }) (on_tcb t (with_state ready) k)
    ]

-- `while (hf_queue_count(c->cond_queue))`, on fuel; its body is that of `hf_condsignal`.
broadcast_loop : ℕ → Cond → Cmd Cond
unfolding condsignal
broadcast_loop zero c = λ k. out_of_fuel
broadcast_loop (suc fuel) c =
    if count c.cond_queue == 0 then pure c else (condsignal c >>= λ c'. broadcast_loop fuel c')

pub condbroadcast : ℕ → Cond → Cmd Cond
unfolding broadcast_loop
condbroadcast fuel c = broadcast_loop fuel c
