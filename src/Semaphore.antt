-- ===== src/Semaphore.antt =====
-- hellfireos/sys/sync/semaphore.c. A semaphore stands beside the kernel: `krnl_task2` is the index of a
-- task, and `count` an `int32_t` as the bits that it is stored in. Each call is what it does with
-- interrupts off; `hf_semwait` then calls `hf_yield` where its Boolean is true.
pub mod Counting
pub mod History
use t1_sistemas_embarcados.Prelude.{
  ℕ, ◌+◌, ◌^◌, Bool, true, false, ◌||◌, Option, none, some, leb, ◌==◌, if◌then◌else◌,
}
use t1_sistemas_embarcados.Queue.{
  Allocator, Queue, Status, done, failed, create, destroy, addtail, remhead,
}
use t1_sistemas_embarcados.Kernel.{
  ready, blocked, TaskState, Tcb, Kernel, Code, err_ok, err_error, nuts_sem, Cmd, ok, panic, on_tcb,
}
use t1_sistemas_embarcados.Kernel.Steps.{inc, dec}

-- `struct sem`.
pub record Sem : Type 0 where
  pub sem_queue : Queue ℕ
  pub count : ℕ

-- The sign of an `int32_t`.
abbrev pub is_negative : ℕ → Bool
is_negative c = leb (2 ^ 31) c

abbrev pub with_state : TaskState → Tcb → Tcb
with_state s e = record e { state = s }

module _ (a : Allocator ℕ) where
  open a use {Heap}

  -- With ERR_ERROR the caller has no semaphore; a queue that was created is not given back.
  pub seminit : ℕ → ℕ → Heap → (Code × Option Sem) × Heap
  seminit max_tasks value h =
      let (got, h') = create a max_tasks h in
      elim got [
        | none ↦ ((err_error, none), h')
        | some q ↦
            if is_negative value
            then ((err_error, none), h')
            else ((err_ok, some (record { sem_queue = q; count = value })), h')
      ]

  pub semdestroy : Sem → Heap → Code × Heap
  semdestroy s h =
      let (r, h') = destroy a s.sem_queue h in
      elim r [ done ↦ (err_ok, h') | failed ↦ (err_error, h') ]

pub semwait : Sem → Cmd (Bool × Sem)
semwait s k =
    let c = dec 32 s.count in
    if is_negative c
    then (let (r, q) = addtail s.sem_queue (some k.current_task) in
        elim r [
          | done ↦
              ok (true, record { sem_queue = q; count = c })
                (on_tcb k.current_task (with_state blocked) k)
          | failed ↦ panic nuts_sem k
        ])
    else ok (false, record s { count = c }) k

pub sempost : Sem → Cmd Sem
sempost s k =
    let c = inc 32 s.count in
    if is_negative c || c == 0
    then (let (p, q) = remhead s.sem_queue in
        elim p [
          | none ↦ panic nuts_sem k
          | some t ↦ ok (record { sem_queue = q; count = c }) (on_tcb t (with_state ready) k)
        ])
    else ok (record s { count = c }) k
