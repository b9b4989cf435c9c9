-- ===== src/Sched/Rma.antt =====
-- scheduler.c: `sched_rma`, rate monotonic scheduling of the real-time queue.
pub mod Sort
pub mod Loops
pub mod Update
pub mod RateMonotonic
use t1_sistemas_embarcados.Prelude.{
  ℕ, zero, suc, ◌+◌, ◌-◌, Bool, not, ◌&&◌, none, some, ltb, ◌==◌, if◌then◌else◌,
}
use t1_sistemas_embarcados.Queue.{done, failed, get, swap}
use t1_sistemas_embarcados.Kernel.{
  Tcb, cant_swap, Cmd, ok, fault, pure, ◌>>=◌, ◌>>◌, panic, read, modify, rt,
}
use t1_sistemas_embarcados.Kernel.Steps.{inc, dec, is_blocked, count_of}
use t1_sistemas_embarcados.Sched.{rt_queue_next, this_task, on_this}

-- The entry that the queue holds at a position, as `e1->period` needs it.
entry_at : ℕ → Cmd Tcb
entry_at i k = elim (get k.rt_queue i) [ none ↦ fault | some t ↦ ok (k.tcb t) k ]

swap_rt : ℕ → ℕ → Cmd (Unit {0})
swap_rt i j k =
    let (s, q) = swap k.rt_queue i j in
    elim s [ done ↦ pure tt (record k { rt_queue = q }) | failed ↦ panic cant_swap k ]

order : ℕ → ℕ → Cmd (Unit {0})
unfolding entry_at swap_rt
order i j = do
  e1 ← entry_at i
  e2 ← entry_at j
  if ltb e2.period e1.period then swap_rt i j else pure tt

-- `for (j = …; j < k; j++)` with `n` rounds left.
inner : ℕ → ℕ → ℕ → Cmd (Unit {0})
unfolding order
inner i zero j = pure tt
inner i (suc n) j = do order i j; inner i n (j + 1)

-- `for (i = …; i < k-1; i++)` with `n` rounds left.
pub outer : ℕ → ℕ → Cmd (Unit {0})
unfolding inner
outer zero i = pure tt
outer (suc n) i = do inner i (suc n) (i + 1); outer n (i + 1)

-- The update of one real-time task: the first one that can run is charged and remembered in `id`.
abbrev chosen : Tcb → ℕ → Bool
chosen e id = not (is_blocked e) && ltb 0 e.capacity_rem && id == 0

abbrev charge : ℕ → Tcb → Tcb
charge id e = if chosen e id then record e { capacity_rem = dec 16 e.capacity_rem } else e

-- One tick less to the deadline; at the deadline the period starts anew.
abbrev turn : Tcb → Tcb
turn e =
    if dec 16 e.deadline_rem == 0
    then record e {
      deadline_rem = e.period;
      deadline_misses =
          if ltb 0 e.capacity_rem then inc 32 e.deadline_misses else e.deadline_misses;
      capacity_rem = e.capacity;
    }
    else record e { deadline_rem = dec 16 e.deadline_rem }

update_step : ℕ → Cmd ℕ
update_step id = do
  rt_queue_next
  e ← read this_task
  modify (on_this (λ e. turn (charge id e)))
  pure (if chosen e id then e.id else id)

pub update_loop : ℕ → ℕ → Cmd ℕ
unfolding update_step
update_loop zero id = pure id
update_loop (suc n) id = do id' ← update_step id; update_loop n id'

-- The task that `update_loop` found runs a job; with none, `krnl_task` is task 0.
pub select : ℕ → Cmd ℕ
select id = do
  modify (λ k. record k { task = id })
  if id == 0
      then pure 0
      else (do modify (on_this (λ e. record e { rtjobs = inc 32 e.rtjobs })); pure id)

pub sched_rma : Cmd ℕ
unfolding outer update_loop select
sched_rma = do
  n ← read (count_of rt)
  if n == 0 then pure 0 else (do outer (n - 1) 0; id ← update_loop n 0; select id)
