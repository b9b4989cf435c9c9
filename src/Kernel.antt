-- ===== src/Kernel.antt =====
-- hellfireos/sys/include/kernel.h, ecodes.h and panic.h: the kernel's data, and commands over it. A
-- command ends with a value and the new kernel, or in `panic`, which halts the system forever.
-- Code between `_di()` and `_ei()` runs with interrupts off, so a command is one atomic step.
pub mod Steps
pub mod View
pub mod Returns
pub mod Places
use t1_sistemas_embarcados.Prelude.{ℕ, Bool, true, false, Option, List, ◌==◌, if◌then◌else◌}
use t1_sistemas_embarcados.Queue.{Queue}

-- TASK_IDLE, TASK_READY, TASK_RUNNING, TASK_BLOCKED, TASK_DELAYED and TASK_WAITING.
pub data TaskState : Type 0 where
  idle ready running blocked delayed waiting : TaskState

-- `struct tcb_entry`, less the context that the processor saves. `entry` is `ptask` (0 is NULL),
-- `stack_word` is what `pstack[0]` holds.
pub record Tcb : Type 0 where
  pub id : ℕ
  pub name : List ℕ
  pub state : TaskState
  pub priority : ℕ
  pub priority_rem : ℕ
  pub critical : ℕ
  pub delay : ℕ
  pub rtjobs : ℕ
  pub bgjobs : ℕ
  pub deadline_misses : ℕ
  pub period : ℕ
  pub capacity : ℕ
  pub deadline : ℕ
  pub capacity_rem : ℕ
  pub deadline_rem : ℕ
  pub entry : ℕ
  pub pstack : Option ℕ
  pub stack_word : ℕ
  pub stack_size : ℕ

-- The kernel's globals. `&krnl_tcb[i]` is the index `i`, in the queues too; `max_tasks` is the
-- build's MAX_TASKS.
pub record Kernel : Type 0 where
  pub max_tasks : ℕ
  pub tcb : ℕ → Tcb
  pub task : ℕ
  pub tasks : ℕ
  pub current_task : ℕ
  pub schedule : ℕ
  pub run_queue : Queue ℕ
  pub delay_queue : Queue ℕ
  pub rt_queue : Queue ℕ
  pub aperiodic_queue : Queue ℕ
  pub coop_cswitch : ℕ
  pub preempt_cswitch : ℕ

-- The causes that the modelled code panics for.
pub data Cause : Type 0 where
  stack_overflow no_tasks_left no_tasks_run no_tasks_rt no_tasks_delay : Cause
  unknown_task_state cant_place_run cant_place_delay cant_place_rt cant_swap nuts_sem : Cause

-- ERR_OK and the negative results.
pub data Code : Type 0 where
  err_ok err_error err_invalid_id err_exceed_max_num err_out_of_memory err_invalid_name : Code

-- `fault` is a use of a NULL pointer, `out_of_fuel` a loop that has not ended.
pub data Run (A : Type 0) : Type 0 where
  ok : A → Kernel → Run A
  panicked : Cause → Run A
  fault : Run A
  out_of_fuel : Run A

abbrev pub Cmd : Type 0 → Type 0
Cmd A = Kernel → Run A

abbrev pub pure : {A : Type 0} → A → Cmd A
pure a k = ok a k

abbrev pub and_then : {A B : Type 0} → Run A → (A → Cmd B) → Run B
and_then (ok a k) f = f a k
and_then (panicked c) f = panicked c
and_then fault f = fault
and_then out_of_fuel f = out_of_fuel

infixl 5 ◌>>=◌ ◌>>◌
abbrev pub ◌>>=◌ : {A B : Type 0} → Cmd A → (A → Cmd B) → Cmd B
m >>= f = λ k. and_then (m k) f

abbrev pub ◌>>◌ : {B : Type 0} → Cmd (Unit {0}) → Cmd B → Cmd B
m >> n = m >>= λ _. n

abbrev pub panic : {A : Type 0} → Cause → Cmd A
panic c k = panicked c

abbrev pub read : {A : Type 0} → (Kernel → A) → Cmd A
read f k = ok (f k) k

abbrev pub modify : (Kernel → Kernel) → Cmd (Unit {0})
modify f k = ok tt (f k)

abbrev pub update : {A : Type 0} → (ℕ → A) → ℕ → A → ℕ → A
update f i v j = if i == j then v else f j

-- `krnl_tcb[i]` is given the value `f krnl_tcb[i]`.
abbrev pub on_tcb : ℕ → (Tcb → Tcb) → Kernel → Kernel
on_tcb i f k = record k { tcb = update k.tcb i (f (k.tcb i)) }

pub data QueueName : Type 0 where
  run rt delay aperiodic : QueueName

abbrev pub queue_of : QueueName → Kernel → Queue ℕ
queue_of run k = k.run_queue
queue_of rt k = k.rt_queue
queue_of delay k = k.delay_queue
queue_of aperiodic k = k.aperiodic_queue

abbrev pub with_queue : QueueName → Queue ℕ → Kernel → Kernel
with_queue run q k = record k { run_queue = q }
with_queue rt q k = record k { rt_queue = q }
with_queue delay q k = record k { delay_queue = q }
with_queue aperiodic q k = record k { aperiodic_queue = q }
