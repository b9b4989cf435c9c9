-- ===== src/Tests.antt =====
-- A small system to run the code on: four places, the idle task 0, a best effort task 1 that is
-- blocked, a best effort task 2 and a real-time task 3.
mod OnQueue
mod OnSched
mod OnSync
mod OnTask
mod OnLibc
mod OnLists
mod OnMalloc
mod OnCrc
mod OnNet
mod OnNoc
use t1_sistemas_embarcados.Prelude.{
  ℕ, zero, suc, ◌≡◌, refl, Option, none, some, List, [], ◌∷◌, ◌++◌, arith, length,
}
use t1_sistemas_embarcados.Queue.{Queue}
use t1_sistemas_embarcados.Queue.Refine.{Holds}
use t1_sistemas_embarcados.Kernel.{TaskState, ready, blocked, Tcb, Kernel}
use t1_sistemas_embarcados.Kernel.View.{Tasks}

abbrev pub plain : ℕ → Tcb
plain i = record {
  id = i;
  name = [];
  state = ready;
  priority = 100;
  priority_rem = 100;
  critical = 0;
  delay = 0;
  rtjobs = 0;
  bgjobs = 0;
  deadline_misses = 0;
  period = 0;
  capacity = 0;
  deadline = 0;
  capacity_rem = 0;
  deadline_rem = 0;
  entry = 7;
  pstack = none;
  stack_word = 0xb00bb00b;
  stack_size = 1024;
}

abbrev pub entries : ℕ → Tcb
entries zero = plain 0
entries (suc zero) = record (plain 1) { state = blocked }
entries (suc (suc zero)) = record (plain 2) { priority_rem = 50; delay = 1 }
entries (suc (suc (suc i))) = record (plain 3) {
  period = 10;
  capacity = 2;
  capacity_rem = 2;
  deadline_rem = 10;
  delay = 5;
}

-- Four cells, one of them free: the head is in cell 3.
abbrev pub queue_of_two : ℕ → ℕ → Queue ℕ
queue_of_two x y = record {
  size = 5;
  elem = 2;
  head = 4;
  tail = 1;
  cells = some y ∷ none ∷ none ∷ none ∷ some x ∷ [];
  self = 100;
  array = 200;
}

abbrev pub queue_of_one : ℕ → Queue ℕ
queue_of_one x = record (queue_of_two x 0) { elem = 1; tail = 0 }

abbrev pub queue_of_none : Queue ℕ
queue_of_none = record (queue_of_two 0 0) { elem = 0; tail = 4 }

pub two-Holds : (x y : ℕ) → Holds (queue_of_two x y) 4 (some x ∷ some y ∷ [])
two-Holds x y = record { valid = omega arith; room = refl; view = refl }

pub two-Tasks : (x y : ℕ) → Tasks (queue_of_two x y) 4 (x ∷ y ∷ [])
two-Tasks x y = record { holds = two-Holds x y }

pub one-Tasks : (x : ℕ) → Tasks (queue_of_one x) 4 (x ∷ [])
one-Tasks x = record { holds = record { valid = omega arith; room = refl; view = refl } }

pub none-Tasks : Tasks queue_of_none 4 []
none-Tasks = record { holds = record { valid = omega arith; room = refl; view = refl } }

abbrev pub system : Kernel
system = record {
  max_tasks = 4;
  tcb = entries;
  task = 0;
  tasks = 4;
  current_task = 2;
  schedule = 1;
  run_queue = queue_of_two 1 2;
  delay_queue = queue_of_none;
  rt_queue = queue_of_one 3;
  aperiodic_queue = queue_of_none;
  coop_cswitch = 0;
  preempt_cswitch = 0;
}
