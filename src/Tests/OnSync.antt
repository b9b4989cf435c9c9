-- ===== src/Tests/OnSync.antt =====
-- semaphore.c, condvar.c and mutex.c on the small system.
use t1_sistemas_embarcados.Prelude.{ℕ, ◌+◌, ◌≡◌, refl, List, [], ◌∷◌, arith}
use t1_sistemas_embarcados.Kernel.{ok}
use t1_sistemas_embarcados.Semaphore.{Sem}
use t1_sistemas_embarcados.Semaphore.Counting.{free, waiting, Counts}
use t1_sistemas_embarcados.Semaphore.History.{
  Event, wait_by, post, events, units, settled, events_lem,
}
use t1_sistemas_embarcados.Queue.{Queue}
use t1_sistemas_embarcados.Kernel.View.{Tasks}
use t1_sistemas_embarcados.Mutex.{Mutex}
use t1_sistemas_embarcados.Condvar.{Cond, condbroadcast}
use t1_sistemas_embarcados.Condvar.Waking.{all_ready, condbroadcast_lem}
use t1_sistemas_embarcados.Tests.{queue_of_two, queue_of_none, two-Tasks, none-Tasks, system}

-- Two tasks wait: the count is -2.
abbrev taken : Sem
taken = record { sem_queue = queue_of_two 1 3; count = 0xfffffffe }

taken-Counts : Counts taken 4 (waiting 1 (3 ∷ []))
taken-Counts = record { queued = two-Tasks 1 3; counted = refl; in_range = omega arith }

abbrev one_unit : Sem
one_unit = record { sem_queue = queue_of_none; count = 1 }

one_unit-Counts : Counts one_unit 4 (free 1)
one_unit-Counts = record { queued = none-Tasks; counted = refl; in_range = omega arith }

abbrev history : List Event
history = wait_by 1 ∷ wait_by 2 ∷ wait_by 3 ∷ post ∷ post ∷ post ∷ []

events_example :
    (n : ℕ) × (s : Sem) × (events history 0 one_unit system
      ≡ ok (n, s) (settled history (free 1) system).1)
    × Counts s 4 (settled history (free 1) system).0
    × (n + units (settled history (free 1) system).0 ≡ 4)
events_example =
    events_lem history 0 (free 1) one_unit system 4 one_unit-Counts (omega arith) (omega arith)
      (omega arith)

abbrev two_wait : Cond
two_wait = record { cond_queue = queue_of_two 1 3 }

abbrev held : Mutex
held = record { lock = 1 }

condbroadcast_example :
    (q : Queue ℕ) × (condbroadcast 3 two_wait system
      ≡ ok (record { cond_queue = q }) (all_ready (1 ∷ 3 ∷ []) system))
    × Tasks q 4 []
condbroadcast_example =
    condbroadcast_lem (1 ∷ 3 ∷ []) 3 two_wait system 4 (two-Tasks 1 3) (omega arith)
