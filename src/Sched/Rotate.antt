-- ===== src/Sched/Rotate.antt =====
-- `run_queue_next` and `rt_queue_next` on the lists, and counted turns of a whole queue.
use t1_sistemas_embarcados.Prelude.{ℕ, ◌≡◌, refl, List, [], ◌∷◌, ◌++◌, arith}
use t1_sistemas_embarcados.Queue.{Queue}
use t1_sistemas_embarcados.Kernel.{Kernel, ok, run, rt, cant_place_run, cant_place_rt}
use t1_sistemas_embarcados.Kernel.View.{Tasks, Tasks-length, take_head-cons, place-done}
use t1_sistemas_embarcados.Sched.{rotate, run_queue_next, rt_queue_next}

-- The head of the run queue becomes the current entry and goes to the tail.
pub run_queue_next_lem :
    (k : Kernel) {t : ℕ} {ts : List ℕ}
    → Tasks k.run_queue k.max_tasks (t ∷ ts)
    → (q : Queue ℕ) × (run_queue_next k ≡ ok tt (record k { task = t; run_queue = q }))
      × Tasks q k.max_tasks (ts ++ (t ∷ []))
unfolding run_queue_next
run_queue_next_lem k {t} h =
    let (r, e, taken) = take_head-cons run k h in
    let (q, f, placed) =
      place-done run (record k { task = t; run_queue = r }) cant_place_run t taken
        (omega (arith, Tasks-length h)) in
    (q, rw (e, f, rotate) refl, placed)

-- The same for the real-time queue.
pub rt_queue_next_lem :
    (k : Kernel) {t : ℕ} {ts : List ℕ}
    → Tasks k.rt_queue k.max_tasks (t ∷ ts)
    → (q : Queue ℕ) × (rt_queue_next k ≡ ok tt (record k { task = t; rt_queue = q }))
      × Tasks q k.max_tasks (ts ++ (t ∷ []))
unfolding rt_queue_next
rt_queue_next_lem k {t} h =
    let (r, e, taken) = take_head-cons rt k h in
    let (q, f, placed) =
      place-done rt (record k { task = t; rt_queue = r }) cant_place_rt t taken
        (omega (arith, Tasks-length h)) in
    (q, rw (e, f, rotate) refl, placed)
