-- ===== src/Semaphore/History.antt =====
-- Whole histories of a semaphore: calls by any tasks in any order, and how many waits they let through.
use t1_sistemas_embarcados.Prelude.{
  ℕ, zero, suc, ◌+◌, ◌-◌, ◌^◌, ◌≤◌, ◌<◌, ◌≡◌, refl, ap, ◌∙◌, List, [], ◌∷◌, arith, if◌then◌else◌,
  Bool, true, false, Option, none, some, ==_refl, length, length-append,
}
use t1_sistemas_embarcados.Queue.{get}
use t1_sistemas_embarcados.Queue.Refine.{get-get_or}
use t1_sistemas_embarcados.Kernel.{
  Kernel, Cmd, ok, pure, ◌>>=◌, ◌>>◌, modify, read, update, ready, running, blocked, Tcb,
}
use t1_sistemas_embarcados.Kernel.Steps.{is_blocked}
use t1_sistemas_embarcados.Semaphore.{Sem, semwait, sempost}
use t1_sistemas_embarcados.Semaphore.Counting.{
  View, free, waiting, waiters, Counts, after_wait, after_post, woken, HasRoom, semwait_lem,
  sempost_lem,
}

-- `wait_by t`: the task `t` is the running one, and calls `hf_semwait`.
pub data Event : Type 0 where
  wait_by : ℕ → Event
  post : Event

abbrev is_ready : Tcb → Bool
is_ready e = elim e.state [ ready ↦ true | _ ↦ false ]

-- One for the task at the head of the queue, if it is ready now.
abbrev woken_at : Option ℕ → Kernel → ℕ
woken_at none k = 0
woken_at (some t) k = if is_ready (k.tcb t) then 1 else 0

abbrev started : ℕ → Kernel → Kernel
started t k = record k {
  current_task = t;
  tcb = update k.tcb t (record (k.tcb t) { state = running });
}

-- One call, and the number of waits that it lets through: a wait after which its task is not blocked, or that of a
-- queued task which a post makes ready.
event : Event → Sem → Cmd (ℕ × Sem)
event (wait_by t) s = do
  modify (started t)
  (waits, s') ← semwait s
  k ← read (λ k. k)
  pure (if is_blocked (k.tcb t) then 0 else 1, s')
event post s = do
  let head = get s.sem_queue 0
  s' ← sempost s
  k ← read (λ k. k)
  pure (woken_at head k, s')

pub events : List Event → ℕ → Sem → Cmd (ℕ × Sem)
unfolding event
events [] n s = pure (n, s)
events (e ∷ es) n s = do (passed, s') ← event e s; events es (n + passed) s'

abbrev pub waits : List Event → ℕ
waits [] = 0
waits (wait_by t ∷ es) = suc (waits es)
waits (post ∷ es) = waits es

abbrev pub posts : List Event → ℕ
posts [] = 0
posts (wait_by t ∷ es) = posts es
posts (post ∷ es) = suc (posts es)

abbrev pub units : View → ℕ
units (free v) = v
units (waiting t ts) = 0

passed_wait :
    (v : View) (t : ℕ) → (if (after_wait v t).0 then 0 else 1) + units (after_wait v t).1 ≡ units v
passed_wait (free zero) t = refl
passed_wait (free (suc v)) t = omega arith
passed_wait (waiting u us) t = refl

passed_post :
    (v : View)
    → (length (waiters v) - length (waiters (after_post v))) + units (after_post v) ≡ units v + 1
passed_post (free v) = omega arith
passed_post (waiting t []) = refl
passed_post (waiting t (u ∷ us)) = omega arith

more_waiters : (v : View) (t : ℕ) → length (waiters (after_wait v t).1) ≤ suc (length (waiters v))
more_waiters (free zero) t = omega arith
more_waiters (free (suc v)) t = omega arith
more_waiters (waiting u us) t = omega (arith, length-append {0} us (t ∷ []))

fewer_waiters : (v : View) → length (waiters (after_post v)) ≤ length (waiters v)
fewer_waiters (free v) = omega arith
fewer_waiters (waiting t []) = omega arith
fewer_waiters (waiting t (u ∷ us)) = omega arith

HasRoom-of_units : (v : View) (n : ℕ) → units v + suc n < 2 ^ 31 → HasRoom v
HasRoom-of_units (free v) n l = omega arith
HasRoom-of_units (waiting t ts) n l = tt

-- The task runs, and is blocked where there is no unit.
abbrev waited : View → ℕ → Kernel → Kernel
waited v t k =
    let run = started t k in
    if (after_wait v t).0
    then record run { tcb = update run.tcb t (record (run.tcb t) { state = blocked }) }
    else run

-- The task that has waited longest is ready.
abbrev posted : View → Kernel → Kernel
posted (free v) k = k
posted (waiting t ts) k = record k { tcb = update k.tcb t (record (k.tcb t) { state = ready }) }

-- What the calls leave: who waits, the running task and the states of the tasks.
pub settled : List Event → View → Kernel → View × Kernel
settled [] v k = (v, k)
settled (wait_by t ∷ es) v k = settled es (after_wait v t).1 (waited v t k)
settled (post ∷ es) v k = settled es (after_post v) (posted v k)

blocked_when :
    (v : View) (t : ℕ) (k : Kernel)
    → ◌≡◌ {A = ℕ}
        (if is_blocked ((waited v t k).tcb t) then 0 else 1)
        (if (after_wait v t).0 then 0 else 1)
blocked_when (free zero) t k = rw (==_refl t) refl
blocked_when (free (suc v)) t k = rw (==_refl t) refl
blocked_when (waiting u us) t k = rw (==_refl t) refl

woken_when :
    (v : View) (s : Sem) (m : ℕ) (k : Kernel)
    → Counts s m v
    → woken_at (get s.sem_queue 0) (posted v k)
      ≡ length (waiters v) - length (waiters (after_post v))
woken_when (free v) s m k h = rw (get-get_or h.queued.holds 0) refl
woken_when (waiting t []) s m k h = rw (get-get_or h.queued.holds 0) (rw (==_refl t) refl)
woken_when (waiting t (u ∷ us)) s m k h =
    rw (get-get_or h.queued.holds 0) (rw (==_refl t) (omega arith))

-- In a history that leaves room for every waiting task and keeps the count an `int32_t`, no call
-- panics. A wait without a free unit blocks its task, a post makes the task ready that has waited longest, and
-- nothing else of the kernel changes but which task runs. The waits that were let through, after which the task
-- is not blocked or which a post ended, and the units still free are together the units at the start and the posts:
-- no more waits are let through than that, and none is lost.
pub events_lem :
    (es : List Event) (n : ℕ) (v : View) (s : Sem) (k : Kernel) (m : ℕ)
    → Counts s m v
    → length (waiters v) + waits es ≤ m
    → m < 2 ^ 31
    → units v + posts es < 2 ^ 31
    → (n' : ℕ) × (s' : Sem) × (events es n s k ≡ ok (n', s') (settled es v k).1)
      × Counts s' m (settled es v k).0
      × (n' + units (settled es v k).0 ≡ n + units v + posts es)
unfolding events event settled
events_lem [] n v s k m h room l low = (n, s, refl, h, omega arith)
events_lem (wait_by t ∷ es) n v s k m h room l low =
    let (s', e, h') = semwait_lem v s (started t k) m h (omega arith) l in
    let passed = blocked_when v t k in
    let (n', s'', e', h'', sum) =
      events_lem es (n + (if is_blocked ((waited v t k).tcb t) then 0 else 1)) (after_wait v t).1 s'
        (waited v t k) m h' (omega (arith, more_waiters v t)) l (omega (arith, passed_wait v t)) in
    (n', s'', rw e e', h'', omega (arith, passed_wait v t, passed))
events_lem (post ∷ es) n v s k m h room l low =
    let (s', e, h') = sempost_lem v s k m h (HasRoom-of_units v (posts es) low) in
    let made : sempost s k ≡ ok s' (posted v k) = e ∙ ap (ok s') (same_post v k) in
    let passed = woken_when v s m k h in
    let (n', s'', e', h'', sum) =
      events_lem es (n + woken_at (get s.sem_queue 0) (posted v k)) (after_post v) s' (posted v k) m
        h' (omega (arith, fewer_waiters v)) l (omega (arith, passed_post v)) in
    (n', s'', rw made e', h'', omega (arith, passed_post v, passed))
  where
    same_post : (v : View) (k : Kernel) → woken v k ≡ posted v k
    same_post (free v) k = refl
    same_post (waiting t ts) k = refl
