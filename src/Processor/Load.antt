-- ===== src/Processor/Load.antt =====
-- The load that `hf_cpuload` returns is a percentage.
use t1_sistemas_embarcados.Prelude.{
  ℕ, zero, suc, ◌+◌, ◌*◌, ◌/◌, ◌%◌, ◌^◌, ◌≤◌, ◌<◌, ◌≡◌, refl, ◌∙◌, true, false, arith, ◌==◌,
  ℕ_discrete,
}
use native.Mathlib.Nat.{div-le_of_le-mul}
use t1_sistemas_embarcados.Kernel.{Tcb, Kernel, ok}
use t1_sistemas_embarcados.Kernel.Steps.{is_blocked}
use t1_sistemas_embarcados.Task.{exists_at, value}
use t1_sistemas_embarcados.Processor.{jobs_of, counted_jobs, jobs_loop, cpuload}

-- The jobs of the first `n` entries from `i` on, without a bound.
abbrev pub all_jobs : (ℕ → Tcb) → ℕ → ℕ → ℕ
all_jobs f zero i = 0
all_jobs f (suc n) i = counted_jobs (f i) + all_jobs f n (i + 1)

jobs_loop_lem :
    (f : ℕ → Tcb) (n i s : ℕ) → s + all_jobs f n i < 2 ^ 32 → jobs_loop f n i s ≡ s + all_jobs f n i
unfolding jobs_loop
jobs_loop_lem f zero i s l = omega arith
jobs_loop_lem f (suc n) i s l =
    let small : (s + counted_jobs (f i)) % 2 ^ 32 ≡ s + counted_jobs (f i) = ground arith in
    rw small (jobs_loop_lem f n (i + 1) (s + counted_jobs (f i)) (omega arith) ∙ omega arith)

one_of_all : (f : ℕ → Tcb) (n i x : ℕ) → i ≤ x → x < i + n → counted_jobs (f x) ≤ all_jobs f n i
one_of_all f zero i x l u = absurd (omega arith)
one_of_all f (suc n) i x l u = elim (ℕ_discrete x i) [
  | yes e ↦ rw e (omega arith)
  | no e ↦ omega (arith, one_of_all f n (i + 1) x (omega arith) (omega arith))
]

share_bound : (a s : ℕ) → a ≤ s → 0 < s → a * 100 / s ≤ 100
share_bound a s l p = div-le_of_le-mul s (omega arith)

-- Where the jobs of all tasks are few enough for 32 bits, `hf_cpuload` of a task that exists, is not
-- blocked and has run returns its part of the jobs of all tasks that are not blocked, in percent, and
-- that is at most 100.
pub cpuload_lem :
    (id : ℕ) (k : Kernel)
    → exists_at id k ≡ true
    → is_blocked (k.tcb id) ≡ false
    → 0 < jobs_of (k.tcb id)
    → all_jobs k.tcb k.max_tasks 0 * 100 < 2 ^ 32
    → (cpuload id k ≡ ok (value (jobs_of (k.tcb id) * 100 / all_jobs k.tcb k.max_tasks 0)) k)
      × (jobs_of (k.tcb id) * 100 / all_jobs k.tcb k.max_tasks 0 ≤ 100)
unfolding cpuload
cpuload_lem id k e b p small = (
  rw
      (
        jobs_loop_lem k.tcb k.max_tasks 0 0 (omega arith),
        from_zero (all_jobs k.tcb k.max_tasks 0),
        e,
        some_jobs,
        no_wrap,
      )
      refl,
  share_bound (jobs_of (k.tcb id)) (all_jobs k.tcb k.max_tasks 0) part (omega (arith, part)),
)
  where
    from_zero : (n : ℕ) → 0 + n ≡ n
    from_zero n = omega arith

    mine : counted_jobs (k.tcb id) ≡ jobs_of (k.tcb id)
    mine = ground arith

    part : jobs_of (k.tcb id) ≤ all_jobs k.tcb k.max_tasks 0
    part = omega (arith, mine, one_of_all k.tcb k.max_tasks 0 id (omega arith) (ground arith))

    some_jobs : (all_jobs k.tcb k.max_tasks 0 == 0) ≡ false
    some_jobs = ground (arith, part)

    no_wrap : jobs_of (k.tcb id) * 100 % 2 ^ 32 ≡ jobs_of (k.tcb id) * 100
    no_wrap = ground (arith, part)
