-- ===== src/Kernel/Returns.antt =====
-- Total correctness of a command: it ends with a value, without panic, fault or lack of fuel.
use t1_sistemas_embarcados.Prelude.{◌≡◌}
use t1_sistemas_embarcados.Kernel.{Kernel, Run, ok, Cmd, and_then}

pub data Returns {A : Type 0} (P : A → Kernel → Type 0) : Run A → Type 0 where
  returns : {a : A} {k : Kernel} → P a k → Returns P (ok a k)

module _ {A : Type 0} {P : A → Kernel → Type 0} where
  pub bind :
      {B : Type 0} {Q : B → Kernel → Type 0} {r : Run A} {f : A → Cmd B}
      → Returns P r
      → ((a : A) (k : Kernel) → P a k → Returns Q (f a k))
      → Returns Q (and_then r f)
  bind (returns p) next = next _ _ p

  pub mono :
      {Q : A → Kernel → Type 0} {r : Run A}
      → Returns P r
      → ((a : A) (k : Kernel) → P a k → Q a k)
      → Returns Q r
  mono (returns p) weaken = returns (weaken _ _ p)

-- The globals that moving tasks between queues leaves alone.
pub record Kept (k k' : Kernel) : Type 0 where
  pub max_tasks : k'.max_tasks ≡ k.max_tasks
  pub tasks : k'.tasks ≡ k.tasks
  pub current_task : k'.current_task ≡ k.current_task
  pub schedule : k'.schedule ≡ k.schedule
  pub coop_cswitch : k'.coop_cswitch ≡ k.coop_cswitch
  pub preempt_cswitch : k'.preempt_cswitch ≡ k.preempt_cswitch
