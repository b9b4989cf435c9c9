-- ===== src/Mutex/Exclusion.antt =====
-- Tasks that share a mutex, interleaved in any order, one `tsl` at a time.
use t1_sistemas_embarcados.Prelude.{
  ℕ, ◌≤◌, ◌≡◌, true, false, if◌then◌else◌, List, [], ◌∷◌, ◌==◌, length, mem,
}
use t1_sistemas_embarcados.Mutex.{Mutex, lock_round, mtxunlock}

-- The mutex, and the tasks between the end of `hf_mtxlock` and `hf_mtxunlock`.
pub record World : Type 0 where
  pub mutex : Mutex
  pub inside : List ℕ

abbrev without : ℕ → List ℕ → List ℕ
without t [] = []
without t (x ∷ xs) = if x == t then xs else x ∷ without t xs

-- A round of the loop of `hf_mtxlock` by the task `t`, which ends the loop or not; or
-- `hf_mtxunlock`, by a task that is inside.
pub data Step (w : World) : World → Type 0 where
  enters :
      (t : ℕ)
      → (lock_round w.mutex).0 ≡ true
      → Step w (record { mutex = (lock_round w.mutex).1; inside = t ∷ w.inside })
  spins :
      (t : ℕ)
      → (lock_round w.mutex).0 ≡ false
      → Step w (record w { mutex = (lock_round w.mutex).1 })
  leaves :
      (t : ℕ)
      → mem t w.inside ≡ true
      → Step w (record { mutex = mtxunlock w.mutex; inside = without t w.inside })

pub data Reaches (w : World) : World → Type 0 where
  here : Reaches w w
  further : {v u : World} → Reaches w v → Step v u → Reaches w u

-- The lock is 0 and nobody is inside, or it is 1 and one task is.
abbrev pub IsGuarded : World → Type 0
IsGuarded w = (w.mutex.lock ≤ 1) × (length w.inside ≡ w.mutex.lock)
