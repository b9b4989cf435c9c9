-- ===== src/Tests/OnQueue.antt =====
-- queue.c on small queues.
use t1_sistemas_embarcados.Prelude.{
  ℕ, ◌+◌, ◌≡◌, refl, none, some, List, [], ◌∷◌, arith, ltb, if◌then◌else◌, replicate,
  length-replicate, ◌*◌, Bool-cases, false, inl, inr,
}
use t1_sistemas_embarcados.Queue.{Allocator, Queue, failed, create, destroy}
use t1_sistemas_embarcados.Queue.Refine.{Holds}
use t1_sistemas_embarcados.Queue.Spec.{
  Op, count_op, add, rem, get_op, set_op, swap_op, run, run_list, run-run_list,
}
use t1_sistemas_embarcados.Queue.Create.{IsSized, create-Holds, destroy-Holds}
use t1_sistemas_embarcados.Tests.{queue_of_two, two-Holds}

-- A heap of `limit` bytes that are handed out in order and never taken back.
abbrev bump : ℕ → Allocator ℕ
bump limit = record {
  Heap = ℕ;
  malloc =
      λ bytes used. if ltb limit (used + bytes) then (none, used) else (some used, used + bytes);
  free = λ p used. used;
  words = λ p n used. if ltb used (p + n * 4) then [] else replicate n none;
}

abbrev script : List (Op ℕ)
script =
    add (some 3)
    ∷ swap_op 0 2
    ∷ rem
    ∷ set_op 1 none
    ∷ get_op 0
    ∷ count_op
    ∷ add none
    ∷ add (some 9)
    ∷ add (some 9)
    ∷ []

run-run_list_example : run (queue_of_two 1 2) script ≡ run_list 4 (some 1 ∷ some 2 ∷ []) script
run-run_list_example = run-run_list script (two-Holds 1 2)

bump-IsSized : (limit : ℕ) → IsSized (bump limit)
bump-IsSized limit bytes p n h e l = elim (Bool-cases (ltb limit (h + bytes))) [
  | inl y ↦ absurd (ground arith)
  | inr y ↦
      let got : p ≡ h = ground arith in
      let fits : ltb (h + bytes) (p + n * 4) ≡ false = ground arith in
      rw (y, fits) (length-replicate n none)
]

create-Holds_example : (q : Queue ℕ) × ((create (bump 4096) 4 0).0 ≡ some q) × Holds q 4 []
create-Holds_example = create-Holds (bump 4096) 4 0 20 0 (bump-IsSized 4096) (omega arith) refl refl

destroy-Holds_example : destroy (bump 4096) (queue_of_two 1 2) 40 ≡ (failed, 40)
destroy-Holds_example = destroy-Holds (bump 4096) 40 (two-Holds 1 2)
