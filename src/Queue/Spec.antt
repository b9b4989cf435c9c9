-- ===== src/Queue/Spec.antt =====
-- What queue.c promises: a list of at most `n` pointers. The calls in sequence, on the circular
-- array and on the list; `hf_queue_remtail`, which is no such call, is in Tail.
use t1_sistemas_embarcados.Prelude.{
  ℕ, ◌≡◌, refl, ap, ap₂, Option, none, List, [], ◌∷◌, ◌++◌, arith, ltb, ◌&&◌, if◌then◌else◌, length,
  get_or, set, Bool-cases, inl, inr, ltb→lt,
}
use t1_sistemas_embarcados.Queue.{
  Queue, Status, done, failed, count, addtail, remhead, get, set_at, swap,
}
use t1_sistemas_embarcados.Queue.Refine.{
  Holds, count-Holds, addtail-full, addtail-done, get-get_or, length-le, set_at-Holds,
  set_at-absent, swap-Holds, swap-absent, remhead-nil, remhead-cons,
}

-- A call of queue.c, with a position that is not negative, and what it returns.
pub data Op (A : Type 0) : Type 0 where
  count_op : Op A
  add : Option A → Op A
  rem : Op A
  get_op : ℕ → Op A
  set_op : ℕ → Option A → Op A
  swap_op : ℕ → ℕ → Op A

pub data Reply (A : Type 0) : Type 0 where
  number : ℕ → Reply A
  status : Status → Reply A
  pointer : Option A → Reply A

module _ {A : Type 0} where
  pub call : Queue A → Op A → Reply A × Queue A
  call q count_op = (number (count q), q)
  call q (add p) = let (s, r) = addtail q p in (status s, r)
  call q rem = let (p, r) = remhead q in (pointer p, r)
  call q (get_op i) = (pointer (get q i), q)
  call q (set_op i p) = let (s, r) = set_at q i p in (status s, r)
  call q (swap_op i j) = let (s, r) = swap q i j in (status s, r)

  pub run : Queue A → List (Op A) → List (Reply A)
  run q [] = []
  run q (o ∷ os) = let (a, r) = call q o in a ∷ run r os

  pop_list : List (Option A) → Reply A × List (Option A)
  pop_list [] = (pointer none, [])
  pop_list (x ∷ xs) = (pointer x, xs)

  -- The same on a list that takes `n` pointers.
  pub call_list : ℕ → List (Option A) → Op A → Reply A × List (Option A)
  unfolding pop_list
  call_list n xs count_op = (number (length xs), xs)
  call_list n xs (add p) =
      if ltb (length xs) n then (status done, xs ++ (p ∷ [])) else (status failed, xs)
  call_list n xs rem = pop_list xs
  call_list n xs (get_op i) = (pointer (get_or xs i none), xs)
  call_list n xs (set_op i p) =
      if ltb i (length xs) then (status done, set xs i p) else (status failed, xs)
  call_list n xs (swap_op i j) =
      if ltb i (length xs) && ltb j (length xs)
      then (status done, set (set xs i (get_or xs j none)) j (get_or xs i none))
      else (status failed, xs)

  pub run_list : ℕ → List (Option A) → List (Op A) → List (Reply A)
  run_list n xs [] = []
  run_list n xs (o ∷ os) = let (a, ys) = call_list n xs o in a ∷ run_list n ys os

  -- One call: the same answer, and the queue stands for the new list.
  abbrev Agrees : ℕ → Reply A × Queue A → Reply A × List (Option A) → Type 0
  Agrees n r s = (r.0 ≡ s.0) × Holds r.1 n s.1

  module _ {q : Queue A} {n : ℕ} {xs : List (Option A)} (h : Holds q n xs) where
    add-Agrees : (p : Option A) → Agrees n (call q (add p)) (call_list n xs (add p))
    unfolding call call_list
    add-Agrees p = elim (Bool-cases (ltb (length xs) n)) [
      | inl l ↦ rw l (let (e, k) = addtail-done h p (ltb→lt (length xs) n l) in (ap status e, k))
      | inr l ↦ rw (l, addtail-full h p (ground (arith, length-le h))) (refl, h)
    ]

    set-Agrees :
        (i : ℕ) (p : Option A) → Agrees n (call q (set_op i p)) (call_list n xs (set_op i p))
    unfolding call call_list
    set-Agrees i p = elim (Bool-cases (ltb i (length xs))) [
      | inl l ↦ rw l (let (e, k) = set_at-Holds h i p (ltb→lt i (length xs) l) in (ap status e, k))
      | inr l ↦ rw (l, set_at-absent h i p (ground arith)) (refl, h)
    ]

    swap-Agrees : (i j : ℕ) → Agrees n (call q (swap_op i j)) (call_list n xs (swap_op i j))
    unfolding call call_list
    swap-Agrees i j = elim (Bool-cases (ltb i (length xs) && ltb j (length xs))) [
      | inl l ↦
          rw l (let (e, k) = swap-Holds h i j (ground arith) (ground arith) in (ap status e, k))
      | inr l ↦ rw (l, swap-absent h i j (ground arith)) (refl, h)
    ]

    get-Agrees : (i : ℕ) → Agrees n (call q (get_op i)) (call_list n xs (get_op i))
    unfolding call call_list
    get-Agrees i = (ap pointer (get-get_or h i), h)

  rem-Agrees :
      {q : Queue A} {n : ℕ} (xs : List (Option A))
      → Holds q n xs
      → Agrees n (call q rem) (call_list n xs rem)
  unfolding call call_list
  rem-Agrees [] h = rw (remhead-nil h) (refl, h)
  rem-Agrees (x ∷ xs) h = let (e, k) = remhead-cons h in (ap pointer e, k)

  pub call-Agrees :
      {q : Queue A} {n : ℕ} {xs : List (Option A)}
      → Holds q n xs
      → (o : Op A) → Agrees n (call q o) (call_list n xs o)
  call-Agrees h count_op = unfold call call_list in (ap number (count-Holds h), h)
  call-Agrees h (add p) = add-Agrees h p
  call-Agrees {xs} h rem = rem-Agrees xs h
  call-Agrees h (get_op i) = get-Agrees h i
  call-Agrees h (set_op i p) = set-Agrees h i p
  call-Agrees h (swap_op i j) = swap-Agrees h i j

  -- Any sequence of the calls `hf_queue_count`, `hf_queue_addtail`, `hf_queue_remhead`, `hf_queue_get`,
  -- `hf_queue_set` and `hf_queue_swap`, with positions that are not negative, on a queue of at most 2^30 cells
  -- that stands for the list `xs` and takes `n` pointers gets the answers of the list bounded by `n`.
  pub run-run_list :
      (os : List (Op A)) {q : Queue A} {n : ℕ} {xs : List (Option A)}
      → Holds q n xs
      → run q os ≡ run_list n xs os
  unfolding run run_list
  run-run_list [] h = refl
  run-run_list (o ∷ os) h = let (e, k) = call-Agrees h o in ap₂ ◌∷◌ e (run-run_list os k)
