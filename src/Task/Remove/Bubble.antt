-- ===== src/Task/Remove/Bubble.antt =====
-- Finding a task in a queue, swapping it to the head, and removing it: the others keep their order.
use t1_sistemas_embarcados.Prelude.{
  ℕ, zero, suc, ◌+◌, ◌-◌, ◌≡◌, refl, sym, ap, ap₂, ◌∙◌, true, false, ◌||◌, some, List, [], ◌∷◌,
  ◌++◌, arith, ◌==◌, ==_refl, length, length-append, mem,
}
use mathlib.Core.List.{append_assoc}
use mathlib.Core.Path.{subst}
use t1_sistemas_embarcados.Queue.{Queue, Status, done, failed, get, swap}
use t1_sistemas_embarcados.Kernel.{
  Kernel, Run, Cause, cant_swap, ok, panicked, and_then, QueueName, run, rt, delay, aperiodic,
  queue_of, with_queue,
}
use t1_sistemas_embarcados.Kernel.Steps.{take_head}
use t1_sistemas_embarcados.Kernel.View.{
  Tasks, take_head-cons, count_of-length, queue_of-with_queue, with_queue-with_queue,
}
use t1_sistemas_embarcados.Kernel.Places.{get-behind, swap-around_back}
use t1_sistemas_embarcados.Task.Remove.{is_at, position, swap_down, bubble, take_out}

module _ {q : Queue ℕ} {m : ℕ} (t : ℕ) (post : List ℕ) where
  -- The search stops at the first position that holds the task.
  position_lem :
      (pre before : List ℕ) (i : ℕ)
      → i ≡ length before
      → Tasks q m (before ++ (pre ++ (t ∷ post)))
      → mem t pre ≡ false
      → position q t (length (pre ++ (t ∷ post))) i ≡ i + length pre
  unfolding position
  position_lem [] before i e h out =
      let at_t : is_at (get q i) t ≡ true =
        ap (λ j. is_at (get q j) t) e
        ∙ ap (λ p. is_at p t) (get-behind before t post h)
        ∙ ==_refl t in
      rw at_t (omega arith)
  position_lem (x ∷ pre) before i e h out =
      let at_x : is_at (get q i) t ≡ false =
        ap (λ j. is_at (get q j) t) e
        ∙ ap (λ p. is_at p t) (get-behind before x (pre ++ (t ∷ post)) h)
        ∙ apart in
      let next =
        position_lem pre (before ++ (x ∷ [])) (i + 1)
          (omega (arith, length-append {0} before (x ∷ [])))
          (subst (Tasks q m) (sym (append_assoc before (x ∷ []) (pre ++ (t ∷ post)))) h)
          (ground arith) in
      rw at_x (next ∙ omega arith)
    where
      apart : (x == t) ≡ false
      apart = ground arith

-- A list that is not empty has a last member.
last_member :
    (n : ℕ) (l : List ℕ)
    → length l ≡ suc n
    → (pre : List ℕ) × (x : ℕ) × (l ≡ pre ++ (x ∷ [])) × (length pre ≡ n)
last_member n [] e = absurd (omega arith)
last_member zero (x ∷ []) e = ([], x, refl, refl)
last_member zero (x ∷ y ∷ l) e = absurd (omega arith)
last_member (suc n) (x ∷ l) e =
    let (pre, y, f, g) = last_member n l (omega arith) in (x ∷ pre, y, ap (λ l. x ∷ l) f, ap suc g)

module _ (n : QueueName) {m : ℕ} (t : ℕ) where
  swap_down_lem :
      (j : ℕ) (k : Kernel) (pre : List ℕ) (x : ℕ) (post : List ℕ)
      → length pre ≡ j
      → Tasks (queue_of n k) m (pre ++ (x ∷ t ∷ post))
      → (q : Queue ℕ) × (swap_down n (suc j) k ≡ ok tt (with_queue n q k))
        × Tasks q m (pre ++ (t ∷ x ∷ post))
  unfolding swap_down
  swap_down_lem j k pre x post e h =
      let (d, r) = swap-around_back pre x [] t post h in
      (
        (swap (queue_of n k) (length (pre ++ (x ∷ []))) (length pre)).1,
        ap₂ (λ a b. swapped (swap (queue_of n k) a b)) back (low ∙ sym e) ∙ done_case _ d,
        r,
      )
    where
      swapped : Status × Queue ℕ → Run (Unit {0})
      swapped r = elim r.0 [ done ↦ ok tt (with_queue n r.1 k) | failed ↦ panicked cant_swap ]

      done_case : (r : Status × Queue ℕ) → r.0 ≡ done → swapped r ≡ ok tt (with_queue n r.1 k)
      done_case r e = rw e refl

      back : suc j ≡ length (pre ++ (x ∷ []))
      back = omega (arith, length-append {0} pre (x ∷ []))

      low : suc j - 1 ≡ j
      low = omega arith

  bubble_lem :
      (j : ℕ) (k : Kernel) (pre post : List ℕ)
      → length pre ≡ j
      → Tasks (queue_of n k) m (pre ++ (t ∷ post))
      → (q : Queue ℕ) × (bubble n j k ≡ ok tt (with_queue n q k)) × Tasks q m (t ∷ (pre ++ post))
  unfolding bubble
  bubble_lem zero k [] post e h = (queue_of n k, ap (ok tt) (sym (same n)), h)
    where
      same : (n : QueueName) → with_queue n (queue_of n k) k ≡ k
      same run = refl
      same rt = refl
      same delay = refl
      same aperiodic = refl
  bubble_lem zero k (x ∷ pre) post e h = absurd (omega arith)
  bubble_lem (suc j) k pre post e h =
      let (front, x, f, g) = last_member j pre e in
      let (q, d, r) = swap_down_lem j k front x post g (
        subst (Tasks (queue_of n k) m)
          (ap (λ l. l ++ (t ∷ post)) f ∙ append_assoc front (x ∷ []) (t ∷ post)) h) in
      let (q', d', r') =
        bubble_lem j (with_queue n q k) front (x ∷ post) g
          (subst (λ q. Tasks q m (front ++ (t ∷ x ∷ post))) (sym (queue_of-with_queue n q k)) r) in
      (
        q',
        ap (λ o. and_then o (λ _. bubble n j)) d ∙ d' ∙ ap (ok tt) (with_queue-with_queue n q' q k),
        subst (Tasks q' m)
            (ap (λ l. t ∷ l) (sym (append_assoc front (x ∷ []) post) ∙ ap (λ l. l ++ post) (sym f)))
            r',
      )

  -- A task that is once in the queue is taken out, and the others keep their order.
  pub take_out_lem :
      (cause : Cause) (k : Kernel) (pre post : List ℕ)
      → Tasks (queue_of n k) m (pre ++ (t ∷ post))
      → mem t pre ≡ false
      → (q : Queue ℕ) × (take_out n cause t k ≡ ok (some t) (with_queue n q k))
        × Tasks q m (pre ++ post)
  unfolding take_out
  take_out_lem cause k pre post h out =
      let (q, e, r) = bubble_lem (length pre) k pre post refl h in
      let (q', e', r') =
        take_head-cons n (with_queue n q k)
          (subst (λ q. Tasks q m (t ∷ (pre ++ post))) (sym (queue_of-with_queue n q k)) r) in
      (
        q',
        rw
            (
              count_of-length n k h,
              position_lem t post pre [] 0 refl h out ∙ from_zero (length pre),
              found,
            )
            (ap (λ o. and_then o (λ _. take_head n)) e
              ∙ e'
              ∙ ap (ok (some t)) (with_queue-with_queue n q' q k)),
        r',
      )
    where
      found : (length (pre ++ (t ∷ post)) == 0 || length pre == length (pre ++ (t ∷ post))) ≡ false
      found = ground (arith, length-append {0} pre (t ∷ post))

      from_zero : (n : ℕ) → 0 + n ≡ n
      from_zero n = omega arith
