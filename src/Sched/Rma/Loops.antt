-- ===== src/Sched/Rma/Loops.antt =====
-- The loops of `sched_rma` on a real-time queue: the sort, and the update of every task.
use t1_sistemas_embarcados.Prelude.{
  ℕ, zero, suc, ◌+◌, ◌≡◌, refl, sym, ap, ap₂, ◌∙◌, List, [], ◌∷◌, ◌++◌, arith, ltb, if◌then◌else◌,
  length, length-append, Bool-cases, inl, inr,
}
use mathlib.Core.List.{append_assoc}
use mathlib.Core.Path.{subst}
use t1_sistemas_embarcados.Queue.{Queue, swap}
use t1_sistemas_embarcados.Kernel.{Kernel, and_then, ok}
use t1_sistemas_embarcados.Kernel.View.{Tasks}
use t1_sistemas_embarcados.Kernel.Places.{around, around_assoc, get-behind, swap-around}
use t1_sistemas_embarcados.Sched.Rma.Sort.{settle, length-settle, sorted_by}
use t1_sistemas_embarcados.Sched.Rma.{entry_at, swap_rt, order, inner, outer}

-- The real-time queue is replaced, and all else is as in `k`.
abbrev pub Sorted : Kernel → List ℕ → Kernel → Type 0
Sorted k ts k' = (q : Queue ℕ) × (k' ≡ record k { rt_queue = q }) × Tasks q k.max_tasks ts

abbrev pub period_of : Kernel → ℕ → ℕ
period_of k t = (k.tcb t).period

module _ (k : Kernel) (pre : List ℕ) where
  -- One comparison, of the tasks `x` and `y`.
  order_lem :
      (x : ℕ) (mid : List ℕ) (y : ℕ) (ys : List ℕ)
      → Tasks k.rt_queue k.max_tasks (around pre x mid y ys)
      → (q : Queue ℕ) × (order (length pre) (length (pre ++ (x ∷ mid))) k
          ≡ ok tt (record k { rt_queue = q }))
        × Tasks q k.max_tasks (
            if ltb (period_of k y) (period_of k x)
            then around pre y mid x ys
            else around pre x mid y ys)
  unfolding order entry_at swap_rt
  order_lem x mid y ys h =
      let at_y =
        get-behind (pre ++ (x ∷ mid)) y ys
          (subst (Tasks k.rt_queue k.max_tasks) (sym (around_assoc pre x mid y ys)) h) in
      elim (Bool-cases (ltb (period_of k y) (period_of k x))) [
        | inl b ↦
            let (e, r) = swap-around pre x mid y ys h in
            (
              (swap k.rt_queue (length pre) (length (pre ++ (x ∷ mid)))).1,
              rw (get-behind pre x _ h, at_y, b, e, order, entry_at, swap_rt) refl,
              rw b r,
            )
        | inr b ↦ (k.rt_queue, rw (get-behind pre x _ h, at_y, b, order, entry_at) refl, rw b h)
      ]

-- A task between `mid` and the rest belongs to either.
regroup :
    (pre : List ℕ) (x : ℕ) (mid : List ℕ) (y : ℕ) (ys : List ℕ)
    → pre ++ (x ∷ ((mid ++ (y ∷ [])) ++ ys)) ≡ around pre x mid y ys
regroup pre x mid y ys = ap (λ l. pre ++ (x ∷ l)) (append_assoc mid (y ∷ []) ys)

next_place :
    (pre : List ℕ) (x : ℕ) (mid : List ℕ) (y z : ℕ) (j : ℕ)
    → j ≡ length (pre ++ (x ∷ mid))
    → j + 1 ≡ length (pre ++ (y ∷ (mid ++ (z ∷ []))))
next_place pre x mid y z j e = omega (
  arith,
  length-append {0} pre (x ∷ mid),
  length-append {0} pre (y ∷ (mid ++ (z ∷ []))),
  length-append {0} mid (z ∷ []),
)

-- What the inner loop makes of the list behind `pre`.
abbrev settled : Kernel → List ℕ → ℕ → List ℕ → List ℕ → List ℕ
settled k pre x mid ys =
    pre ++ ((settle (period_of k) x ys).0 ∷ (mid ++ (settle (period_of k) x ys).1))

-- The inner loop at the position behind `pre`, with the tasks `mid` compared and `ys` to come.
inner_lem :
    (ys : List ℕ) (k : Kernel) (pre : List ℕ) (x : ℕ) (mid : List ℕ) (j : ℕ)
    → j ≡ length (pre ++ (x ∷ mid))
    → Tasks k.rt_queue k.max_tasks (pre ++ (x ∷ (mid ++ ys)))
    → (q : Queue ℕ) × (inner (length pre) (length ys) j k ≡ ok tt (record k { rt_queue = q }))
      × Tasks q k.max_tasks (settled k pre x mid ys)
unfolding inner
inner_lem [] k pre x mid j at_j h = (k.rt_queue, refl, h)
inner_lem (y ∷ ys) k pre x mid j at_j h =
    let (q, e, r) = order_lem k pre x mid y ys h in
    elim (Bool-cases (ltb (period_of k y) (period_of k x))) [
      | inl b ↦
          let (q', e', r') =
            inner_lem ys (record k { rt_queue = q }) pre y (mid ++ (x ∷ [])) (j + 1)
              (next_place pre x mid y x j at_j)
              (subst (Tasks q k.max_tasks) (sym (regroup pre y mid x ys)) (rw b at r)) in
          (
            q',
            ap (λ o. and_then o (λ _. inner (length pre) (length ys) (j + 1)))
                  (ap (λ p. order (length pre) p k) at_j ∙ e)
                ∙ e',
            rw b (subst (Tasks q' k.max_tasks) (regroup pre _ mid x _) r'),
          )
      | inr b ↦
          let (q', e', r') =
            inner_lem ys (record k { rt_queue = q }) pre x (mid ++ (y ∷ [])) (j + 1)
              (next_place pre x mid x y j at_j)
              (subst (Tasks q k.max_tasks) (sym (regroup pre x mid y ys)) (rw b at r)) in
          (
            q',
            ap (λ o. and_then o (λ _. inner (length pre) (length ys) (j + 1)))
                  (ap (λ p. order (length pre) p k) at_j ∙ e)
                ∙ e',
            rw b (subst (Tasks q' k.max_tasks) (regroup pre _ mid y _) r'),
          )
    ]

-- The whole sort, from the position behind `pre`, with `n` rounds left.
pub outer_lem :
    (n : ℕ) (k : Kernel) (pre xs : List ℕ) (i : ℕ)
    → i ≡ length pre
    → length xs ≡ suc n
    → Tasks k.rt_queue k.max_tasks (pre ++ xs)
    → (q : Queue ℕ) × (outer n i k ≡ ok tt (record k { rt_queue = q }))
      × Tasks q k.max_tasks (pre ++ sorted_by (period_of k) n xs)
unfolding outer
outer_lem zero k pre xs i at_i l h = (k.rt_queue, refl, h)
outer_lem (suc n) k pre [] i at_i l h = absurd (omega arith)
outer_lem (suc n) k pre (x ∷ xs) i at_i l h =
    let (q, e, r) =
      inner_lem xs k pre x [] (i + 1) (omega (arith, length-append {0} pre (x ∷ []))) h in
    let (m, zs) = settle (period_of k) x xs in
    let (q', e', r') =
      outer_lem n (record k { rt_queue = q }) (pre ++ (m ∷ [])) zs (i + 1)
        (omega (arith, length-append {0} pre (m ∷ [])))
        (omega (arith, length-settle (period_of k) x xs))
        (subst (Tasks q k.max_tasks) (sym (append_assoc pre (m ∷ []) zs)) r) in
    (
      q',
      ap (λ o. and_then o (λ _. outer n (i + 1))) (start_at q e) ∙ e',
      subst (Tasks q' k.max_tasks) (append_assoc pre (m ∷ []) (sorted_by (period_of k) n zs)) r',
    )
  where
    start_at :
        (q : Queue ℕ)
        → inner (length pre) (length xs) (i + 1) k ≡ ok tt (record k { rt_queue = q })
        → inner i (suc n) (i + 1) k ≡ ok tt (record k { rt_queue = q })
    start_at q e =
        let rounds : length xs ≡ suc n = omega arith in
        ap₂ (λ a b. inner a b (i + 1) k) at_i (sym rounds) ∙ e
