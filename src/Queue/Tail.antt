-- ===== src/Queue/Tail.antt =====
-- `hf_queue_remtail`, which reads the cell that `tail` names: the free one, behind the last element.
use t1_sistemas_embarcados.Prelude.{
  ℕ, ◌+◌, ◌-◌, ◌<◌, ◌≡◌, Option, none, List, [], ◌∷◌, ◌∙◌, ap, get_or-set_ne, length-append, arith,
  length, get_or, set, mod_wrap,
}
use t1_sistemas_embarcados.Queue.{
  Queue, Removed, removed, tail_minus_one, addtail, remtail, next_tail,
}
use t1_sistemas_embarcados.Queue.Refine.{Holds, addtail_step, addtail-done, elem-length, empty_iff}
use t1_sistemas_embarcados.Queue.Inv.{tail_lt}

module _ {A : Type 0} where
  -- What `hf_queue_remtail` returns to its caller.
  abbrev pub returned : Removed A → Option A
  returned (removed p q) = p
  returned (tail_minus_one p q) = p

  -- On an empty queue it returns NULL and changes nothing.
  pub remtail-nil : {q : Queue A} {n : ℕ} → Holds q n [] → remtail q ≡ removed none q
  unfolding remtail
  remtail-nil h = ground (arith, empty_iff h, elem-length h)

  -- On every other one it returns what the free cell holds, and if that is cell 0 it leaves -1 in
  -- `tail`.
  pub remtail_lem :
      {q : Queue A} {n : ℕ} {xs : List (Option A)}
      → Holds q n xs
      → 0 < length xs
      → (returned (remtail q) ≡ get_or q.cells q.tail none)
        × (q.tail ≡ 0
            → remtail q
              ≡ tail_minus_one (get_or q.cells q.tail none) (record q { elem = q.elem - 1 }))
  unfolding remtail
  remtail_lem h l =
      (ground (arith, empty_iff h, elem-length h), λ e. ground (arith, empty_iff h, elem-length h))

  -- So the pointer that `hf_queue_addtail` put at the end of a queue with two free cells or more does
  -- not come back from `hf_queue_remtail`: that returns what the next cell held before.
  pub remtail-addtail :
      {q : Queue A} {n : ℕ} {xs : List (Option A)} (p : Option A)
      → Holds q n xs
      → length xs + 1 < n
      → returned (remtail (addtail q p).1) ≡ get_or q.cells (next_tail q) none
  remtail-addtail {q} {n} {xs} p h l =
      let added = addtail-done h p (omega arith) in
      (remtail_lem added.1 (omega (arith, length-append {0} xs (p ∷ [])))).0
      ∙ rw stored (
          get_or-set_ne q.cells {i = q.tail} {j = next_tail q} p none
            (ground (arith, tail_lt h.valid, h.room, mod_wrap (q.tail + 1) q.size)))
    where
      stored :
          (addtail q p).1
          ≡ record q { cells = set q.cells q.tail p; tail = next_tail q; elem = q.elem + 1 }
      stored = ap (λ r. r.1) (addtail_step h p (omega arith))
