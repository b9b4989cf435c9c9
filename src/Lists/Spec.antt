-- ===== src/Lists/Spec.antt =====
-- The calls against the list of what the nodes hold.
use t1_sistemas_embarcados.Prelude.{
  ℕ, zero, suc, ◌-◌, ◌^◌, ◌≤◌, ◌<◌, ◌≡◌, refl, sym, ap, ◌∙◌, true, false, none, some, [], ◌∷◌, ◌++◌,
  length, arith, mem, Distinct, ne_of_mem, ltb, ◌==◌, if◌then◌else◌,
}
use mathlib.Core.Path.{subst}
use t1_sistemas_embarcados.Lists.{
  Store, set_elem, set_next, failure, append, insert, find, remove, get, set, count,
}
use t1_sistemas_embarcados.Lists.Chains.{
  Cells, addresses, last_of, IsChain, mem-last_of, IsChain-put, IsChain-set, IsChain-take_out,
}
use t1_sistemas_embarcados.Lists.Operations.{
  take, drop, take-drop, IsChain-fresh, last_node_lem, count_from_lem, node_before_lem, found,
  find_lem, found-past, found-at,
}

found_lem :
    (fuel : ℕ) (cells : Cells) (p pos : ℕ) (st : Store)
    → length cells < fuel
    → length cells < 2 ^ 32
    → IsChain st p cells
    → find fuel p 0 pos st ≡ some (found p pos cells)
found_lem fuel cells p pos st f l c =
    ap (λ k. find fuel p 0 k st) (omega arith) ∙ find_lem fuel cells p 0 pos st f (omega arith) c

IsChain-nonzero :
    (pre post : Cells) (p a item : ℕ) (st : Store)
    → IsChain st p (pre ++ ((a, item) ∷ post))
    → (a == 0) ≡ false
IsChain-nonzero [] post p a item st (e, z, h, c) = z
IsChain-nonzero ((b, y) ∷ pre) post p a item st (e, z, h, c) =
    IsChain-nonzero pre post b a item st c

IsChain-holds :
    (pre post : Cells) (p a item : ℕ) (st : Store)
    → IsChain st p (pre ++ ((a, item) ∷ post))
    → st.elem a ≡ item
IsChain-holds [] post p a item st (e, z, h, c) = h
IsChain-holds ((b, y) ∷ pre) post p a item st (e, z, h, c) = IsChain-holds pre post b a item st c

IsChain-end :
    (cells : Cells) (p : ℕ) (st : Store) → IsChain st p cells → st.next (last_of p cells) ≡ 0
IsChain-end [] p st c = c
IsChain-end ((a, x) ∷ cells) p st (e, z, h, c) = IsChain-end cells a st c

append-empty : (cells : Cells) → cells ++ [] ≡ cells
append-empty [] = refl
append-empty (c ∷ cells) = ap (λ r. c ∷ r) (append-empty cells)

-- The two writes of `next` that put the node `q` behind the nodes `pre`.
put_behind :
    (pre post : Cells) (p q item v : ℕ) (st made : Store)
    → Distinct (p ∷ addresses (pre ++ post))
    → mem q (p ∷ addresses (pre ++ post)) ≡ false
    → (q == 0) ≡ false
    → v ≡ st.next (last_of p pre)
    → made.elem q ≡ item
    → ((x : ℕ) → (x == q) ≡ false → made.next x ≡ st.next x)
    → ((x : ℕ) → (x == q) ≡ false → made.elem x ≡ st.elem x)
    → IsChain st p (pre ++ post)
    → IsChain (set_next (last_of p pre) q (set_next q v made)) p (pre ++ ((q, item) ∷ post))
put_behind pre post p q item v st made d fresh z e holds n w c =
    let other =
      ne_of_mem q (last_of p pre) (p ∷ addresses (pre ++ post)) fresh (mem-last_of pre post p) in
    IsChain-put pre post p q item st (set_next (last_of p pre) q (set_next q v made)) d fresh z
      (ground arith) (rw other (ground (arith, e))) holds (λ x h k. rw (h, k) (n x k)) w c

-- `hf_list_remove` at the position of the node `a` returns 0, gives that node to `hf_free` and leaves the list of the
-- others in their order.
pub remove_lem :
    (fuel : ℕ) (pre post : Cells) (lst a item : ℕ) (st : Store)
    → length (pre ++ ((a, item) ∷ post)) < fuel
    → length (pre ++ ((a, item) ∷ post)) < 2 ^ 32
    → Distinct (lst ∷ addresses (pre ++ ((a, item) ∷ post)))
    → IsChain st lst (pre ++ ((a, item) ∷ post))
    → (after : Store) × (remove fuel lst (length pre) st ≡ some (0, some a, after))
      × IsChain after lst (pre ++ post)
unfolding remove
remove_lem fuel pre post lst a item st f l d c =
    let place =
      found_lem fuel (pre ++ ((a, item) ∷ post)) lst (length pre) st f l c
      ∙ ap some (found-at pre post lst a item) in
    let present : (a == 0) ≡ false = IsChain-nonzero pre post lst a item st c in
    (
      set_next (last_of lst pre) (st.next a) st,
      rw (place, present) refl,
      IsChain-take_out pre post lst a item st (set_next (last_of lst pre) (st.next a) st) d
          (ground arith) (λ x h. ground arith) (λ x. refl) c,
    )

-- At the position of the node `a`, `hf_list_get` returns what it holds, and `hf_list_set` returns 0 and leaves the list
-- with that one item changed; `hf_list_count` returns the number of the nodes.
pub get-set_lem :
    (fuel : ℕ) (pre post : Cells) (lst a item v : ℕ) (st : Store)
    → length (pre ++ ((a, item) ∷ post)) < fuel
    → length (pre ++ ((a, item) ∷ post)) < 2 ^ 32
    → Distinct (lst ∷ addresses (pre ++ ((a, item) ∷ post)))
    → IsChain st lst (pre ++ ((a, item) ∷ post))
    → (get fuel lst (length pre) st ≡ some item)
      × (set fuel lst v (length pre) st ≡ some (0, set_elem a v st))
      × IsChain (set_elem a v st) lst (pre ++ ((a, v) ∷ post))
      × (count fuel lst st ≡ some (length (pre ++ ((a, item) ∷ post))))
unfolding get set count
get-set_lem fuel pre post lst a item v st f l d c =
    let place =
      found_lem fuel (pre ++ ((a, item) ∷ post)) lst (length pre) st f l c
      ∙ ap some (found-at pre post lst a item) in
    let present = IsChain-nonzero pre post lst a item st c in
    (
      rw (place, present) (ap some (IsChain-holds pre post lst a item st c)),
      rw (place, present) refl,
      IsChain-set pre post lst a item v st d.1 c,
      count_from_lem fuel (pre ++ ((a, item) ∷ post)) lst 0 st f (omega arith) c
          ∙ ap some (omega arith),
    )

-- A position at or behind the end of the list: `hf_list_remove` and `hf_list_set` return -1 and change nothing,
-- `hf_list_get` returns NULL.
past_end :
    (fuel : ℕ) (cells : Cells) (lst pos item : ℕ) (st : Store)
    → length cells < fuel
    → length cells < 2 ^ 32
    → length cells ≤ pos
    → IsChain st lst cells
    → (remove fuel lst pos st ≡ some (failure, none, st))
      × (set fuel lst item pos st ≡ some (failure, st))
      × (get fuel lst pos st ≡ some 0)
unfolding remove set get
past_end fuel cells lst pos item st f l h c =
    let place = found_lem fuel cells lst pos st f l c ∙ ap some (found-past cells lst pos h) in
    (rw place refl, rw place refl, rw place refl)

-- `hf_list_append` with a fresh node returns 0 and leaves the list with the item behind its last one.
append_lem :
    (fuel : ℕ) (cells : Cells) (lst item t1 : ℕ) (st : Store)
    → length cells < fuel
    → Distinct (lst ∷ addresses cells)
    → mem t1 (lst ∷ addresses cells) ≡ false
    → (t1 == 0) ≡ false
    → IsChain st lst cells
    → (after : Store) × (append fuel lst item t1 st ≡ some (0, after))
      × IsChain after lst (cells ++ ((t1, item) ∷ []))
unfolding append
append_lem fuel cells lst item t1 st f d fresh z c =
    let made = set_elem t1 item st in
    let found_last =
      last_node_lem fuel cells lst (set_next t1 0 made) f
        (IsChain-fresh cells lst t1 item st fresh c) in
    let whole = append-empty cells in
    (
      set_next (last_of lst cells) t1 (set_next t1 0 made),
      rw (z, found_last) refl,
      put_behind cells [] lst t1 item 0 st made
          (subst (λ r. Distinct (lst ∷ addresses r)) (sym whole) d)
          (ap (λ r. mem t1 (lst ∷ addresses r)) whole ∙ fresh) z (sym (IsChain-end cells lst st c))
          (ground arith) (λ x h. refl) (λ x h. ground arith)
          (subst (λ r. IsChain st lst r) (sym whole) c),
    )

take-all : (cells : Cells) → take (length cells) cells ≡ cells
take-all [] = refl
take-all (c ∷ cells) = ap (λ r. c ∷ r) (take-all cells)

front_lem :
    (cells : Cells) (pos : ℕ)
    → (if ltb 0 pos then take (pos - 0) cells else cells)
      ≡ take (if pos == 0 then length cells else pos) cells
front_lem cells zero = sym (take-all cells)
front_lem cells (suc pos) =
    let inside : ltb 0 (suc pos) ≡ true = ground arith in
    let nonzero : (suc pos == 0) ≡ false = ground arith in
    let same : suc pos - 0 ≡ suc pos = omega arith in rw (inside, nonzero, same) refl

-- `hf_list_insert` with a fresh node returns 0 and leaves the item behind the first `pos` items, or behind the last one
-- where `pos` is 0 or beyond it.
pub insert_lem :
    (fuel : ℕ) (cells : Cells) (lst item pos t1 : ℕ) (st : Store)
    → length cells < fuel
    → length cells < 2 ^ 32
    → Distinct (lst ∷ addresses cells)
    → mem t1 (lst ∷ addresses cells) ≡ false
    → (t1 == 0) ≡ false
    → IsChain st lst cells
    → let front = if pos == 0 then length cells else pos in
      (after : Store) × (insert fuel lst item pos t1 st ≡ some (0, after))
      × IsChain after lst (take front cells ++ ((t1, item) ∷ drop front cells))
unfolding insert
insert_lem fuel cells lst item pos t1 st f l d fresh z c =
    let made = set_next t1 0 (set_elem t1 item st) in
    let front = if pos == 0 then length cells else pos in
    let found_node =
      node_before_lem fuel cells lst 0 pos made f (omega arith)
        (IsChain-fresh cells lst t1 item st fresh c)
      ∙ ap (λ r. some (last_of lst r)) (front_lem cells pos) in
    let whole = take-drop front cells in
    let still_fresh = ap (λ r. mem t1 (lst ∷ addresses r)) whole ∙ fresh in
    let other : (last_of lst (take front cells) == t1) ≡ false = ground (
      arith,
      ne_of_mem t1 (last_of lst (take front cells))
          (lst ∷ addresses (take front cells ++ drop front cells)) still_fresh
          (mem-last_of (take front cells) (drop front cells) lst),
    ) in
    (
      set_next (last_of lst (take front cells)) t1
          (set_next t1 (made.next (last_of lst (take front cells))) made),
      rw (z, found_node) refl,
      put_behind (take front cells) (drop front cells) lst t1 item
          (made.next (last_of lst (take front cells))) st made
          (subst (λ r. Distinct (lst ∷ addresses r)) (sym whole) d) still_fresh z (rw other refl)
          (ground arith) (λ x h. rw h refl) (λ x h. rw h refl)
          (subst (λ r. IsChain st lst r) (sym whole) c),
    )
