-- ===== src/Tests/OnLists.antt =====
-- list.c on a list of two nodes.
use t1_sistemas_embarcados.Prelude.{◌≡◌, refl, some, [], ◌∷◌, arith, ◌==◌, if◌then◌else◌}
use t1_sistemas_embarcados.Lists.{Store, set_elem, insert, remove, get, set, count}
use t1_sistemas_embarcados.Lists.Chains.{IsChain}
use t1_sistemas_embarcados.Lists.Spec.{insert_lem, remove_lem, get-set_lem}

-- The head node at 8, behind it the nodes at 16 and 24 that hold 5 and 6.
abbrev two_nodes : Store
two_nodes = record {
  elem = λ x. if x == 16 then 5 else if x == 24 then 6 else 0;
  next = λ x. if x == 8 then 16 else if x == 16 then 24 else 0;
}

insert_example :
    (after : Store) × (insert 5 8 7 1 32 two_nodes ≡ some (0, after))
    × IsChain after 8 ((16, 5) ∷ (32, 7) ∷ (24, 6) ∷ [])
insert_example =
    insert_lem 5 ((16, 5) ∷ (24, 6) ∷ []) 8 7 1 32 two_nodes (omega arith) (omega arith)
      (refl, (refl, (refl, tt))) refl refl (refl, refl, refl, (refl, refl, refl, refl))

remove_example :
    (after : Store) × (remove 5 8 1 two_nodes ≡ some (0, some 24, after))
    × IsChain after 8 ((16, 5) ∷ [])
remove_example =
    remove_lem 5 ((16, 5) ∷ []) [] 8 24 6 two_nodes (omega arith) (omega arith)
      (refl, (refl, (refl, tt))) (refl, refl, refl, (refl, refl, refl, refl))

get-set_example :
    (get 5 8 0 two_nodes ≡ some 5)
    × (set 5 8 9 0 two_nodes ≡ some (0, set_elem 16 9 two_nodes))
    × IsChain (set_elem 16 9 two_nodes) 8 ((16, 9) ∷ (24, 6) ∷ [])
    × (count 5 8 two_nodes ≡ some 2)
get-set_example =
    get-set_lem 5 [] ((24, 6) ∷ []) 8 16 5 9 two_nodes (omega arith) (omega arith)
      (refl, (refl, (refl, tt))) (refl, refl, refl, (refl, refl, refl, refl))
