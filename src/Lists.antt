-- ===== src/Lists.antt =====
-- hellfireos/sys/lib/list.c, its type in hellfireos/sys/include/list.h. A list is a chain of nodes behind
-- a head node; the store gives the fields of the node at an address, and NULL is the address 0. What
-- `hf_malloc` answers is the argument `t1`, what goes to `hf_free` is a result. The loops run on fuel;
-- `none` is a loop that has not ended. An `int32_t` is its 32 bits.
pub mod Chains
pub mod Operations
pub mod Spec
use t1_sistemas_embarcados.Libc.{◌>>=◌}
use t1_sistemas_embarcados.Prelude.{
  ℕ, zero, suc, ◌+◌, ◌-◌, ◌^◌, ◌%◌, Bool, Option, none, some, ◌==◌, if◌then◌else◌,
}

-- `struct list`, for every address.
pub record Store : Type 0 where
  pub elem : ℕ → ℕ
  pub next : ℕ → ℕ

-- `a->elem = v` and `a->next = v`.
abbrev pub set_elem : ℕ → ℕ → Store → Store
set_elem a v st = record st { elem = λ x. if x == a then v else st.elem x }

abbrev pub set_next : ℕ → ℕ → Store → Store
set_next a v st = record st { next = λ x. if x == a then v else st.next x }

-- -1.
abbrev pub failure : ℕ
failure = 2 ^ 32 - 1

-- `hf_list_init`.
pub init : ℕ → Store → ℕ × Store
init lst st = if lst == 0 then (0, st) else (lst, set_elem lst 0 (set_next lst 0 st))

-- `while (t2->next) t2 = t2->next;`
pub last_node : ℕ → ℕ → Store → Option ℕ
last_node zero t2 st = none
last_node (suc fuel) t2 st =
    let rest = last_node fuel (st.next t2) st in if st.next t2 == 0 then some t2 else rest

-- `hf_list_append`.
pub append : ℕ → ℕ → ℕ → ℕ → Store → Option (ℕ × Store)
append fuel lst item t1 st = if t1 == 0 then some (failure, st) else do
  t2 ← last_node fuel lst (set_next t1 0 (set_elem t1 item st))
  some (0, set_next t2 t1 (set_next t1 0 (set_elem t1 item st)))

-- The loop of `hf_list_insert`: the node that the new one goes behind.
pub node_before : ℕ → ℕ → ℕ → ℕ → Store → Option ℕ
node_before zero t2 i pos st = none
node_before (suc fuel) t2 i pos st =
    let i' = (i + 1) % 2 ^ 32 in
    let rest = node_before fuel (st.next t2) i' pos st in
    if st.next t2 == 0 then some t2 else if i' == pos then some (st.next t2) else rest

-- `hf_list_insert`.
pub insert : ℕ → ℕ → ℕ → ℕ → ℕ → Store → Option (ℕ × Store)
insert fuel lst item pos t1 st =
    if t1 == 0
    then some (failure, st)
    else let fresh = set_next t1 0 (set_elem t1 item st) in
      do
        t2 ← node_before fuel lst 0 pos fresh
        some (0, set_next t2 t1 (set_next t1 (fresh.next t2) fresh))

-- The loop that `hf_list_remove`, `hf_list_get` and `hf_list_set` share: the node at the position
-- and the one before it, or 0 where the list ends.
pub find : ℕ → ℕ → ℕ → ℕ → Store → Option (ℕ × ℕ)
find zero t1 i pos st = none
find (suc fuel) t1 i pos st =
    let rest = find fuel (st.next t1) ((i + 1) % 2 ^ 32) pos st in
    if st.next t1 == 0 then some (0, t1) else if i == pos then some (st.next t1, t1) else rest

-- `hf_list_remove`: the result, the node given to `hf_free` and the store.
pub remove : ℕ → ℕ → ℕ → Store → Option (ℕ × Option ℕ × Store)
remove fuel lst pos st = do
  (t1, t2) ← find fuel lst 0 pos st
  some (if t1 == 0 then (failure, none, st) else (0, some t1, set_next t2 (st.next t1) st))

-- `hf_list_get`.
pub get : ℕ → ℕ → ℕ → Store → Option ℕ
get fuel lst pos st = do (t1, t2) ← find fuel lst 0 pos st; some (if t1 == 0 then 0 else st.elem t1)

-- `hf_list_set`.
pub set : ℕ → ℕ → ℕ → ℕ → Store → Option (ℕ × Store)
set fuel lst item pos st = do
  (t1, t2) ← find fuel lst 0 pos st
  some (if t1 == 0 then (failure, st) else (0, set_elem t1 item st))

-- `hf_list_count`.
pub count_from : ℕ → ℕ → ℕ → Store → Option ℕ
count_from zero t1 i st = none
count_from (suc fuel) t1 i st =
    let rest = count_from fuel (st.next t1) ((i + 1) % 2 ^ 32) st in
    if st.next t1 == 0 then some i else rest

pub count : ℕ → ℕ → Store → Option ℕ
count fuel lst st = count_from fuel lst 0 st
