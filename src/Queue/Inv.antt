-- ===== src/Queue/Inv.antt =====
-- The representation invariant of `struct queue`, and that each function of queue.c keeps it. With at most
-- 2^30 cells the sums of two indexes are `int32_t`.
use Prim.Native.Nat.{ℕ, ◌+◌, ◌-◌, ◌%◌, ◌^◌, ◌≤◌, ◌<◌}
use t1_sistemas_embarcados.Prelude.{
  ◌≡◌, Option, none, get_or, set, arith, length, length-set, mod_wrap,
}
use t1_sistemas_embarcados.Queue.{Queue, addtail, remhead, set_at, swap, slot}

module _ {A : Type 0} where
  pub record IsValid (q : Queue A) : Type 0 where
    pub small : q.size ≤ 2 ^ 30
    pub stored : length q.cells ≡ q.size
    pub head_in : q.head < q.size
    pub free_cell : q.elem < q.size
    pub tail_at : q.tail ≡ (q.head + q.elem) % q.size

  -- The sums under `%` run at most once past the end.
  pub tail_lt : {q : Queue A} → IsValid q → q.tail < q.size
  tail_lt {q} v = omega (arith, mod_wrap (q.head + q.elem) q.size)

  -- `head + elem`, `head + pos` and `tail + 1`, of which the code takes the remainder, do not overflow.
  sums_fit :
      {q : Queue A}
      → IsValid q
      → (i : ℕ) → i < q.elem
      → (q.head + q.elem < 2 ^ 31) × ((q.head + i < 2 ^ 31) × (q.tail + 1 < 2 ^ 31))
  sums_fit {q} v i l = (omega (arith, v), (omega (arith, v), omega (arith, v, tail_lt v)))

  module _ {q : Queue A} (v : IsValid q) where
    -- `hf_queue_addtail` keeps the invariant.
    pub addtail-IsValid : (p : Option A) → IsValid (addtail q p).1
    unfolding addtail
    addtail-IsValid p = ground (
      arith,
      v,
      tail_lt v,
      length-set q.cells q.tail p,
      mod_wrap (q.head + q.elem) q.size,
      mod_wrap (q.tail + 1) q.size,
      mod_wrap (q.head + (q.elem + 1)) q.size,
    )

    -- `hf_queue_remhead` keeps the invariant.
    pub remhead-IsValid : IsValid (remhead q).1
    unfolding remhead
    remhead-IsValid = ground (
      arith,
      v,
      tail_lt v,
      mod_wrap (q.head + q.elem) q.size,
      mod_wrap (q.head + 1) q.size,
      mod_wrap ((q.head + 1) % q.size + (q.elem - 1)) q.size,
    )

    -- `hf_queue_set` keeps the invariant.
    pub set_at-IsValid : (i : ℕ) (p : Option A) → IsValid (set_at q i p).1
    unfolding set_at
    set_at-IsValid i p = ground (arith, v, length-set q.cells (slot q i) p)

    -- `hf_queue_swap` keeps the invariant.
    pub swap-IsValid : (i j : ℕ) → IsValid (swap q i j).1
    unfolding swap
    swap-IsValid i j =
        let t = get_or q.cells (slot q i) none in
        let u = get_or q.cells (slot q j) none in
        ground (
          arith,
          v,
          length-set q.cells (slot q i) u,
          length-set (set q.cells (slot q i) u) (slot q j) t,
        )
