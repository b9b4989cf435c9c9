-- ===== src/Queue.antt =====
-- hellfireos/sys/lib/queue.c: a circular array of pointers, one cell of which is always free.
-- A `void *` is an `Option A` (`none` is NULL); an `int32_t` that the code keeps at or above zero
-- is a natural number. Positions given by a
-- caller are not negative; a negative one would pass the test of `hf_queue_get` and name a cell outside.
pub mod Inv
pub mod Window
pub mod Refine
pub mod Spec
pub mod Create
pub mod Tail
use Prim.Native.Nat.{ℕ, ◌+◌, ◌-◌, ◌*◌, ◌%◌, ◌^◌}
use t1_sistemas_embarcados.Prelude.{
  Bool, true, false, ◌||◌, Option, none, some, List, leb, ◌==◌, if◌then◌else◌, get_or, set,
}

-- The results 0 and -1.
pub data Status : Type 0 where
  done failed : Status

-- What `queue.c` takes from the heap: an address or NULL, and the words that stand in the block.
pub record Allocator (A : Type 0) : Type 1 where
  pub Heap : Type 0
  pub malloc : ℕ → Heap → Option ℕ × Heap
  pub free : ℕ → Heap → Heap
  pub words : ℕ → ℕ → Heap → List (Option A)

-- `struct queue`, with its own address and that of its array; `cells` is what the array holds.
pub record Queue (A : Type 0) : Type 0 where
  pub size : ℕ
  pub elem : ℕ
  pub head : ℕ
  pub tail : ℕ
  pub cells : List (Option A)
  pub self : ℕ
  pub array : ℕ

abbrev pub struct_size : ℕ
struct_size = 20

-- The bytes asked for the array: a product of `uint32_t`.
abbrev pub array_bytes : ℕ → ℕ
array_bytes size = (size * 4) % 2 ^ 32

module _ {A : Type 0} (a : Allocator A) where
  open a use {Heap, malloc, free, words}

  create_cells : ℕ → ℕ → Heap → Option (Queue A) × Heap
  create_cells self n h =
      let (got, h') = malloc (array_bytes n) h in
      elim got [
        | none ↦ (none, free self h')
        | some p ↦ (
          some (record {
            size = n;
            elem = 0;
            head = 0;
            tail = 0;
            cells = words p n h';
            self = self;
            array = p;
          }),
          h',
        )
      ]

  pub create : ℕ → Heap → Option (Queue A) × Heap
  unfolding create_cells
  create size h =
      let (got, h') = malloc struct_size h in
      elim got [ none ↦ (none, h') | some self ↦ create_cells self (size + 1) h' ]

  pub destroy : Queue A → Heap → Status × Heap
  destroy q h = if q.head == q.tail then (done, free q.self (free q.array h)) else (failed, h)

-- What `hf_queue_remtail` returns and leaves: C's `(tail - 1) % size` is -1 when `tail` is 0. In that
-- case the queue given here has every field as stored but for `tail`, which it leaves alone.
pub data Removed (A : Type 0) : Type 0 where
  removed : Option A → Queue A → Removed A
  tail_minus_one : Option A → Queue A → Removed A

module _ {A : Type 0} where
  pub count : Queue A → ℕ
  count q = q.elem

  abbrev pub next_tail : Queue A → ℕ
  next_tail q = (q.tail + 1) % q.size

  pub addtail : Queue A → Option A → Status × Queue A
  addtail q ptr =
      if q.size == 0 then (failed, q) else if next_tail q == q.head then (failed, q) else (
        done,
        record q { cells = set q.cells q.tail ptr; tail = next_tail q; elem = q.elem + 1 },
      )

  pub remhead : Queue A → Option A × Queue A
  remhead q = if q.size == 0 then (none, q) else if q.head == q.tail then (none, q) else (
    get_or q.cells q.head none,
    record q { head = (q.head + 1) % q.size; elem = q.elem - 1 },
  )

  pub remtail : Queue A → Removed A
  remtail q =
      if q.size == 0
      then removed none q
      else if q.head == q.tail
      then removed none q
      else let ret = get_or q.cells q.tail none in
        if q.tail == 0
        then tail_minus_one ret (record q { elem = q.elem - 1 })
        else removed ret (record q { tail = (q.tail - 1) % q.size; elem = q.elem - 1 })

  -- The test shared by `get`, `set` and `swap`: no such position. A negative one would pass it.
  abbrev pub absent : Queue A → ℕ → Bool
  absent q i = leb q.elem i

  -- With at most 2^30 cells the sum is an `int32_t`.
  abbrev pub slot : Queue A → ℕ → ℕ
  slot q i = (q.head + i) % q.size

  pub get : Queue A → ℕ → Option A
  get q i =
      if (q.size == 0) || absent q i || (q.head == q.tail)
      then none
      else get_or q.cells (slot q i) none

  pub set_at : Queue A → ℕ → Option A → Status × Queue A
  set_at q i ptr =
      if (q.size == 0) || absent q i || (q.head == q.tail)
      then (failed, q)
      else (done, record q { cells = set q.cells (slot q i) ptr })

  pub swap : Queue A → ℕ → ℕ → Status × Queue A
  swap q i j =
      if (q.size == 0) || absent q i || absent q j || (q.head == q.tail)
      then (failed, q)
      else let t = get_or q.cells (slot q i) none in
        let cells = set q.cells (slot q i) (get_or q.cells (slot q j) none) in
        (done, record q { cells = set cells (slot q j) t })
