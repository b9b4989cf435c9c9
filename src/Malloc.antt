-- ===== src/Malloc.antt =====
-- hellfireos/sys/lib/malloc.c with MEM_ALLOC 3, the allocator that the platforms choose, its type in
-- hellfireos/sys/include/malloc.h. `next` and `size` are the fields of the `struct mem_block` at an
-- address, eight bytes before the memory that is handed out; a `uint32_t` wraps at 2 ^ 32. Each call
-- holds `krnl_malloc`, so it is one step. The loops run on fuel; `none` is a loop that has not ended.
pub mod Layout
pub mod Rounds
pub mod Search
pub mod Requests
pub mod Contents
use t1_sistemas_embarcados.Libc.{◌>>=◌}
use t1_sistemas_embarcados.Prelude.{
  ℕ, zero, suc, ◌+◌, ◌-◌, ◌*◌, ◌/◌, ◌%◌, ◌^◌, Bool, not, ◌&&◌, Option, none, some, leb, ◌==◌,
  if◌then◌else◌,
}

-- The blocks and the globals `first_free`, `last_free` and `krnl_free`.
pub record Heap : Type 0 where
  pub next : ℕ → ℕ
  pub size : ℕ → ℕ
  pub first_free : ℕ
  pub last_free : ℕ
  pub krnl_free : ℕ

abbrev pub set_next : ℕ → ℕ → Heap → Heap
set_next a v h = record h { next = λ x. if x == a then v else h.next x }

abbrev pub set_size : ℕ → ℕ → Heap → Heap
set_size a v h = record h { size = λ x. if x == a then v else h.size x }

-- `align4`, rounding up to a multiple of four.
abbrev pub align4 : ℕ → ℕ
align4 x = (x + 3) % 2 ^ 32 / 4 * 4

-- `sizeof(struct mem_block)`.
abbrev pub header : ℕ
header = 8

-- `p->size & 1`.
abbrev pub is_used : ℕ → Heap → Bool
is_used p h = h.size p % 2 == 1

-- `while (p->size & 1) { p = p->next; q = p; }`
pub skip_used : ℕ → ℕ → ℕ → Heap → Option (ℕ × ℕ)
skip_used zero p q h = none
skip_used (suc fuel) p q h =
    let rest = skip_used fuel (h.next p) (h.next p) h in if is_used p h then rest else some (p, q)

-- `while (!(p->size & 1) && p->next) p = p->next;`
pub skip_free : ℕ → ℕ → Heap → Option ℕ
skip_free zero p h = none
skip_free (suc fuel) p h =
    let rest = skip_free fuel (h.next p) h in
    if not (is_used p h) && not (h.next p == 0) then rest else some p

-- `if (p) { q->size = …; q->next = p; }`
abbrev pub merge : ℕ → ℕ → Heap → Heap
merge p q h =
    if p == 0
    then h
    else set_next q p (set_size q ((p + (2 ^ 32 - q) + (2 ^ 32 - header)) % 2 ^ 32) h)

-- The search of `hf_malloc`, `while (p->next)`: the block that it ends with.
pub sweep : ℕ → ℕ → ℕ → ℕ → Heap → Option (ℕ × Heap)
sweep zero size p q h = none
sweep (suc fuel) size p q h = if h.next p == 0 then some (p, h) else do
  (first, q') ← skip_used (suc fuel) p q h
  last ← skip_free (suc fuel) first h
  let merged = merge last q' h in
      let rest = sweep fuel size last q' merged in
      if leb ((size + header) % 2 ^ 32) (merged.size q') then some (q', merged) else rest

-- What `hf_malloc` does to the block that it has found; the size of the rest is computed from the
-- size that was just written.
pub split : ℕ → ℕ → Heap → Heap
split p size h =
    let rest = p + size + header in
    let r = h.next p in
    let taken = set_size p (size / 2 * 2 + 1) (set_next p rest h) in
    let left = (taken.size p / 2 * 2 + (2 ^ 32 - size) + (2 ^ 32 - header)) % 2 ^ 32 in
    record (set_size rest left (set_next rest r taken)) {
      last_free = p;
      krnl_free = (h.krnl_free + (2 ^ 32 - (size + header) % 2 ^ 32)) % 2 ^ 32;
    }

-- `hf_malloc`.
pub malloc : ℕ → ℕ → Heap → Option (ℕ × Heap)
malloc fuel bytes h = do
  (p, swept) ← sweep fuel (align4 bytes) h.last_free h.last_free h
  some (if swept.next p == 0 then (0, swept) else (p + header, split p (align4 bytes) swept))

-- What `hf_free` does to the block at `p`.
abbrev pub release : ℕ → Heap → Heap
release p h =
    let unused = set_size p (h.size p / 2 * 2) h in
    record unused {
      last_free = h.first_free;
      krnl_free = (h.krnl_free + unused.size p + header) % 2 ^ 32;
    }

-- `hf_free`.
pub free : ℕ → Heap → Heap
free ptr h = release (ptr - header) h

-- `heapinit`.
pub heapinit : ℕ → ℕ → Heap → Heap
heapinit heap len h =
    let q = heap + len - header in
    let room = (align4 len + (2 ^ 32 - 2 * header)) % 2 ^ 32 in
    record (set_size q 0 (set_next q 0 (set_size heap room (set_next heap q h)))) {
      first_free = heap;
      last_free = heap;
      krnl_free = room;
    }
