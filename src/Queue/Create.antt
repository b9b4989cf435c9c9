-- ===== src/Queue/Create.antt =====
-- `hf_queue_create` and `hf_queue_destroy`, over an allocator.
use t1_sistemas_embarcados.Prelude.{
  ℕ, ◌+◌, ◌*◌, ◌^◌, ◌≤◌, ◌<◌, ◌≡◌, refl, Option, none, some, List, [], arith, ◌==◌, if◌then◌else◌,
  length,
}
use t1_sistemas_embarcados.Queue.{
  Allocator, Queue, done, failed, create_cells, create, destroy, struct_size, array_bytes,
}
use t1_sistemas_embarcados.Queue.Refine.{Holds, empty_iff, elem-length}

module _ {A : Type 0} (a : Allocator A) where
  open a use {Heap, malloc, free, words}

  -- A block holds as many words of four bytes as were requested, whatever they are, and no more is said.
  abbrev pub IsSized : Type 0
  IsSized =
      (bytes p n : ℕ) (h : Heap)
      → (malloc bytes h).0 ≡ some p
      → n * 4 ≤ bytes
      → length (words p n (malloc bytes h).1) ≡ n

  -- Where both requests are met and `size + 1` is below 2^30, so that the bytes for the array do not wrap,
  -- `hf_queue_create` returns an empty queue that takes `size` pointers.
  pub create-Holds :
      (size self p : ℕ) (h : Heap)
      → IsSized
      → size + 1 < 2 ^ 30
      → (malloc struct_size h).0 ≡ some self
      → (malloc (array_bytes (size + 1)) (malloc struct_size h).1).0 ≡ some p
      → (q : Queue A) × ((create a size h).0 ≡ some q) × Holds q size []
  unfolding create create_cells
  create-Holds size self p h sized small e f = (
    record {
      size = size + 1;
      elem = 0;
      head = 0;
      tail = 0;
      cells = words p (size + 1) (malloc (array_bytes (size + 1)) (malloc struct_size h).1).1;
      self = self;
      array = p;
    },
    ground arith,
    record {
      valid = record {
        small = omega arith;
        stored =
            sized (array_bytes (size + 1)) p (size + 1) (malloc struct_size h).1 f (omega arith);
        head_in = omega arith;
        free_cell = omega arith;
        tail_at = omega arith;
      };
      room = refl;
      view = refl;
    },
  )

  -- Where the second request fails, `hf_queue_create` gives the first block back.
  create-no_cells :
      (size self : ℕ) (h : Heap)
      → (malloc struct_size h).0 ≡ some self
      → (malloc (array_bytes (size + 1)) (malloc struct_size h).1).0 ≡ none
      → create a size h
        ≡ (none, free self (malloc (array_bytes (size + 1)) (malloc struct_size h).1).1)
  unfolding create create_cells
  create-no_cells size self h e f = ground arith

  -- A queue is destroyed exactly when it stands for the empty list.
  pub destroy-Holds :
      {q : Queue A} {n : ℕ} {xs : List (Option A)} (h : Heap)
      → Holds q n xs
      → destroy a q h
        ≡ (if length xs == 0 then (done, free q.self (free q.array h)) else (failed, h))
  unfolding destroy
  destroy-Holds h v = ground (arith, empty_iff v, elem-length v)
