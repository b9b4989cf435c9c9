-- ===== src/Tests/OnMalloc.antt =====
-- malloc.c on a heap of 128 bytes.
use t1_sistemas_embarcados.Prelude.{
  ◌+◌, ◌≡◌, ◌⊎◌, refl, true, false, [], ◌∷◌, arith, ◌==◌, if◌then◌else◌,
}
use t1_sistemas_embarcados.Malloc.{Heap, free}
use t1_sistemas_embarcados.Malloc.Layout.{Blocks, IsLayout, free_lem}
use t1_sistemas_embarcados.Malloc.Requests.{Refused, Granted, malloc_lem}

-- From 1000 on a used block of 16 bytes, and a free one of 88 behind it.
abbrev small_heap : Heap
small_heap = record {
  next = λ x. if x == 1000 then 1024 else if x == 1024 then 1120 else 0;
  size = λ x. if x == 1000 then 17 else 0;
  first_free = 1000;
  last_free = 1000;
  krnl_free = 88;
}

abbrev blocks : Blocks
blocks = (true, 16) ∷ (false, 88) ∷ []

malloc_example : Refused 9 1000 30 blocks small_heap ⊎ Granted 9 1000 30 blocks small_heap
malloc_example =
    malloc_lem 9 1000 30 [] blocks small_heap (omega arith) (omega arith) (omega arith)
      (omega arith) refl (omega arith) refl (refl, refl, refl, (refl, refl, refl, (refl, refl)))

free_example :
    IsLayout (free 1008 small_heap) 1000 ((false, 16) ∷ (false, 88) ∷ [])
    × ((free 1008 small_heap).krnl_free ≡ 88 + 16 + 8)
    × ((free 1008 small_heap).last_free ≡ 1000)
free_example =
    free_lem [] ((false, 88) ∷ []) 1000 16 small_heap
      (refl, refl, refl, (refl, refl, refl, (refl, refl))) (omega arith)
