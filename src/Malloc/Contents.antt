-- ===== src/Malloc/Contents.antt =====
-- malloc.c: hf_calloc and hf_realloc, which also write the memory that they hand out. The bytes
-- handed out stand in a memory of their own, beside the blocks.
use t1_sistemas_embarcados.Libc.{◌>>=◌}
use t1_sistemas_embarcados.Libc.Memory.{Memory, memcpy, memset}
use t1_sistemas_embarcados.Libc.Memory.Blocks.{in_block, memset_lem}
use t1_sistemas_embarcados.Malloc.{Heap, malloc, free}
use t1_sistemas_embarcados.Prelude.{
  ℕ, ◌*◌, ◌%◌, ◌^◌, ◌≡◌, refl, false, ◌||◌, Option, some, leb, ◌==◌, if◌then◌else◌,
}

-- `hf_calloc`.
calloc : ℕ → ℕ → ℕ → Heap → Memory → Option (ℕ × Heap × Memory)
calloc fuel qty type_size h m = do
  (buf, h') ← malloc fuel (qty * type_size % 2 ^ 32) h
  some (buf, h', if buf == 0 then m else (memset buf 0 (qty * type_size % 2 ^ 32) m).1)

-- `hf_realloc`.
realloc : ℕ → ℕ → ℕ → Heap → Memory → Option (ℕ × Heap × Memory)
realloc fuel ptr size h m = if leb (2 ^ 31) size then some (0, h, m) else do
  (buf, h') ← malloc fuel size h
  some (
      if (ptr == 0) || (buf == 0)
      then (buf, h', m)
      else (buf, free ptr h', (memcpy buf ptr size m).1))

-- Where `hf_malloc` gives a block, `hf_calloc` returns it with the bytes asked for 0 and the others as they were.
calloc_lem :
    (fuel qty type_size buf x : ℕ) (h h' : Heap) (m : Memory)
    → malloc fuel (qty * type_size % 2 ^ 32) h ≡ some (buf, h')
    → (buf == 0) ≡ false
    → (cleared : Memory) × (calloc fuel qty type_size h m ≡ some (buf, h', cleared))
      × (cleared x ≡ (if in_block buf (qty * type_size % 2 ^ 32) x then 0 else m x))
unfolding calloc
calloc_lem fuel qty type_size buf x h h' m e z = (
  (memset buf 0 (qty * type_size % 2 ^ 32) m).1,
  rw (e, z) refl,
  (memset_lem (qty * type_size % 2 ^ 32) buf 0 m x).1,
)
