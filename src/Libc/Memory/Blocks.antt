-- ===== src/Libc/Memory/Blocks.antt =====
-- What the routines leave in the memory.
use t1_sistemas_embarcados.Prelude.{
  ℕ, zero, suc, ◌+◌, ◌-◌, ◌%◌, ◌^◌, ◌≤◌, ◌<◌, ◌≡◌, refl, ap, Bool, true, ◌&&◌, arith, ltb, leb,
  if◌then◌else◌, Bool-cases, inl, inr, ◌⊎◌,
}
use t1_sistemas_embarcados.Libc.Memory.{Memory, write, copy_up, copy_down, memmove, memset}

-- `x` is one of the `n` addresses from `a` on.
abbrev pub in_block : ℕ → ℕ → ℕ → Bool
in_block a n x = leb a x && ltb x (a + n)

-- The memory in which the `n` bytes from `dst` on are those that stood from `src` on.
abbrev pub moved : ℕ → ℕ → ℕ → Memory → Memory
moved dst src n m x = if in_block dst n x then m (src + (x - dst)) else m x

pub moved_at : (dst src n i : ℕ) (m : Memory) → i < n → moved dst src n m (dst + i) ≡ m (src + i)
moved_at dst src n i m h =
    let inside : in_block dst n (dst + i) ≡ true = ground arith in rw inside (ap m (omega arith))

pub copy_up_lem :
    (n r1 r2 : ℕ) (m : Memory) (x : ℕ)
    → (r1 ≤ r2) ⊎ (r2 + n ≤ r1)
    → copy_up n r1 r2 m x ≡ moved r1 r2 n m x
unfolding copy_up
copy_up_lem zero r1 r2 m x h = ground arith
copy_up_lem (suc n) r1 r2 m x h =
    grind (arith, copy_up_lem n (r1 + 1) (r2 + 1) (write r1 (m r2) m) x (ground arith))

copy_down_lem :
    (n s p s_end p_end : ℕ) (m : Memory) (x : ℕ)
    → s_end ≡ s + n
    → p_end ≡ p + n
    → p ≤ s
    → copy_down n s_end p_end m x ≡ moved s p n m x
unfolding copy_down
copy_down_lem zero s p s_end p_end m x e f h = ground arith
copy_down_lem (suc n) s p s_end p_end m x e f h =
    let rest =
      copy_down_lem n s p (s_end - 1) (p_end - 1) (write (s_end - 1) (m (p_end - 1)) m) x
        (omega arith) (omega arith) h in
    grind (arith, rest)

-- For every length and every overlap of the two blocks, `memmove` returns the destination and leaves
-- in its `n` bytes those that stood in the source before the call, and every other byte as it was.
pub memmove_lem :
    (dst src n : ℕ) (m : Memory) (x : ℕ)
    → ((memmove dst src n m).0 ≡ dst) × ((memmove dst src n m).1 x ≡ moved dst src n m x)
unfolding memmove
memmove_lem dst src n m x = elim (Bool-cases (leb dst src)) [
  | inl y ↦ rw y (refl, copy_up_lem n dst src m x (inl (ground arith)))
  | inr y ↦ rw y (refl, copy_down_lem n dst src (dst + n) (src + n) m x refl refl (ground arith))
]

-- `memset` returns its block and fills it with the low byte of `c`.
pub memset_lem :
    (n s c : ℕ) (m : Memory) (x : ℕ)
    → ((memset s c n m).0 ≡ s)
      × ((memset s c n m).1 x ≡ (if in_block s n x then c % 2 ^ 8 else m x))
unfolding memset
memset_lem zero s c m x = (refl, ground arith)
memset_lem (suc n) s c m x =
    (refl, grind (arith, (memset_lem n (s + 1) c (write s (c % 256) m) x).1))
