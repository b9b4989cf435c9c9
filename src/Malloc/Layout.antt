-- ===== src/Malloc/Layout.antt =====
-- The blocks that tile the heap.
use t1_sistemas_embarcados.Prelude.{
  ℕ, ◌+◌, ◌-◌, ◌%◌, ◌^◌, ◌≤◌, ◌<◌, ◌≡◌, refl, sym, ap, ◌∙◌, Bool, true, false, List, [], ◌∷◌, ◌++◌,
  arith, if◌then◌else◌,
}
use mathlib.Core.Path.{subst}
use t1_sistemas_embarcados.Malloc.{Heap, split, release, free, heapinit}

-- Whether a block is used, and its bytes.
abbrev pub Blocks : Type 0
Blocks = List (Bool × ℕ)

-- The bytes of the blocks with their headers.
abbrev pub span : Blocks → ℕ
span [] = 0
span ((u, n) ∷ bs) = 8 + n + span bs

-- A used block has its size and the mark, a free one any even size: it is computed anew in a search.
abbrev pub IsHeader : Bool → ℕ → ℕ → Type 0
IsHeader true n s = s ≡ n + 1
IsHeader false n s = s % 2 ≡ 0

-- From `a` on stand the blocks `bs`, and then the block of size 0 that ends the heap.
abbrev pub IsLayout : Heap → ℕ → Blocks → Type 0
IsLayout h a [] = (h.next a ≡ 0) × (h.size a ≡ 0)
IsLayout h a ((u, n) ∷ bs) =
    (h.next a ≡ a + 8 + n) × IsHeader u n (h.size a) × (n % 2 ≡ 0) × IsLayout h (a + 8 + n) bs

-- The used blocks with their addresses.
abbrev pub used : ℕ → Blocks → List (ℕ × ℕ)
used a [] = []
used a ((u, n) ∷ bs) = if u then (a, n) ∷ used (a + 8 + n) bs else used (a + 8 + n) bs

-- The last block is free.
abbrev pub EndsFree : Blocks → Type 0
EndsFree [] = Unit
EndsFree ((u, n) ∷ []) = u ≡ false
EndsFree (b ∷ c ∷ bs) = EndsFree (c ∷ bs)

pub IsLayout-agree :
    (bs : Blocks) (a : ℕ) (h h' : Heap)
    → ((x : ℕ) → a ≤ x → h'.next x ≡ h.next x)
    → ((x : ℕ) → a ≤ x → h'.size x ≡ h.size x)
    → IsLayout h a bs
    → IsLayout h' a bs
IsLayout-agree [] a h h' n s (e, z) = (n a (omega arith) ∙ e, s a (omega arith) ∙ z)
IsLayout-agree ((true, k) ∷ bs) a h h' n s (e, z, even, l) = (
  n a (omega arith) ∙ e,
  s a (omega arith) ∙ z,
  even,
  IsLayout-agree bs (a + 8 + k) h h' (λ x b. n x (omega arith)) (λ x b. s x (omega arith)) l,
)
IsLayout-agree ((false, k) ∷ bs) a h h' n s (e, z, even, l) = (
  n a (omega arith) ∙ e,
  ap (λ v. v % 2) (s a (omega arith)) ∙ z,
  even,
  IsLayout-agree bs (a + 8 + k) h h' (λ x b. n x (omega arith)) (λ x b. s x (omega arith)) l,
)

-- Blocks changed behind the blocks `pre`.
pub IsLayout-behind :
    (pre bs bs' : Blocks) (a : ℕ) (h h' : Heap)
    → ((x : ℕ) → x < a + span pre → h'.next x ≡ h.next x)
    → ((x : ℕ) → x < a + span pre → h'.size x ≡ h.size x)
    → IsLayout h' (a + span pre) bs'
    → IsLayout h a (pre ++ bs)
    → IsLayout h' a (pre ++ bs')
IsLayout-behind [] bs bs' a h h' n s l k = subst (λ b. IsLayout h' b bs') (omega arith) l
IsLayout-behind ((u, k) ∷ pre) bs bs' a h h' n s l (e, z, even, m) = (
  n a (omega arith) ∙ e,
  subst (IsHeader u k) (sym (s a (omega arith))) z,
  even,
  IsLayout-behind pre bs bs' (a + 8 + k) h h' (λ x b. n x (omega arith)) (λ x b. s x (omega arith))
      (subst (λ b. IsLayout h' b bs') (omega arith) l) m,
)

-- What stands behind the blocks `pre`.
pub IsLayout-from :
    (pre bs : Blocks) (a : ℕ) (h : Heap) → IsLayout h a (pre ++ bs) → IsLayout h (a + span pre) bs
IsLayout-from [] bs a h l = subst (λ b. IsLayout h b bs) (omega arith) l
IsLayout-from ((u, k) ∷ pre) bs a h (e, z, even, l) =
    subst (λ b. IsLayout h b bs) (omega arith) (IsLayout-from pre bs (a + 8 + k) h l)

pub used-append :
    (pre bs : Blocks) (a : ℕ) → used a (pre ++ bs) ≡ used a pre ++ used (a + span pre) bs
used-append [] bs a = ap (λ b. used b bs) (omega arith)
used-append ((true, k) ∷ pre) bs a =
    ap (λ r. (a, k) ∷ r)
      (used-append pre bs (a + 8 + k) ∙ ap (λ b. used (a + 8 + k) pre ++ used b bs) (omega arith))
used-append ((false, k) ∷ pre) bs a =
    used-append pre bs (a + 8 + k) ∙ ap (λ b. used (a + 8 + k) pre ++ used b bs) (omega arith)

release-IsLayout :
    (pre post : Blocks) (base n : ℕ) (h : Heap)
    → IsLayout h base (pre ++ ((true, n) ∷ post))
    → IsLayout (release (base + span pre) h) base (pre ++ ((false, n) ∷ post))
release-IsLayout pre post base n h l =
    let (e, z, even, later) = IsLayout-from pre ((true, n) ∷ post) base h l in
    IsLayout-behind pre ((true, n) ∷ post) ((false, n) ∷ post) base h (release (base + span pre) h)
      (λ x b. refl) (λ x b. ground arith)
      (
        e,
        ground arith,
        even,
        IsLayout-agree post (base + span pre + 8 + n) h (release (base + span pre) h) (λ x b. refl)
            (λ x b. ground arith) later,
      )
      l

release-krnl_free :
    (p n : ℕ) (h : Heap)
    → h.size p ≡ n + 1
    → n % 2 ≡ 0
    → h.krnl_free + n + 8 < 2 ^ 32
    → (release p h).krnl_free ≡ h.krnl_free + n + 8
release-krnl_free p n h z even f = ground arith

-- `hf_free` of the memory of a used block makes that block free and changes no other; `krnl_free` grows by its bytes
-- and its header, and the next search starts from the first block.
pub free_lem :
    (pre post : Blocks) (base n : ℕ) (h : Heap)
    → IsLayout h base (pre ++ ((true, n) ∷ post))
    → h.krnl_free + n + 8 < 2 ^ 32
    → IsLayout (free (base + span pre + 8) h) base (pre ++ ((false, n) ∷ post))
      × ((free (base + span pre + 8) h).krnl_free ≡ h.krnl_free + n + 8)
      × ((free (base + span pre + 8) h).last_free ≡ h.first_free)
unfolding free
free_lem pre post base n h l f =
    let at_block : base + span pre ≡ base + span pre + 8 - 8 = omega arith in
    let (e, z, even, later) = IsLayout-from pre ((true, n) ∷ post) base h l in
    subst
      (λ p.
        IsLayout (release p h) base (pre ++ ((false, n) ∷ post))
        × ((release p h).krnl_free ≡ h.krnl_free + n + 8)
        × ((release p h).last_free ≡ h.first_free))
      at_block
      (release-IsLayout pre post base n h l, release-krnl_free (base + span pre) n h z even f, refl)

-- The block at `p`, free and large enough, becomes a used block of `size` bytes and a free one.
pub split-IsLayout :
    (pre post : Blocks) (base n size : ℕ) (h : Heap)
    → size % 2 ≡ 0
    → size + 8 ≤ n
    → base + span pre + 8 + n < 2 ^ 32
    → IsLayout h base (pre ++ ((false, n) ∷ post))
    → IsLayout
        (split (base + span pre) size h)
        base
        (pre ++ ((true, size) ∷ (false, n - size - 8) ∷ post))
unfolding split
split-IsLayout pre post base n size h even fits small l =
    let (e, z, evens, later) = IsLayout-from pre ((false, n) ∷ post) base h l in
    let p = base + span pre in
    IsLayout-behind pre ((false, n) ∷ post) ((true, size) ∷ (false, n - size - 8) ∷ post) base h
      (split p size h) (λ x b. ground arith) (λ x b. ground arith)
      (
        ground arith,
        ground arith,
        even,
        (
          ground arith,
          ground arith,
          ground arith,
          IsLayout-agree post (p + 8 + size + 8 + (n - size - 8)) h (split p size h)
              (λ x b. ground arith) (λ x b. ground arith)
              (subst (λ b. IsLayout h b post) (omega arith) later),
        ),
      )
      l

-- `heapinit` on a heap of a multiple of four bytes leaves one free block, where the search starts.
heapinit-IsLayout :
    (heap len : ℕ) (h : Heap)
    → len % 4 ≡ 0
    → 16 ≤ len
    → len + 3 < 2 ^ 32
    → IsLayout (heapinit heap len h) heap ((false, len - 16) ∷ [])
      × ((heapinit heap len h).last_free ≡ heap)
      × ((heapinit heap len h).krnl_free ≡ len - 16)
unfolding heapinit
heapinit-IsLayout heap len h even room fits =
    ((ground arith, ground arith, omega arith, (ground arith, ground arith)), refl, omega arith)
