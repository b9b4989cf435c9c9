-- ===== src/Malloc/Requests.antt =====
-- `hf_malloc` as a whole.
use t1_sistemas_embarcados.Prelude.{
  ℕ, ◌+◌, ◌-◌, ◌%◌, ◌^◌, ◌≤◌, ◌<◌, ◌≡◌, ◌⊎◌, refl, sym, ap, ◌∙◌, true, false, some, [], ◌∷◌, ◌++◌,
  length, arith, ◌==◌, inl, inr,
}
use mathlib.Core.Path.{subst}
use t1_sistemas_embarcados.Malloc.{Heap, align4, sweep, split, malloc}
use t1_sistemas_embarcados.Malloc.Layout.{
  Blocks, span, IsLayout, used, EndsFree, IsLayout-behind, IsLayout-from, used-append,
  split-IsLayout,
}
use t1_sistemas_embarcados.Malloc.Rounds.{EndsFree-behind, span-append}
use t1_sistemas_embarcados.Malloc.Search.{AreSmall, Outcome, sweep_lem, append_assoc, IsLayout-next}

-- NULL: the blocks from the start of the search on may be joined anew, those used are the same, and none of them that
-- is free takes the bytes asked for, rounded up, and another header.
pub record Refused (fuel base bytes : ℕ) (bs : Blocks) (h : Heap) : Type 0 where
  pub after : Heap
  pub front : Blocks
  pub searched : Blocks
  pub result : malloc fuel bytes h ≡ some (0, after)
  pub start : h.last_free ≡ base + span front
  pub layout : IsLayout after base (front ++ searched)
  pub keeps : used base (front ++ searched) ≡ used base bs
  pub too_small : AreSmall (align4 bytes) searched
  pub free_bytes : after.krnl_free ≡ h.krnl_free

-- A free block of `n` bytes behind the blocks `front` has become a used block of the bytes asked for, rounded up,
-- and a free one; the other used blocks are the same.
pub record Granted (fuel base bytes : ℕ) (bs : Blocks) (h : Heap) : Type 0 where
  pub after : Heap
  pub front : Blocks
  pub n : ℕ
  pub back : Blocks
  pub result : malloc fuel bytes h ≡ some (base + span front + 8, after)
  pub layout :
      IsLayout after base (front ++ ((true, align4 bytes) ∷ (false, n - align4 bytes - 8) ∷ back))
  pub keeps : used base (front ++ ((false, n) ∷ back)) ≡ used base bs
  pub enough : bytes ≤ align4 bytes
  pub next_search : after.last_free ≡ base + span front
  pub ends : EndsFree ((false, n - align4 bytes - 8) ∷ back)
  pub free_bytes : (after.krnl_free + align4 bytes + 8) % 2 ^ 32 ≡ h.krnl_free

malloc-refused :
    (fuel bytes p : ℕ) (h h' : Heap)
    → sweep fuel (align4 bytes) h.last_free h.last_free h ≡ some (p, h')
    → h'.next p ≡ 0
    → malloc fuel bytes h ≡ some (0, h')
unfolding malloc
malloc-refused fuel bytes p h h' e z = rw (e, z) refl

malloc-granted :
    (fuel bytes p : ℕ) (h h' : Heap)
    → sweep fuel (align4 bytes) h.last_free h.last_free h ≡ some (p, h')
    → (h'.next p == 0) ≡ false
    → malloc fuel bytes h ≡ some (p + 8, split p (align4 bytes) h')
unfolding malloc
malloc-granted fuel bytes p h h' e z = rw (e, z) refl

split_lem :
    (p size : ℕ) (h : Heap)
    → h.krnl_free < 2 ^ 32
    → size + 8 < 2 ^ 32
    → ((split p size h).last_free ≡ p)
      × (((split p size h).krnl_free + size + 8) % 2 ^ 32 ≡ h.krnl_free)
unfolding split
split_lem p size h small fits = (refl, omega arith)

EndsFree-smaller : (bs : Blocks) (n k : ℕ) → EndsFree ((false, n) ∷ bs) → EndsFree ((false, k) ∷ bs)
EndsFree-smaller [] n k e = e
EndsFree-smaller (b ∷ bs) n k e = e

-- The answer that follows the search.
answer :
    (fuel base bytes p : ℕ) (pre bs bs' : Blocks) (h h' : Heap)
    → sweep fuel (align4 bytes) h.last_free h.last_free h ≡ some (p, h')
    → IsLayout h' base (pre ++ bs')
    → used base (pre ++ bs') ≡ used base (pre ++ bs)
    → span (pre ++ bs') ≡ span (pre ++ bs)
    → EndsFree bs'
    → h'.krnl_free ≡ h.krnl_free
    → bytes < 2 ^ 31
    → base + span (pre ++ bs) < 2 ^ 32
    → h.krnl_free < 2 ^ 32
    → h.last_free ≡ base + span pre
    → Outcome p h' (base + span pre) (align4 bytes) bs'
    → Refused fuel base bytes (pre ++ bs) h ⊎ Granted fuel base bytes (pre ++ bs) h
answer fuel base bytes p pre bs bs' h h' swept layout keeps total ends same small room free start
      (inl (z, low)) =
    inl (record {
      after = h';
      front = pre;
      searched = bs';
      start = start;
      too_small = low;
      result = malloc-refused fuel bytes p h h' swept z;
      layout = layout;
      keeps = keeps;
      free_bytes = same;
    })
answer fuel base bytes p pre bs bs' h h' swept layout keeps total ends same small room free start
      (inr (us, n, post, parts, place, fits)) =
    let front = pre ++ us in
    let whole : pre ++ bs' ≡ front ++ ((false, n) ∷ post) =
      ap (λ r. pre ++ r) parts ∙ sym (append_assoc pre us ((false, n) ∷ post)) in
    let tiling : IsLayout h' base (front ++ ((false, n) ∷ post)) =
      subst (λ r. IsLayout h' base r) whole layout in
    let at_front : p ≡ base + span front = omega (arith, place, span-append pre us) in
    let goes_on =
      IsLayout-next ((false, n) ∷ post) (base + span front) h' (omega arith)
        (IsLayout-from front ((false, n) ∷ post) base h' tiling) in
    let below : base + span front + 8 + n < 2 ^ 32 =
      omega (arith, ap span whole, total, span-append front ((false, n) ∷ post)) in
    let (next, bytes_left) =
      split_lem (base + span front) (align4 bytes) h' (omega (arith, same)) (omega arith) in
    inr (record {
      after = split (base + span front) (align4 bytes) h';
      front = front;
      n = n;
      back = post;
      result =
          malloc-granted fuel bytes (base + span front) h h'
            (swept ∙ ap (λ q. some (q, h')) at_front) goes_on;
      layout = split-IsLayout front post base n (align4 bytes) h' (omega arith) fits below tiling;
      keeps = ap (used base) (sym whole) ∙ keeps;
      enough = omega arith;
      next_search = next;
      ends =
          EndsFree-smaller post n (n - align4 bytes - 8)
            (EndsFree-behind us ((false, n) ∷ post) (omega arith) (subst EndsFree parts ends));
      free_bytes = bytes_left ∙ same;
    })

-- With the blocks tiling the heap, the last of them free, the search starting at one of them, a size below 2^31 and fuel
-- for the blocks, `hf_malloc` ends: it refuses or grants.
pub malloc_lem :
    (fuel base bytes : ℕ) (pre bs : Blocks) (h : Heap)
    → length bs < fuel
    → bytes < 2 ^ 31
    → base + span (pre ++ bs) < 2 ^ 32
    → h.krnl_free < 2 ^ 32
    → h.last_free ≡ base + span pre
    → 0 < length bs
    → EndsFree bs
    → IsLayout h base (pre ++ bs)
    → Refused fuel base bytes (pre ++ bs) h ⊎ Granted fuel base bytes (pre ++ bs) h
malloc_lem fuel base bytes pre bs h f small room free start some_block ends l =
    let size = align4 bytes in
    let whole = span-append pre bs in
    let (p, h', bs', e, k, out) =
      sweep_lem fuel size (base + span pre) (base + span pre) bs h f (omega arith)
        (IsLayout-from pre bs base h l) ends some_block (inl refl) (omega arith) in
    let swept = ap (λ a. sweep fuel size a a h) start ∙ e in
    let layout = IsLayout-behind pre bs bs' base h h' k.next_below k.size_below k.layout l in
    let keeps =
      used-append pre bs' base
      ∙ ap (λ r. used base pre ++ r) k.keeps
      ∙ sym (used-append pre bs base) in
    let total : span (pre ++ bs') ≡ span (pre ++ bs) =
      omega (arith, span-append pre bs', k.total, whole) in
    answer fuel base bytes p pre bs bs' h h' swept layout keeps total k.ends k.same_free small room
      free start out
