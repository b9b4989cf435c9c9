-- ===== src/Malloc/Search.antt =====
-- The search as a whole, and `hf_malloc`.
use t1_sistemas_embarcados.Prelude.{
  ℕ, zero, suc, ◌+◌, ◌%◌, ◌^◌, ◌≤◌, ◌<◌, ◌≡◌, ◌⊎◌, refl, sym, ap, ◌∙◌, true, false, some, [], ◌∷◌,
  ◌++◌, length, arith, leb, ◌==◌, if◌then◌else◌, Bool-cases, inl, inr,
}
use mathlib.Core.Path.{subst}
use t1_sistemas_embarcados.Malloc.{Heap, skip_used, skip_free, merge, sweep, split}
use t1_sistemas_embarcados.Malloc.Layout.{
  Blocks, span, IsLayout, used, EndsFree, IsLayout-behind, IsLayout-from, used-append,
}
use t1_sistemas_embarcados.Malloc.Rounds.{
  starts_used, AllUsed, EndsFree-append, span-append, Round, round_lem,
}

sweep_step :
    (fuel size a q first last : ℕ) (h : Heap)
    → (h.next a == 0) ≡ false
    → skip_used (suc fuel) a q h ≡ some (first, first)
    → skip_free (suc fuel) first h ≡ some last
    → sweep (suc fuel) size a q h ≡ (
        if leb ((size + 8) % 2 ^ 32) ((merge last first h).size first)
        then some (first, merge last first h)
        else sweep fuel size last first (merge last first h))
unfolding sweep
sweep_step fuel size a q first last h z passed joined = rw (z, passed, joined) refl

-- A search changes no block below its start, no used block and none of these globals.
pub record Kept (h h' : Heap) (a : ℕ) (bs bs' : Blocks) : Type 0 where
  pub layout : IsLayout h' a bs'
  pub keeps : used a bs' ≡ used a bs
  pub total : span bs' ≡ span bs
  pub ends : EndsFree bs'
  pub next_below : (x : ℕ) → x < a → h'.next x ≡ h.next x
  pub size_below : (x : ℕ) → x < a → h'.size x ≡ h.size x
  pub same_free : h'.krnl_free ≡ h.krnl_free

-- No free block takes `size` bytes and another header.
abbrev pub AreSmall : ℕ → Blocks → Type 0
AreSmall size [] = Unit
AreSmall size ((true, n) ∷ bs) = AreSmall size bs
AreSmall size ((false, n) ∷ bs) = (n < size + 8) × AreSmall size bs

AreSmall-behind :
    (us bs : Blocks) (size : ℕ) → AllUsed us → AreSmall size bs → AreSmall size (us ++ bs)
AreSmall-behind [] bs size u s = s
AreSmall-behind ((true, n) ∷ us) bs size (e, u) s = AreSmall-behind us bs size u s
AreSmall-behind ((false, n) ∷ us) bs size (e, u) s = absurd (ground arith)

-- The end of the heap, or a free block that is large enough.
abbrev pub Outcome : ℕ → Heap → ℕ → ℕ → Blocks → Type 0
Outcome p h a size bs =
    ((h.next p ≡ 0) × AreSmall size bs)
    ⊎ ((pre : Blocks) × (n : ℕ) × (post : Blocks) × (bs ≡ pre ++ ((false, n) ∷ post))
        × (p ≡ a + span pre)
        × (size + 8 ≤ n))

abbrev pub Swept : ℕ → ℕ → ℕ → ℕ → Blocks → Heap → Type 0
Swept fuel size a q bs h =
    (p : ℕ) × (h' : Heap) × (bs' : Blocks) × (sweep fuel size a q h ≡ some (p, h'))
    × Kept h h' a bs bs'
    × Outcome p h' a size bs'

module _ (fuel a q : ℕ) (bs : Blocks) (h : Heap) (r : Round fuel a q bs h) where
  open r use {us, n, post}

  Kept-round : Kept h (merge (a + span us + 8 + n) (a + span us) h) a bs (us ++ ((false, n) ∷ post))
  Kept-round =
      let not_null : (a + span us + 8 + n == 0) ≡ false = ground arith in
      record {
        layout = r.layout;
        keeps = r.keeps;
        total = r.total;
        ends = EndsFree-append us ((false, n) ∷ post) (omega arith) r.ends;
        next_below = λ x b. rw not_null (ground arith);
        size_below = λ x b. rw not_null (ground arith);
        same_free = rw not_null refl;
      }

regroup : (us post : Blocks) (n : ℕ) → (us ++ ((false, n) ∷ [])) ++ post ≡ us ++ ((false, n) ∷ post)
regroup [] post n = refl
regroup (u ∷ us) post n = ap (λ r. u ∷ r) (regroup us post n)

span-lead : (us : Blocks) (n : ℕ) → span (us ++ ((false, n) ∷ [])) ≡ span us + 8 + n
span-lead us n = omega (arith, span-append us ((false, n) ∷ []))

-- What two searches keep, the second behind the block that the first has joined.
Kept-trans :
    (us post post' bs : Blocks) (a n : ℕ) (h m h' : Heap)
    → Kept h m a bs (us ++ ((false, n) ∷ post))
    → Kept m h' (a + span us + 8 + n) post post'
    → 0 < length post'
    → Kept h h' a bs (us ++ ((false, n) ∷ post'))
Kept-trans us post post' bs a n h m h' k k' some_block = record {
  layout =
      subst (λ r. IsLayout h' a r) (regroup us post' n)
        (IsLayout-behind (us ++ ((false, n) ∷ [])) post post' a m h'
          (λ x b. k'.next_below x (omega (arith, span-lead us n)))
          (λ x b. k'.size_below x (omega (arith, span-lead us n)))
          (subst (λ b. IsLayout h' b post') (omega (arith, span-lead us n)) k'.layout)
          (subst (λ r. IsLayout m a r) (sym (regroup us post n)) k.layout));
  keeps =
      used-append us ((false, n) ∷ post') a
      ∙ ap (λ r. used a us ++ r) k'.keeps
      ∙ sym (used-append us ((false, n) ∷ post) a)
      ∙ k.keeps;
  total = omega (
    arith,
    span-append us ((false, n) ∷ post'),
    span-append us ((false, n) ∷ post),
    k'.total,
    k.total,
  );
  ends =
      EndsFree-append us ((false, n) ∷ post') (omega arith)
        (EndsFree-append ((false, n) ∷ []) post' some_block k'.ends);
  next_below = λ x b. k'.next_below x (omega arith) ∙ k.next_below x b;
  size_below = λ x b. k'.size_below x (omega arith) ∙ k.size_below x b;
  same_free = k'.same_free ∙ k.same_free;
}

length-of_span : (bs : Blocks) → 0 < span bs → 0 < length bs
length-of_span [] h = absurd (omega arith)
length-of_span (b ∷ bs) h = omega arith

span_pos : (bs : Blocks) → 0 < length bs → 0 < span bs
span_pos [] h = absurd (omega arith)
span_pos ((u, n) ∷ bs) h = omega arith

pub append_assoc : (us vs ws : Blocks) → (us ++ vs) ++ ws ≡ us ++ (vs ++ ws)
append_assoc [] vs ws = refl
append_assoc (u ∷ us) vs ws = ap (λ r. u ∷ r) (append_assoc us vs ws)

pub IsLayout-next :
    (bs : Blocks) (a : ℕ) (h : Heap) → 0 < length bs → IsLayout h a bs → (h.next a == 0) ≡ false
IsLayout-next [] a h some_block l = absurd (omega arith)
IsLayout-next ((u, n) ∷ bs) a h some_block (e, z, even, l) = ground arith

sweep-ended :
    (fuel size p q : ℕ) (h : Heap) → 0 < fuel → h.next p ≡ 0 → sweep fuel size p q h ≡ some (p, h)
unfolding sweep
sweep-ended zero size p q h f e = absurd (omega arith)
sweep-ended (suc fuel) size p q h f e = rw e refl

Outcome-behind :
    (p : ℕ) (h : Heap) (us bs : Blocks) (a n size : ℕ)
    → AllUsed us
    → n < size + 8
    → Outcome p h (a + span us + 8 + n) size bs
    → Outcome p h a size (us ++ ((false, n) ∷ bs))
Outcome-behind p h us bs a n size u low (inl (e, s)) =
    inl (e, AreSmall-behind us ((false, n) ∷ bs) size u (low, s))
Outcome-behind p h us bs a n size u low (inr (pre, k, post, split, place, fits)) = inr (
  us ++ ((false, n) ∷ pre),
  k,
  post,
  ap (λ r. us ++ ((false, n) ∷ r)) split
      ∙ sym (append_assoc us ((false, n) ∷ pre) ((false, k) ∷ post)),
  omega (arith, place, span-append us ((false, n) ∷ pre)),
  fits,
)

-- A round that finds a block.
found :
    (fuel size a q : ℕ) (bs : Blocks) (h : Heap) (r : Round (suc fuel) a q bs h)
    → (h.next a == 0) ≡ false
    → size + 8 < 2 ^ 32
    → size + 8 ≤ r.n
    → Swept (suc fuel) size a q bs h
found fuel size a q bs h r z small fits =
    let first = a + span r.us in
    let test : leb ((size + 8) % 2 ^ 32) ((merge (first + 8 + r.n) first h).size first) ≡ true =
      rw r.fits (ground arith) in
    (
      first,
      merge (first + 8 + r.n) first h,
      r.us ++ ((false, r.n) ∷ r.post),
      sweep_step fuel size a q first (first + 8 + r.n) h z r.passed r.joined ∙ rw test refl,
      Kept-round (suc fuel) a q bs h r,
      inr (r.us, r.n, r.post, refl, refl, fits),
    )

-- A round that does not, at the end of the heap.
ended :
    (fuel size a q : ℕ) (bs : Blocks) (h : Heap) (r : Round (suc fuel) a q bs h)
    → (h.next a == 0) ≡ false
    → size + 8 < 2 ^ 32
    → r.n < size + 8
    → 0 < fuel
    → r.post ≡ []
    → Swept (suc fuel) size a q bs h
ended fuel size a q bs h r z small fits f last =
    let first = a + span r.us in
    let m = merge (first + 8 + r.n) first h in
    let test : leb ((size + 8) % 2 ^ 32) (m.size first) ≡ false = rw r.fits (ground arith) in
    let behind = IsLayout-from r.us ((false, r.n) ∷ r.post) a m r.layout in
    let stop : m.next (first + 8 + r.n) ≡ 0 =
      (subst (λ p. IsLayout m (first + 8 + r.n) p) last behind.3).0 in
    (
      first + 8 + r.n,
      m,
      r.us ++ ((false, r.n) ∷ r.post),
      sweep_step fuel size a q first (first + 8 + r.n) h z r.passed r.joined
          ∙ rw test (sweep-ended fuel size (first + 8 + r.n) first m f stop),
      Kept-round (suc fuel) a q bs h r,
      inl (
        stop,
        AreSmall-behind r.us ((false, r.n) ∷ r.post) size r.all_used
            (fits, subst (AreSmall size) (sym last) tt),
      ),
    )

-- A round that does not, with blocks behind it that are searched next.
continued :
    (fuel size a q : ℕ) (bs : Blocks) (h : Heap) (r : Round (suc fuel) a q bs h)
    → (h.next a == 0) ≡ false
    → size + 8 < 2 ^ 32
    → r.n < size + 8
    → 0 < length r.post
    → Swept fuel size
        (a + span r.us + 8 + r.n)
        (a + span r.us)
        r.post
        (merge (a + span r.us + 8 + r.n) (a + span r.us) h)
    → Swept (suc fuel) size a q bs h
continued fuel size a q bs h r z small fits some_block (p, h', post', e, k, out) =
    let first = a + span r.us in
    let m = merge (first + 8 + r.n) first h in
    let test : leb ((size + 8) % 2 ^ 32) (m.size first) ≡ false = rw r.fits (ground arith) in
    let still : 0 < length post' =
      length-of_span post' (omega (arith, k.total, span_pos r.post some_block)) in
    (
      p,
      h',
      r.us ++ ((false, r.n) ∷ post'),
      sweep_step fuel size a q first (first + 8 + r.n) h z r.passed r.joined ∙ rw test e,
      Kept-trans r.us r.post post' bs a r.n h m h' (Kept-round (suc fuel) a q bs h r) k still,
      Outcome-behind p h' r.us post' a r.n size r.all_used fits out,
    )

starts_used-length : (bs : Blocks) → starts_used bs ≡ true → 0 < length bs
starts_used-length [] h = absurd (ground arith)
starts_used-length (b ∷ bs) h = omega arith

EndsFree-tail : (bs : Blocks) (n : ℕ) → 0 < length bs → EndsFree ((false, n) ∷ bs) → EndsFree bs
EndsFree-tail [] n h e = absurd (omega arith)
EndsFree-tail (b ∷ bs) n h e = e

pub sweep_lem :
    (fuel size a q : ℕ) (bs : Blocks) (h : Heap)
    → length bs < fuel
    → size + 8 < 2 ^ 32
    → IsLayout h a bs
    → EndsFree bs
    → 0 < length bs
    → (q ≡ a) ⊎ (starts_used bs ≡ true)
    → a + span bs < 2 ^ 32
    → Swept fuel size a q bs h
sweep_lem zero size a q bs h f small l ends some_block s room = absurd (omega arith)
sweep_lem (suc fuel) size a q bs h f small l ends some_block s room =
    let r = round_lem fuel a q bs h f l ends some_block s room in
    let z = IsLayout-next bs a h some_block l in
    let few = r.fewer in
    elim (Bool-cases (leb (size + 8) r.n)) [
      | inl y ↦ found fuel size a q bs h r z small (ground arith)
      | inr y ↦ elim r.stop [
        | inl last ↦ ended fuel size a q bs h r z small (ground arith) (omega arith) last
        | inr marked ↦
            let more = starts_used-length r.post marked in
            let first = a + span r.us in
            let behind =
              IsLayout-from r.us ((false, r.n) ∷ r.post) a (merge (first + 8 + r.n) first h)
                r.layout in
            let room' = span-append r.us ((false, r.n) ∷ r.post) in
            let total = r.total in
            continued fuel size a q bs h r z small (ground arith) more (
              sweep_lem fuel size (first + 8 + r.n) first r.post (merge (first + 8 + r.n) first h)
                (omega arith) small behind.3 (EndsFree-tail r.post r.n more r.ends) more
                (inr marked) (omega arith))
      ]
    ]
