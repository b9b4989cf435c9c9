-- ===== src/Malloc/Rounds.antt =====
-- One round of the search for a free block: the used blocks passed over, the free ones joined.
use t1_sistemas_embarcados.Prelude.{
  ℕ, zero, suc, ◌+◌, ◌%◌, ◌^◌, ◌<◌, ◌≡◌, ◌⊎◌, refl, sym, ap, ◌∙◌, Bool, true, false, some, [], ◌∷◌,
  ◌++◌, length, length-append, arith, ◌==◌, inl, inr,
}
use mathlib.Core.Path.{subst}
use t1_sistemas_embarcados.Malloc.{Heap, is_used, skip_used, skip_free, merge}
use t1_sistemas_embarcados.Malloc.Layout.{
  Blocks, span, IsLayout, used, EndsFree, IsLayout-agree, IsLayout-behind, IsLayout-from,
  used-append,
}

abbrev pub starts_used : Blocks → Bool
starts_used [] = false
starts_used ((u, n) ∷ bs) = u

abbrev pub AllFree : Blocks → Type 0
AllFree [] = Unit
AllFree ((u, n) ∷ bs) = (u ≡ false) × AllFree bs

used-free : (fs : Blocks) (a : ℕ) → AllFree fs → used a fs ≡ []
used-free [] a f = refl
used-free ((true, n) ∷ fs) a (e, f) = absurd (ground arith)
used-free ((false, n) ∷ fs) a (e, f) = used-free fs (a + 8 + n) f

abbrev pub AllUsed : Blocks → Type 0
AllUsed [] = Unit
AllUsed ((u, n) ∷ bs) = (u ≡ true) × AllUsed bs

abbrev Passed : ℕ → ℕ → ℕ → Blocks → Heap → Type 0
Passed fuel a q bs h =
    (us : Blocks) × (n : ℕ) × (post : Blocks) × (bs ≡ us ++ ((false, n) ∷ post))
    × (skip_used fuel a q h ≡ some (a + span us, a + span us))
    × AllUsed us

skip_used_lem :
    (bs : Blocks) (fuel a q : ℕ) (h : Heap)
    → length bs < fuel
    → IsLayout h a bs
    → EndsFree bs
    → 0 < length bs
    → (q ≡ a) ⊎ (starts_used bs ≡ true)
    → Passed fuel a q bs h
unfolding skip_used
skip_used_lem [] fuel a q h f l ends some_block s = absurd (omega arith)
skip_used_lem bs zero a q h f l ends some_block s = absurd (omega arith)
skip_used_lem ((false, n) ∷ bs) (suc fuel) a q h f (e, z, even, l) ends some_block s =
    let unused : is_used a h ≡ false = ground arith in
    let same : q ≡ a = ground arith in
    ([], n, bs, refl, rw (unused, same) (ap (λ b. some (b, b)) (omega arith)), tt)
skip_used_lem ((true, n) ∷ []) (suc fuel) a q h f l ends some_block s = absurd (ground arith)
skip_used_lem ((true, n) ∷ b ∷ bs) (suc fuel) a q h f (e, z, even, l) ends some_block s =
    let marked : is_used a h ≡ true = ground arith in
    let (us, k, post, split, found, all_used) =
      skip_used_lem (b ∷ bs) fuel (a + 8 + n) (a + 8 + n) h (omega arith) l ends (omega arith)
        (inl refl) in
    (
      (true, n) ∷ us,
      k,
      post,
      ap (λ r. (true, n) ∷ r) split,
      rw (marked, e) (found ∙ ap (λ b. some (b, b)) (omega arith)),
      (refl, all_used),
    )

abbrev Joined : ℕ → ℕ → Blocks → Heap → Type 0
Joined fuel a bs h =
    (fs : Blocks) × (post : Blocks) × (bs ≡ fs ++ post)
    × (skip_free fuel a h ≡ some (a + span fs))
    × AllFree fs
    × (span fs % 2 ≡ 0)
    × ((post ≡ []) ⊎ (starts_used post ≡ true))

skip_free_lem :
    (bs : Blocks) (fuel a : ℕ) (h : Heap) → length bs < fuel → IsLayout h a bs → Joined fuel a bs h
unfolding skip_free
skip_free_lem bs zero a h f l = absurd (omega arith)
skip_free_lem [] (suc fuel) a h f (e, z) =
    ([], [], refl, rw (z, e) (ap some (omega arith)), tt, omega arith, inl refl)
skip_free_lem ((true, n) ∷ bs) (suc fuel) a h f (e, z, even, l) =
    let marked : is_used a h ≡ true = ground arith in
    ([], (true, n) ∷ bs, refl, rw marked (ap some (omega arith)), tt, omega arith, inr refl)
skip_free_lem ((false, n) ∷ bs) (suc fuel) a h f (e, z, even, l) =
    let unused : is_used a h ≡ false = ground arith in
    let goes_on : (a + 8 + n == 0) ≡ false = ground arith in
    let (fs, post, split, found, free, evens, stop) =
      skip_free_lem bs fuel (a + 8 + n) h (omega arith) l in
    (
      (false, n) ∷ fs,
      post,
      ap (λ r. (false, n) ∷ r) split,
      rw (unused, e, goes_on) (found ∙ ap some (omega arith)),
      (refl, free),
      omega arith,
      stop,
    )

pub span-append : (us vs : Blocks) → span (us ++ vs) ≡ span us + span vs
span-append [] vs = omega arith
span-append ((u, n) ∷ us) vs = omega (arith, span-append us vs)

pub EndsFree-behind : (us bs : Blocks) → 0 < length bs → EndsFree (us ++ bs) → EndsFree bs
EndsFree-behind [] bs h e = e
EndsFree-behind (u ∷ []) [] h e = absurd (omega arith)
EndsFree-behind (u ∷ []) (b ∷ bs) h e = e
EndsFree-behind (u ∷ v ∷ us) bs h e = EndsFree-behind (v ∷ us) bs h e

pub EndsFree-append : (us bs : Blocks) → 0 < length bs → EndsFree bs → EndsFree (us ++ bs)
EndsFree-append [] bs h e = e
EndsFree-append (u ∷ []) [] h e = absurd (omega arith)
EndsFree-append (u ∷ []) (b ∷ bs) h e = e
EndsFree-append (u ∷ v ∷ us) bs h e = EndsFree-append (v ∷ us) bs h e

-- A free block that takes in the free blocks behind it.
merge-IsLayout :
    (us fs post : Blocks) (a n : ℕ) (h : Heap)
    → a + span (us ++ ((false, n) ∷ fs ++ post)) < 2 ^ 32
    → span fs % 2 ≡ 0
    → IsLayout h a (us ++ ((false, n) ∷ fs ++ post))
    → IsLayout
        (merge (a + span us + 8 + n + span fs) (a + span us) h)
        a
        (us ++ ((false, n + span fs) ∷ post))
      × ((merge (a + span us + 8 + n + span fs) (a + span us) h).size (a + span us) ≡ n + span fs)
merge-IsLayout us fs post a n h small evens l =
    let (e, z, even, rest) = IsLayout-from us ((false, n) ∷ fs ++ post) a h l in
    let later = IsLayout-from fs post (a + span us + 8 + n) h rest in
    let total = span-append us ((false, n) ∷ fs ++ post) in
    let total' = span-append fs post in
    let merged = merge (a + span us + 8 + n + span fs) (a + span us) h in
    let not_null : (a + span us + 8 + n + span fs == 0) ≡ false = ground arith in
    (
      IsLayout-behind us ((false, n) ∷ fs ++ post) ((false, n + span fs) ∷ post) a h merged
          (λ x b. rw not_null (ground arith)) (λ x b. rw not_null (ground arith))
          (
            rw not_null (ground arith),
            rw not_null (ground arith),
            omega arith,
            IsLayout-agree post (a + span us + 8 + (n + span fs)) h merged
                (λ x b. rw not_null (ground arith)) (λ x b. rw not_null (ground arith))
                (subst (λ b. IsLayout h b post) (omega arith) later),
          )
          l,
      rw not_null (ground arith),
    )

used-join :
    (us fs post : Blocks) (a n : ℕ)
    → AllFree fs
    → used a (us ++ ((false, n + span fs) ∷ post)) ≡ used a (us ++ ((false, n) ∷ fs ++ post))
used-join us fs post a n free =
    let inner : used (a + span us + 8 + n) (fs ++ post)
        ≡ used (a + span us + 8 + n + span fs) post =
      used-append fs post (a + span us + 8 + n)
      ∙ ap (λ r. r ++ used (a + span us + 8 + n + span fs) post)
          (used-free fs (a + span us + 8 + n) free) in
    let shift : used (a + span us + 8 + (n + span fs)) post
        ≡ used (a + span us + 8 + n + span fs) post =
      ap (λ b. used b post) (omega arith) in
    used-append us ((false, n + span fs) ∷ post) a
    ∙ ap (λ r. used a us ++ r) (shift ∙ sym inner)
    ∙ sym (used-append us ((false, n) ∷ fs ++ post) a)

EndsFree-join :
    (post : Blocks) (n : ℕ) (us : Blocks) → EndsFree (us ++ post) → EndsFree ((false, n) ∷ post)
EndsFree-join [] n us e = refl
EndsFree-join (b ∷ post) n us e = EndsFree-behind us (b ∷ post) (omega arith) e

-- The blocks after a round: those passed, the one that took in its free neighbours, and those behind it.
pub record Round (fuel a q : ℕ) (bs : Blocks) (h : Heap) : Type 0 where
  pub us : Blocks
  pub n : ℕ
  pub post : Blocks
  pub passed : skip_used fuel a q h ≡ some (a + span us, a + span us)
  pub joined : skip_free fuel (a + span us) h ≡ some (a + span us + 8 + n)
  pub layout : IsLayout (merge (a + span us + 8 + n) (a + span us) h) a (us ++ ((false, n) ∷ post))
  pub fits : (merge (a + span us + 8 + n) (a + span us) h).size (a + span us) ≡ n
  pub keeps : used a (us ++ ((false, n) ∷ post)) ≡ used a bs
  pub total : span (us ++ ((false, n) ∷ post)) ≡ span bs
  pub stop : (post ≡ []) ⊎ (starts_used post ≡ true)
  pub ends : EndsFree ((false, n) ∷ post)
  pub fewer : length post < length bs
  pub all_used : AllUsed us

after_join :
    (us fs post : Blocks) (fuel a q n : ℕ) (h : Heap)
    → a + span (us ++ ((false, n) ∷ fs ++ post)) < 2 ^ 32
    → IsLayout h a (us ++ ((false, n) ∷ fs ++ post))
    → EndsFree (us ++ ((false, n) ∷ fs ++ post))
    → skip_used fuel a q h ≡ some (a + span us, a + span us)
    → skip_free fuel (a + span us) h ≡ some (a + span us + 8 + n + span fs)
    → AllFree fs
    → span fs % 2 ≡ 0
    → (post ≡ []) ⊎ (starts_used post ≡ true)
    → AllUsed us
    → Round fuel a q (us ++ ((false, n) ∷ fs ++ post)) h
after_join us fs post fuel a q n h small l ends passed joined free evens stop all_used =
    let place : a + span us + 8 + n + span fs ≡ a + span us + 8 + (n + span fs) = omega arith in
    let (layout, fits) = merge-IsLayout us fs post a n h small evens l in
    record {
      us = us;
      n = n + span fs;
      post = post;
      passed = passed;
      joined = joined ∙ ap some place;
      layout =
          subst (λ b. IsLayout (merge b (a + span us) h) a (us ++ ((false, n + span fs) ∷ post)))
            place layout;
      fits = subst (λ b. (merge b (a + span us) h).size (a + span us) ≡ n + span fs) place fits;
      keeps = used-join us fs post a n free;
      total = omega (
        arith,
        span-append us ((false, n + span fs) ∷ post),
        span-append us ((false, n) ∷ fs ++ post),
        span-append fs post,
      );
      stop = stop;
      ends =
          EndsFree-join post (n + span fs) ((false, n) ∷ fs)
            (EndsFree-behind us ((false, n) ∷ fs ++ post) (omega arith) ends);
      fewer =
          omega (arith, length-append {0} us ((false, n) ∷ fs ++ post), length-append {0} fs post);
      all_used = all_used;
    }

skip_free-next :
    (fuel p n : ℕ) (h : Heap)
    → h.next p ≡ p + 8 + n
    → h.size p % 2 ≡ 0
    → skip_free (suc fuel) p h ≡ skip_free fuel (p + 8 + n) h
unfolding skip_free
skip_free-next fuel p n h e z =
    let unused : is_used p h ≡ false = ground arith in
    let goes_on : (p + 8 + n == 0) ≡ false = ground arith in rw (unused, e, goes_on) refl

pub round_lem :
    (fuel a q : ℕ) (bs : Blocks) (h : Heap)
    → length bs < suc fuel
    → IsLayout h a bs
    → EndsFree bs
    → 0 < length bs
    → (q ≡ a) ⊎ (starts_used bs ≡ true)
    → a + span bs < 2 ^ 32
    → Round (suc fuel) a q bs h
round_lem fuel a q bs h f l ends some_block s small =
    let (us, n, rest, split, passed, all_used) =
      skip_used_lem bs (suc fuel) a q h f l ends some_block s in
    let (e, z, even, later) =
      IsLayout-from us ((false, n) ∷ rest) a h (subst (λ r. IsLayout h a r) split l) in
    let size = ap (λ r. length r) split ∙ length-append {0} us ((false, n) ∷ rest) in
    let (fs, post, split', joined, free, evens, stop) =
      skip_free_lem rest fuel (a + span us + 8 + n) h (omega arith) later in
    let whole = split ∙ ap (λ r. us ++ ((false, n) ∷ r)) split' in
    subst (λ r. Round (suc fuel) a q r h) (sym whole)
      (after_join us fs post (suc fuel) a q n h (subst (λ r. a + span r < 2 ^ 32) whole small)
        (subst (λ r. IsLayout h a r) whole l) (subst EndsFree whole ends) passed
        (skip_free-next fuel (a + span us) n h e z ∙ joined) free evens stop all_used)
