-- ===== src/Sched/Rma/Sort.antt =====
-- The exchange sort of `sched_rma`, as a recursion on the list, and the order that it leaves.
use t1_sistemas_embarcados.Prelude.{
  ℕ, zero, suc, ◌≤◌, ◌≡◌, refl, sym, ◌∙◌, true, List, [], ◌∷◌, arith, ltb, if◌then◌else◌, length,
  mem, occ, mem_of_occ, ℕ_discrete, Bool-cases, inl, inr,
}

module _ (key : ℕ → ℕ) where
  -- One round of the inner loop: what stands at `i`, and what stands behind it.
  abbrev pub settle : ℕ → List ℕ → ℕ × List ℕ
  settle x [] = (x, [])
  settle x (y ∷ ys) =
      if ltb (key y) (key x)
      then ((settle y ys).0, x ∷ (settle y ys).1)
      else ((settle x ys).0, y ∷ (settle x ys).1)

  -- The outer loop: `n` rounds.
  abbrev pub sorted_by : ℕ → List ℕ → List ℕ
  sorted_by zero xs = xs
  sorted_by (suc n) [] = []
  sorted_by (suc n) (x ∷ xs) = (settle x xs).0 ∷ sorted_by n (settle x xs).1

  abbrev pub AllAbove : ℕ → List ℕ → Type 0
  AllAbove b [] = Unit
  AllAbove b (x ∷ xs) = (b ≤ key x) × AllAbove b xs

  abbrev pub IsSorted : List ℕ → Type 0
  IsSorted [] = Unit
  IsSorted (x ∷ xs) = AllAbove (key x) xs × IsSorted xs

  AllAbove-trans : (a b : ℕ) (xs : List ℕ) → a ≤ b → AllAbove b xs → AllAbove a xs
  AllAbove-trans a b [] l h = tt
  AllAbove-trans a b (x ∷ xs) l h = (omega arith, AllAbove-trans a b xs l h.1)

  settle-le : (x : ℕ) (ys : List ℕ) → key (settle x ys).0 ≤ key x
  settle-le x [] = omega arith
  settle-le x (y ∷ ys) = ground (arith, settle-le y ys, settle-le x ys)

  settle-AllAbove : (x : ℕ) (ys : List ℕ) → AllAbove (key (settle x ys).0) (settle x ys).1
  settle-AllAbove x [] = tt
  settle-AllAbove x (y ∷ ys) = elim (Bool-cases (ltb (key y) (key x))) [
    | inl h ↦ rw h (ground (arith, settle-le y ys), settle-AllAbove y ys)
    | inr h ↦ rw h (ground (arith, settle-le x ys), settle-AllAbove x ys)
  ]

  settle-occ : (a x : ℕ) (ys : List ℕ) → occ a ((settle x ys).0 ∷ (settle x ys).1) ≡ occ a (x ∷ ys)
  settle-occ a x [] = refl
  settle-occ a x (y ∷ ys) = elim (Bool-cases (ltb (key y) (key x))) [
    | inl h ↦ rw h (omega (arith, settle-occ a y ys))
    | inr h ↦ rw h (omega (arith, settle-occ a x ys))
  ]

  pub length-settle : (x : ℕ) (ys : List ℕ) → length (settle x ys).1 ≡ length ys
  length-settle x [] = refl
  length-settle x (y ∷ ys) = ground (arith, length-settle y ys, length-settle x ys)

  pub length-sorted_by : (n : ℕ) (xs : List ℕ) → length (sorted_by n xs) ≡ length xs
  length-sorted_by zero xs = refl
  length-sorted_by (suc n) [] = refl
  length-sorted_by (suc n) (x ∷ xs) =
      omega (arith, length-settle x xs, length-sorted_by n (settle x xs).1)

  pub sorted_by-occ : (a n : ℕ) (xs : List ℕ) → occ a (sorted_by n xs) ≡ occ a xs
  sorted_by-occ a zero xs = refl
  sorted_by-occ a (suc n) [] = refl
  sorted_by-occ a (suc n) (x ∷ xs) =
      omega (arith, settle-occ a x xs, sorted_by-occ a n (settle x xs).1)

  pub AllAbove-mem : (b a : ℕ) (xs : List ℕ) → AllAbove b xs → mem a xs ≡ true → b ≤ key a
  AllAbove-mem b a [] h m = cc
  AllAbove-mem b a (x ∷ xs) h m = elim (ℕ_discrete a x) [
    | yes e ↦ rw e h.0
    | no e ↦ AllAbove-mem b a xs h.1 (ground arith)
  ]

  AllAbove-of_mem : (b : ℕ) (xs : List ℕ) → ((a : ℕ) → mem a xs ≡ true → b ≤ key a) → AllAbove b xs
  AllAbove-of_mem b [] h = tt
  AllAbove-of_mem b (x ∷ xs) h =
      (h x (ground arith), AllAbove-of_mem b xs (λ a m. h a (ground arith)))

  -- A bound below all members holds after a rearrangement.
  AllAbove-occ :
      (b : ℕ) (xs ys : List ℕ) → ((a : ℕ) → occ a ys ≡ occ a xs) → AllAbove b xs → AllAbove b ys
  AllAbove-occ b xs ys h g =
      AllAbove-of_mem b ys λ a m. AllAbove-mem b a xs g (sym (mem_of_occ a ys xs (h a)) ∙ m)

  -- Enough rounds leave the list sorted.
  pub sorted_by-IsSorted : (n : ℕ) (xs : List ℕ) → length xs ≤ suc n → IsSorted (sorted_by n xs)
  sorted_by-IsSorted zero [] l = tt
  sorted_by-IsSorted zero (x ∷ []) l = (tt, tt)
  sorted_by-IsSorted zero (x ∷ y ∷ xs) l = absurd (omega arith)
  sorted_by-IsSorted (suc n) [] l = tt
  sorted_by-IsSorted (suc n) (x ∷ xs) l = (
    AllAbove-occ (key (settle x xs).0) (settle x xs).1 (sorted_by n (settle x xs).1)
        (λ a. sorted_by-occ a n (settle x xs).1) (settle-AllAbove x xs),
    sorted_by-IsSorted n (settle x xs).1 (omega (arith, length-settle x xs)),
  )
