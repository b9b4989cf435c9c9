-- ===== src/Prelude/Lists.antt =====
-- Lists measured and indexed by native numbers, under the library's names.
use Prim.Native.Nat.{ℕ, zero, suc, ◌+◌, ◌≤◌, ◌<◌}
use mathlib.Core.Path.{◌≡◌, refl, sym, ap, ap₂, ◌∙◌}
use mathlib.Core.Logic.{◌≢◌}
use mathlib.Core.List.{List, [], ◌∷◌, ◌++◌}
use mathlib.Core.Bool.{Bool, true, false, ◌||◌, false≢true}
use native.Mathlib.Decide.{ℕ_discrete}
use native.Mathlib.Omega.{arith}
use t1_sistemas_embarcados.Prelude.Tests.{◌==◌, ==_refl, ltb, suc_eqb, if◌then◌else◌}

module _ {ℓ} {A : Type ℓ} where
  abbrev pub length : List A → ℕ
  length [] = 0
  length (x ∷ xs) = suc (length xs)

  abbrev pub get_or : List A → ℕ → A → A
  get_or [] i d = d
  get_or (x ∷ xs) zero d = x
  get_or (x ∷ xs) (suc i) d = get_or xs i d

  -- A write out of bounds changes nothing.
  abbrev pub set : List A → ℕ → A → List A
  set [] i v = []
  set (x ∷ xs) zero v = v ∷ xs
  set (x ∷ xs) (suc i) v = x ∷ set xs i v

  abbrev pub replicate : ℕ → A → List A
  replicate zero a = []
  replicate (suc n) a = a ∷ replicate n a

  pub length-append : (xs ys : List A) → length (xs ++ ys) ≡ length xs + length ys
  length-append [] ys = omega arith
  length-append (x ∷ xs) ys = omega (arith, length-append xs ys)

  pub length-set : (xs : List A) (i : ℕ) (v : A) → length (set xs i v) ≡ length xs
  length-set [] i v = refl
  length-set (x ∷ xs) zero v = refl
  length-set (x ∷ xs) (suc i) v = ap suc (length-set xs i v)

  pub length-replicate : (n : ℕ) (a : A) → length (replicate n a) ≡ n
  length-replicate zero a = refl
  length-replicate (suc n) a = ap suc (length-replicate n a)

  pub get_or-set_self :
      (xs : List A) (i : ℕ) (v d : A) → i < length xs → get_or (set xs i v) i d ≡ v
  get_or-set_self [] i v d h = absurd (omega arith)
  get_or-set_self (x ∷ xs) zero v d h = refl
  get_or-set_self (x ∷ xs) (suc i) v d h = get_or-set_self xs i v d (omega arith)

  pub get_or-set_ne :
      (xs : List A) {i j : ℕ} (v d : A) → i ≢ j → get_or (set xs i v) j d ≡ get_or xs j d
  get_or-set_ne [] v d h = refl
  get_or-set_ne (x ∷ xs) {i = zero} {j = zero} v d h = absurd (h refl)
  get_or-set_ne (x ∷ xs) {i = zero} {j = suc j} v d h = refl
  get_or-set_ne (x ∷ xs) {i = suc i} {j = zero} v d h = refl
  get_or-set_ne (x ∷ xs) {i = suc i} {j = suc j} v d h = get_or-set_ne xs v d (λ e. h (ap suc e))

  -- Two lists of one length that agree at every index are equal.
  pub eq_of_get_or :
      (d : A) (xs ys : List A)
      → length xs ≡ length ys
      → ((i : ℕ) → i < length xs → get_or xs i d ≡ get_or ys i d)
      → xs ≡ ys
  eq_of_get_or d [] [] e h = refl
  eq_of_get_or d [] (y ∷ ys) e h = absurd (omega arith)
  eq_of_get_or d (x ∷ xs) [] e h = absurd (omega arith)
  eq_of_get_or d (x ∷ xs) (y ∷ ys) e h =
      let tails : xs ≡ ys = eq_of_get_or d xs ys (omega arith) (λ i l. h (suc i) (omega arith)) in
      cc (h 0 (omega arith))

  pub get_or-append_one :
      (xs : List A) (y d : A) (i : ℕ)
      → get_or (xs ++ (y ∷ [])) i d ≡ (if i == length xs then y else get_or xs i d)
  get_or-append_one [] y d zero = refl
  get_or-append_one [] y d (suc i) = ground arith
  get_or-append_one (x ∷ xs) y d zero = ground arith
  get_or-append_one (x ∷ xs) y d (suc i) = ground (arith, get_or-append_one xs y d i)

  pub get_or-set :
      (xs : List A) (i j : ℕ) (v d : A)
      → i < length xs
      → get_or (set xs i v) j d ≡ (if i == j then v else get_or xs j d)
  get_or-set [] i j v d h = absurd (omega arith)
  get_or-set (x ∷ xs) zero zero v d h = refl
  get_or-set (x ∷ xs) zero (suc j) v d h = ground arith
  get_or-set (x ∷ xs) (suc i) zero v d h = ground arith
  get_or-set (x ∷ xs) (suc i) (suc j) v d h =
      get_or-set xs i j v d (omega arith) ∙ ap (λ b. if b then v else get_or xs j d) (suc_eqb i j)

  -- A read past the end gives the default.
  pub get_or-past : (xs : List A) (i : ℕ) (d : A) → length xs ≤ i → get_or xs i d ≡ d
  get_or-past [] i d h = refl
  get_or-past (x ∷ xs) zero d h = absurd (omega arith)
  get_or-past (x ∷ xs) (suc i) d h = get_or-past xs i d (omega arith)

-- Lists of numbers: membership, distinctness, the members that pass a test.
abbrev pub mem : ℕ → List ℕ → Bool
mem a [] = false
mem a (x ∷ xs) = (a == x) || mem a xs

abbrev pub Distinct : List ℕ → Type 0
Distinct [] = Unit
Distinct (x ∷ xs) = (mem x xs ≡ false) × Distinct xs

pub mem-append : (a : ℕ) (xs ys : List ℕ) → mem a (xs ++ ys) ≡ (mem a xs || mem a ys)
mem-append a [] ys = refl
mem-append a (x ∷ xs) ys = ground (arith, mem-append a xs ys)

abbrev pub keep : (ℕ → Bool) → List ℕ → List ℕ
keep p [] = []
keep p (x ∷ xs) = if p x then x ∷ keep p xs else keep p xs

pub length-keep : (p : ℕ → Bool) (xs : List ℕ) → length (keep p xs) ≤ length xs
length-keep p [] = omega arith
length-keep p (x ∷ xs) = ground (arith, length-keep p xs)

-- Tests that agree on the members keep the same members.
pub keep_cong :
    (p q : ℕ → Bool) (xs : List ℕ) → ((x : ℕ) → mem x xs ≡ true → p x ≡ q x) → keep p xs ≡ keep q xs
keep_cong p q [] h = refl
keep_cong p q (x ∷ xs) h =
    ap₂ (λ b v. if b then x ∷ v else v) (h x (ground arith))
      (keep_cong p q xs λ y m. h y (ground arith))

-- What stands for a member of a list is not what stands for a number outside it.
pub ne_of_mem : (a x : ℕ) (xs : List ℕ) → mem a xs ≡ false → mem x xs ≡ true → (a == x) ≡ false
ne_of_mem a x xs h m = elim (ℕ_discrete a x) [
  | yes e ↦ absurd (false≢true (sym h ∙ ap (λ y. mem y xs) e ∙ m))
  | no e ↦ ground arith
]

-- A list turned by one place has the same members, still distinct.
pub Distinct-turn : (x : ℕ) (xs : List ℕ) → Distinct (x ∷ xs) → Distinct (xs ++ (x ∷ []))
Distinct-turn x [] d = (refl, tt)
Distinct-turn x (y ∷ ys) d =
    (ground (arith, mem-append y ys (x ∷ [])), Distinct-turn x ys (ground arith, d.1.1))

-- How often a number stands in a list.
abbrev pub occ : ℕ → List ℕ → ℕ
occ a [] = 0
occ a (x ∷ xs) = (if a == x then 1 else 0) + occ a xs

pub occ-append : (a : ℕ) (xs ys : List ℕ) → occ a (xs ++ ys) ≡ occ a xs + occ a ys
occ-append a [] ys = omega arith
occ-append a (x ∷ xs) ys = omega (arith, occ-append a xs ys)

pub mem-occ : (a : ℕ) (xs : List ℕ) → mem a xs ≡ ltb 0 (occ a xs)
mem-occ a [] = refl
mem-occ a (x ∷ xs) = ground (arith, mem-occ a xs)

pub mem_of_occ : (a : ℕ) (xs ys : List ℕ) → occ a xs ≡ occ a ys → mem a xs ≡ mem a ys
mem_of_occ a xs ys e = mem-occ a xs ∙ ap (λ n. ltb 0 n) e ∙ sym (mem-occ a ys)

pub Distinct-of_occ : (xs : List ℕ) → ((a : ℕ) → occ a xs ≤ 1) → Distinct xs
Distinct-of_occ [] h = tt
Distinct-of_occ (x ∷ xs) h =
    (ground (arith, h x, mem-occ x xs), Distinct-of_occ xs (λ a. omega (arith, h a)))

pub occ_of_Distinct : (xs : List ℕ) (a : ℕ) → Distinct xs → occ a xs ≤ 1
occ_of_Distinct [] a d = omega arith
occ_of_Distinct (x ∷ xs) a d = elim (ℕ_discrete a x) [
  | yes e ↦ rw (e, ==_refl x) (ground (arith, mem-occ x xs))
  | no e ↦ ground (arith, occ_of_Distinct xs a)
]
