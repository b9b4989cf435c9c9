-- ===== src/Kernel/Places.antt =====
-- Positions in a kernel queue: reading one, and exchanging two.
use t1_sistemas_embarcados.Prelude.{
  ℕ, ◌<◌, ◌≡◌, refl, ap, ap₂, ◌∙◌, none, some, List, [], ◌∷◌, ◌++◌, arith, length, get_or, set,
  length-append,
}
use mathlib.Core.List.{append_assoc}
use mathlib.Core.Path.{subst}
use t1_sistemas_embarcados.Queue.{Queue, done, get, swap}
use t1_sistemas_embarcados.Queue.Refine.{Holds, get-get_or, swap-Holds}
use t1_sistemas_embarcados.Kernel.View.{Tasks, ptrs, length-ptrs}

-- The list of tasks in three parts, around two of them.
abbrev pub around : List ℕ → ℕ → List ℕ → ℕ → List ℕ → List ℕ
around pre x mid y ys = pre ++ (x ∷ (mid ++ (y ∷ ys)))

pub around_assoc :
    (pre : List ℕ) (x : ℕ) (mid : List ℕ) (y : ℕ) (ys : List ℕ)
    → (pre ++ (x ∷ mid)) ++ (y ∷ ys) ≡ around pre x mid y ys
around_assoc pre x mid y ys = append_assoc pre (x ∷ mid) (y ∷ ys)

ptr_at :
    (pre : List ℕ) (x : ℕ) (r : List ℕ) → get_or (ptrs (pre ++ (x ∷ r))) (length pre) none ≡ some x
ptr_at [] x r = refl
ptr_at (p ∷ pre) x r = ptr_at pre x r

ptr_set :
    (pre : List ℕ) (x v : ℕ) (r : List ℕ)
    → set (ptrs (pre ++ (x ∷ r))) (length pre) (some v) ≡ ptrs (pre ++ (v ∷ r))
ptr_set [] x v r = refl
ptr_set (p ∷ pre) x v r = ap (λ l. some p ∷ l) (ptr_set pre x v r)

-- The exchange of two positions, whichever is written first.
module _ (x : ℕ) (mid : List ℕ) (y : ℕ) (ys : List ℕ) where
  exchange :
      (pre : List ℕ)
      → let l = ptrs (around pre x mid y ys) in
        set
          (set l (length pre) (get_or l (length (pre ++ (x ∷ mid))) none))
          (length (pre ++ (x ∷ mid)))
          (get_or l (length pre) none)
        ≡ ptrs (around pre y mid x ys)
  exchange [] = ap₂ ◌∷◌ (ptr_at mid y ys) (ptr_set mid y x ys)
  exchange (p ∷ pre) = ap (λ l. some p ∷ l) (exchange pre)

  exchange_back :
      (pre : List ℕ)
      → let l = ptrs (around pre x mid y ys) in
        set
          (set l (length (pre ++ (x ∷ mid))) (get_or l (length pre) none))
          (length pre)
          (get_or l (length (pre ++ (x ∷ mid))) none)
        ≡ ptrs (around pre y mid x ys)
  exchange_back [] = ap₂ ◌∷◌ (ptr_at mid y ys) (ptr_set mid y x ys)
  exchange_back (p ∷ pre) = ap (λ l. some p ∷ l) (exchange_back pre)

  front_in : (pre : List ℕ) → length pre < length (ptrs (around pre x mid y ys))
  front_in [] = omega arith
  front_in (p ∷ pre) = omega (arith, front_in pre)

  back_in : (pre : List ℕ) → length (pre ++ (x ∷ mid)) < length (ptrs (around pre x mid y ys))
  back_in [] = omega (arith, length-ptrs (mid ++ (y ∷ ys)), length-append {0} mid (y ∷ ys))
  back_in (p ∷ pre) = omega (arith, back_in pre)

module _ {q : Queue ℕ} {m : ℕ} where
  pub get-behind :
      (pre : List ℕ) (x : ℕ) (r : List ℕ) → Tasks q m (pre ++ (x ∷ r)) → get q (length pre) ≡ some x
  get-behind pre x r h = get-get_or h.holds (length pre) ∙ ptr_at pre x r

  pub swap-around :
      (pre : List ℕ) (x : ℕ) (mid : List ℕ) (y : ℕ) (ys : List ℕ)
      → Tasks q m (around pre x mid y ys)
      → ((swap q (length pre) (length (pre ++ (x ∷ mid)))).0 ≡ done)
        × Tasks (swap q (length pre) (length (pre ++ (x ∷ mid)))).1 m (around pre y mid x ys)
  swap-around pre x mid y ys h =
      let (e, k) =
        swap-Holds h.holds (length pre) (length (pre ++ (x ∷ mid))) (front_in x mid y ys pre)
          (back_in x mid y ys pre) in
      (e, record { holds = subst (Holds _ m) (exchange x mid y ys pre) k })

  -- The same with the later position first.
  pub swap-around_back :
      (pre : List ℕ) (x : ℕ) (mid : List ℕ) (y : ℕ) (ys : List ℕ)
      → Tasks q m (around pre x mid y ys)
      → ((swap q (length (pre ++ (x ∷ mid))) (length pre)).0 ≡ done)
        × Tasks (swap q (length (pre ++ (x ∷ mid))) (length pre)).1 m (around pre y mid x ys)
  swap-around_back pre x mid y ys h =
      let (e, k) =
        swap-Holds h.holds (length (pre ++ (x ∷ mid))) (length pre) (back_in x mid y ys pre)
          (front_in x mid y ys pre) in
      (e, record { holds = subst (Holds _ m) (exchange_back x mid y ys pre) k })
