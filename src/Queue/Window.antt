-- ===== src/Queue/Window.antt =====
-- The cells of a circular array from an index on, and what writes do to them.
use t1_sistemas_embarcados.Prelude.{
  ℕ, zero, suc, ◌+◌, ◌-◌, ◌%◌, ◌≤◌, ◌<◌, ◌≡◌, refl, sym, ap, ap₂, ◌∙◌, Option, none, List, [], ◌∷◌,
  ◌++◌, arith, ◌==◌, if◌then◌else◌, length, get_or, set, length-append, length-set,
  get_or-append_one, get_or-set, eq_of_get_or, mod_wrap,
}

module _ {A : Type 0} where
  abbrev pub window : List (Option A) → ℕ → ℕ → ℕ → List (Option A)
  window cells size h zero = []
  window cells size h (suc n) = get_or cells h none ∷ window cells size ((h + 1) % size) n

  pub length-window : (cells : List (Option A)) (size h n : ℕ) → length (window cells size h n) ≡ n
  length-window cells size h zero = refl
  length-window cells size h (suc n) = ap suc (length-window cells size ((h + 1) % size) n)

-- One step more from the next index is one step more from this one.
pub slot_step :
    (size h i : ℕ) → h < size → i < size → ((h + 1) % size + i) % size ≡ (h + suc i) % size
slot_step size h i hh hi =
    ground
      (arith, mod_wrap (h + 1) size, mod_wrap ((h + 1) % size + i) size, mod_wrap (h + suc i) size)

-- Different steps, fewer than the size, lead to different cells.
pub slot_injective :
    (size h i j : ℕ) → h < size → i < size → j < size → (h + i) % size ≡ (h + j) % size → i ≡ j
slot_injective size h i j hh hi hj e = ground (arith, mod_wrap (h + i) size, mod_wrap (h + j) size)

-- A test on cells is a test on steps.
pub slot_test :
    (size h i j : ℕ)
    → h < size
    → i < size
    → j < size
    → ((h + i) % size == (h + j) % size) ≡ (i == j)
slot_test size h i j hh hi hj = ground (arith, slot_injective size h i j)

pub slot_lt : (size h i : ℕ) → h < size → i < size → (h + i) % size < size
slot_lt size h i hh hi = ground (arith, mod_wrap (h + i) size)

module _ {A : Type 0} (cells : List (Option A)) (size : ℕ) where
  pub get_or-window :
      (h n i : ℕ)
      → h < size
      → n ≤ size
      → i < n
      → get_or (window cells size h n) i none ≡ get_or cells ((h + i) % size) none
  get_or-window h zero i hh hn hi = absurd (omega arith)
  get_or-window h (suc n) zero hh hn hi =
      ap (λ k. get_or cells k none) (ground (arith, mod_wrap (h + 0) size))
  get_or-window h (suc n) (suc i) hh hn hi =
      get_or-window ((h + 1) % size) n i (slot_lt size h 1 hh (omega arith)) (omega arith)
        (omega arith)
      ∙ ap (λ k. get_or cells k none) (slot_step size h i hh (omega arith))

module _ {A : Type 0} (cells : List (Option A)) (size h : ℕ) (p : Option A) where
  -- Writing inside a window changes that place of it.
  pub window-set :
      (n i : ℕ)
      → length cells ≡ size
      → h < size
      → n ≤ size
      → i < n
      → window (set cells ((h + i) % size) p) size h n ≡ set (window cells size h n) i p
  window-set n i stored hh hn hi =
      eq_of_get_or none _ _
        (length-window (set cells ((h + i) % size) p) size h n
          ∙ sym (length-set (window cells size h n) i p ∙ length-window cells size h n))
        λ j hj.
          let inside : j < n =
            omega (arith, length-window (set cells ((h + i) % size) p) size h n) in
          get_or-window (set cells ((h + i) % size) p) size h n j hh hn inside
          ∙ get_or-set cells ((h + i) % size) ((h + j) % size) p none
              (omega (arith, slot_lt size h i))
          ∙ ap₂ (λ b v. if b then p else v) (slot_test size h i j hh (omega arith) (omega arith))
              (sym (get_or-window cells size h n j hh hn inside))
          ∙ sym (
              get_or-set (window cells size h n) i j p none
                (omega (arith, length-window cells size h n)))

  -- Writing just past a window extends it.
  pub window-extend :
      (n : ℕ)
      → length cells ≡ size
      → h < size
      → n < size
      → window (set cells ((h + n) % size) p) size h (suc n) ≡ window cells size h n ++ (p ∷ [])
  window-extend n stored hh hn =
      eq_of_get_or none _ _
        (length-window (set cells ((h + n) % size) p) size h (suc n)
          ∙ sym (
              length-append (window cells size h n) (p ∷ [])
              ∙ omega (arith, length-window cells size h n)))
        λ j hj.
          let inside : j < suc n =
            omega (arith, length-window (set cells ((h + n) % size) p) size h (suc n)) in
          get_or-window (set cells ((h + n) % size) p) size h (suc n) j hh hn inside
          ∙ get_or-set cells ((h + n) % size) ((h + j) % size) p none
              (omega (arith, slot_lt size h n))
          ∙ extend_at j inside
          ∙ sym (get_or-append_one (window cells size h n) p none j)
    where
      extend_at :
          (j : ℕ)
          → j < suc n
          → (if (h + n) % size == (h + j) % size then p else get_or cells ((h + j) % size) none) ≡ (
              if j == length (window cells size h n)
              then p
              else get_or (window cells size h n) j none)
      extend_at j hj = ground (
        arith,
        length-window cells size h n,
        slot_injective size h n j,
        get_or-window cells size h n j,
      )

module _ {A : Type 0} (cells : List (Option A)) (size h : ℕ) where
  -- The first place of a window, and the window behind it.
  pub window-uncons :
      (n : ℕ) {x : Option A} {xs : List (Option A)}
      → window cells size h n ≡ x ∷ xs
      → (get_or cells h none ≡ x) × (window cells size ((h + 1) % size) (n - 1) ≡ xs)
  window-uncons zero e = cc
  window-uncons (suc n) e = let back : suc n - 1 ≡ n = omega arith in (cc, rw back (cc e))
