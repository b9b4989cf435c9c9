-- ===== src/Queue/Refine.antt =====
-- A valid `struct queue` with `n + 1` cells behaves as a list of at most `n` pointers.
use t1_sistemas_embarcados.Prelude.{
  ℕ, ◌+◌, ◌-◌, ◌%◌, ◌≤◌, ◌<◌, ◌≡◌, refl, sym, false, ◌||◌, ap, ◌∙◌, Option, none, List, [], ◌∷◌,
  ◌++◌, arith, dec_lt, ◌==◌, length, get_or-past, length-set, get_or, set, mod_wrap,
}
use mathlib.Core.Path.{subst}
use native.Mathlib.Numerals.{add-one}
use t1_sistemas_embarcados.Queue.{
  Queue, Status, done, failed, count, addtail, remhead, get, set_at, swap, slot, next_tail, absent,
}
use t1_sistemas_embarcados.Queue.Inv.{IsValid, tail_lt, addtail-IsValid, remhead-IsValid}
use t1_sistemas_embarcados.Queue.Window.{
  window, length-window, window-set, window-extend, window-uncons, get_or-window,
}

module _ {A : Type 0} where
  abbrev pub contents : Queue A → List (Option A)
  contents q = window q.cells q.size q.head q.elem

  -- The queue stands for the list `xs`, and takes `n` pointers at most.
  pub record Holds (q : Queue A) (n : ℕ) (xs : List (Option A)) : Type 0 where
    pub valid : IsValid q
    pub room : q.size ≡ n + 1
    pub view : contents q ≡ xs

  module _ {q : Queue A} {n : ℕ} {xs : List (Option A)} (h : Holds q n xs) where
    pub elem-length : q.elem ≡ length xs
    elem-length = sym (length-window q.cells q.size q.head q.elem) ∙ ap length h.view

    pub count-Holds : count q ≡ length xs
    unfolding count
    count-Holds = elem-length

    -- `head == tail` exactly when there is no element.
    pub empty_iff : (q.head == q.tail) ≡ (q.elem == 0)
    empty_iff = ground (arith, h.valid, mod_wrap (q.head + q.elem) q.size)

    -- The next tail meets the head exactly when the list is full.
    pub full_iff : (next_tail q == q.head) ≡ (q.elem == n)
    full_iff = ground (
      arith,
      h.valid,
      h.room,
      mod_wrap (q.head + q.elem) q.size,
      tail_lt h.valid,
      mod_wrap (q.tail + 1) q.size,
    )

    -- A full queue refuses, and stays as it is.
    pub addtail-full : (p : Option A) → length xs ≡ n → addtail q p ≡ (failed, q)
    unfolding addtail
    addtail-full p e = ground (arith, full_iff, elem-length, h.room)

    pub addtail_step :
        (p : Option A)
        → length xs < n
        → addtail q p
          ≡ (done, record q { cells = set q.cells q.tail p; tail = next_tail q; elem = q.elem + 1 })
    unfolding addtail
    addtail_step p l = ground (arith, full_iff, elem-length, h.room)

    -- Otherwise `hf_queue_addtail` appends the pointer.
    pub addtail-done :
        (p : Option A)
        → length xs < n
        → ((addtail q p).0 ≡ done) × Holds (addtail q p).1 n (xs ++ (p ∷ []))
    addtail-done p l = rw (addtail_step p l) (
      refl,
      record {
        valid =
            subst (λ (r : Status × Queue A). IsValid r.1) (addtail_step p l)
              (addtail-IsValid h.valid p);
        room = h.room;
        view =
            rw (h.valid.tail_at, add-one)
              (window-extend q.cells q.size q.head p q.elem h.valid.stored h.valid.head_in
                  h.valid.free_cell
                ∙ ap (λ v. v ++ (p ∷ [])) h.view);
      },
    )

    -- The test that `get`, `set` and `swap` make fails at the positions of the list.
    present : (i : ℕ) → i < length xs → (q.size == 0 || absent q i || q.head == q.tail) ≡ false
    present i l = ground (arith, empty_iff, elem-length)

    get_at : (i : ℕ) → i < length xs → get_or q.cells (slot q i) none ≡ get_or xs i none
    get_at i l =
        sym (
          get_or-window q.cells q.size q.head q.elem i h.valid.head_in (omega (arith, h.valid))
            (omega (arith, elem-length)))
        ∙ ap (λ v. get_or v i none) h.view

    -- A write at a position of the list.
    write-Holds :
        (i : ℕ) (p : Option A)
        → i < length xs
        → Holds (record q { cells = set q.cells (slot q i) p }) n (set xs i p)
    write-Holds i p l = record {
      valid = record {
        small = h.valid.small;
        stored = length-set q.cells (slot q i) p ∙ h.valid.stored;
        head_in = h.valid.head_in;
        free_cell = h.valid.free_cell;
        tail_at = h.valid.tail_at;
      };
      room = h.room;
      view =
          window-set q.cells q.size q.head p q.elem i h.valid.stored h.valid.head_in
            (omega (arith, h.valid)) (omega (arith, elem-length))
          ∙ ap (λ v. set v i p) h.view;
    }

    -- `hf_queue_get` reads the list by position.
    pub get-get_or : (i : ℕ) → get q i ≡ get_or xs i none
    unfolding get
    get-get_or i = elim (dec_lt i (length xs)) [
      | yes l ↦ rw (present i l) (get_at i l)
      | no l ↦ rw (get_or-past xs i none (ground arith)) (ground (arith, elem-length))
    ]

    -- A write past the end is refused.
    pub set_at-absent : (i : ℕ) (p : Option A) → length xs ≤ i → set_at q i p ≡ (failed, q)
    unfolding set_at
    set_at-absent i p l = ground (arith, elem-length)

    pub swap-absent : (i j : ℕ) → (i < length xs → length xs ≤ j) → swap q i j ≡ (failed, q)
    unfolding swap
    swap-absent i j l = ground (arith, elem-length)

    pub length-le : length xs ≤ n
    length-le = omega (arith, h.valid, h.room, elem-length)

    pub set_at-Holds :
        (i : ℕ) (p : Option A)
        → i < length xs
        → ((set_at q i p).0 ≡ done) × Holds (set_at q i p).1 n (set xs i p)
    unfolding set_at
    set_at-Holds i p l = rw (present i l) (refl, write-Holds i p l)

  pub remhead-nil : {q : Queue A} {n : ℕ} → Holds q n [] → remhead q ≡ (none, q)
  unfolding remhead
  remhead-nil {q} h = ground (arith, empty_iff h, elem-length h)

  remhead_step :
      {q : Queue A} {n : ℕ} {x : Option A} {xs : List (Option A)}
      → Holds q n (x ∷ xs)
      → remhead q
        ≡ (get_or q.cells q.head none, record q { head = (q.head + 1) % q.size; elem = q.elem - 1 })
  unfolding remhead
  remhead_step h = ground (arith, empty_iff h, elem-length h)

  pub remhead-cons :
      {q : Queue A} {n : ℕ} {x : Option A} {xs : List (Option A)}
      → Holds q n (x ∷ xs)
      → ((remhead q).0 ≡ x) × Holds (remhead q).1 n xs
  remhead-cons {q} h = rw (remhead_step h) (
    (window-uncons q.cells q.size q.head q.elem h.view).0,
    record {
      valid =
          subst (λ (r : Option A × Queue A). IsValid r.1) (remhead_step h)
            (remhead-IsValid h.valid);
      room = h.room;
      view = (window-uncons q.cells q.size q.head q.elem h.view).1;
    },
  )

  module _ {q : Queue A} {n : ℕ} {xs : List (Option A)} (h : Holds q n xs) where
    -- `hf_queue_swap` exchanges two positions of the list.
    pub swap-Holds :
        (i j : ℕ)
        → i < length xs
        → j < length xs
        → ((swap q i j).0 ≡ done)
          × Holds (swap q i j).1 n (set (set xs i (get_or xs j none)) j (get_or xs i none))
    unfolding swap
    swap-Holds i j l m =
        rw (both_present, get_at h i l, get_at h j m)
          (
            refl,
            write-Holds (write-Holds h i (get_or xs j none) l) j (get_or xs i none)
                (rw (length-set xs i (get_or xs j none)) m),
          )
      where
        both_present : (q.size == 0 || absent q i || absent q j || q.head == q.tail) ≡ false
        both_present = ground (arith, empty_iff h, elem-length h)
