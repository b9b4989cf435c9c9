-- ===== src/Sched/BestEffort/Choice.antt =====
-- The choice that the search of `sched_priorityrr` makes over a list: the first task of the lowest
-- remaining priority among those that are not blocked.
use t1_sistemas_embarcados.Prelude.{
  ℕ, ◌≤◌, ◌<◌, ◌≡◌, refl, ap, ◌∙◌, true, false, not, ◌&&◌, none, some, List, [], ◌∷◌, ◌⊎◌, inl, inr,
  arith, ltb, if◌then◌else◌, mem, Bool-cases, Option-cases, ℕ_discrete,
}
use t1_sistemas_embarcados.Kernel.{Tcb}
use t1_sistemas_embarcados.Kernel.Steps.{is_blocked}
use t1_sistemas_embarcados.Sched.BestEffort.{Search}

-- One task of the first run, and all of them.
abbrev pub better : (ℕ → Tcb) → Search → ℕ → Search
better f s t =
    if ltb (f t).priority_rem s.highestp && not (is_blocked (f t))
    then record { highestp = (f t).priority_rem; best = some t }
    else s

abbrev pub found : (ℕ → Tcb) → Search → List ℕ → Search
found f s [] = s
found f s (t ∷ ts) = found f (better f s t) ts

abbrev pub start : Search
start = record { highestp = 255; best = none }

-- `b` is a task of the list that can run, and none that can run has a lower remaining priority.
pub record IsChoice (f : ℕ → Tcb) (ts : List ℕ) (b : ℕ) : Type 0 where
  pub member : mem b ts ≡ true
  pub free : is_blocked (f b) ≡ false
  pub least :
      (x : ℕ) → mem x ts ≡ true → is_blocked (f x) ≡ false → (f b).priority_rem ≤ (f x).priority_rem

-- What the search records of the task it holds.
record IsSound (f : ℕ → Tcb) (s : Search) : Type 0 where
  held : (b : ℕ) → s.best ≡ some b → (f b).priority_rem ≡ s.highestp
  free : (b : ℕ) → s.best ≡ some b → is_blocked (f b) ≡ false
  empty : s.best ≡ none → s.highestp ≡ 255

module _ (f : ℕ → Tcb) where
  better-IsSound : (s : Search) (t : ℕ) → IsSound f s → IsSound f (better f s t)
  better-IsSound s t h =
      elim (Bool-cases (ltb (f t).priority_rem s.highestp && not (is_blocked (f t)))) [
        | inl y ↦
            rw y
              (record { held = λ b e. ground arith; free = λ b e. ground arith; empty = λ e. cc })
        | inr y ↦ rw y h
      ]

  found-IsSound : (ts : List ℕ) (s : Search) → IsSound f s → IsSound f (found f s ts)
  found-IsSound [] s h = h
  found-IsSound (t ∷ ts) s h = found-IsSound ts (better f s t) (better-IsSound s t h)

  found-le : (ts : List ℕ) (s : Search) → (found f s ts).highestp ≤ s.highestp
  found-le [] s = omega arith
  found-le (t ∷ ts) s = ground (arith, found-le ts (better f s t))

  found-least :
      (x : ℕ) (ts : List ℕ) (s : Search)
      → mem x ts ≡ true
      → is_blocked (f x) ≡ false
      → (found f s ts).highestp ≤ (f x).priority_rem
  found-least x [] s m n = cc
  found-least x (t ∷ ts) s m n = elim (ℕ_discrete x t) [
    | yes e ↦ ground (arith, found-le ts (better f s t))
    | no e ↦ found-least x ts (better f s t) (ground arith) n
  ]

  found-member :
      (b : ℕ) (ts : List ℕ) (s : Search)
      → (found f s ts).best ≡ some b
      → (s.best ≡ some b) ⊎ (mem b ts ≡ true)
  found-member b [] s e = inl e
  found-member b (t ∷ ts) s e = ground (arith, found-member b ts (better f s t))

  start-IsSound : IsSound f start
  start-IsSound = record { held = λ b e. cc; free = λ b e. cc; empty = λ e. refl }

  -- What the search returns is a choice.
  pub found-IsChoice : (ts : List ℕ) (b : ℕ) → (found f start ts).best ≡ some b → IsChoice f ts b
  found-IsChoice ts b e =
      let sound = found-IsSound ts start start-IsSound in
      record {
        member = ground (arith, found-member b ts start);
        free = sound.free b e;
        least = λ x m n. omega (arith, found-least x ts start m n, sound.held b e);
      }

  -- It finds one if some task can run and has a remaining priority below 255.
  pub found-some :
      (ts : List ℕ) (x : ℕ)
      → mem x ts ≡ true
      → is_blocked (f x) ≡ false
      → (f x).priority_rem < 255
      → (b : ℕ) × ((found f start ts).best ≡ some b)
  found-some ts x m n l = elim (Option-cases (found f start ts).best) [
    | inl z ↦
        absurd (
          omega (arith, (found-IsSound ts start start-IsSound).empty z, found-least x ts start m n))
    | inr (b, e) ↦ (b, e)
  ]

  -- And none if no task of the list does.
  pub found-none :
      (ts : List ℕ)
      → ((x : ℕ) → mem x ts ≡ true → is_blocked (f x) ≡ false → 255 ≤ (f x).priority_rem)
      → found f start ts ≡ start
  found-none [] h = refl
  found-none (t ∷ ts) h =
      ap (λ s. found f s ts) (ground (arith, h t)) ∙ found-none ts (λ x m. h x (ground arith))
