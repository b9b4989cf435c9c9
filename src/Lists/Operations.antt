-- ===== src/Lists/Operations.antt =====
-- What each call does to the list that the chain stands for.
use t1_sistemas_embarcados.Prelude.{
  ℕ, zero, suc, ◌+◌, ◌-◌, ◌%◌, ◌^◌, ◌≤◌, ◌<◌, ◌≡◌, refl, sym, ap, ◌∙◌, true, false, some, [], ◌∷◌,
  ◌++◌, length, arith, mem, ltb, ◌==◌, if◌then◌else◌, Bool-cases, inl, inr,
}
use t1_sistemas_embarcados.Lists.{
  Store, set_elem, set_next, last_node, node_before, find, count_from,
}
use t1_sistemas_embarcados.Lists.Chains.{Cells, addresses, last_of, IsChain}

-- The first `n` cells and those behind them.
abbrev pub take : ℕ → Cells → Cells
take zero cells = []
take (suc n) [] = []
take (suc n) (c ∷ cells) = c ∷ take n cells

abbrev pub drop : ℕ → Cells → Cells
drop zero cells = cells
drop (suc n) [] = []
drop (suc n) (c ∷ cells) = drop n cells

pub take-drop : (n : ℕ) (cells : Cells) → take n cells ++ drop n cells ≡ cells
take-drop zero cells = refl
take-drop (suc n) [] = refl
take-drop (suc n) (c ∷ cells) = ap (λ r. c ∷ r) (take-drop n cells)

-- A write of a node that the chain does not have.
pub IsChain-fresh :
    (cells : Cells) (p q item : ℕ) (st : Store)
    → mem q (p ∷ addresses cells) ≡ false
    → IsChain st p cells
    → IsChain (set_next q 0 (set_elem q item st)) p cells
IsChain-fresh [] p q item st f c = ground arith
IsChain-fresh ((a, x) ∷ cells) p q item st f (e, z, h, c) =
    (ground arith, z, ground arith, IsChain-fresh cells a q item st (ground arith) c)

pub last_node_lem :
    (fuel : ℕ) (cells : Cells) (p : ℕ) (st : Store)
    → length cells < fuel
    → IsChain st p cells
    → last_node fuel p st ≡ some (last_of p cells)
unfolding last_node
last_node_lem zero cells p st f c = absurd (omega arith)
last_node_lem (suc fuel) [] p st f c = rw c refl
last_node_lem (suc fuel) ((a, x) ∷ cells) p st f (e, z, h, c) =
    rw (e, z) (last_node_lem fuel cells a st (omega arith) c)

pub count_from_lem :
    (fuel : ℕ) (cells : Cells) (p i : ℕ) (st : Store)
    → length cells < fuel
    → i + length cells < 2 ^ 32
    → IsChain st p cells
    → count_from fuel p i st ≡ some (i + length cells)
unfolding count_from
count_from_lem zero cells p i st f l c = absurd (omega arith)
count_from_lem (suc fuel) [] p i st f l c = rw c (ap some (omega arith))
count_from_lem (suc fuel) ((a, x) ∷ cells) p i st f l (e, z, h, c) =
    let step : (i + 1) % 2 ^ 32 ≡ i + 1 = omega arith in
    rw (e, z, step)
      (count_from_lem fuel cells a (i + 1) st (omega arith) (omega arith) c ∙ ap some (omega arith))

take-empty : (n : ℕ) → take n [] ≡ []
take-empty zero = refl
take-empty (suc n) = refl

last_of-later :
    (cells : Cells) (a p x i pos : ℕ)
    → (i + 1 == pos) ≡ false
    → last_of a (if ltb (i + 1) pos then take (pos - (i + 1)) cells else cells)
      ≡ last_of p (if ltb i pos then take (pos - i) ((a, x) ∷ cells) else (a, x) ∷ cells)
last_of-later cells a p x i pos y = elim (Bool-cases (ltb (i + 1) pos)) [
  | inl l ↦
      let before : ltb i pos ≡ true = ground arith in
      let more : pos - i ≡ suc (pos - (i + 1)) = ground arith in rw (l, before, more) refl
  | inr l ↦ let past : ltb i pos ≡ false = ground arith in rw (l, past) refl
]

-- The node that `hf_list_insert` goes behind, from the position `i` on.
pub node_before_lem :
    (fuel : ℕ) (cells : Cells) (p i pos : ℕ) (st : Store)
    → length cells < fuel
    → i + length cells < 2 ^ 32
    → IsChain st p cells
    → node_before fuel p i pos st
      ≡ some (last_of p (if ltb i pos then take (pos - i) cells else cells))
unfolding node_before
node_before_lem zero cells p i pos st f l c = absurd (omega arith)
node_before_lem (suc fuel) [] p i pos st f l c = elim (Bool-cases (ltb i pos)) [
  | inl y ↦ rw (c, y) (ap (λ w. some (last_of p w)) (sym (take-empty (pos - i))))
  | inr y ↦ rw (c, y) refl
]
node_before_lem (suc fuel) ((a, x) ∷ cells) p i pos st f l (e, z, h, c) =
    let step : (i + 1) % 2 ^ 32 ≡ i + 1 = omega arith in
    let rest = node_before_lem fuel cells a (i + 1) pos st (omega arith) (omega arith) c in
    elim (Bool-cases (i + 1 == pos)) [
      | inl y ↦
          let here : ltb i pos ≡ true = ground arith in
          let one : pos - i ≡ 1 = ground arith in rw (e, z, step, y, here, one) refl
      | inr y ↦ rw (e, z, step, y) (rest ∙ ap some (last_of-later cells a p x i pos y))
    ]

-- The address of the `k`-th node behind `p` and of the one before it.
abbrev pub found : ℕ → ℕ → Cells → ℕ × ℕ
found p k [] = (0, p)
found p zero ((a, x) ∷ cells) = (a, p)
found p (suc k) ((a, x) ∷ cells) = found a k cells

pub find_lem :
    (fuel : ℕ) (cells : Cells) (p i k : ℕ) (st : Store)
    → length cells < fuel
    → i + length cells < 2 ^ 32
    → IsChain st p cells
    → find fuel p i (i + k) st ≡ some (found p k cells)
unfolding find
find_lem zero cells p i k st f l c = absurd (omega arith)
find_lem (suc fuel) [] p i k st f l c = rw c refl
find_lem (suc fuel) ((a, x) ∷ cells) p i zero st f l (e, z, h, c) =
    let here : (i == i + 0) ≡ true = ground arith in rw (e, z, here) refl
find_lem (suc fuel) ((a, x) ∷ cells) p i (suc k) st f l (e, z, h, c) =
    let step : (i + 1) % 2 ^ 32 ≡ i + 1 = omega arith in
    let later : (i == i + suc k) ≡ false = ground arith in
    let next : i + suc k ≡ i + 1 + k = omega arith in
    rw (e, z, step, later, next) (find_lem fuel cells a (i + 1) k st (omega arith) (omega arith) c)

pub found-past :
    (cells : Cells) (p k : ℕ) → length cells ≤ k → found p k cells ≡ (0, last_of p cells)
found-past [] p k h = refl
found-past ((a, x) ∷ cells) p zero h = absurd (omega arith)
found-past ((a, x) ∷ cells) p (suc k) h = found-past cells a k (omega arith)

pub found-at :
    (pre post : Cells) (p a x : ℕ)
    → found p (length pre) (pre ++ ((a, x) ∷ post)) ≡ (a, last_of p pre)
found-at [] post p a x = refl
found-at ((b, y) ∷ pre) post p a x = found-at pre post b a x
