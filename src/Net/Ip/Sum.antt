-- ===== src/Net/Ip/Sum.antt =====
-- The ones' complement sum.
use t1_sistemas_embarcados.Prelude.{
  ℕ, zero, suc, ◌+◌, ◌-◌, ◌*◌, ◌/◌, ◌^◌, ◌%◌, ◌<◌, ◌≡◌, refl, ◌∙◌, true, false, some, ◌==◌,
  Bool-cases, inl, inr, arith,
}
use t1_sistemas_embarcados.Libc.Memory.{Memory}
use t1_sistemas_embarcados.Net.{word_at}
use t1_sistemas_embarcados.Net.Ip.{add_words, fold}

-- `fold` leaves a number of 16 bits that differs by a multiple of 2^16 - 1, and is 0 only for 0.
pub Folds : ℕ → ℕ → Type 0
Folds s r = (q : ℕ) × (s ≡ r + 65535 * q) × (r < 2 ^ 16) × ((r == 0) ≡ (s == 0))

-- A sum with the complement of what it folds to.
pub Folds-complement :
    (s r r' : ℕ) → 0 < s → Folds s r → Folds (s + (2 ^ 16 - 1 - r % 2 ^ 16)) r' → r' ≡ 0xffff
unfolding Folds
Folds-complement s r r' pos (q, e, l, z) (q', e', l', z') =
    let above : 0 < r = ground arith in let above' : 0 < r' = ground arith in omega arith

pub Folds-full : (s : ℕ) → Folds s 0xffff → (q : ℕ) × (s ≡ 65535 + 65535 * q)
unfolding Folds
Folds-full s (q, e, l, z) = (q, e)

-- Sums that differ by a multiple of 2^16 - 1, neither of them 0, fold to the same.
pub Folds-same :
    (s s' r r' k : ℕ) → 0 < s → 0 < s' → s ≡ s' + 65535 * k → Folds s r → Folds s' r' → r ≡ r'
unfolding Folds
Folds-same s s' r r' k pos pos' d (q, e, l, z) (q', e', l', z') =
    let above : 0 < r = ground arith in let above' : 0 < r' = ground arith in omega arith

fold-ends : (fuel s : ℕ) → (s / 2 ^ 16 == 0) ≡ true → fold (suc fuel) s ≡ some s
unfolding fold
fold-ends fuel s h = rw h refl

fold-round :
    (fuel s : ℕ)
    → (s / 2 ^ 16 == 0) ≡ false
    → fold (suc fuel) s ≡ fold fuel (s % 2 ^ 16 + s / 2 ^ 16)
unfolding fold
fold-round fuel s h = rw h refl

pub fold_lem : (s : ℕ) → s < 2 ^ 32 → (r : ℕ) × (fold 3 s ≡ some r) × Folds s r
unfolding Folds
fold_lem s h = elim (Bool-cases (s / 2 ^ 16 == 0)) [
  | inl y ↦ (s, fold-ends 2 s y, (0, omega arith, ground arith, refl))
  | inr y ↦ elim (Bool-cases ((s % 2 ^ 16 + s / 2 ^ 16) / 2 ^ 16 == 0)) [
    | inl z ↦ (
      s % 2 ^ 16 + s / 2 ^ 16,
      fold-round 2 s y ∙ fold-ends 1 (s % 2 ^ 16 + s / 2 ^ 16) z,
      (s / 2 ^ 16, omega arith, ground arith, ground arith),
    )
    | inr z ↦
        let s₁ = s % 2 ^ 16 + s / 2 ^ 16 in
        let last : ((s₁ % 2 ^ 16 + s₁ / 2 ^ 16) / 2 ^ 16 == 0) ≡ true = ground arith in
        (
          s₁ % 2 ^ 16 + s₁ / 2 ^ 16,
          fold-round 2 s y ∙ fold-round 1 s₁ z ∙ fold-ends 0 (s₁ % 2 ^ 16 + s₁ / 2 ^ 16) last,
          (s / 2 ^ 16 + s₁ / 2 ^ 16, omega arith, ground arith, ground arith),
        )
  ]
]

-- The words from `i` on, `n` of them.
abbrev pub total : ℕ → ℕ → Memory → ℕ
total zero i f = 0
total (suc n) i f = word_at i f + total n (i + 2) f

pub add_words-total :
    (n i s : ℕ) (f : Memory) → s + total n i f < 2 ^ 32 → add_words n i s f ≡ s + total n i f
unfolding add_words
add_words-total zero i s f h = omega arith
add_words-total (suc n) i s f h =
    let small : (s + word_at i f) % 2 ^ 32 ≡ s + word_at i f = omega arith in
    rw small (add_words-total n (i + 2) (s + word_at i f) f (omega arith) ∙ omega arith)
