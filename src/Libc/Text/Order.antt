-- ===== src/Libc/Text/Order.antt =====
-- The order on texts that the comparisons compute.
use t1_sistemas_embarcados.Prelude.{
  ℕ, zero, suc, ◌+◌, ◌^◌, ◌<◌, ◌≡◌, refl, sym, ap, ap₂, ◌∙◌, false, arith, ◌==◌, if◌then◌else◌,
  Bool-cases, inl, inr, ◌↔◌, some, List, [], ◌∷◌, length, ℕ_discrete,
}
use t1_sistemas_embarcados.Libc.Memory.{Memory}
use t1_sistemas_embarcados.Libc.Text.{difference, strcmp}
use t1_sistemas_embarcados.Libc.Text.Copies.{IsText}

-- The difference of the first bytes that differ, a text's end being a byte 0; 0 if none do.
abbrev pub order : List ℕ → List ℕ → ℕ
order [] [] = 0
order [] (b ∷ vs) = difference 0 b
order (a ∷ us) [] = difference a 0
order (a ∷ us) (b ∷ vs) = if a == b then order us vs else difference a b

abbrev pub AreBytes : List ℕ → Type 0
AreBytes [] = Unit
AreBytes (c ∷ cs) = (c < 2 ^ 8) × ((c == 0) ≡ false) × AreBytes cs

difference-zero : (a b : ℕ) → a < 2 ^ 8 → b < 2 ^ 8 → difference a b ≡ 0 → a ≡ b
difference-zero a b h k e = ground arith

order_refl : (us : List ℕ) → order us us ≡ 0
order_refl [] = refl
order_refl (a ∷ us) = ground (arith, order_refl us)

order-eq : (us vs : List ℕ) → AreBytes us → AreBytes vs → order us vs ≡ 0 → us ≡ vs
order-eq [] [] h k e = refl
order-eq [] (b ∷ vs) h (k, n, ks) e =
    let z = difference-zero 0 b (omega arith) k e in absurd (ground arith)
order-eq (a ∷ us) [] (h, n, hs) k e =
    let z = difference-zero a 0 h (omega arith) e in absurd (ground arith)
order-eq (a ∷ us) (b ∷ vs) (h, n, hs) (k, n', ks) e = elim (ℕ_discrete a b) [
  | yes y ↦ ap₂ ◌∷◌ y (order-eq us vs hs ks (ground arith))
  | no y ↦ absurd (y (difference-zero a b h k (ground arith)))
]

strcmp-order :
    (fuel : ℕ) (us vs : List ℕ) (s1 s2 : ℕ) (m : Memory)
    → length us < fuel
    → IsText m s1 us
    → IsText m s2 vs
    → strcmp fuel s1 s2 m ≡ some (order us vs)
unfolding strcmp
strcmp-order zero us vs s1 s2 m f t u = absurd (omega arith)
strcmp-order (suc fuel) [] [] s1 s2 m f t u = rw (t, u) refl
strcmp-order (suc fuel) [] (b ∷ vs) s1 s2 m f t (e, n, u) =
    let z : (m s1 == m s2) ≡ false = ground arith in rw z (ap some (ap₂ difference t e))
strcmp-order (suc fuel) (a ∷ us) [] s1 s2 m f (e, n, t) u =
    let z : (m s1 == m s2) ≡ false = ground arith in rw z (ap some (ap₂ difference e u))
strcmp-order (suc fuel) (a ∷ us) (b ∷ vs) s1 s2 m f (e, n, t) (e', n', u) =
    elim (Bool-cases (a == b)) [
      | inl y ↦ rw (e, e', n, y) (strcmp-order fuel us vs (s1 + 1) (s2 + 1) m (omega arith) t u)
      | inr y ↦ rw (e, e', y) refl
    ]

-- `strcmp` on two texts ends with the difference, as signed bytes, of the first bytes that differ, and with 0 exactly
-- when the texts are equal.
pub strcmp_lem :
    (fuel : ℕ) (us vs : List ℕ) (s1 s2 : ℕ) (m : Memory)
    → length us < fuel
    → IsText m s1 us
    → IsText m s2 vs
    → AreBytes us
    → AreBytes vs
    → (strcmp fuel s1 s2 m ≡ some (order us vs)) × ((order us vs ≡ 0) ↔ (us ≡ vs))
strcmp_lem fuel us vs s1 s2 m f t u h k = (
  strcmp-order fuel us vs s1 s2 m f t u,
  (order-eq us vs h k, λ e. ap (order us) (sym e) ∙ order_refl us),
)
