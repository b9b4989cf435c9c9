-- ===== src/Libc/Numbers/Printed.antt =====
-- `itoa` as a whole.
use t1_sistemas_embarcados.Prelude.{
  ℕ, zero, suc, ◌+◌, ◌-◌, ◌/◌, ◌%◌, ◌^◌, ◌≤◌, ◌<◌, ◌≡◌, refl, arith, true, false, ltb, leb, ◌==◌,
  ◌&&◌, ◌||◌, if◌then◌else◌, Bool, some, List, [], ◌∷◌, ◌++◌, get_or, length, length-append, ap,
  Bool-cases, inl, inr, ◌∙◌, sym,
}
use mathlib.Core.Path.{subst}
use native.Mathlib.Nat.{mod-lt}
use t1_sistemas_embarcados.Libc.{◌>>=◌}
use t1_sistemas_embarcados.Libc.Memory.{Memory, write}
use t1_sistemas_embarcados.Libc.Text.Copies.{IsText}
use t1_sistemas_embarcados.Libc.Divide.{is_negative, magnitude}
use t1_sistemas_embarcados.Libc.Numbers.{put_digits, itoa}
use t1_sistemas_embarcados.Libc.Numbers.Digits.{digit-nonzero}
use t1_sistemas_embarcados.Libc.Numbers.Turned.{mirrored, swap_ends_lem}
use t1_sistemas_embarcados.Libc.Numbers.Written.{
  numeral, rev, length-rev, get_or-rev, place, place_lem, place-append, put_digits_lem,
}

abbrev IsNonzero : List ℕ → Type 0
IsNonzero [] = Unit
IsNonzero (c ∷ cs) = ((c == 0) ≡ false) × IsNonzero cs

IsNonzero-append :
    (us : List ℕ) (c : ℕ) → IsNonzero us → (c == 0) ≡ false → IsNonzero (us ++ (c ∷ []))
IsNonzero-append [] c h n = (n, tt)
IsNonzero-append (u ∷ us) c (k, h) n = (k, IsNonzero-append us c h n)

rev-IsNonzero : (us : List ℕ) → IsNonzero us → IsNonzero (rev us)
rev-IsNonzero [] h = tt
rev-IsNonzero (u ∷ us) (k, h) = IsNonzero-append (rev us) u (rev-IsNonzero us h) k

numeral-IsNonzero : (k base x : ℕ) → 1 < base → base < 37 → IsNonzero (numeral k base x)
unfolding numeral
numeral-IsNonzero zero base x low high = tt
numeral-IsNonzero (suc k) base x low high =
    let small = mod-lt x {m = base} (omega arith) in
    let rest = numeral-IsNonzero k base (x / base) low high in
    (
      digit-nonzero (x % base) (omega arith),
      elim (Bool-cases (x / base == 0)) [ inl y ↦ rw y tt | inr y ↦ rw y rest ],
    )

pub length-numeral : (k base x : ℕ) → length (numeral k base x) ≤ k
unfolding numeral
length-numeral zero base x = omega arith
length-numeral (suc k) base x = ground (arith, length-numeral k base (x / base))

numeral_pos : (k base x : ℕ) → 0 < length (numeral (suc k) base x)
unfolding numeral
numeral_pos k base x = omega arith

IsText-of_bytes :
    (cs : List ℕ) (p : ℕ) (m : Memory)
    → IsNonzero cs
    → ((k : ℕ) → k < length cs → m (p + k) ≡ get_or cs k 0)
    → m (p + length cs) ≡ 0
    → IsText m p cs
IsText-of_bytes [] p m n h z = sym (ap m (omega arith)) ∙ z
IsText-of_bytes (c ∷ cs) p m (k, n) h z = (
  sym (ap m (omega arith)) ∙ h 0 (omega arith),
  k,
  IsText-of_bytes cs (p + 1) m n (λ j l. ap m (omega arith) ∙ h (suc j) (omega arith))
      (ap m (omega arith) ∙ z),
)

-- `cs` written from `s` on, closed by a byte 0 and turned round.
abbrev turned : ℕ → List ℕ → Memory → Memory
turned s cs m = mirrored s (s + length cs - 1) (write (s + length cs) 0 (place s cs m))

place_at :
    (cs : List ℕ) (s j : ℕ) (m : Memory) → j < length cs → place s cs m (s + j) ≡ get_or cs j 0
place_at cs s j m h =
    let inside : leb s (s + j) && ltb (s + j) (s + length cs) ≡ true = ground arith in
    place_lem cs s m (s + j) ∙ rw inside (ap (λ i. get_or cs i 0) (omega arith))

turned_at :
    (cs : List ℕ) (s k : ℕ) (m : Memory)
    → k < length cs
    → turned s cs m (s + k) ≡ get_or cs (length cs - 1 - k) 0
turned_at cs s k m h =
    let inside : leb s (s + k) && leb (s + k) (s + length cs - 1) ≡ true = ground arith in
    let mirror : s + (s + length cs - 1) - (s + k) ≡ s + (length cs - 1 - k) = omega arith in
    let before : (s + (length cs - 1 - k) == s + length cs) ≡ false = ground arith in
    rw (inside, mirror, before) (place_at cs s (length cs - 1 - k) m (omega arith))

turned-IsText :
    (cs : List ℕ) (s : ℕ) (m : Memory)
    → IsNonzero cs
    → 0 < length cs
    → IsText (turned s cs m) s (rev cs)
turned-IsText cs s m n h =
    IsText-of_bytes (rev cs) s (turned s cs m) (rev-IsNonzero cs n)
      (λ k l.
        turned_at cs s k m (omega (arith, length-rev cs))
        ∙ sym (get_or-rev cs k (omega (arith, length-rev cs))))
      (ground (arith, length-rev cs))

-- The digits `ds` and behind them the sign.
abbrev pub with_sign : Bool → List ℕ → List ℕ
with_sign neg ds = if neg then ds ++ (45 ∷ []) else ds

with_sign-IsNonzero : (neg : Bool) (ds : List ℕ) → IsNonzero ds → IsNonzero (with_sign neg ds)
with_sign-IsNonzero false ds h = h
with_sign-IsNonzero true ds h = IsNonzero-append ds 45 h refl

itoa-turned :
    (fuel i s base t : ℕ) (m : Memory) (ds : List ℕ)
    → 1 < base
    → base < 37
    → put_digits fuel i base s m ≡ some (t, s + length ds, place s ds m)
    → is_negative 32 t ≡ is_negative 32 i
    → length ds + 1 < fuel
    → itoa fuel i s base m ≡ some (s, turned s (with_sign (is_negative 32 i) ds) m)
unfolding itoa
itoa-turned fuel i s base t m ds low high e sign short =
    let valid : (is_negative 32 base || ltb base 2 || ltb 36 base) ≡ false = ground arith in
    elim (Bool-cases (is_negative 32 i)) [
      | inl y ↦
          let size : s + length (ds ++ (45 ∷ [])) ≡ s + length ds + 1 =
            omega (arith, length-append ds (45 ∷ [])) in
          let swapped =
            swap_ends_lem fuel s (s + length ds + 1 - 1)
              (write (s + length ds + 1) 0 (write (s + length ds) 45 (place s ds m))) (omega arith)
              (omega arith) in
          rw (valid, e, sign, y, size, place-append ds 45 s m)
            (ap (λ o. o >>= λ w. some (s, w)) swapped)
      | inr y ↦
          let swapped =
            swap_ends_lem fuel s (s + length ds - 1) (write (s + length ds) 0 (place s ds m))
              (omega arith) (omega arith) in
          rw (valid, e, sign, y) (ap (λ o. o >>= λ w. some (s, w)) swapped)
    ]

length-with_sign : (neg : Bool) (ds : List ℕ) → length ds ≤ length (with_sign neg ds)
length-with_sign false ds = omega arith
length-with_sign true ds = omega (arith, length-append ds (45 ∷ []))

rev-with_sign :
    (neg : Bool) (ds : List ℕ) → rev (with_sign neg ds) ≡ (if neg then 45 ∷ rev ds else rev ds)
rev-with_sign false ds = refl
rev-with_sign true [] = refl
rev-with_sign true (d ∷ ds) = ap (λ cs. cs ++ (d ∷ [])) (rev-with_sign true ds)

-- The characters of a number, the highest digit first, a minus before those of a number below zero.
abbrev pub printed : ℕ → ℕ → List ℕ
printed i base =
    let digits = rev (numeral 32 base (magnitude 32 i)) in
    if is_negative 32 i then 45 ∷ digits else digits

-- For every base from 2 to 36 and every number, `itoa` ends on fuel above 33 and returns its buffer, which then holds
-- the text of the number in that base.
pub itoa_lem :
    (fuel i s base : ℕ) (m : Memory)
    → 33 < fuel
    → i < 2 ^ 32
    → 1 < base
    → base < 37
    → (put : Memory) × (itoa fuel i s base m ≡ some (s, put)) × IsText put s (printed i base)
itoa_lem fuel i s base m f w low high =
    let (t, e, sign) = put_digits_lem 31 fuel i base s m (omega arith) (ground arith) w low high in
    let ds = numeral 32 base (magnitude 32 i) in
    let some_digit : 0 < length ds = numeral_pos 31 base (magnitude 32 i) in
    let short = length-numeral 32 base (magnitude 32 i) in
    let full = with_sign (is_negative 32 i) ds in
    let text =
      turned-IsText full s m
        (with_sign-IsNonzero (is_negative 32 i) ds
          (numeral-IsNonzero 32 base (magnitude 32 i) low high))
        (omega (arith, length-with_sign (is_negative 32 i) ds)) in
    (
      turned s full m,
      itoa-turned fuel i s base t m ds low high e sign (omega arith),
      subst (IsText (turned s full m) s) (rev-with_sign (is_negative 32 i) ds) text,
    )
