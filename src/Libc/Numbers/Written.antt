-- ===== src/Libc/Numbers/Written.antt =====
-- The text that `itoa` leaves.
use t1_sistemas_embarcados.Prelude.{
  ℕ, zero, suc, ◌+◌, ◌-◌, ◌/◌, ◌%◌, ◌^◌, ◌<◌, ◌≡◌, refl, arith, true, false, ltb, leb, ◌==◌, ◌&&◌,
  if◌then◌else◌, some, List, [], ◌∷◌, ◌++◌, get_or, length, length-append, get_or-append_one, ap,
  ap₂, Bool-cases, inl, inr, ◌∙◌,
}
use native.Mathlib.Nat.{div-eq_of_lt}
use t1_sistemas_embarcados.Libc.Memory.{Memory, write}
use t1_sistemas_embarcados.Libc.Divide.{is_negative, magnitude}
use t1_sistemas_embarcados.Libc.Numbers.{digit_at, quotient, put_digits}
use t1_sistemas_embarcados.Libc.Numbers.Digits.{
  digit, quotient_lem, quotient_sign, quotient-word, half_below,
}

-- The digits of `x`, the lowest first, at most `k` of them.
unfoldable pub numeral : ℕ → ℕ → ℕ → List ℕ
numeral zero base x = []
numeral (suc k) base x =
    let rest = numeral k base (x / base) in digit (x % base) ∷ (if x / base == 0 then [] else rest)

abbrev pub rev : List ℕ → List ℕ
rev [] = []
rev (c ∷ cs) = rev cs ++ (c ∷ [])

pub length-rev : (cs : List ℕ) → length (rev cs) ≡ length cs
length-rev [] = refl
length-rev (c ∷ cs) = omega (arith, length-append (rev cs) (c ∷ []), length-rev cs)

pub get_or-rev :
    (cs : List ℕ) (k : ℕ) → k < length cs → get_or (rev cs) k 0 ≡ get_or cs (length cs - 1 - k) 0
get_or-rev [] k h = absurd (omega arith)
get_or-rev (c ∷ cs) k h = elim (Bool-cases (k == length cs)) [
  | inl y ↦
      let last : (k == length (rev cs)) ≡ true = ground (arith, length-rev cs) in
      let first : suc (length cs) - 1 - k ≡ 0 = ground arith in
      get_or-append_one (rev cs) c 0 k ∙ rw (last, first) refl
  | inr y ↦
      let before : (k == length (rev cs)) ≡ false = ground (arith, length-rev cs) in
      let later : suc (length cs) - 1 - k ≡ suc (length cs - 1 - k) = ground arith in
      get_or-append_one (rev cs) c 0 k ∙ rw (before, later) (get_or-rev cs k (ground arith))
]

-- The memory with `cs` from `p` on.
abbrev pub place : ℕ → List ℕ → Memory → Memory
place p [] m = m
place p (c ∷ cs) m = place (p + 1) cs (write p c m)

pub place_lem :
    (cs : List ℕ) (p : ℕ) (m : Memory) (x : ℕ)
    → place p cs m x ≡ (if leb p x && ltb x (p + length cs) then get_or cs (x - p) 0 else m x)
place_lem [] p m x = ground arith
place_lem (c ∷ cs) p m x = elim (Bool-cases (leb (p + 1) x)) [
  | inl y ↦
      let later : x - p ≡ suc (x - (p + 1)) = ground arith in
      place_lem cs (p + 1) (write p c m) x ∙ rw later (ground arith)
  | inr y ↦ place_lem cs (p + 1) (write p c m) x ∙ elim (Bool-cases (x == p)) [
    | inl z ↦ let first : x - p ≡ 0 = ground arith in rw first (ground arith)
    | inr z ↦ ground arith
  ]
]

pub place-append :
    (cs : List ℕ) (c p : ℕ) (m : Memory)
    → place p (cs ++ (c ∷ [])) m ≡ write (p + length cs) c (place p cs m)
place-append [] c p m = ap (λ q. write q c m) (omega arith)
place-append (d ∷ cs) c p m =
    place-append cs c (p + 1) (write p d m)
    ∙ ap (λ q. write q c (place (p + 1) cs (write p d m))) (omega arith)

put_digits-stop :
    (k fuel i base ptr : ℕ) (m : Memory)
    → i < 2 ^ 32
    → 1 < base
    → base < 37
    → (magnitude 32 i / base == 0) ≡ true
    → put_digits (suc fuel) i base ptr m
      ≡ some (
        i,
        ptr + length (numeral (suc k) base (magnitude 32 i)),
        place ptr (numeral (suc k) base (magnitude 32 i)) m,
      )
unfolding put_digits numeral
put_digits-stop k fuel i base ptr m w low high y =
    let (half, stop, char) = quotient_lem i base w low high in rw (stop ∙ y, y, char) refl

put_digits-step :
    (fuel i base ptr t : ℕ) (m : Memory) (ds : List ℕ)
    → (quotient i base == 0) ≡ false
    → put_digits fuel
        (quotient i base)
        base
        (ptr + 1)
        (write ptr (digit_at i (quotient i base) base) m)
      ≡ some (
        t,
        ptr + 1 + length ds,
        place (ptr + 1) ds (write ptr (digit_at i (quotient i base) base) m),
      )
    → put_digits (suc fuel) i base ptr m
      ≡ some (
        t,
        ptr + length (digit_at i (quotient i base) base ∷ ds),
        place ptr (digit_at i (quotient i base) base ∷ ds) m,
      )
unfolding put_digits
put_digits-step fuel i base ptr t m ds h e = rw h (
    e
    ∙ ap (λ q. some (t, q, place (ptr + 1) ds (write ptr (digit_at i (quotient i base) base) m)))
        (omega arith))

numeral-step :
    (k i base : ℕ)
    → i < 2 ^ 32
    → 1 < base
    → base < 37
    → (magnitude 32 i / base == 0) ≡ false
    → digit_at i (quotient i base) base ∷ numeral (suc k) base (magnitude 32 (quotient i base))
      ≡ numeral (suc (suc k)) base (magnitude 32 i)
unfolding numeral
numeral-step k i base w low high y =
    let (half, stop, char) = quotient_lem i base w low high in
    ap₂ (λ c x. c ∷ numeral (suc k) base x) char half ∙ rw y refl

-- The sign of the last `tmp_value`, the pointer and the memory after the loop.
pub put_digits_lem :
    (k fuel i base ptr : ℕ) (m : Memory)
    → k < fuel
    → magnitude 32 i < 2 ^ suc k
    → i < 2 ^ 32
    → 1 < base
    → base < 37
    → (t : ℕ) × (put_digits fuel i base ptr m
        ≡ some (
          t,
          ptr + length (numeral (suc k) base (magnitude 32 i)),
          place ptr (numeral (suc k) base (magnitude 32 i)) m,
        ))
      × (is_negative 32 t ≡ is_negative 32 i)
unfolding put_digits
put_digits_lem k zero i base ptr m h b w low high = absurd (omega arith)
put_digits_lem zero (suc fuel) i base ptr m h b w low high = (
  i,
  put_digits-stop 0 fuel i base ptr m w low high
      (let e : magnitude 32 i / base ≡ 0 = div-eq_of_lt (omega arith) in ground arith),
  refl,
)
put_digits_lem (suc k) (suc fuel) i base ptr m h b w low high =
    let (half, stop, char) = quotient_lem i base w low high in
    elim (Bool-cases (magnitude 32 i / base == 0)) [
      | inl y ↦ (i, put_digits-stop (suc k) fuel i base ptr m w low high y, refl)
      | inr y ↦
          let next = quotient i base in
          let small = half_below (magnitude 32 i) base k low b in
          let (t, e, sign) =
            put_digits_lem k fuel next base (ptr + 1) (write ptr (digit_at i next base) m)
              (omega arith) (omega (arith, half)) (quotient-word i base w low high) low high in
          let written =
            put_digits-step fuel i base ptr t m (numeral (suc k) base (magnitude 32 next))
              (stop ∙ y) e in
          (
            t,
            written
                ∙ ap (λ ds. some (t, ptr + length ds, place ptr ds m))
                    (numeral-step k i base w low high y),
            sign ∙ quotient_sign i base w low high (stop ∙ y),
          )
    ]
