-- ===== src/Libc/Numbers/RoundTrip.antt =====
-- `atoi` reads what `itoa` writes.
use t1_sistemas_embarcados.Prelude.{
  ℕ, zero, suc, ◌+◌, ◌-◌, ◌*◌, ◌/◌, ◌%◌, ◌^◌, ◌<◌, ◌≡◌, refl, arith, true, false, leb, ◌==◌, ◌&&◌,
  ◌||◌, if◌then◌else◌, Bool, some, List, [], ◌∷◌, ◌++◌, length, ap, Bool-cases, inl, inr, ◌∙◌,
}
use native.Mathlib.Nat.{mod-lt, pow-suc}
use t1_sistemas_embarcados.Libc.Memory.{Memory}
use t1_sistemas_embarcados.Libc.Text.Copies.{IsText}
use t1_sistemas_embarcados.Libc.Divide.{is_negative, negate, magnitude}
use t1_sistemas_embarcados.Libc.Numbers.{itoa, atoi, skip_sign, read_digits}
use t1_sistemas_embarcados.Libc.Numbers.Digits.{digit, digit_ten}
use t1_sistemas_embarcados.Libc.Numbers.Written.{numeral, rev, length-rev}
use t1_sistemas_embarcados.Libc.Numbers.Printed.{itoa_lem, length-numeral}

-- The number that the decimal digits `cs` stand for, read behind `n`.
abbrev value : ℕ → List ℕ → ℕ
value n [] = n
value n (c ∷ cs) = value ((n * 10 + c - 48) % 2 ^ 32) cs

value-append :
    (us : List ℕ) (n c : ℕ) → value n (us ++ (c ∷ [])) ≡ (value n us * 10 + c - 48) % 2 ^ 32
value-append [] n c = refl
value-append (u ∷ us) n c = value-append us ((n * 10 + u - 48) % 2 ^ 32) c

abbrev AreDigits : List ℕ → Type 0
AreDigits [] = Unit
AreDigits (c ∷ cs) = ((leb 48 c && leb c 57) ≡ true) × AreDigits cs

AreDigits-append :
    (us : List ℕ) (c : ℕ)
    → AreDigits us
    → (leb 48 c && leb c 57) ≡ true
    → AreDigits (us ++ (c ∷ []))
AreDigits-append [] c h n = (n, tt)
AreDigits-append (u ∷ us) c (k, h) n = (k, AreDigits-append us c h n)

-- The decimal digits of `x` read as `x`.
numeral_lem :
    (k x : ℕ)
    → x < 2 ^ k
    → AreDigits (rev (numeral k 10 x)) × (value 0 (rev (numeral k 10 x)) ≡ x % 2 ^ 32)
unfolding numeral
numeral_lem zero x h = (tt, ground arith)
numeral_lem (suc k) x h =
    let (rest, sum) = numeral_lem k (x / 10) (omega (arith, pow-suc 2 k)) in
    let small = mod-lt x {m = 10} (omega arith) in
    let ten = digit_ten (x % 10) small in
    elim (Bool-cases (x / 10 == 0)) [
      | inl y ↦ rw (y, ten) ((ground arith, tt), ground arith)
      | inr y ↦
          rw (y, ten)
            (
              AreDigits-append (rev (numeral k 10 (x / 10))) (48 + x % 10) rest (ground arith),
              value-append (rev (numeral k 10 (x / 10))) 0 (48 + x % 10) ∙ rw sum (omega arith),
            )
    ]

read_digits_lem :
    (fuel : ℕ) (cs : List ℕ) (p n : ℕ) (m : Memory)
    → length cs < fuel
    → AreDigits cs
    → IsText m p cs
    → read_digits fuel p n m ≡ some (value n cs)
unfolding read_digits
read_digits_lem zero cs p n m f d t = absurd (omega arith)
read_digits_lem (suc fuel) [] p n m f d t = rw t refl
read_digits_lem (suc fuel) (c ∷ cs) p n m f (digit, d) (e, z, t) =
    rw (e, digit) (read_digits_lem fuel cs (p + 1) ((n * 10 + c - 48) % 2 ^ 32) m (omega arith) d t)

skip_sign-digits :
    (fuel : ℕ) (cs : List ℕ) (p : ℕ) (m : Memory)
    → length cs < fuel
    → AreDigits cs
    → IsText m p cs
    → skip_sign fuel p m ≡ some (false, p)
unfolding skip_sign
skip_sign-digits zero cs p m f d t = absurd (omega arith)
skip_sign-digits (suc fuel) [] p m f d t = rw t refl
skip_sign-digits (suc fuel) (c ∷ cs) p m f (digit, d) (e, z, t) =
    let no_blank : (m p == 32 || m p == 9) ≡ false = ground arith in
    let no_minus : (m p == 45) ≡ false = ground arith in
    let no_plus : (m p == 43) ≡ false = ground arith in rw (no_blank, no_minus, no_plus) refl

skip_sign-minus :
    (fuel p : ℕ) (m : Memory) → 0 < fuel → m p ≡ 45 → skip_sign fuel p m ≡ some (true, p + 1)
unfolding skip_sign
skip_sign-minus zero p m h e = absurd (omega arith)
skip_sign-minus (suc fuel) p m h e = rw e refl

atoi_lem :
    (neg : Bool) (fuel : ℕ) (ds : List ℕ) (s : ℕ) (m : Memory)
    → length ds + 1 < fuel
    → AreDigits ds
    → IsText m s (if neg then 45 ∷ ds else ds)
    → atoi fuel s m ≡ some (if neg then negate 32 (value 0 ds) else value 0 ds)
unfolding atoi
atoi_lem false fuel ds s m f d t =
    rw
      (
        skip_sign-digits fuel ds s m (omega arith) d t,
        read_digits_lem fuel ds s 0 m (omega arith) d t,
      )
      refl
atoi_lem true fuel ds s m f d (e, z, t) =
    rw
      (
        skip_sign-minus fuel s m (omega arith) e,
        read_digits_lem fuel ds (s + 1) 0 m (omega arith) d t,
      )
      refl

sign_back :
    (i : ℕ)
    → i < 2 ^ 32
    → (if is_negative 32 i then negate 32 (magnitude 32 i % 2 ^ 32) else magnitude 32 i % 2 ^ 32)
      ≡ i
sign_back i w = ground arith

-- For every 32-bit integer, `atoi` reads the text that `itoa` writes in base 10 as that integer; both end on fuel above 34.
pub itoa-atoi :
    (fuel i s : ℕ) (m : Memory)
    → 34 < fuel
    → i < 2 ^ 32
    → (put : Memory) × (itoa fuel i s 10 m ≡ some (s, put)) × (atoi fuel s put ≡ some i)
itoa-atoi fuel i s m f w =
    let (put, e, text) = itoa_lem fuel i s 10 m (omega arith) w (omega arith) (omega arith) in
    let x = magnitude 32 i in
    let (digits, sum) = numeral_lem 32 x (ground arith) in
    let short = length-numeral 32 10 x in
    let size = length-rev (numeral 32 10 x) in
    let read =
      atoi_lem (is_negative 32 i) fuel (rev (numeral 32 10 x)) s put (omega arith) digits text in
    (put, e, read ∙ ap some (rw sum (sign_back i w)))
