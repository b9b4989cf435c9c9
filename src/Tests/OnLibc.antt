-- ===== src/Tests/OnLibc.antt =====
-- libc.c on small numbers and texts.
use t1_sistemas_embarcados.Prelude.{
  ℕ, ◌-◌, ◌*◌, ◌/◌, ◌%◌, ◌^◌, ◌≡◌, ◌↔◌, true, false, refl, inl, none, some, List, [], ◌∷◌, arith,
  ◌==◌, if◌then◌else◌,
}
use t1_sistemas_embarcados.Libc.Multiply.{muldi3}
use t1_sistemas_embarcados.Libc.Multiply.Products.{muldi3_lem}
use t1_sistemas_embarcados.Libc.Divide.{udivmodsi4, udivmoddi4, divdi3, moddi3}
use t1_sistemas_embarcados.Libc.Divide.Quotients.{udivmodsi4_lem, udivmoddi4_lem}
use t1_sistemas_embarcados.Libc.Divide.Signed.{word64, InWord, unlike, divdi3-moddi3_lem}
use t1_sistemas_embarcados.Libc.Shift.{ashldi3, ashrdi3, lshrdi3}
use t1_sistemas_embarcados.Libc.Shift.Range.{shift_undefined}
use t1_sistemas_embarcados.Libc.Memory.{Memory, memmove}
use t1_sistemas_embarcados.Libc.Memory.Blocks.{moved, memmove_lem}
use t1_sistemas_embarcados.Libc.Text.{strcat, strcmp}
use t1_sistemas_embarcados.Libc.Text.Copies.{IsText, strcat_lem}
use t1_sistemas_embarcados.Libc.Text.Order.{order, strcmp_lem}
use t1_sistemas_embarcados.Libc.Numbers.{itoa, atoi}
use t1_sistemas_embarcados.Libc.Numbers.RoundTrip.{itoa-atoi}

-- "ab" at 100 and "c" at 200.
abbrev letters : Memory
letters x = if x == 100 then 97 else if x == 101 then 98 else if x == 200 then 99 else 0

abbrev ab : List ℕ
ab = 97 ∷ 98 ∷ []

abbrev only_c : List ℕ
only_c = 99 ∷ []

muldi3_example : muldi3 0x100000003 0x200000005 ≡ some (0x100000003 * 0x200000005 % 2 ^ 64)
muldi3_example = muldi3_lem 0x100000003 0x200000005 (omega arith) (omega arith)

udivmodsi4_example : udivmodsi4 4000000000 7 ≡ some (4000000000 / 7, 4000000000 % 7)
udivmodsi4_example = udivmodsi4_lem 4000000000 7 (omega arith) (omega arith) (omega arith)

udivmoddi4_example : udivmoddi4 0x100000003 10 ≡ some (0x100000003 / 10, 0x100000003 % 10)
udivmoddi4_example = udivmoddi4_lem 0x100000003 10 (omega arith) (omega arith) (omega arith)

-- 7 by -2: the quotient is -3, the remainder -1.
divdi3-moddi3_example :
    (divdi3 (word64 false 7) (word64 true 2) ≡ some (word64 (unlike false true) (7 / 2)))
    × (moddi3 (word64 false 7) (word64 true 2) ≡ some (word64 (unlike false true) (7 % 2)))
unfolding InWord
divdi3-moddi3_example = divdi3-moddi3_lem false true 7 2 (omega arith) (omega arith) (omega arith)

shift_undefined_example : (ashldi3 1 40 ≡ none) × (ashrdi3 1 40 ≡ none) × (lshrdi3 1 40 ≡ none)
shift_undefined_example = shift_undefined 1 40 (omega arith) (omega arith)

memmove_example :
    ((memmove 101 100 2 letters).0 ≡ 101)
    × ((memmove 101 100 2 letters).1 102 ≡ moved 101 100 2 letters 102)
memmove_example = memmove_lem 101 100 2 letters 102

strcat_example :
    (strcat 5 100 200 letters ≡ some (100, moved 102 200 2 letters))
    × IsText (moved 102 200 2 letters) 100 (97 ∷ 98 ∷ 99 ∷ [])
strcat_example =
    strcat_lem 5 (97 ∷ 98 ∷ []) (99 ∷ []) 100 200 letters (omega arith) (omega arith)
      (refl, refl, (refl, refl, refl)) (refl, refl, refl) (inl (omega arith))

strcmp_example :
    (strcmp 5 100 200 letters ≡ some (order ab only_c)) × ((order ab only_c ≡ 0) ↔ (ab ≡ only_c))
strcmp_example =
    strcmp_lem 5 ab only_c 100 200 letters (omega arith) (refl, refl, (refl, refl, refl))
      (refl, refl, refl) (omega arith, refl, (omega arith, refl, tt)) (omega arith, refl, tt)

itoa-atoi_example :
    (put : Memory) × (itoa 40 (2 ^ 32 - 120) 300 10 letters ≡ some (300, put))
    × (atoi 40 300 put ≡ some (2 ^ 32 - 120))
itoa-atoi_example = itoa-atoi 40 (2 ^ 32 - 120) 300 letters (omega arith) (omega arith)
