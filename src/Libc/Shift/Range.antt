-- ===== src/Libc/Shift/Range.antt =====
-- The counts for which the shifts of double words have a value.
use t1_sistemas_embarcados.Prelude.{ℕ, ◌<◌, ◌≡◌, refl, false, none, arith, ltb, ◌==◌}
use t1_sistemas_embarcados.Libc.Shift.{bits_left, ashldi3, ashrdi3, lshrdi3}

-- Every count over 32, though below the width of 64 of the operand, leaves the routines with a shift
-- of a word by its width or more, so that none of them has a value that C defines.
pub shift_undefined :
    (u b : ℕ) → 32 < b → b < 64 → (ashldi3 u b ≡ none) × (ashrdi3 u b ≡ none) × (lshrdi3 u b ≡ none)
unfolding ashldi3 ashrdi3 lshrdi3
shift_undefined u b low high = rw (not_zero, left, wide) (refl, refl, refl)
  where
    not_zero : (b == 0) ≡ false
    not_zero = ground arith

    left : (bits_left b == 0) ≡ false
    left = ground arith

    wide : ltb (bits_left b) 32 ≡ false
    wide = ground arith
