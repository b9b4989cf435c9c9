-- ===== src/Tests/OnCrc.antt =====
-- crc.c on two bytes and their check.
use t1_sistemas_embarcados.Prelude.{◌≡◌, refl, [], ◌∷◌, get_or}
use t1_sistemas_embarcados.Libc.Memory.{Memory}
use t1_sistemas_embarcados.Crc.{shifts, update, crc32}
use t1_sistemas_embarcados.Crc.Residue.{crc32_lem}

-- "19" and its `crc32` at 0.
abbrev two_bytes : Memory
two_bytes x = get_or (49 ∷ 57 ∷ 20 ∷ 167 ∷ 149 ∷ 11 ∷ []) x 0

crc32_example : crc32 0 6 two_bytes ≡ 0
unfolding crc32 update shifts
crc32_example = crc32_lem 0 2 two_bytes (refl, (refl, (refl, (refl, tt))))
