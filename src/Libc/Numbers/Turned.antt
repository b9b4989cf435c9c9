-- ===== src/Libc/Numbers/Turned.antt =====
-- The bytes that `itoa` has written change their order in place.
use t1_sistemas_embarcados.Prelude.{
  ℕ, zero, suc, ◌+◌, ◌-◌, ◌<◌, ◌≡◌, arith, ltb, leb, ◌&&◌, if◌then◌else◌, some, fun_ext, ap,
  Bool-cases, inl, inr,
}
use t1_sistemas_embarcados.Libc.Memory.{Memory, write}
use t1_sistemas_embarcados.Libc.Numbers.{swap_ends}

-- The bytes from `a` to `b` in the reverse order.
abbrev pub mirrored : ℕ → ℕ → Memory → Memory
mirrored a b m x = if leb a x && leb x b then m (a + b - x) else m x

mirrored-step :
    (a b : ℕ) (m : Memory) (x : ℕ)
    → a < b
    → mirrored (a + 1) (b - 1) (write a (m b) (write b (m a) m)) x ≡ mirrored a b m x
mirrored-step a b m x h = grind arith

pub swap_ends_lem :
    (fuel a b : ℕ) (m : Memory)
    → b < a + fuel
    → 0 < fuel
    → swap_ends fuel a b m ≡ some (mirrored a b m)
unfolding swap_ends
swap_ends_lem zero a b m h k = absurd (omega arith)
swap_ends_lem (suc fuel) a b m h k = elim (Bool-cases (ltb a b)) [
  | inl y ↦
      rw
        (
          y,
          swap_ends_lem fuel (a + 1) (b - 1) (write a (m b) (write b (m a) m)) (ground arith)
              (ground arith),
        )
        (ap some (fun_ext λ x. mirrored-step a b m x (ground arith)))
  | inr y ↦ rw y (ap some (fun_ext λ x. grind arith))
]
