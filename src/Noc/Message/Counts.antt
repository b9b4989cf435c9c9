-- ===== src/Noc/Message/Counts.antt =====
-- How many packets a message takes.
use t1_sistemas_embarcados.Prelude.{
  ℕ, suc, ◌+◌, ◌-◌, ◌*◌, ◌/◌, ◌%◌, ◌^◌, ◌≤◌, ◌<◌, ◌≡◌, ◌==◌, if◌then◌else◌, Bool-cases, inl, inr,
  arith,
}
use native.Mathlib.Nat.{div-add-mod', mod-lt, mul-le-mul_left, mul-le-mul_right}

pub mul_step : (left pay p : ℕ) → p + (suc left + 1) * pay ≡ p + pay + (left + 1) * pay
mul_step left pay p = omega arith

-- The number of packets is the size over the payload, rounded up.
pub packets_cover :
    (size pay : ℕ)
    → 2 ≤ pay
    → size < 2 ^ 16
    → (size ≤ 0 + ((if size % pay == 0 then size / pay else size / pay + 1) - 1 + 1) * pay)
      × (1 + ((if size % pay == 0 then size / pay else size / pay + 1) - 1) < 2 ^ 16)
packets_cover size pay large small =
    let whole : size / pay * pay + size % pay ≡ size = div-add-mod' size pay in
    let less : size % pay < pay = mod-lt size {m = pay} (omega arith) in
    let half : size / pay * 2 ≤ size / pay * pay = mul-le-mul_left (size / pay) large in
    elim (Bool-cases (size % pay == 0)) [
      | inl y ↦
          let grown : size / pay * pay ≤ (size / pay - 1 + 1) * pay =
            mul-le-mul_right pay (omega arith) in
          let exact : size % pay ≡ 0 = ground arith in rw y (omega arith, omega arith)
      | inr y ↦
          let grown : size / pay * pay + pay ≤ (size / pay + 1 - 1 + 1) * pay = omega (
            arith,
            mul-le-mul_right {m = size / pay + 1} {n = size / pay + 1 - 1 + 1} pay (omega arith),
          ) in
          rw y (omega arith, omega arith)
    ]
