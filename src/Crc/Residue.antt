-- ===== src/Crc/Residue.antt =====
-- The check of a block that carries its own check.
use Prim.Native.Nat.{bit_xor}
use t1_sistemas_embarcados.Prelude.{
  ℕ, zero, suc, ◌+◌, ◌-◌, ◌*◌, ◌/◌, ◌%◌, ◌^◌, ◌<◌, ◌≡◌, refl, ◌∙◌, ap, ap₂, sym, false, leb,
  if◌then◌else◌, arith,
}
use native.Mathlib.Nat.{
  pow-suc, mod-lt, mul_assoc, mul_comm, le-mul_of_pos_right, div-add-mod', mod-eq_of_lt,
}
use t1_sistemas_embarcados.Libc.Memory.{Memory}
use t1_sistemas_embarcados.Libc.Divide.{is_negative}
use t1_sistemas_embarcados.Crc.{shift, shifts, update, poly16, poly32, poly64, crc16, crc32, crc64}
use t1_sistemas_embarcados.Crc.Xor.{bit_xor-zero, bit_xor-high}

pow_two_pos : (n : ℕ) → 0 < 2 ^ n
pow_two_pos zero = omega arith
pow_two_pos (suc n) = omega (arith, pow_two_pos n, pow-suc 2 n)

pow_byte : (w : ℕ) → 2 ^ (w + 8) ≡ 2 ^ w * 2 ^ 8
pow_byte zero = refl
pow_byte (suc w) =
    let up : suc w + 8 ≡ suc (w + 8) = omega arith in
    ap (λ k. 2 ^ k) up ∙ omega (arith, pow_byte w, pow-suc 2 (w + 8), pow-suc 2 w)

low_bit : (w x : ℕ) → x * 2 < 2 ^ w → is_negative w x ≡ false
low_bit zero x h = ground arith
low_bit (suc w) x h =
    let half : 2 ^ (suc w - 1) ≡ 2 ^ w = ap (λ k. 2 ^ k) (omega arith) in
    ap (λ q. leb q x) half ∙ ground (arith, pow-suc 2 w)

shift_low : (w poly x : ℕ) → x * 2 < 2 ^ w → shift w poly x ≡ x * 2
shift_low w poly x h = rw (low_bit w x h, bit_xor-zero (x * 2)) (mod-eq_of_lt h)

-- With the upper digits 0 the polynomial is not used.
shifts_low : (n w poly x : ℕ) → x * 2 ^ n < 2 ^ w → shifts w poly n x ≡ x * 2 ^ n
unfolding shifts
shifts_low zero w poly x h = omega arith
shifts_low (suc n) w poly x h =
    let doubled : x * 2 * 2 ^ n ≡ x * 2 ^ suc n =
      mul_assoc x 2 (2 ^ n) ∙ ap (λ q. x * q) (mul_comm 2 (2 ^ n) ∙ sym (pow-suc 2 n)) in
    let fits : x * 2 < 2 ^ w =
      omega (arith, doubled, h, le-mul_of_pos_right (x * 2) (pow_two_pos n)) in
    rw (shift_low w poly x fits) (shifts_low n w poly (x * 2) (omega (arith, doubled)) ∙ doubled)

-- The next byte is the upper byte of the check: the check moves up by a byte.
update_top :
    (w poly crc p len : ℕ) (m : Memory)
    → crc < 2 ^ (w + 8)
    → m p ≡ crc / 2 ^ w
    → update (w + 8) poly crc p (suc len) m
      ≡ update (w + 8) poly (crc % 2 ^ w * 2 ^ 8) (p + 1) len m
unfolding update
update_top w poly crc p len m h e =
    let whole : crc / 2 ^ w * 2 ^ w + crc % 2 ^ w ≡ crc = div-add-mod' crc (2 ^ w) in
    let low : crc % 2 ^ w < 2 ^ w = mod-lt crc {m = 2 ^ w} (pow_two_pos w) in
    let place : w + 8 - 8 ≡ w = omega arith in
    let taken : bit_xor crc (m p * 2 ^ (w + 8 - 8)) ≡ crc % 2 ^ w =
      ap₂ bit_xor (sym whole) (ap₂ (λ b k. b * 2 ^ k) e place)
      ∙ bit_xor-high w (crc / 2 ^ w) (crc % 2 ^ w) low in
    let moved = shifts_low 8 (w + 8) poly (crc % 2 ^ w) (omega (arith, low, pow_byte w)) in
    ap (λ c. update (w + 8) poly c (p + 1) len m) (ap (shifts (w + 8) poly 8) taken ∙ moved)

update-split :
    (a w poly crc p b : ℕ) (m : Memory)
    → update w poly crc p (a + b) m ≡ update w poly (update w poly crc p a m) (p + a) b m
unfolding update
update-split zero w poly crc p b m =
    let count : 0 + b ≡ b = omega arith in
    let place : p ≡ p + 0 = omega arith in ap₂ (λ n q. update w poly crc q n m) count place
update-split (suc a) w poly crc p b m =
    let longer : suc a + b ≡ suc (a + b) = omega arith in
    let place : p + 1 + a ≡ p + suc a = omega arith in
    let first = shifts w poly 8 (bit_xor crc (m p * 2 ^ (w - 8))) in
    ap (λ n. update w poly crc p n m) longer
    ∙ update-split a w poly first (p + 1) b m
    ∙ ap (λ q. update w poly (update w poly first (p + 1) a m) q b m) place

shifts_below : (n w poly x : ℕ) → x < 2 ^ w → shifts w poly n x < 2 ^ w
unfolding shifts
shifts_below zero w poly x h = h
shifts_below (suc n) w poly x h =
    shifts_below n w poly (shift w poly x)
      (mod-lt (bit_xor (x * 2) (if is_negative w x then poly else 0)) {m = 2 ^ w} (pow_two_pos w))

shifts-suc_below : (n w poly x : ℕ) → shifts w poly (suc n) x < 2 ^ w
unfolding shifts
shifts-suc_below n w poly x =
    shifts_below n w poly (shift w poly x)
      (mod-lt (bit_xor (x * 2) (if is_negative w x then poly else 0)) {m = 2 ^ w} (pow_two_pos w))

update_below : (len w poly crc p : ℕ) (m : Memory) → crc < 2 ^ w → update w poly crc p len m < 2 ^ w
unfolding update
update_below zero w poly crc p m h = h
update_below (suc len) w poly crc p m h =
    update_below len w poly (shifts w poly 8 (bit_xor crc (m p * 2 ^ (w - 8)))) (p + 1) m
      (shifts-suc_below 7 w poly (bit_xor crc (m p * 2 ^ (w - 8))))

-- From `p` on stand `n` bytes of the check `crc` of `w + 8` bits, the upper byte first.
abbrev pub Carries : ℕ → ℕ → ℕ → ℕ → Memory → Type 0
Carries w zero crc p m = Unit
Carries w (suc n) crc p m = (m p ≡ crc / 2 ^ w) × Carries w n (crc % 2 ^ w * 2 ^ 8) (p + 1) m

-- The check that the bytes up to a block's own check leave.
left_of : ℕ → ℕ → ℕ → ℕ
left_of w zero crc = crc
left_of w (suc n) crc = left_of w n (crc % 2 ^ w * 2 ^ 8)

update-carried :
    (n w poly crc p : ℕ) (m : Memory)
    → crc < 2 ^ (w + 8)
    → Carries w n crc p m
    → update (w + 8) poly crc p n m ≡ left_of w n crc
unfolding update left_of
update-carried zero w poly crc p m h c = refl
update-carried (suc n) w poly crc p m h (e, c) =
    update_top w poly crc p n m h e
    ∙ update-carried n w poly (crc % 2 ^ w * 2 ^ 8) (p + 1) m
        (omega (arith, pow_byte w, mod-lt crc {m = 2 ^ w} (pow_two_pos w))) c

residue :
    (n w poly init p len : ℕ) (m : Memory)
    → init < 2 ^ (w + 8)
    → Carries w n (update (w + 8) poly init p len m) (p + len) m
    → update (w + 8) poly init p (len + n) m ≡ left_of w n (update (w + 8) poly init p len m)
residue n w poly init p len m h c =
    update-split len (w + 8) poly init p n m
    ∙ update-carried n w poly (update (w + 8) poly init p len m) (p + len) m
        (update_below len (w + 8) poly init p m h) c

left16 : (crc : ℕ) → left_of 8 2 crc ≡ 0
unfolding left_of
left16 crc = omega arith

left32 : (crc : ℕ) → left_of 24 4 crc ≡ 0
unfolding left_of
left32 crc = omega arith

left64 : (crc : ℕ) → left_of 56 8 crc ≡ 0
unfolding left_of
left64 crc = omega arith

-- A block followed by its own `crc16`, the upper byte first, has the `crc16` 0.
pub crc16_lem :
    (ptr len : ℕ) (m : Memory)
    → Carries 8 2 (crc16 ptr len m) (ptr + len) m
    → crc16 ptr (len + 2) m ≡ 0
unfolding crc16
crc16_lem ptr len m c =
    residue 2 8 poly16 0xffff ptr len m (omega arith) c ∙ left16 (update 16 poly16 0xffff ptr len m)

-- A block followed by its own `crc32`, the upper byte first, has the `crc32` 0.
pub crc32_lem :
    (ptr len : ℕ) (m : Memory)
    → Carries 24 4 (crc32 ptr len m) (ptr + len) m
    → crc32 ptr (len + 4) m ≡ 0
unfolding crc32
crc32_lem ptr len m c =
    residue 4 24 poly32 0xffffffff ptr len m (omega arith) c
    ∙ left32 (update 32 poly32 0xffffffff ptr len m)

-- A block followed by its own `crc64`, the upper byte first, has the `crc64` 0.
crc64_lem :
    (ptr len : ℕ) (m : Memory)
    → Carries 56 8 (crc64 ptr len m) (ptr + len) m
    → crc64 ptr (len + 8) m ≡ 0
unfolding crc64
crc64_lem ptr len m c =
    residue 8 56 poly64 0 ptr len m (omega arith) c ∙ left64 (update 64 poly64 0 ptr len m)
