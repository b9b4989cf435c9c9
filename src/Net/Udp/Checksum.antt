-- ===== src/Net/Udp/Checksum.antt =====
-- `udpchksum`: when it ends, and which bytes it reads.
use t1_sistemas_embarcados.Prelude.{
  ℕ, zero, suc, ◌+◌, ◌-◌, ◌*◌, ◌^◌, ◌%◌, ◌≤◌, ◌<◌, ◌≡◌, refl, ap, ap₂, ◌∙◌, true, none, some, ltb,
  ◌==◌, if◌then◌else◌, Bool-cases, inl, inr, arith,
}
use t1_sistemas_embarcados.Libc.{◌>>=◌}
use t1_sistemas_embarcados.Libc.Memory.{Memory}
use t1_sistemas_embarcados.Net.{byte_at, word_at}
use t1_sistemas_embarcados.Net.Ip.{fold}
use t1_sistemas_embarcados.Net.Ip.Sum.{fold_lem}
use t1_sistemas_embarcados.Net.Udp.{add_payload, pseudo_header, udpchksum}

-- The 16-bit index is even, so it passes no bound above 65534.
add_payload-endless :
    (fuel i len sum : ℕ) (f : Memory)
    → i % 2 ≡ 0
    → i < 2 ^ 16
    → 65516 ≤ len
    → add_payload fuel i len sum f ≡ none
unfolding add_payload
add_payload-endless zero i len sum f even below large = refl
add_payload-endless (suc fuel) i len sum f even below large =
    let inside : ltb i (len + 19) ≡ true = ground arith in
    rw inside (
      add_payload-endless fuel ((i + 2) % 2 ^ 16) len ((sum + word_at i f) % 2 ^ 32) f (omega arith)
        (omega arith) large)

-- For a length from 65516 on, which a packet can claim, `udpchksum` never ends, whatever the fuel.
pub udpchksum_endless : (fuel len : ℕ) (f : Memory) → 65516 ≤ len → udpchksum fuel f len ≡ none
unfolding udpchksum
udpchksum_endless fuel len f large =
    rw (add_payload-endless fuel 20 len (pseudo_header len f) f (omega arith) (omega arith) large)
      refl

add_payload_lem :
    (fuel i len sum : ℕ) (f : Memory)
    → len ≤ 65515
    → i ≤ len + 20
    → len + 20 < i + 2 * fuel
    → sum < 2 ^ 32
    → (s : ℕ) × (add_payload fuel i len sum f ≡ some s) × (s < 2 ^ 32)
unfolding add_payload
add_payload_lem zero i len sum f small near enough below = absurd (omega arith)
add_payload_lem (suc fuel) i len sum f small near enough below =
    elim (Bool-cases (ltb i (len + 19))) [
      | inl y ↦
          let (s, e, low) =
            add_payload_lem fuel ((i + 2) % 2 ^ 16) len ((sum + word_at i f) % 2 ^ 32) f small
              (ground arith) (ground arith) (omega arith) in
          (s, rw y e, low)
      | inr y ↦ (sum, rw y refl, below)
    ]

-- Packets that agree from the addresses on have the same sum.
add_payload-agree :
    (fuel i len sum : ℕ) (f g : Memory)
    → len ≤ 65515
    → 12 ≤ i
    → ((x : ℕ) → 12 ≤ x → byte_at x f ≡ byte_at x g)
    → add_payload fuel i len sum f ≡ add_payload fuel i len sum g
unfolding add_payload
add_payload-agree zero i len sum f g small from h = refl
add_payload-agree (suc fuel) i len sum f g small from h = elim (Bool-cases (ltb i (len + 19))) [
  | inl y ↦
      let same_word : word_at i f ≡ word_at i g =
        ap₂ (λ a b. a * 2 ^ 8 + b) (h i from) (h (i + 1) (omega arith)) in
      rw y (
        ap (λ v. add_payload fuel ((i + 2) % 2 ^ 16) len ((sum + v) % 2 ^ 32) f) same_word
        ∙ add_payload-agree fuel ((i + 2) % 2 ^ 16) len ((sum + word_at i g) % 2 ^ 32) f g small
            (ground arith) h)
  | inr y ↦ rw y refl
]

pub udpchksum-agree :
    (fuel len : ℕ) (f g : Memory)
    → len ≤ 65515
    → ((x : ℕ) → 12 ≤ x → byte_at x f ≡ byte_at x g)
    → udpchksum fuel f len ≡ udpchksum fuel g len
unfolding udpchksum
udpchksum-agree fuel len f g small h =
    let header : pseudo_header len f ≡ pseudo_header len g = omega (
      arith,
      h 12 (omega arith),
      h 13 (omega arith),
      h 14 (omega arith),
      h 15 (omega arith),
      h 16 (omega arith),
      h 17 (omega arith),
      h 18 (omega arith),
      h 19 (omega arith),
    ) in
    let sums =
      ap (λ s. add_payload fuel 20 len s f) header
      ∙ add_payload-agree fuel 20 len (pseudo_header len g) f g small (omega arith) h in
    ap₂
      (λ o b. o >>= λ sum.
        fold 3 (if len % 2 == 1 then (sum + b * 2 ^ 8) % 2 ^ 32 else sum) >>= λ folded.
        some (2 ^ 16 - 1 - folded % 2 ^ 16))
      sums (h (len + 19) (omega arith))

pub udpchksum_lem :
    (fuel len : ℕ) (f : Memory)
    → len ≤ 65515
    → len < 2 * fuel
    → ((x : ℕ) → byte_at x f < 2 ^ 8)
    → (c : ℕ) × (udpchksum fuel f len ≡ some c) × (c < 2 ^ 16)
unfolding udpchksum
udpchksum_lem fuel len f small enough bytes =
    let header : pseudo_header len f < 2 ^ 32 =
      omega
        (arith, bytes 12, bytes 13, bytes 14, bytes 15, bytes 16, bytes 17, bytes 18, bytes 19) in
    let (s, e, low) =
      add_payload_lem fuel 20 len (pseudo_header len f) f small (omega arith) (omega arith)
        header in
    let (r, e', folds) =
      fold_lem (if len % 2 == 1 then (s + byte_at (len + 19) f * 2 ^ 8) % 2 ^ 32 else s)
        (ground arith) in
    (2 ^ 16 - 1 - r % 2 ^ 16, rw (e, e') refl, omega arith)
