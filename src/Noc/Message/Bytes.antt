-- ===== src/Noc/Message/Bytes.antt =====
-- The bytes of a message in the flits of its packets.
use t1_sistemas_embarcados.Prelude.{
  ℕ, zero, suc, ◌+◌, ◌-◌, ◌*◌, ◌/◌, ◌%◌, ◌^◌, ◌≤◌, ◌<◌, ◌≡◌, refl, ap, ◌∙◌, Bool, true, false, ◌&&◌,
  ◌||◌, List, ltb, leb, ◌==◌, if◌then◌else◌, Bool-cases, inl, inr, arith,
}
use t1_sistemas_embarcados.Libc.Memory.{Memory, write}
use t1_sistemas_embarcados.Noc.{Node, header_size}
use t1_sistemas_embarcados.Noc.Message.{flit, packet, last_packet, unpack, unpack_last}

-- The byte `k` of the flits from `i` on.
abbrev pub byte_of : (ℕ → ℕ) → ℕ → ℕ → ℕ
byte_of flits i k = if k % 2 == 0 then flits (i + k / 2) / 2 ^ 8 else flits (i + k / 2) % 2 ^ 8

byte_of_next : (flits : ℕ → ℕ) (i k : ℕ) → 2 ≤ k → byte_of flits (i + 1) (k - 2) ≡ byte_of flits i k
byte_of_next flits i k h =
    let place : i + 1 + (k - 2) / 2 ≡ i + k / 2 = omega arith in
    let parity : (k - 2) % 2 ≡ k % 2 = omega arith in rw (place, parity) refl

pub unpack_before :
    (n : ℕ) (flits : ℕ → ℕ) (i at : ℕ) (m : Memory) (x : ℕ) → x < at → unpack n flits i at m x ≡ m x
unfolding unpack
unpack_before zero flits i at m x h = refl
unpack_before (suc n) flits i at m x h =
    unpack_before n flits (i + 1) (at + 2)
      (write (at + 1) (flits i % 2 ^ 8) (write at (flits i / 2 ^ 8) m)) x (omega arith)
    ∙ ground arith

pub unpack_inside :
    (n : ℕ) (flits : ℕ → ℕ) (i at : ℕ) (m : Memory) (k : ℕ)
    → k < 2 * n
    → unpack n flits i at m (at + k) ≡ byte_of flits i k
unfolding unpack
unpack_inside zero flits i at m k h = absurd (omega arith)
unpack_inside (suc n) flits i at m k h =
    let after = write (at + 1) (flits i % 2 ^ 8) (write at (flits i / 2 ^ 8) m) in
    elim (Bool-cases (ltb k 2)) [
      | inl y ↦
          let here : i + k / 2 ≡ i = ground arith in
          unpack_before n flits (i + 1) (at + 2) after (at + k) (ground arith)
          ∙ rw here (ground arith)
      | inr y ↦
          let place : at + k ≡ at + 2 + (k - 2) = ground arith in
          ap (unpack n flits (i + 1) (at + 2) after) place
          ∙ unpack_inside n flits (i + 1) (at + 2) after (k - 2) (ground arith)
          ∙ byte_of_next flits i k (ground arith)
    ]

pub unpack_last_before :
    (n : ℕ) (flits : ℕ → ℕ) (i buf p size : ℕ) (m : Memory) (x : ℕ)
    → x < buf + p
    → unpack_last n flits i buf p size m x ≡ m x
unfolding unpack_last
unpack_last_before zero flits i buf p size m x h = refl
unpack_last_before (suc n) flits i buf p size m x h = elim (Bool-cases (ltb p size)) [
  | inl y ↦ rw y (
      unpack_last_before n flits (i + 1) buf (p + 2) size
        (write (buf + p + 1) (flits i % 2 ^ 8) (write (buf + p) (flits i / 2 ^ 8) m)) x
        (omega arith)
      ∙ ground arith)
  | inr y ↦ rw y refl
]

pub unpack_last_inside :
    (n : ℕ) (flits : ℕ → ℕ) (i buf p size : ℕ) (m : Memory) (k : ℕ)
    → k < 2 * n
    → p + k < size
    → unpack_last n flits i buf p size m (buf + p + k) ≡ byte_of flits i k
unfolding unpack_last
unpack_last_inside zero flits i buf p size m k h l = absurd (omega arith)
unpack_last_inside (suc n) flits i buf p size m k h l =
    let after = write (buf + p + 1) (flits i % 2 ^ 8) (write (buf + p) (flits i / 2 ^ 8) m) in
    let more : ltb p size ≡ true = ground arith in
    rw more (elim (Bool-cases (ltb k 2)) [
      | inl y ↦
          let here : i + k / 2 ≡ i = ground arith in
          unpack_last_before n flits (i + 1) buf (p + 2) size after (buf + p + k) (ground arith)
          ∙ rw here (ground arith)
      | inr y ↦
          let place : buf + p + k ≡ buf + (p + 2) + (k - 2) = ground arith in
          ap (unpack_last n flits (i + 1) buf (p + 2) size after) place
          ∙ unpack_last_inside n flits (i + 1) buf (p + 2) size after (k - 2) (ground arith)
              (ground arith)
          ∙ byte_of_next flits i k (ground arith)
    ])

-- A message that the flits carry: its bytes are below 2^8, and below 128 where a signed `char` is the lower half.
unfoldable pub IsPlain : Bool → Memory → ℕ → Type 0
IsPlain char_signed m src =
    (k : ℕ) → (m (src + k) < 2 ^ 8) × ((char_signed && leb 128 (m (src + 2 * k + 1))) ≡ false)

flit_upper :
    (c : Bool) (upper lower : ℕ)
    → lower < 2 ^ 8
    → (c && leb 128 lower) ≡ false
    → flit c upper lower / 2 ^ 8 ≡ upper
flit_upper c upper lower h e = rw e (omega arith)

flit_lower :
    (c : Bool) (upper lower : ℕ)
    → lower < 2 ^ 8
    → (c && leb 128 lower) ≡ false
    → flit c upper lower % 2 ^ 8 ≡ lower
flit_lower c upper lower h e = rw e (omega arith)

packet_at :
    (node : Node) (head : List ℕ) (m : Memory) (src p h q : ℕ)
    → src + p + 2 * h ≡ q
    → packet node head m src p (header_size + h) ≡ flit node.char_signed (m q) (m (q + 1))
packet_at node head m src p h q e =
    let past : ltb (header_size + h) header_size ≡ false = ground arith in
    let place : src + p + 2 * (header_size + h - header_size) ≡ q = omega arith in
    rw past (ap (λ x. flit node.char_signed (m x) (m (x + 1))) place)

pub byte_of-packet :
    (node : Node) (head : List ℕ) (m : Memory) (src p k : ℕ)
    → IsPlain node.char_signed m src
    → p % 2 ≡ 0
    → byte_of (packet node head m src p) header_size k ≡ m (src + (p + k))
unfolding IsPlain
byte_of-packet node head m src p k plain even =
    let j = p / 2 + k / 2 in
    let found = packet_at node head m src p (k / 2) (src + 2 * j) (omega arith) in
    let next : src + 2 * j + 1 ≡ src + (2 * j + 1) = omega arith in
    let lower : m (src + 2 * j + 1) < 2 ^ 8 = omega (arith, (plain (2 * j + 1)).0, ap m next) in
    elim (Bool-cases (k % 2 == 0)) [
      | inl y ↦
          let place : src + 2 * j ≡ src + (p + k) = ground arith in
          rw (y, found)
            (flit_upper node.char_signed (m (src + 2 * j)) (m (src + 2 * j + 1)) lower (plain j).1
              ∙ ap m place)
      | inr y ↦
          let place : src + 2 * j + 1 ≡ src + (p + k) = ground arith in
          rw (y, found)
            (flit_lower node.char_signed (m (src + 2 * j)) (m (src + 2 * j + 1)) lower (plain j).1
              ∙ ap m place)
    ]

pub byte_of-last_packet :
    (node : Node) (head : List ℕ) (m : Memory) (src p size k : ℕ)
    → p + k < size
    → byte_of (last_packet node head m src p size) header_size k
      ≡ byte_of (packet node head m src p) header_size k
byte_of-last_packet node head m src p size k h =
    let inside : (ltb (header_size + k / 2) header_size
          || ltb (p + 2 * (header_size + k / 2 - header_size)) size)
        ≡ true =
      ground arith in
    rw inside refl
