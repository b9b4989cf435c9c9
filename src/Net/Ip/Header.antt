-- ===== src/Net/Ip/Header.antt =====
-- The header that `ip_out` writes.
use t1_sistemas_embarcados.Prelude.{
  ℕ, ◌+◌, ◌-◌, ◌*◌, ◌/◌, ◌^◌, ◌%◌, ◌≤◌, ◌<◌, ◌≡◌, refl, ap, ◌∙◌, some, arith,
}
use t1_sistemas_embarcados.Libc.Memory.{Memory}
use t1_sistemas_embarcados.Net.{Bytes, Net, byte_at, put}
use t1_sistemas_embarcados.Net.Ip.{add_words, fold, ipchksum, plain_header, ip_packet, ip_out}
use t1_sistemas_embarcados.Net.Netif.{netif_send}
use t1_sistemas_embarcados.Net.Netif.Send.{framed}
use t1_sistemas_embarcados.Net.Ip.Sum.{Folds-complement, fold_lem, total, add_words-total}

-- An array of bytes below 2^8.
abbrev pub AreBytes : Bytes → Type 0
AreBytes b = (i : ℕ) → b i < 2 ^ 8

-- The header with a checksum.
abbrev pub with_chksum : ℕ → Memory → Memory
with_chksum sum f = put 11 (sum % 2 ^ 8) (put 10 (sum / 2 ^ 8) f)

-- The words of the header but for the checksum.
abbrev header_words : Bytes → ℕ → Net → Memory → ℕ
header_words dst len net f =
    0x4500
    + len
    + 0x4000
    + byte_at 9 f
    + (net.myip 0 * 2 ^ 8 + net.myip 1)
    + (net.myip 2 * 2 ^ 8 + net.myip 3)
    + (dst 0 * 2 ^ 8 + dst 1)
    + (dst 2 * 2 ^ 8 + dst 3)

total-header :
    (dst : Bytes) (len sum : ℕ) (net : Net) (f : Memory)
    → total 10 0 (with_chksum sum (plain_header dst len net f)) ≡ header_words dst len net f + sum
total-header dst len sum net f = omega arith

-- With a checksum of 0 nothing changes.
total-plain :
    (dst : Bytes) (len : ℕ) (net : Net) (f : Memory)
    → total 10 0 (plain_header dst len net f) ≡ header_words dst len net f
total-plain dst len net f = omega arith

header_words-lt :
    (dst : Bytes) (len : ℕ) (net : Net) (f : Memory)
    → AreBytes dst
    → AreBytes net.myip
    → byte_at 9 f < 2 ^ 8
    → len < 2 ^ 16
    → header_words dst len net f < 2 ^ 31
header_words-lt dst len net f d m b l = omega (arith, d 0, d 1, d 2, d 3, m 0, m 1, m 2, m 3)

-- `ip_out` gives the header a checksum with which `ipchksum` of the packet is 0xffff.
pub ip_packet_lem :
    (dst : Bytes) (len : ℕ) (net : Net) (f : Memory)
    → AreBytes dst
    → AreBytes net.myip
    → byte_at 9 f < 2 ^ 8
    → len < 2 ^ 16
    → (sum : ℕ) × (ip_packet dst f len net ≡ some (with_chksum sum (plain_header dst len net f)))
      × (ipchksum (with_chksum sum (plain_header dst len net f)) ≡ some 0xffff)
unfolding ip_packet ipchksum
ip_packet_lem dst len net f d m b l =
    let plain = plain_header dst len net f in
    let words = header_words dst len net f in
    let small = header_words-lt dst len net f d m b l in
    let plain_total = total-plain dst len net f in
    let added = add_words-total 10 0 0 plain (omega (arith, plain_total)) in
    let (r, e, folds) = fold_lem words (omega arith) in
    let first : fold 3 (add_words 10 0 0 plain) ≡ some r =
      ap (fold 3) (omega (arith, added, plain_total)) ∙ e in
    let sum = 2 ^ 16 - 1 - r % 2 ^ 16 in
    let full = with_chksum sum plain in
    let full_total = total-header dst len sum net f in
    let added' = add_words-total 10 0 0 full (omega (arith, full_total)) in
    let (r', e', folds') = fold_lem (words + sum) (omega arith) in
    (
      sum,
      rw first refl,
      ap (fold 3) (omega (arith, added', full_total))
          ∙ e'
          ∙ ap some (Folds-complement words r r' (omega arith) folds folds'),
    )

-- From the addresses on the header leaves a packet that has them already.
pub plain_header_lem :
    (dst : Bytes) (len sum : ℕ) (net : Net) (f : Memory)
    → ((k : ℕ) → k < 4 → byte_at (12 + k) f ≡ net.myip k)
    → ((k : ℕ) → k < 4 → byte_at (16 + k) f ≡ dst k)
    → (x : ℕ) → 12 ≤ x
    → byte_at x (with_chksum sum (plain_header dst len net f)) ≡ byte_at x f
plain_header_lem dst len sum net f h g x from = ground (
  arith,
  h 0 (omega arith),
  h 1 (omega arith),
  h 2 (omega arith),
  h 3 (omega arith),
  g 0 (omega arith),
  g 1 (omega arith),
  g 2 (omega arith),
  g 3 (omega arith),
)

pub ipchksum-framed :
    (mac : Bytes) (net : Net) (f : Memory) → ipchksum (framed mac net f) ≡ ipchksum f
unfolding ipchksum add_words
ipchksum-framed mac net f = refl

pub ip_out_lem :
    (dst : Bytes) (packet ready : Memory) (len : ℕ) (net : Net)
    → ip_packet dst packet len net ≡ some ready
    → ip_out dst packet len net ≡ some (netif_send ready len net)
unfolding ip_out
ip_out_lem dst packet ready len net e = rw e refl
