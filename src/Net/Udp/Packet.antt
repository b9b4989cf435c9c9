-- ===== src/Net/Udp/Packet.antt =====
-- The packets of `udp_out`, and what `udp_in` does with them.
use t1_sistemas_embarcados.Prelude.{
  ℕ, ◌+◌, ◌*◌, ◌/◌, ◌^◌, ◌%◌, ◌≤◌, ◌<◌, ◌≡◌, refl, ap, ◌∙◌, true, false, some, [], ◌∷◌, ◌++◌, ◌==◌,
  Bool-cases, inl, inr, arith,
}
use t1_sistemas_embarcados.Libc.{◌>>=◌}
use t1_sistemas_embarcados.Libc.Memory.{Memory}
use t1_sistemas_embarcados.Net.{Bytes, Net, byte_at, put, word_at}
use t1_sistemas_embarcados.Net.Ip.{put_address, ip_out}
use t1_sistemas_embarcados.Net.Ip.Header.{AreBytes}
use t1_sistemas_embarcados.Net.Udp.{
  udpchksum, put_word, plain_packet, udp_packet, udp_out, dispatch, udp_in,
}
use t1_sistemas_embarcados.Net.Udp.Checksum.{udpchksum-agree, udpchksum_lem}

put-AreBytes : (i v : ℕ) (f : Memory) → AreBytes f → v < 2 ^ 8 → AreBytes (put i v f)
put-AreBytes i v f h l x = ground (arith, h x)

put_word-AreBytes : (i v : ℕ) (f : Memory) → AreBytes f → v < 2 ^ 16 → AreBytes (put_word i v f)
put_word-AreBytes i v f h l =
    put-AreBytes (i + 1) (v % 2 ^ 8) (put i (v / 2 ^ 8) f)
      (put-AreBytes i (v / 2 ^ 8) f h (omega arith)) (omega arith)

put_address-AreBytes :
    (i : ℕ) (b : Bytes) (f : Memory) → AreBytes f → AreBytes b → AreBytes (put_address i b f)
put_address-AreBytes i b f h l x = ground (arith, h x, l 0, l 1, l 2, l 3)

plain_packet-AreBytes :
    (dst : Bytes) (src_port dst_port len : ℕ) (packet : Memory) (net : Net)
    → AreBytes dst
    → AreBytes net.myip
    → AreBytes packet
    → src_port < 2 ^ 16
    → dst_port < 2 ^ 16
    → len < 2 ^ 16
    → AreBytes (plain_packet dst src_port dst_port packet len net)
plain_packet-AreBytes dst src_port dst_port len packet net d m p s t l =
    let f₁ = put_address 12 net.myip packet in
    let f₂ = put_address 16 dst f₁ in
    let f₃ = put_word 20 src_port f₂ in
    let f₄ = put_word 22 dst_port f₃ in
    let f₅ = put_word 24 len f₄ in
    let f₆ = put 26 0 f₅ in
    let f₇ = put 27 0 f₆ in
    let h₂ = put_address-AreBytes 16 dst f₁ (put_address-AreBytes 12 net.myip packet p m) d in
    let h₄ = put_word-AreBytes 22 dst_port f₃ (put_word-AreBytes 20 src_port f₂ h₂ s) t in
    let h₆ = put-AreBytes 26 0 f₅ (put_word-AreBytes 24 len f₄ h₄ l) (omega arith) in
    put-AreBytes 9 17 f₇ (put-AreBytes 27 0 f₆ h₆ (omega arith)) (omega arith)

-- A packet has the addresses.
put_address_lem :
    (i k : ℕ) (b : Bytes) (f : Memory) → k < 4 → byte_at (i + k) (put_address i b f) ≡ b k
put_address_lem i k b f l = grind arith

pub plain_packet-dst :
    (dst : Bytes) (src_port dst_port len c : ℕ) (packet : Memory) (net : Net) (k : ℕ)
    → k < 4
    → byte_at (16 + k) (put_word 26 c (plain_packet dst src_port dst_port packet len net)) ≡ dst k
plain_packet-dst dst src_port dst_port len c packet net k l =
    ground (arith, put_address_lem 16 k dst (put_address 12 net.myip packet) l)

pub plain_packet-src :
    (dst : Bytes) (src_port dst_port len c : ℕ) (packet : Memory) (net : Net) (k : ℕ)
    → k < 4
    → byte_at (12 + k) (put_word 26 c (plain_packet dst src_port dst_port packet len net))
      ≡ net.myip k
plain_packet-src dst src_port dst_port len c packet net k l =
    ground (arith, put_address_lem 12 k net.myip packet l)

-- `udp_out` ends and gives the packet a checksum.
pub udp_packet_lem :
    (fuel : ℕ) (dst : Bytes) (src_port dst_port : ℕ) (packet : Memory) (len : ℕ) (net : Net)
    → AreBytes dst
    → AreBytes net.myip
    → AreBytes packet
    → src_port < 2 ^ 16
    → dst_port < 2 ^ 16
    → len ≤ 65515
    → len < 2 * fuel
    → (c : ℕ) × (udpchksum fuel (plain_packet dst src_port dst_port packet len net) len ≡ some c)
      × (udp_packet fuel dst src_port dst_port packet len net
          ≡ some (put_word 26 c (plain_packet dst src_port dst_port packet len net)))
      × (c < 2 ^ 16)
unfolding udp_packet
udp_packet_lem fuel dst src_port dst_port packet len net d m p s t l enough =
    let plain = plain_packet dst src_port dst_port packet len net in
    let bytes =
      plain_packet-AreBytes dst src_port dst_port len packet net d m p s t (omega arith) in
    let (c, e, small) = udpchksum_lem fuel len plain l enough (λ x. bytes (14 + x)) in
    (c, e, rw e refl, small)

pub udp_out_lem :
    (fuel : ℕ) (dst : Bytes) (src_port dst_port : ℕ) (packet : Memory) (len : ℕ) (net : Net)
    (ready : Memory)
    → udp_packet fuel dst src_port dst_port packet len net ≡ some ready
    → len + 20 < 2 ^ 16
    → udp_out fuel dst src_port dst_port packet len net ≡ ip_out dst ready (len + 20) net
unfolding udp_out
udp_out_lem fuel dst src_port dst_port packet len net ready e l =
    let size : (len + 20) % 2 ^ 16 ≡ len + 20 = omega arith in
    ap (λ o. o >>= λ r. ip_out dst r ((len + 20) % 2 ^ 16) net) e
    ∙ ap (λ s. ip_out dst ready s net) size

-- What the callback gets.
abbrev pub passed : Memory → Net → Net
passed packet net = record net { delivered = net.delivered ++ (packet ∷ []) }

dispatch_lem :
    (fuel : ℕ) (packet : Memory) (dst_port datalen : ℕ) (net : Net)
    → word_at 22 packet ≡ dst_port
    → (dst_port == 7) ≡ false
    → (dst_port == 9) ≡ false
    → net.callback ≡ true
    → dispatch fuel packet datalen net ≡ some (datalen, packet, passed packet net)
unfolding dispatch
dispatch_lem fuel packet dst_port datalen net port echo discard set =
    let not_echo : (word_at 22 packet == 7) ≡ false = ap (λ p. p == 7) port ∙ echo in
    let not_discard : (word_at 22 packet == 9) ≡ false = ap (λ p. p == 9) port ∙ discard in
    rw (not_echo, not_discard, set) refl

udp_in-unchecked :
    (fuel : ℕ) (packet : Memory) (net : Net)
    → (word_at 26 packet == 0) ≡ true
    → udp_in fuel packet net ≡ dispatch fuel packet (word_at 24 packet) net
unfolding udp_in
udp_in-unchecked fuel packet net h = rw h refl

udp_in-checked :
    (fuel c : ℕ) (packet : Memory) (net : Net)
    → (word_at 26 packet == 0) ≡ false
    → udpchksum fuel (put 27 0 (put 26 0 packet)) (word_at 24 packet) ≡ some c
    → (word_at 26 packet == c) ≡ true
    → udp_in fuel packet net ≡ dispatch fuel (put 27 0 (put 26 0 packet)) (word_at 24 packet) net
unfolding udp_in
udp_in-checked fuel c packet net h e y = rw (h, e, y) refl

-- A packet that agrees from the addresses on with one that has its checksum `c` in place is passed on.
pub udp_in_lem :
    (fuel : ℕ) (packet plain : Memory) (c dst_port len : ℕ) (net : Net)
    → ((x : ℕ) → 12 ≤ x → byte_at x packet ≡ byte_at x (put_word 26 c plain))
    → byte_at 26 plain ≡ 0
    → byte_at 27 plain ≡ 0
    → word_at 22 plain ≡ dst_port
    → word_at 24 plain ≡ len
    → udpchksum fuel plain len ≡ some c
    → len ≤ 65515
    → (dst_port == 7) ≡ false
    → (dst_port == 9) ≡ false
    → net.callback ≡ true
    → (after : Memory) × (udp_in fuel packet net ≡ some (len, after, passed after net))
      × ((x : ℕ) → 28 ≤ x → byte_at x after ≡ byte_at x plain)
udp_in_lem fuel packet plain c dst_port len net arrived upper lower port size sum l echo discard
      set =
    let field : word_at 26 packet ≡ c =
      omega (arith, arrived 26 (omega arith), arrived 27 (omega arith)) in
    let length_field : word_at 24 packet ≡ len =
      omega (arith, arrived 24 (omega arith), arrived 25 (omega arith)) in
    let port_field : word_at 22 packet ≡ dst_port =
      omega (arith, arrived 22 (omega arith), arrived 23 (omega arith)) in
    let cleared = put 27 0 (put 26 0 packet) in
    let agree : (x : ℕ) → 12 ≤ x → byte_at x cleared ≡ byte_at x plain =
      λ x from. ground (arith, arrived x from) in
    let passes : (f : Memory)
        → word_at 22 f ≡ dst_port
        → dispatch fuel f (word_at 24 packet) net ≡ some (len, f, passed f net) =
      λ f e.
        ap (λ n. dispatch fuel f n net) length_field
        ∙ dispatch_lem fuel f dst_port len net e echo discard set in
    elim (Bool-cases (word_at 26 packet == 0)) [
      | inl y ↦ (
        packet,
        udp_in-unchecked fuel packet net y ∙ passes packet port_field,
        λ x from. arrived x (omega arith) ∙ ground arith,
      )
      | inr y ↦
          let again =
            ap (udpchksum fuel cleared) length_field
            ∙ udpchksum-agree fuel len cleared plain l agree
            ∙ sum in
          (
            cleared,
            udp_in-checked fuel c packet net y again (ground arith) ∙ passes cleared port_field,
            λ x from. agree x (omega arith),
          )
    ]
