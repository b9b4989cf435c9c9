-- ===== src/Net/Udp.antt =====
-- udp.c.
pub mod Checksum
pub mod Packet
use t1_sistemas_embarcados.Libc.{◌>>=◌}
use t1_sistemas_embarcados.Prelude.{
  ℕ, zero, suc, ◌+◌, ◌-◌, ◌*◌, ◌/◌, ◌^◌, ◌%◌, Bool, true, false, Option, none, some, [], ◌∷◌, ◌++◌,
  ltb, ◌==◌, if◌then◌else◌,
}
use t1_sistemas_embarcados.Libc.Memory.{Memory}
use t1_sistemas_embarcados.Net.{Bytes, Net, byte_at, put, word_at}
use t1_sistemas_embarcados.Net.Ip.{fold, put_address, ip_out}

-- `for (i = IP_HEADER_SIZE; i < len + IP_HEADER_SIZE-1; i += 2)`, with `i` a `uint16_t`.
unfoldable pub add_payload : ℕ → ℕ → ℕ → ℕ → Memory → Option ℕ
add_payload zero i len sum f = none
add_payload (suc fuel) i len sum f =
    let rest = add_payload fuel ((i + 2) % 2 ^ 16) len ((sum + word_at i f) % 2 ^ 32) f in
    if ltb i (len + 19) then rest else some sum

-- The addresses, the protocol and the length.
abbrev pub pseudo_header : ℕ → Memory → ℕ
pseudo_header len f = word_at 12 f + word_at 14 f + word_at 16 f + word_at 18 f + 17 + len

-- `udpchksum`.
pub udpchksum : ℕ → Memory → ℕ → Option ℕ
udpchksum fuel packet len = do
  sum ← add_payload fuel 20 len (pseudo_header len packet) packet
  folded ← fold 3 (if len % 2 == 1 then (sum + byte_at (len + 19) packet * 2 ^ 8) % 2 ^ 32 else sum)
  some (2 ^ 16 - 1 - folded % 2 ^ 16)

-- `packet[i] = v >> 8; packet[i + 1] = v & 0xff;`
abbrev pub put_word : ℕ → ℕ → Memory → Memory
put_word i v f = put (i + 1) (v % 2 ^ 8) (put i (v / 2 ^ 8) f)

-- The packet of `udp_out` with the checksum 0.
abbrev pub plain_packet : Bytes → ℕ → ℕ → Memory → ℕ → Net → Memory
plain_packet dst src_port dst_port packet len net = put 9 17 (
    put 27 0 (
      put 26 0 (
        put_word 24 len (
          put_word 22 dst_port
            (put_word 20 src_port (put_address 16 dst (put_address 12 net.myip packet)))))))

-- The packet that `udp_out` gives to `ip_out`.
pub udp_packet : ℕ → Bytes → ℕ → ℕ → Memory → ℕ → Net → Option Memory
udp_packet fuel dst src_port dst_port packet len net =
    let plain = plain_packet dst src_port dst_port packet len net in
    do chksum ← udpchksum fuel plain len; some (put_word 26 chksum plain)

-- `udp_out`: the result, the frame and the state.
pub udp_out : ℕ → Bytes → ℕ → ℕ → Memory → ℕ → Net → Option (ℕ × Memory × Net)
udp_out fuel dst src_port dst_port packet len net = do
  ready ← udp_packet fuel dst src_port dst_port packet len net
  ip_out dst ready ((len + 20) % 2 ^ 16) net

-- What `udp_in` does with a packet whose checksum it has accepted.
pub dispatch : ℕ → Memory → ℕ → Net → Option (ℕ × Memory × Net)
dispatch fuel packet datalen net =
    let src_port = word_at 20 packet in
    let dst_port = word_at 22 packet in
    let dst_addr : Bytes = λ k. byte_at (12 + k) packet in
    if dst_port == 7
    then (do
      (val, frame, after) ← udp_out fuel dst_addr dst_port src_port packet datalen net
      some (0, frame, after))
    else if dst_port == 9
    then some (0, packet, net)
    else some (
      datalen,
      packet,
      if net.callback then record net { delivered = net.delivered ++ (packet ∷ []) } else net,
    )

-- `udp_in`: the result, -1 being `2 ^ 32 - 1`, the frame and the state. Where the packet has a checksum
-- its field is cleared.
pub udp_in : ℕ → Memory → Net → Option (ℕ × Memory × Net)
udp_in fuel packet net =
    let chksum = word_at 26 packet in
    let datalen = word_at 24 packet in
    let cleared = put 27 0 (put 26 0 packet) in
    if chksum == 0 then dispatch fuel packet datalen net else do
      expected ← udpchksum fuel cleared datalen
      if chksum == expected
          then dispatch fuel cleared datalen net
          else some (2 ^ 32 - 1, cleared, net)
