-- ===== src/Net/Icmp.antt =====
-- icmp.c: the reply to an echo request.
pub mod Reply
use t1_sistemas_embarcados.Libc.{◌>>=◌}
use t1_sistemas_embarcados.Prelude.{
  ℕ, ◌+◌, ◌-◌, ◌*◌, ◌/◌, ◌^◌, ◌%◌, Option, some, ltb, ◌==◌, if◌then◌else◌,
}
use t1_sistemas_embarcados.Libc.Memory.{Memory}
use t1_sistemas_embarcados.Net.{Bytes, Net, byte_at, put, word_at}
use t1_sistemas_embarcados.Net.Ip.{ip_out}

-- The checksum of the reply, computed from that of the request.
abbrev pub updated : ℕ → ℕ
updated chksum =
    if ltb (0xffff - 8 * 2 ^ 8) chksum
    then (chksum + 8 * 2 ^ 8 + 1) % 2 ^ 16
    else chksum + 8 * 2 ^ 8

-- The request turned into the reply.
pub echo_packet : Memory → Memory
echo_packet packet =
    let chksum = updated (word_at 22 packet) in
    put 23 (chksum % 2 ^ 8) (put 22 (chksum / 2 ^ 8) (put 20 0 packet))

-- `icmp_echo_reply`: the result, -1 being `2 ^ 32 - 1`, the frame and the state.
pub icmp_echo_reply : Memory → ℕ → Net → Option (ℕ × Memory × Net)
icmp_echo_reply packet len net =
    let dst_addr : Bytes = λ k. byte_at (12 + k) packet in
    if byte_at 20 packet == 8
    then (do
      (val, frame, after) ← ip_out dst_addr (echo_packet packet) len net
      some (0, frame, after))
    else some (2 ^ 32 - 1, packet, net)
