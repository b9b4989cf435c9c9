-- ===== src/Net/Receive.antt =====
-- ip.c: `ip_in`, and one round of the service in eth_netif.c.
pub mod Delivery
use Prim.Native.Nat.{bit_and, bit_or}
use t1_sistemas_embarcados.Libc.{◌>>=◌}
use t1_sistemas_embarcados.Prelude.{
  ℕ, ◌+◌, ◌-◌, ◌*◌, ◌^◌, ◌%◌, Bool, true, false, not, ◌&&◌, ◌||◌, Option, some, ltb, ◌==◌,
  if◌then◌else◌,
}
use t1_sistemas_embarcados.Libc.Memory.{Memory}
use t1_sistemas_embarcados.Net.{Bytes, Net, byte_at, word_at}
use t1_sistemas_embarcados.Net.Address.{ip_addr_cmp}
use t1_sistemas_embarcados.Net.Netif.{netif_recv}
use t1_sistemas_embarcados.Net.Ip.{ipchksum}
use t1_sistemas_embarcados.Net.Icmp.{icmp_echo_reply}
use t1_sistemas_embarcados.Net.Udp.{udp_in}

-- `myip[0] | myip[1] | myip[2] | myip[3]` is not 0.
abbrev pub configured : Net → Bool
configured net =
    not (bit_or (bit_or (bit_or (net.myip 0) (net.myip 1)) (net.myip 2)) (net.myip 3) == 0)

-- -1 and what the call leaves.
abbrev pub rejected : Memory → Net → Option (ℕ × Memory × Net)
rejected packet net = some (2 ^ 32 - 1, packet, net)

-- The tests on a header that hold for every packet: version, fragments, time to live.
abbrev pub is_plain : Memory → Bool
is_plain packet =
    (byte_at 0 packet == 0x45)
    && (bit_and (word_at 6 packet) 0x3fff == 0)
    && not (byte_at 8 packet == 0)

-- `IP_CFG_PING + IP_HEADER_SIZE + ICMP_HDR_SIZE`.
abbrev pub ping_size : ℕ
ping_size = 141

-- What `ip_in` does with the checksum.
abbrev pub pass_up : ℕ → ℕ → Memory → ℕ → Net → Option (ℕ × Memory × Net)
pass_up fuel chksum packet len net =
    if not (chksum == 0xffff)
    then rejected packet net
    else if byte_at 9 packet == 1
    then icmp_echo_reply packet len net
    else if byte_at 9 packet == 17
    then udp_in fuel packet net
    else rejected packet net

-- `ip_in`: the result, the frame and the state. An interface without an address takes it from a ping.
pub ip_in : ℕ → Bytes → Memory → ℕ → Net → Option (ℕ × Memory × Net)
ip_in fuel dst_addr packet len net =
    if not (is_plain packet)
    then rejected packet net
    else if configured net
    then if not (ip_addr_cmp (λ k. byte_at (16 + k) packet) dst_addr)
      then rejected packet net
      else (do chksum ← ipchksum packet; pass_up fuel chksum packet len net)
    else if (byte_at 9 packet == 1) && (len == ping_size)
    then some (0, packet, record net { myip = λ k. byte_at (16 + k) packet })
    else some (0, packet, net)

-- A round of `ustack_service`: a frame that `en_ll_input` has read, and `ip_in` where it holds a packet.
pub service : ℕ → ℕ → Memory → Net → Option Net
service fuel ll_len frame net =
    let (len, frame', net') = netif_recv ll_len frame net in
    if ltb 0 len
    then (do (val, packet, after) ← ip_in fuel net'.myip frame' len net'; some after)
    else some net'
