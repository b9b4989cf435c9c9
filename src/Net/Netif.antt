-- ===== src/Net/Netif.antt =====
-- eth_netif.c: the interface, over the driver's `en_ll_output` and `en_ll_input`.
pub mod Send
use Prim.Native.Nat.{bit_and}
use t1_sistemas_embarcados.Prelude.{
  ℕ, ◌+◌, ◌*◌, ◌^◌, ◌%◌, Bool, true, false, ◌&&◌, ◌||◌, Option, none, some, [], ◌∷◌, ltb, leb, ◌==◌,
  if◌then◌else◌,
}
use t1_sistemas_embarcados.Libc.Memory.{Memory, write}
use t1_sistemas_embarcados.Net.{Bytes, Net, eth_header, byte_at, paste, same, array, output}
use t1_sistemas_embarcados.Net.Address.{
  ip_addr_maskcmp, ip_addr_isany, ip_addr_isbroadcast, ip_addr_ismulticast,
}
use t1_sistemas_embarcados.Net.Arp.{put_word, arp_reply, arp_request, arp_update, arp_check}

-- `is_broadcast_mac`, `is_any_mac` and `is_local_mac`.
abbrev pub is_broadcast_mac : Memory → Bool
is_broadcast_mac frame = same 6 frame (λ i. 0xff)

abbrev pub is_any_mac : Memory → Bool
is_any_mac frame = same 6 frame (λ i. 0)

abbrev pub is_local_mac : Net → Memory → Bool
is_local_mac net frame = same 6 frame net.mymac

-- The hash of a multicast address.
abbrev pub multicast_mac : Bytes → Bytes
multicast_mac ip = array (0x01 ∷ 0x00 ∷ 0x5e ∷ bit_and (ip 1) 0x7f ∷ ip 2 ∷ ip 3 ∷ [])

-- The address that the cache is asked for: the gateway's for one outside the network.
abbrev pub next_hop : Bytes → Net → Bytes
next_hop ip net = if ip_addr_maskcmp ip net.myip net.mynm then ip else net.mygw

-- The hardware address that `netif_send` finds.
unfoldable pub mac_of : Bytes → Net → Option Bytes
mac_of ip net =
    if ip_addr_isany ip || ip_addr_isbroadcast ip net.mynm
    then some (λ i. 0xff)
    else if ip_addr_ismulticast ip
    then some (multicast_mac ip)
    else arp_check (next_hop ip net) net

-- `netif_send` to `ip` with the address that has been found: the result, the frame and the state. Without one the
-- frame becomes an ARP request.
pub send_to : Option Bytes → Bytes → Memory → ℕ → Net → ℕ × Memory × Net
send_to (some mac) ip frame len net =
    let ready = put_word 12 0x0800 (paste 0 6 mac (paste 6 6 net.mymac frame)) in
    let size = (len + eth_header) % 2 ^ 16 in (size, ready, output ready size net)
send_to none ip frame len net =
    let (l, request) = arp_request net frame in
    let asked = paste 38 4 (next_hop ip net) request in
    (0, asked, output asked (l + eth_header) net)

-- `netif_send`.
pub netif_send : Memory → ℕ → Net → ℕ × Memory × Net
netif_send frame len net =
    let ip : Bytes = λ i. byte_at (16 + i) frame in send_to (mac_of ip net) ip frame len net

-- `frame[o] << 8 | frame[o + 1]`.
abbrev pub frame_word : ℕ → Memory → ℕ
frame_word o f = f o * 2 ^ 8 + f (o + 1)

-- The ARP frames that the interface heeds.
abbrev pub is_arp : Memory → Bool
is_arp f = (frame_word 14 f == 1) && (frame_word 16 f == 0x0800) && (frame_word 18 f == 0x0604)

-- What `netif_recv` does with an ARP frame: the frame and the state.
pub receive_arp : Memory → Net → Memory × Net
receive_arp frame net =
    if is_arp frame
    then if (frame_word 20 frame == 1) && same 4 (λ i. frame (38 + i)) net.myip
      then (let (len, reply) = arp_reply net frame in (reply, output reply len net))
      else if frame_word 20 frame == 2
      then (frame, (arp_update (λ i. frame (28 + i)) (λ i. frame (22 + i)) net).1)
      else (frame, net)
    else (frame, net)

-- `netif_recv`, given the length (0 for none) and the frame that `en_ll_input` has read: the length of an
-- IP packet or 0, the frame and the state.
pub netif_recv : ℕ → Memory → Net → ℕ × Memory × Net
netif_recv ll_len frame net =
    if ltb 0 ll_len && (is_local_mac net frame || is_broadcast_mac frame || is_any_mac frame)
    then if frame_word 12 frame == 0x0806
      then (let (frame', net') = receive_arp frame net in (0, frame', net'))
      else if frame_word 12 frame == 0x0800
      then (frame_word 16 frame, frame, net)
      else (0, frame, net)
    else (0, frame, net)
