-- ===== src/Net/Receive/Delivery.antt =====
-- A datagram from `udp_out` on one node to the callback on another.
use t1_sistemas_embarcados.Prelude.{
  ℕ, ◌+◌, ◌*◌, ◌^◌, ◌≤◌, ◌<◌, ◌≡◌, refl, ap, ◌∙◌, true, false, some, ltb, ◌==◌, arith,
}
use t1_sistemas_embarcados.Libc.Memory.{Memory}
use t1_sistemas_embarcados.Net.{Bytes, Net, eth_header, byte_at, same, output}
use t1_sistemas_embarcados.Net.Address.{ip_addr_cmp}
use t1_sistemas_embarcados.Net.Arp.Cache.{same_refl}
use t1_sistemas_embarcados.Net.Netif.{mac_of, frame_word, netif_recv}
use t1_sistemas_embarcados.Net.Netif.Send.{framed, framed_lem, netif_send_lem, netif_recv_lem}
use t1_sistemas_embarcados.Net.Ip.{ipchksum, plain_header}
use t1_sistemas_embarcados.Net.Ip.Header.{
  AreBytes, with_chksum, ip_packet_lem, plain_header_lem, ipchksum-framed, ip_out_lem,
}
use t1_sistemas_embarcados.Net.Udp.{put_word, plain_packet, udp_out, udp_in}
use t1_sistemas_embarcados.Net.Udp.Packet.{
  plain_packet-src, plain_packet-dst, udp_packet_lem, udp_out_lem, passed, udp_in_lem,
}
use t1_sistemas_embarcados.Net.Receive.{configured, is_plain, ip_in, service}

ip_in_lem :
    (fuel : ℕ) (packet : Memory) (len : ℕ) (net : Net)
    → is_plain packet ≡ true
    → byte_at 9 packet ≡ 17
    → configured net ≡ true
    → ip_addr_cmp (λ k. byte_at (16 + k) packet) net.myip ≡ true
    → ipchksum packet ≡ some 0xffff
    → ip_in fuel net.myip packet len net ≡ udp_in fuel packet net
unfolding ip_in
ip_in_lem fuel packet len net plain protocol address mine sum =
    rw (plain, address, mine, sum, protocol) refl

service_lem :
    (fuel ll_len : ℕ) (frame after : Memory) (len val : ℕ) (net net' : Net)
    → netif_recv ll_len frame net ≡ (len, frame, net)
    → 0 < len
    → ip_in fuel net.myip frame len net ≡ some (val, after, net')
    → service fuel ll_len frame net ≡ some net'
unfolding service
service_lem fuel ll_len frame after len val net net' received pos e =
    let nonzero : ltb 0 len ≡ true = ground arith in rw (received, nonzero, e) refl

-- A datagram to an interface with an address, whose hardware address the sender finds, is sent in one frame, and a
-- round of the service that gets this frame calls the callback once, with a packet that has the sender's payload;
-- the ports 7 and 9 are excepted. `len` counts the 8 bytes of the header.
pub udp_out-service :
    (fuel src_port dst_port len : ℕ) (packet : Memory) (a b : Net) (mac : Bytes)
    → AreBytes a.myip
    → AreBytes b.myip
    → AreBytes packet
    → src_port < 2 ^ 16
    → dst_port < 2 ^ 16
    → (dst_port == 7) ≡ false
    → (dst_port == 9) ≡ false
    → len ≤ 65501
    → len < 2 * fuel
    → mac_of b.myip a ≡ some mac
    → same 6 mac b.mymac ≡ true
    → configured b ≡ true
    → b.callback ≡ true
    → (frame : Memory) × (after : Memory) × (udp_out fuel b.myip src_port dst_port packet len a
        ≡ some (len + 34, frame, output frame (len + 34) a))
      × (service fuel (len + 34) frame b ≡ some (passed after b))
      × ((x : ℕ) → 28 ≤ x → byte_at x after ≡ byte_at x packet)
udp_out-service fuel src_port dst_port len packet a b mac ma mb bytes s d echo discard l enough
      route mine ready set =
    let plain = plain_packet b.myip src_port dst_port packet len a in
    let (c, sum, made, small) =
      udp_packet_lem fuel b.myip src_port dst_port packet len a mb ma bytes s d (omega arith)
        enough in
    let sent = put_word 26 c plain in
    let (h, headed, valid) =
      ip_packet_lem b.myip (len + 20) a sent mb ma (omega arith) (omega arith) in
    let full = with_chksum h (plain_header b.myip (len + 20) a sent) in
    let frame = framed mac a full in
    let kept =
      plain_header_lem b.myip (len + 20) h a sent
        (plain_packet-src b.myip src_port dst_port len c packet a)
        (plain_packet-dst b.myip src_port dst_port len c packet a) in
    let aimed : (k : ℕ) → k < 4 → byte_at (16 + k) full ≡ b.myip k = λ k low.
      kept (16 + k) (omega arith)
      ∙ plain_packet-dst b.myip src_port dst_port len c packet a k low in
    let longer : len + 20 + eth_header ≡ len + 34 = omega arith in
    let out : udp_out fuel b.myip src_port dst_port packet len a
        ≡ some (len + 34, frame, output frame (len + 34) a) =
      udp_out_lem fuel b.myip src_port dst_port packet len a sent made (omega arith)
      ∙ ip_out_lem b.myip sent full (len + 20) a headed
      ∙ ap some (
          netif_send_lem full (len + 20) a b.myip mac aimed route (omega arith)
          ∙ ap (λ n. (n, frame, output frame n a)) longer) in
    let arrived : (x : ℕ) → 12 ≤ x → byte_at x frame ≡ byte_at x sent =
      λ x from. framed_lem mac a full x ∙ kept x from in
    let (after, passes, tail) =
      udp_in_lem fuel frame plain c dst_port len b arrived refl refl (omega arith) (omega arith) sum
        (omega arith) echo discard set in
    let taken =
      ip_in_lem fuel frame (frame_word 16 frame) b refl refl ready (same_refl 4 b.myip)
        (ipchksum-framed mac a full ∙ valid)
      ∙ passes in
    let received = netif_recv_lem (len + 34) mac a b full (omega arith) mine in
    (
      frame,
      after,
      out,
      service_lem fuel (len + 34) frame after (frame_word 16 frame) len b (passed after b) received
          (omega arith) taken,
      λ x from. tail x from ∙ ground arith,
    )
