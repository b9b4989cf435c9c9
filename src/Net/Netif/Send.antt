-- ===== src/Net/Netif/Send.antt =====
-- `netif_send` where the hardware address is known, and `netif_recv` of such a frame.
use Prim.Native.Nat.{bit_and}
use t1_sistemas_embarcados.Prelude.{
  ℕ, ◌+◌, ◌^◌, ◌%◌, ◌<◌, ◌≡◌, refl, ap, ap₂, sym, ◌∙◌, true, ◌||◌, Option, some, List, [], ◌∷◌, ltb,
  if◌then◌else◌, Bool-cases, inl, inr, arith,
}
use t1_sistemas_embarcados.Libc.Memory.{Memory}
use t1_sistemas_embarcados.Net.{Bytes, Net, eth_header, byte_at, paste, same, array, output}
use t1_sistemas_embarcados.Net.Address.{
  ip_addr_maskcmp, ip_addr_isany, ip_addr_isbroadcast, ip_addr_ismulticast,
}
use t1_sistemas_embarcados.Net.Arp.{put_word, arp_check}
use t1_sistemas_embarcados.Net.Arp.Cache.{same_cong, arp_check_cong}
use t1_sistemas_embarcados.Net.Netif.{
  multicast_mac, next_hop, mac_of, send_to, netif_send, frame_word, is_local_mac, netif_recv,
}

next_hop_cong :
    (ip ip' : Bytes) (net : Net)
    → ((k : ℕ) → k < 4 → ip k ≡ ip' k)
    → (k : ℕ) → k < 4
    → next_hop ip net k ≡ next_hop ip' net k
next_hop_cong ip ip' net h k l =
    let masked =
      same_cong 4 (λ i. bit_and (ip i) (net.mynm i)) (λ i. bit_and (ip' i) (net.mynm i))
        (λ i. bit_and (net.myip i) (net.mynm i)) (λ i. bit_and (net.myip i) (net.mynm i))
        (λ i d. ap (λ b. bit_and b (net.mynm i)) (h i d)) (λ i d. refl) in
    let tests : ip_addr_maskcmp ip net.myip net.mynm ≡ ip_addr_maskcmp ip' net.myip net.mynm =
      masked in
    elim (Bool-cases (ip_addr_maskcmp ip' net.myip net.mynm)) [
      | inl y ↦ rw (tests, y) (h k l)
      | inr y ↦ rw (tests, y) refl
    ]

-- `mac_of` but for the search of the cache.
abbrev route : Bytes → Bytes → Option Bytes → Option Bytes
route ip mask cached =
    if ip_addr_isany ip || ip_addr_isbroadcast ip mask
    then some (λ i. 0xff)
    else if ip_addr_ismulticast ip
    then some (multicast_mac ip)
    else cached

abbrev quad : Bytes → List ℕ
quad ip = ip 0 ∷ ip 1 ∷ ip 2 ∷ ip 3 ∷ []

mac_of-route :
    (ip : Bytes) (net : Net)
    → mac_of ip net ≡ route (array (quad ip)) net.mynm (arp_check (next_hop ip net) net)
unfolding mac_of
mac_of-route ip net = refl

-- The hardware address depends on four bytes of the address.
mac_of_cong :
    (ip ip' : Bytes) (net : Net) → ((k : ℕ) → k < 4 → ip k ≡ ip' k) → mac_of ip net ≡ mac_of ip' net
mac_of_cong ip ip' net h =
    let cached =
      arp_check_cong (next_hop ip net) (next_hop ip' net) net (next_hop_cong ip ip' net h) in
    let tail = ap₂ (λ c d. c ∷ d ∷ []) (h 2 (omega arith)) (h 3 (omega arith)) in
    let bytes : quad ip ≡ quad ip' =
      ap₂ (λ a t. a ∷ t) (h 0 (omega arith)) (ap₂ (λ b t. b ∷ t) (h 1 (omega arith)) tail) in
    mac_of-route ip net
    ∙ ap₂ (λ q c. route (array q) net.mynm c) bytes cached
    ∙ sym (mac_of-route ip' net)

-- The frame with the Ethernet header of an IP packet.
abbrev pub framed : Bytes → Net → Memory → Memory
framed mac net frame = put_word 12 0x0800 (paste 0 6 mac (paste 6 6 net.mymac frame))

pub framed_lem :
    (mac : Bytes) (net : Net) (frame : Memory) (x : ℕ)
    → byte_at x (framed mac net frame) ≡ byte_at x frame
framed_lem mac net frame x = ground arith

pub netif_send_lem :
    (frame : Memory) (len : ℕ) (net : Net) (ip mac : Bytes)
    → ((k : ℕ) → k < 4 → byte_at (16 + k) frame ≡ ip k)
    → mac_of ip net ≡ some mac
    → len + eth_header < 2 ^ 16
    → netif_send frame len net ≡ (
      len + eth_header,
      framed mac net frame,
      output (framed mac net frame) (len + eth_header) net,
    )
unfolding netif_send send_to
netif_send_lem frame len net ip mac h e small =
    let known = mac_of_cong (λ k. byte_at (16 + k) frame) ip net h ∙ e in
    let size : (len + eth_header) % 2 ^ 16 ≡ len + eth_header = omega arith in
    ap (λ m. send_to m (λ k. byte_at (16 + k) frame) frame len net) known
    ∙ ap (λ s. (s, framed mac net frame, output (framed mac net frame) s net)) size

pub netif_recv_lem :
    (ll_len : ℕ) (mac : Bytes) (net net' : Net) (frame : Memory)
    → 0 < ll_len
    → same 6 mac net'.mymac ≡ true
    → netif_recv ll_len (framed mac net frame) net'
      ≡ (frame_word 16 (framed mac net frame), framed mac net frame, net')
unfolding netif_recv
netif_recv_lem ll_len mac net net' frame some_bytes mine =
    let heard : ltb 0 ll_len ≡ true = ground arith in
    let local : is_local_mac net' (framed mac net frame) ≡ true = mine in rw (heard, local) refl
