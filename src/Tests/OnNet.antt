-- ===== src/Tests/OnNet.antt =====
-- The network stack with two nodes that know each other.
use t1_sistemas_embarcados.Prelude.{
  ℕ, ◌+◌, ◌^◌, ◌%◌, ◌≤◌, ◌<◌, ◌≡◌, refl, true, none, some, [], ◌∷◌, ◌==◌, if◌then◌else◌, arith,
}
use t1_sistemas_embarcados.Libc.Memory.{Memory}
use t1_sistemas_embarcados.Net.{Bytes, Net, byte_at, array, output}
use t1_sistemas_embarcados.Net.Arp.{arp_update, arp_check, entry_of}
use t1_sistemas_embarcados.Net.Arp.Cache.{arp_check-arp_update}
use t1_sistemas_embarcados.Net.Netif.{mac_of}
use t1_sistemas_embarcados.Net.Ip.{add_words, fold}
use t1_sistemas_embarcados.Net.Icmp.{echo_packet}
use t1_sistemas_embarcados.Net.Icmp.Reply.{echo_packet_lem}
use t1_sistemas_embarcados.Net.Udp.{udpchksum, udp_out}
use t1_sistemas_embarcados.Net.Udp.Checksum.{udpchksum_endless}
use t1_sistemas_embarcados.Net.Udp.Packet.{passed}
use t1_sistemas_embarcados.Net.Receive.{service}
use t1_sistemas_embarcados.Net.Receive.Delivery.{udp_out-service}

-- 10.0.0.`last`.
abbrev address : ℕ → Bytes
address last i = if i == 0 then 10 else if i == 3 then last else 0

abbrev node : ℕ → Net
node last = record {
  myip = address last;
  mynm = array (255 ∷ 255 ∷ 255 ∷ 0 ∷ []);
  mygw = address 1;
  mymac = λ i. last;
  arp_ip = λ i. address (i + 2);
  arp_mac = λ i k. i + 2;
  arp_index = 0;
  callback = true;
  sent = [];
  delivered = [];
}

abbrev counting : Memory
counting x = x % 2 ^ 8

-- An echo request of eight bytes, with its checksum.
abbrev request : Memory
request x = if x == 34 then 8 else if x == 36 then 0xf7 else if x == 37 then 0xff else 0

udp_out-service_example :
    (frame : Memory) × (after : Memory) × (udp_out 10 (address 2) 5000 6000 counting 12 (node 3)
      ≡ some (46, frame, output frame 46 (node 3)))
    × (service 10 46 frame (node 2) ≡ some (passed after (node 2)))
    × ((x : ℕ) → 28 ≤ x → byte_at x after ≡ byte_at x counting)
unfolding mac_of arp_check entry_of
udp_out-service_example =
    udp_out-service 10 5000 6000 12 counting (node 3) (node 2) (λ k. 2) (λ i. ground arith)
      (λ i. ground arith) (λ i. omega arith) (omega arith) (omega arith) refl refl (omega arith)
      (omega arith) refl refl refl refl

arp_check-arp_update_example :
    (found : Bytes) × (arp_check (address 99) (arp_update (address 99) (λ k. 7) (node 3)).1
      ≡ some found)
    × ((k : ℕ) → k < 6 → found k ≡ 7)
arp_check-arp_update_example = arp_check-arp_update (address 99) (λ k. 7) (node 3) (omega arith)

echo_packet_example : fold 3 (add_words 4 20 0 (echo_packet request)) ≡ some 0xffff
unfolding add_words fold
echo_packet_example = echo_packet_lem 2 request (omega arith) refl (omega arith) refl

udpchksum_endless_example : udpchksum 1000 counting 65516 ≡ none
udpchksum_endless_example = udpchksum_endless 1000 65516 counting (omega arith)
