-- ===== src/Net/Arp.antt =====
-- arp.c: the cache of addresses, and the frames of the protocol.
pub mod Cache
use t1_sistemas_embarcados.Prelude.{
  ℕ, zero, suc, ◌+◌, ◌/◌, ◌^◌, ◌%◌, Bool, true, false, Option, none, some, ltb, ◌==◌, if◌then◌else◌,
}
use t1_sistemas_embarcados.Libc.Memory.{Memory, write}
use t1_sistemas_embarcados.Net.{Bytes, Net, paste, same}

-- `ARP_CACHE_SIZE`.
abbrev pub arp_cache_size : ℕ
arp_cache_size = 16

-- `frame[o] = v >> 8; frame[o + 1] = v & 0xff;`
abbrev pub put_word : ℕ → ℕ → Memory → Memory
put_word o v f = write (o + 1) (v % 2 ^ 8) (write o (v / 2 ^ 8) f)

-- The fields of an ARP frame up to the opcode.
abbrev pub put_header : ℕ → Memory → Memory
put_header opcode f = put_word 20 opcode (put_word 18 0x0604 (put_word 16 0x0800 (put_word 14 1 f)))

-- `arp_reply`: the frame and its size.
pub arp_reply : Net → Memory → ℕ × Memory
arp_reply net frame =
    let mac : Bytes = λ i. frame (6 + i) in
    let ethernet = put_word 12 0x0806 (paste 0 6 mac (paste 6 6 net.mymac frame)) in
    let ip : Bytes = λ i. ethernet (28 + i) in
    (
      42,
      paste 38 4 ip
          (paste 32 6 mac (paste 28 4 net.myip (paste 22 6 net.mymac (put_header 2 ethernet)))),
    )

-- `arp_request`: the frame and its size.
pub arp_request : Net → Memory → ℕ × Memory
arp_request net frame =
    let ethernet = put_word 12 0x0806 (paste 0 6 (λ i. 0xff) (paste 6 6 net.mymac frame)) in
    (
      42,
      paste 38 4 net.myip (
          paste 32 6 (λ i. 0) (paste 28 4 net.myip (paste 22 6 net.mymac (put_header 1 ethernet)))),
    )

-- `for (i = 0; i < ARP_CACHE_SIZE; i++) if (!memcmp(ip, arp_cache[i].ip, 4)) break;`, `left` being
-- ARP_CACHE_SIZE - i: the index that it ends with.
unfoldable pub entry_of : ℕ → ℕ → Bytes → Net → ℕ
entry_of zero i ip net = i
entry_of (suc left) i ip net = if same 4 ip (net.arp_ip i) then i else entry_of left (i + 1) ip net

-- `memcpy` of the first `n` bytes to the entry `i`.
abbrev pub set_entry : ℕ → ℕ → Bytes → (ℕ → Bytes) → ℕ → Bytes
set_entry n i bytes entries j k =
    if (j == i) then (if ltb k n then bytes k else entries j k) else entries j k

-- `arp_update`.
pub arp_update : Bytes → Bytes → Net → ℕ × Net
arp_update ip mac net =
    let i = entry_of arp_cache_size 0 ip net in
    if ltb i arp_cache_size then (1, record net { arp_mac = set_entry 6 i mac net.arp_mac }) else (
      0,
      record net {
        arp_ip = set_entry 4 net.arp_index ip net.arp_ip;
        arp_mac = set_entry 6 net.arp_index mac net.arp_mac;
        arp_index = (net.arp_index + 1) % arp_cache_size;
      },
    )

-- `arp_check`: the hardware address, if the cache has it.
unfoldable pub arp_check : Bytes → Net → Option Bytes
arp_check ip net =
    let i = entry_of arp_cache_size 0 ip net in
    if ltb i arp_cache_size then some (net.arp_mac i) else none
