-- ===== src/Net.antt =====
-- hellfireos/net/ustack: Ethernet, ARP, IP, ICMP and UDP over one interface. A frame is a function from
-- an offset to the byte there, and a packet begins at its byte 14. Bytes are below 2 ^ 8, so
-- `a << 8 | b` is `a * 2 ^ 8 + b`. Frames given to the driver (`en_ll_output`) and packets given to the
-- UDP callback are kept in the order of the calls. A loop that the code does not count runs on fuel;
-- `none` is a loop that has not ended.
pub mod Address
pub mod Arp
pub mod Netif
pub mod Ip
pub mod Udp
pub mod Icmp
pub mod Receive
use t1_sistemas_embarcados.Prelude.{
  ℕ, zero, suc, ◌+◌, ◌-◌, ◌*◌, ◌^◌, Bool, true, ◌&&◌, List, [], ◌∷◌, ◌++◌, get_or, ltb, leb, ◌==◌,
  if◌then◌else◌,
}
use t1_sistemas_embarcados.Libc.Memory.{Memory, write}

-- An array of bytes, from an index to the byte there.
abbrev pub Bytes : Type 0
Bytes = ℕ → ℕ

-- The interface's addresses, the ARP cache with `arp_index`, whether a UDP callback is set, and what has
-- been sent and delivered.
pub record Net : Type 0 where
  pub myip : Bytes
  pub mynm : Bytes
  pub mygw : Bytes
  pub mymac : Bytes
  pub arp_ip : ℕ → Bytes
  pub arp_mac : ℕ → Bytes
  pub arp_index : ℕ
  pub callback : Bool
  pub sent : List (Memory × ℕ)
  pub delivered : List Memory

-- `ETH_HEADER_SIZE`.
abbrev pub eth_header : ℕ
eth_header = 14

-- `packet[i]` and `packet[i] = v`.
abbrev pub byte_at : ℕ → Memory → ℕ
byte_at i f = f (eth_header + i)

abbrev pub put : ℕ → ℕ → Memory → Memory
put i v f = write (eth_header + i) v f

-- `packet[i] << 8 | packet[i + 1]`.
abbrev pub word_at : ℕ → Memory → ℕ
word_at i f = byte_at i f * 2 ^ 8 + byte_at (i + 1) f

-- `memcpy(&frame[o], src, n)`, with `src` outside the frame.
abbrev pub paste : ℕ → ℕ → Bytes → Memory → Memory
paste o n src f x = if leb o x && ltb x (o + n) then src (x - o) else f x

-- `!memcmp(a, b, n)`.
abbrev pub same : ℕ → Bytes → Bytes → Bool
same zero a b = true
same (suc n) a b = same n a b && (a n == b n)

-- `{ a, b, … }`.
abbrev pub array : List ℕ → Bytes
array bytes i = get_or bytes i 0

-- `en_ll_output(frame, size)`.
abbrev pub output : Memory → ℕ → Net → Net
output f size net = record net { sent = net.sent ++ ((f, size) ∷ []) }
