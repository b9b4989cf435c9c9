-- ===== src/Noc/Message.antt =====
-- noc.c: `hf_send` and `hf_recv`.
pub mod Bytes
pub mod Counts
pub mod Arrival
pub mod Transfer
use Prim.Native.Nat.{bit_or}
use t1_sistemas_embarcados.Libc.{◌>>=◌}
use t1_sistemas_embarcados.Prelude.{
  ℕ, zero, suc, ◌+◌, ◌-◌, ◌*◌, ◌/◌, ◌%◌, ◌^◌, Bool, true, false, not, ◌&&◌, ◌||◌, Option, none,
  some, List, [], ◌∷◌, get_or, ltb, leb, ◌==◌, if◌then◌else◌,
}
use t1_sistemas_embarcados.Libc.Memory.{Memory, write}
use t1_sistemas_embarcados.Queue.{Queue, count, get, addtail, remhead}
use t1_sistemas_embarcados.Noc.{
  Node, Outcome, ok, comm_unfeasible, seq_error, header_size, update, is_null, ni_isr,
}

-- `payload_bytes` and `packets`.
abbrev pub payload_bytes : Node → ℕ
payload_bytes node = (node.packet_size - header_size) * 2

abbrev pub packets_of : ℕ → Node → ℕ
packets_of size node =
    if size % payload_bytes node == 0
    then size / payload_bytes node
    else size / payload_bytes node + 1

-- `(buf[p] << 8) | buf[p+1]` in 16 bits: a signed `char` from 128 on has all upper bits set.
abbrev pub flit : Bool → ℕ → ℕ → ℕ
flit char_signed upper lower =
    if char_signed && leb 128 lower then 0xff00 + lower else upper * 2 ^ 8 + lower

-- The header, with `NOC_COLUMN` and `NOC_LINE` of the target.
abbrev pub header : Node → ℕ → ℕ → ℕ → ℕ → ℕ → ℕ → List ℕ
header node id target_cpu target_port size channel seq =
    bit_or (target_cpu % node.width * 2 ^ 4) (target_cpu / node.width)
    ∷ (node.packet_size - 2)
    ∷ node.cpu_id
    ∷ node.ports id
    ∷ target_port
    ∷ size
    ∷ seq
    ∷ channel
    ∷ []

-- A packet with its bytes from `buf + p` on. Past the message stands 0xdead.
abbrev pub packet : Node → List ℕ → Memory → ℕ → ℕ → ℕ → ℕ
packet node head m buf p i =
    if ltb i header_size
    then get_or head i 0
    else let q = buf + p + 2 * (i - header_size) in flit node.char_signed (m q) (m (q + 1))

abbrev pub last_packet : Node → List ℕ → Memory → ℕ → ℕ → ℕ → ℕ → ℕ
last_packet node head m buf p size i =
    if ltb i header_size || ltb (p + 2 * (i - header_size)) size
    then packet node head m buf p i
    else 0xdead

-- `while (++packet < packets)` and the last packet, `left` packets being before it.
unfoldable pub send_packets : ℕ → Node → (ℕ → List ℕ) → Memory → ℕ → ℕ → ℕ → ℕ → List (ℕ → ℕ)
send_packets zero node head m buf p size seq = last_packet node (head seq) m buf p size ∷ []
send_packets (suc left) node head m buf p size seq =
    packet node (head seq) m buf p
    ∷ send_packets left node head m buf (p + payload_bytes node) size (seq + 1)

-- `hf_send` of the task `id`: the result and the packets written to the network interface.
unfoldable pub send : Node → ℕ → ℕ → ℕ → Memory → ℕ → ℕ → ℕ → Outcome × List (ℕ → ℕ)
send node id target_cpu target_port m buf size channel =
    if is_null (node.queues id) then (comm_unfeasible, []) else (
      ok,
      send_packets (packets_of size node - 1) node
          (header node id target_cpu target_port size channel) m buf 0 size 1,
    )

-- The test of the loops that wait: a packet of the channel at the head.
abbrev pub heads : Option ℕ → ℕ → Node → Bool
heads none channel node = false
heads (some b) channel node = node.buffers b 7 == channel

abbrev pub is_ready : Option (Queue ℕ) → ℕ → Node → Bool
is_ready none channel node = false
is_ready (some q) channel node = if count q == 0 then false else heads (get q 0) channel node

-- `hf_queue_remhead` after the wait: the packet, those that have not arrived, and the node.
pub took : ℕ → List (ℕ → ℕ) → Option ℕ × Queue ℕ → Node → Option (ℕ × List (ℕ → ℕ) × Node)
took id arrivals (none, q) node = none
took id arrivals (some b, q) node =
    some (b, arrivals, record node { queues = update node.queues id (some q) })

pub taken : ℕ → List (ℕ → ℕ) → Option (Queue ℕ) → Node → Option (ℕ × List (ℕ → ℕ) × Node)
taken id arrivals none node = none
taken id arrivals (some q) node = took id arrivals (remhead q) node

-- `while (1)` until a packet is there. The interrupts that come meanwhile are a list.
pub wait : List (ℕ → ℕ) → ℕ → ℕ → Node → Option (ℕ × List (ℕ → ℕ) × Node)
wait [] id channel node =
    if is_ready (node.queues id) channel node then taken id [] (node.queues id) node else none
wait (reads ∷ arrivals) id channel node =
    let later = ni_isr reads node >>= λ after. wait arrivals id channel after in
    if is_ready (node.queues id) channel node
    then taken id (reads ∷ arrivals) (node.queues id) node
    else later

-- The bytes of the flits from `i` on, `n` of them, to `buf + p`.
pub unpack : ℕ → (ℕ → ℕ) → ℕ → ℕ → Memory → Memory
unpack zero flits i at m = m
unpack (suc n) flits i at m =
    unpack n flits (i + 1) (at + 2)
      (write (at + 1) (flits i % 2 ^ 8) (write at (flits i / 2 ^ 8) m))

-- `i < NOC_PACKET_SIZE && p < *size`.
pub unpack_last : ℕ → (ℕ → ℕ) → ℕ → ℕ → ℕ → ℕ → Memory → Memory
unpack_last zero flits i buf p size m = m
unpack_last (suc n) flits i buf p size m =
    if ltb p size
    then unpack_last n flits (i + 1) buf (p + 2) size
        (write (buf + p + 1) (flits i % 2 ^ 8) (write (buf + p) (flits i / 2 ^ 8) m))
    else m

-- `hf_queue_addtail(pktdrv_queue, buf_ptr)`.
abbrev pub release : ℕ → Node → Node
release b node = record node { pool = (addtail node.pool (some b)).1 }

-- `if (buf_ptr[PKT_SEQ] != seq++) error = ERR_SEQ_ERROR;`
abbrev pub checked : ℕ → ℕ → Outcome → Outcome
checked found seq error = if found == seq then error else seq_error

-- The packet `b` and `left` more: the result, the buffer and the node.
pub receive :
    ℕ
    → ℕ
    → ℕ
    → Outcome
    → ℕ
    → ℕ
    → ℕ
    → Memory
    → List (ℕ → ℕ)
    → ℕ
    → ℕ
    → Node
    → Option (Outcome × Memory × Node)
receive zero b seq error buf p size m arrivals id channel node = some (
  checked (node.buffers b 6) seq error,
  unpack_last (node.packet_size - header_size) (node.buffers b) header_size buf p size m,
  release b node,
)
receive (suc left) b seq error buf p size m arrivals id channel node = do
  (b', arrivals', node') ← wait arrivals id channel (release b node)
  receive left b' ((seq + 1) % 2 ^ 16) (checked (node.buffers b 6) seq error) buf
      (p + payload_bytes node) size
      (unpack (node.packet_size - header_size) (node.buffers b) header_size (buf + p) m) arrivals'
      id channel node'

-- What `hf_recv` gives: its result, the sender, the size, the buffer and the node.
pub record Received : Type 0 where
  pub error : Outcome
  pub source_cpu : ℕ
  pub source_port : ℕ
  pub size : ℕ
  pub buffer : Memory
  pub node : Node

abbrev pub received_of : ℕ → Node → Outcome × Memory × Node → Received
received_of b node (error, m, after) = record {
  error = error;
  source_cpu = node.buffers b 2;
  source_port = node.buffers b 3;
  size = node.buffers b 5;
  buffer = m;
  node = after;
}

-- `hf_recv` of the task `id`, which has a queue: the first packet tells how many follow.
pub receive_message : List (ℕ → ℕ) → ℕ → ℕ → Memory → ℕ → Node → Option Received
receive_message arrivals id buf m channel node = do
  (b, later, ready) ← wait arrivals id channel node
  result ←
      receive (packets_of (ready.buffers b 5) ready - 1) b (ready.buffers b 6) ok buf 0
        (ready.buffers b 5) m later id channel ready
  some (received_of b ready result)

-- `hf_recv` of the task `id`: `some none` is ERR_COMM_UNFEASIBLE, for a task without a queue.
pub recv : List (ℕ → ℕ) → ℕ → ℕ → Memory → ℕ → Node → Option (Option Received)
recv arrivals id buf m channel node =
    if is_null (node.queues id)
    then some none
    else receive_message arrivals id buf m channel node >>= λ received. some (some received)

-- "ok" with its end.
abbrev pub ok_text : Memory
ok_text i = get_or (111 ∷ 107 ∷ []) i 0

abbrev pub is_ok : Outcome → Bool
is_ok ok = true
is_ok _ = false

-- The acknowledgement that `hf_recvack` sends on the channel 65535.
pub acknowledge : ℕ → Option Received → Option Received × List (ℕ → ℕ)
acknowledge id none = (none, [])
acknowledge id (some r) = (
  some r,
  if is_ok r.error then (send r.node id r.source_cpu r.source_port ok_text 0 3 0xffff).1 else [],
)

-- `hf_recvack`: what `hf_recv` gives, and the packets sent.
pub recvack : List (ℕ → ℕ) → ℕ → ℕ → Memory → ℕ → Node → Option (Option Received × List (ℕ → ℕ))
recvack arrivals id buf m channel node = do
  result ← recv arrivals id buf m channel node
  some (acknowledge id result)
