-- ===== src/Noc/Message/Transfer.antt =====
-- A message from `hf_send` to `hf_recv`.
use t1_sistemas_embarcados.Prelude.{
  ℕ, zero, suc, ◌+◌, ◌-◌, ◌*◌, ◌/◌, ◌%◌, ◌^◌, ◌≤◌, ◌<◌, ◌≡◌, refl, ap, ap₂, sym, ◌∙◌, true, some,
  List, [], ◌∷◌, ltb, ◌==◌, if◌then◌else◌, Bool-cases, inl, inr, arith,
}
use mathlib.Core.Path.{subst}
use t1_sistemas_embarcados.Libc.Memory.{Memory}
use t1_sistemas_embarcados.Queue.{Queue}
use t1_sistemas_embarcados.Noc.{Node, ok, header_size}
use t1_sistemas_embarcados.Noc.Message.{
  payload_bytes, packets_of, header, packet, last_packet, send_packets, send, unpack, unpack_last,
  release, checked, receive, Received, received_of, receive_message, recv,
}
use t1_sistemas_embarcados.Noc.Message.Bytes.{
  byte_of, unpack_before, unpack_inside, unpack_last_before, unpack_last_inside, IsPlain,
  byte_of-packet, byte_of-last_packet,
}
use t1_sistemas_embarcados.Noc.Message.Counts.{mul_step, packets_cover}
use t1_sistemas_embarcados.Noc.Message.Arrival.{
  Awaits, consumed, consumed_lem, wait_lem, release-Awaits,
}

-- The interface of the receiver gives the flits of the packets, in order, each behind one more read.
unfoldable pub Carries : ℕ → List (ℕ → ℕ) → List (ℕ → ℕ) → Type 0
Carries size [] arrivals = Unit
Carries size (p ∷ packets) [] = ⊥
Carries size (p ∷ packets) (reads ∷ arrivals) =
    ((i : ℕ) → i < size → reads (i + 1) ≡ p i) × Carries size packets arrivals

byte_of_cong :
    (f g : ℕ → ℕ) (i k : ℕ) → f (i + k / 2) ≡ g (i + k / 2) → byte_of f i k ≡ byte_of g i k
byte_of_cong f g i k e = rw e refl

-- The task `id` on the node `a` sends the bytes of `text` from `src` on.
module _ (a : Node) (sender target port channel size : ℕ) (text : Memory) (src : ℕ) where
  abbrev head : ℕ → List ℕ
  head = header a sender target port size channel

  -- The packet before which `left` more follow, and those.
  abbrev current : ℕ → ℕ → ℕ → ℕ → ℕ
  current zero seq p = last_packet a (head seq) text src p size
  current (suc left) seq p = packet a (head seq) text src p

  abbrev following : ℕ → ℕ → ℕ → List (ℕ → ℕ)
  following zero seq p = []
  following (suc left) seq p =
      send_packets left a head text src (p + payload_bytes a) size (seq + 1)

  send_packets-current :
      (left seq p : ℕ)
      → send_packets left a head text src p size seq ≡ current left seq p ∷ following left seq p
  unfolding send_packets
  send_packets-current zero seq p = refl
  send_packets-current (suc left) seq p = refl

  -- `left` packets and one more hold the bytes from `p` on.
  abbrev Covers : ℕ → ℕ → Type 0
  Covers zero p = size ≤ p + payload_bytes a
  Covers (suc left) p = Covers left (p + payload_bytes a)

  -- What is left of the message goes to the buffer, whatever else has been in it.
  abbrev Fills : ℕ → ℕ → Memory → Memory → Type 0
  Fills buf p m m' =
      ((k : ℕ) → k < p → m' (buf + k) ≡ m (buf + k))
      × ((k : ℕ) → p ≤ k → k < size → m' (buf + k) ≡ text (src + k))

  current_flags :
      (left seq p : ℕ)
      → (current left seq p 1 ≡ a.packet_size - 2)
        × (current left seq p 4 ≡ port)
        × (current left seq p 7 ≡ channel)
        × (current left seq p 6 ≡ seq)
        × (current left seq p 5 ≡ size)
        × (current left seq p 2 ≡ a.cpu_id)
        × (current left seq p 3 ≡ a.ports sender)
  current_flags zero seq p = (refl, refl, refl, refl, refl, refl, refl)
  current_flags (suc left) seq p = (refl, refl, refl, refl, refl, refl, refl)

  unpack-Fills :
      (b buf p : ℕ) (m : Memory) (node : Node) (seq : ℕ)
      → IsPlain a.char_signed text src
      → p % 2 ≡ 0
      → node.packet_size ≡ a.packet_size
      → ((i : ℕ) → i < a.packet_size → node.buffers b i ≡ packet a (head seq) text src p i)
      → (k : ℕ) → k < payload_bytes a
      → unpack
          (node.packet_size - header_size)
          (node.buffers b)
          header_size
          (buf + p)
          m
          (buf + p + k)
        ≡ text (src + (p + k))
  unpack-Fills b buf p m node seq plain even e flits k l =
      unpack_inside (node.packet_size - header_size) (node.buffers b) header_size (buf + p) m k
        (omega arith)
      ∙ byte_of_cong (node.buffers b) (packet a (head seq) text src p) header_size k
          (flits (header_size + k / 2) (omega arith))
      ∙ byte_of-packet a (head seq) text src p k plain even

  unpack_last-Fills :
      (b buf p : ℕ) (m : Memory) (node : Node) (seq : ℕ)
      → IsPlain a.char_signed text src
      → p % 2 ≡ 0
      → node.packet_size ≡ a.packet_size
      → ((i : ℕ)
          → i < a.packet_size
          → node.buffers b i ≡ last_packet a (head seq) text src p size i)
      → (k : ℕ) → k < payload_bytes a
      → p + k < size
      → unpack_last
          (node.packet_size - header_size)
          (node.buffers b)
          header_size
          buf
          p
          size
          m
          (buf + p + k)
        ≡ text (src + (p + k))
  unpack_last-Fills b buf p m node seq plain even e flits k l inside =
      unpack_last_inside (node.packet_size - header_size) (node.buffers b) header_size buf p size m
        k (omega arith) inside
      ∙ byte_of_cong (node.buffers b) (last_packet a (head seq) text src p size) header_size k
          (flits (header_size + k / 2) (omega arith))
      ∙ byte_of-last_packet a (head seq) text src p size k inside
      ∙ byte_of-packet a (head seq) text src p k plain even

  checked_lem :
      (left b seq p : ℕ) (node : Node)
      → 8 ≤ a.packet_size
      → ((i : ℕ) → i < a.packet_size → node.buffers b i ≡ current left seq p i)
      → checked (node.buffers b 6) seq ok ≡ ok
  checked_lem left b seq p node large flits =
      let found : (node.buffers b 6 == seq) ≡ true =
        ground (arith, flits 6 (omega arith), (current_flags left seq p).3) in
      rw found refl

  receive_lem :
      (left b seq p buf : ℕ) (m : Memory) (arrivals : List (ℕ → ℕ)) (id : ℕ) (node : Node)
      (n room : ℕ) (own : Queue ℕ) (first : ℕ) (others : List ℕ)
      → IsPlain a.char_signed text src
      → 8 ≤ a.packet_size
      → p % 2 ≡ 0
      → seq + left < 2 ^ 16
      → Covers left p
      → node.packet_size ≡ a.packet_size
      → ((i : ℕ) → i < a.packet_size → node.buffers b i ≡ current left seq p i)
      → Awaits (release b node) id port n room own first others
      → Carries a.packet_size (following left seq p) arrivals
      → (m' : Memory) × (node' : Node) × (receive left b seq ok buf p size m arrivals id channel
            node
          ≡ some (ok, m', node'))
        × Fills buf p m m'
  unfolding receive Carries
  receive_lem zero b seq p buf m arrivals id node n room own first others plain large even small
        covers e flits aw w =
      (
        unpack_last (node.packet_size - header_size) (node.buffers b) header_size buf p size m,
        release b node,
        rw (checked_lem zero b seq p node large flits) refl,
        (
          λ k l.
              unpack_last_before (node.packet_size - header_size) (node.buffers b) header_size buf p
                size m (buf + k) (omega arith),
          λ k from l.
              let place : buf + k ≡ buf + p + (k - p) = omega arith in
              let position : p + (k - p) ≡ k = omega arith in
              ap
                (unpack_last (node.packet_size - header_size) (node.buffers b) header_size buf p
                  size m)
                place
              ∙ unpack_last-Fills b buf p m node seq plain even e flits (k - p) (omega arith)
                  (omega arith)
              ∙ ap (λ q. text (src + q)) position,
        ),
      )
  receive_lem (suc left) b seq p buf m [] id node n room own first others plain large even small
        covers e flits aw w =
      absurd (
        subst (λ l. Carries a.packet_size l [])
          (send_packets-current left (seq + 1) (p + payload_bytes a)) w)
  receive_lem (suc left) b seq p buf m (reads ∷ arrivals) id node n room own first others plain
        large even small covers e flits aw w =
      let seq' = seq + 1 in
      let p' = p + payload_bytes a in
      let (read, later) =
        subst (λ l. Carries a.packet_size l (reads ∷ arrivals)) (send_packets-current left seq' p')
          w in
      let flags = current_flags left seq' p' in
      let waits =
        wait_lem reads arrivals (release b node) id port channel n room own first others aw
          (read 1 (omega arith) ∙ flags.0 ∙ ap (λ s. s - 2) (sym e))
          (read 4 (omega arith) ∙ flags.1) (read 7 (omega arith) ∙ flags.2) in
      let next = consumed reads id first own (release b node) in
      let (own', first', others', aw') =
        release-Awaits reads (release b node) id port n room own first others aw in
      let m₁ = unpack (node.packet_size - header_size) (node.buffers b) header_size (buf + p) m in
      let flits' : (i : ℕ) → i < a.packet_size → next.buffers first i ≡ current left seq' p' i =
        λ i l. consumed_lem reads id first own (release b node) i (inr (omega arith)) ∙ read i l in
      let (m', node', result, (before, inside)) =
        receive_lem left first seq' p' buf m₁ arrivals id next n room own' first' others' plain
          large (omega arith) (omega arith) covers e flits' aw' later in
      let wrapped : (seq + 1) % 2 ^ 16 ≡ seq + 1 = omega arith in
      let payload : payload_bytes node ≡ payload_bytes a = ap (λ s. (s - header_size) * 2) e in
      let ends = checked_lem (suc left) b seq p node large flits in
      (
        m',
        node',
        rw (waits, ends, wrapped, payload) result,
        (
          λ k l.
              before k (omega arith)
              ∙ unpack_before (node.packet_size - header_size) (node.buffers b) header_size
                  (buf + p) m (buf + k) (omega arith),
          λ k from l. elim (Bool-cases (ltb k p')) [
            | inl y ↦
                let place : buf + k ≡ buf + p + (k - p) = omega arith in
                let position : p + (k - p) ≡ k = omega arith in
                before k (ground arith)
                ∙ ap m₁ place
                ∙ unpack-Fills b buf p m node seq plain even e flits (k - p) (ground arith)
                ∙ ap (λ q. text (src + q)) position
            | inr y ↦ inside k (ground arith) l
          ],
        ),
      )

  Covers_lem : (left p : ℕ) → size ≤ p + (left + 1) * payload_bytes a → Covers left p
  Covers_lem zero p h = omega arith
  Covers_lem (suc left) p h =
      Covers_lem left (p + payload_bytes a) (omega (arith, mul_step left (payload_bytes a) p))

  sent :
      (queue : Queue ℕ)
      → a.queues sender ≡ some queue
      → (send a sender target port text src size channel).1
        ≡ current (packets_of size a - 1) 1 0 ∷ following (packets_of size a - 1) 1 0
  unfolding send
  sent queue opened = rw opened (send_packets-current (packets_of size a - 1) 1 0)

  -- A message whose flits carry its bytes is received as it was sent: its size, its sender and its bytes, without an
  -- error, where its packets arrive in order while the task waits with an empty queue and the pool has a packet.
  pub recv-send :
      (queue : Queue ℕ) (node : Node) (id buf : ℕ) (m : Memory) (arrivals : List (ℕ → ℕ))
      (n room : ℕ) (own : Queue ℕ) (first : ℕ) (others : List ℕ)
      → a.queues sender ≡ some queue
      → IsPlain a.char_signed text src
      → header_size < a.packet_size
      → size < 2 ^ 16
      → node.packet_size ≡ a.packet_size
      → Awaits node id port n room own first others
      → Carries a.packet_size (send a sender target port text src size channel).1 arrivals
      → (received : Received) × (recv arrivals id buf m channel node ≡ some (some received))
        × (received.error ≡ ok)
        × (received.size ≡ size)
        × (received.source_cpu ≡ a.cpu_id)
        × (received.source_port ≡ a.ports sender)
        × ((k : ℕ) → k < size → received.buffer (buf + k) ≡ text (src + k))
  unfolding recv receive_message Carries
  recv-send queue node id buf m [] n room own first others opened plain large small e aw w =
      absurd (subst (λ l. Carries a.packet_size l []) (sent queue opened) w)
  recv-send queue node id buf m (reads ∷ arrivals) n room own first others opened plain large small
        e aw w =
      let left = packets_of size a - 1 in
      let (read, later) =
        subst (λ l. Carries a.packet_size l (reads ∷ arrivals)) (sent queue opened) w in
      let flags = current_flags left 1 0 in
      let waits =
        wait_lem reads arrivals node id port channel n room own first others aw
          (read 1 (omega arith) ∙ flags.0 ∙ ap (λ s. s - 2) (sym e))
          (read 4 (omega arith) ∙ flags.1) (read 7 (omega arith) ∙ flags.2) in
      let next = consumed reads id first own node in
      let (own', first', others', aw') =
        release-Awaits reads node id port n room own first others aw in
      let flits : (i : ℕ) → i < a.packet_size → next.buffers first i ≡ current left 1 0 i =
        λ i l. consumed_lem reads id first own node i (inr (omega arith)) ∙ read i l in
      let (covers, counted) = packets_cover size (payload_bytes a) (omega arith) small in
      let (m', node', result, (before, inside)) =
        receive_lem left first 1 0 buf m arrivals id next n room own' first' others' plain
          (omega arith) refl counted (Covers_lem left 0 covers) e flits aw' later in
      let size_at : next.buffers first 5 ≡ size = flits 5 (omega arith) ∙ flags.4 in
      let seq_at : next.buffers first 6 ≡ 1 = flits 6 (omega arith) ∙ flags.3 in
      let packets : packets_of size next ≡ packets_of size a =
        ap
          (λ s.
            if size % ((s - header_size) * 2) == 0
            then size / ((s - header_size) * 2)
            else size / ((s - header_size) * 2) + 1)
          e in
      let whole =
        ap₂ (λ s q. receive (packets_of s next - 1) first q ok buf 0 s m arrivals id channel next)
          size_at seq_at
        ∙ ap (λ c. receive (c - 1) first 1 ok buf 0 size m arrivals id channel next) packets
        ∙ result in
      (
        received_of first next (ok, m', node'),
        rw (aw.own_at, waits, whole) refl,
        refl,
        size_at,
        flits 2 (omega arith) ∙ flags.5,
        flits 3 (omega arith) ∙ flags.6,
        λ k l. inside k (omega arith) l,
      )
