-- ===== src/Tests/OnNoc.antt =====
-- The driver of the network on chip with two nodes.
use t1_sistemas_embarcados.Prelude.{
  ℕ, ◌+◌, ◌-◌, ◌%◌, ◌^◌, ◌<◌, ◌≡◌, refl, ap, true, some, List, [], ◌∷◌, ◌==◌, if◌then◌else◌, arith,
}
use t1_sistemas_embarcados.Libc.Memory.{Memory}
use t1_sistemas_embarcados.Noc.{Node, ok, port_of}
use t1_sistemas_embarcados.Noc.Message.{
  header, packet, last_packet, send_packets, send, Received, recv,
}
use t1_sistemas_embarcados.Noc.Message.Bytes.{IsPlain}
use t1_sistemas_embarcados.Noc.Message.Arrival.{Awaits}
use t1_sistemas_embarcados.Noc.Message.Transfer.{Carries, recv-send}
use t1_sistemas_embarcados.Tests.{queue_of_two, queue_of_none, two-Holds, none-Tasks}

-- Task 2 has the port `port`.
abbrev node : ℕ → ℕ → Node
node cpu port = record {
  cpu_id = cpu;
  width = 3;
  packet_size = 10;
  slots = 4;
  max_tasks = 4;
  char_signed = true;
  has_task = λ k. true;
  ports = λ k. if k == 2 then port else 0;
  queues = λ k. some queue_of_none;
  pool = queue_of_two 0 1;
  buffers = λ b i. 0;
}

abbrev letters : Memory
letters x = x % 2 ^ 7

letters-IsPlain : IsPlain true letters 0
unfolding IsPlain
letters-IsPlain k = (omega arith, ground arith)

-- Six bytes in two packets.
abbrev six_bytes : List (ℕ → ℕ)
six_bytes =
    (λ i. packet (node 0 60) (header (node 0 60) 2 1 50 6 9 1) letters 0 0 (i - 1))
    ∷ (λ i. last_packet (node 0 60) (header (node 0 60) 2 1 50 6 9 2) letters 0 4 6 (i - 1))
    ∷ []

six_bytes-Carries : Carries 10 (send (node 0 60) 2 1 50 letters 0 6 9).1 six_bytes
unfolding Carries send send_packets
six_bytes-Carries =
    let before : (i : ℕ) → i + 1 - 1 ≡ i = λ i. omega arith in
    (
      λ i l. ap (packet (node 0 60) (header (node 0 60) 2 1 50 6 9 1) letters 0 0) (before i),
      (
        λ i l.
            ap (last_packet (node 0 60) (header (node 0 60) 2 1 50 6 9 2) letters 0 4 6) (before i),
        tt,
      ),
    )

receiver-Awaits : Awaits (node 1 50) 2 50 4 4 queue_of_none 0 (1 ∷ [])
unfolding port_of
receiver-Awaits = record {
  pool = two-Holds 0 1;
  own_at = refl;
  own_empty = none-Tasks.holds;
  room = omega arith;
  nonzero = omega arith;
  below = omega arith;
  task = refl;
  port_at = refl;
}

recv-send_example :
    (received : Received) × (recv six_bytes 2 1000 (λ x. 0) 9 (node 1 50) ≡ some (some received))
    × (received.error ≡ ok)
    × (received.size ≡ 6)
    × (received.source_cpu ≡ 0)
    × (received.source_port ≡ 60)
    × ((k : ℕ) → k < 6 → received.buffer (1000 + k) ≡ letters (0 + k))
recv-send_example =
    recv-send (node 0 60) 2 1 50 9 6 letters 0 queue_of_none (node 1 50) 2 1000 (λ x. 0) six_bytes 4
      4 queue_of_none 0 (1 ∷ []) refl letters-IsPlain (omega arith) (omega arith) refl
      receiver-Awaits six_bytes-Carries
