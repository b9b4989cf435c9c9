-- ===== src/Noc/Message/Arrival.antt =====
-- A packet that arrives while the task waits.
use t1_sistemas_embarcados.Prelude.{
  ℕ, ◌+◌, ◌-◌, ◌<◌, ◌≡◌, refl, ap, ◌∙◌, ◌⊎◌, true, false, not, ◌&&◌, some, List, [], ◌∷◌, ◌++◌, map,
  ltb, ◌==◌, arith, length,
}
use mathlib.Core.Path.{subst}
use t1_sistemas_embarcados.Queue.{Queue, done, addtail, remhead}
use t1_sistemas_embarcados.Queue.Refine.{
  Holds, count-Holds, addtail-done, get-get_or, remhead-cons, length-le,
}
use t1_sistemas_embarcados.Noc.{
  Node, header_size, update, port_of, filled, enqueue, enqueued, accept, ni_isr,
}
use t1_sistemas_embarcados.Noc.Message.{is_ready, took, taken, wait, release}

-- The pool has the packets `b` and `bs`, and the task has an empty queue on its port.
pub record Awaits (node : Node) (id port n m : ℕ) (own : Queue ℕ) (b : ℕ) (bs : List ℕ)
    : Type 0 where
  pub pool : Holds node.pool n (map some (b ∷ bs))
  pub own_at : node.queues id ≡ some own
  pub own_empty : Holds own m []
  pub room : 0 < m
  pub nonzero : 0 < id
  pub below : id < node.max_tasks
  pub task : node.has_task id ≡ true
  pub port_at : port_of node.max_tasks 0 port node.ports ≡ id

wait_ready :
    (arrivals : List (ℕ → ℕ)) (id channel : ℕ) (node : Node)
    → is_ready (node.queues id) channel node ≡ true
    → wait arrivals id channel node ≡ taken id arrivals (node.queues id) node
unfolding wait
wait_ready [] id channel node h = rw h refl
wait_ready (reads ∷ arrivals) id channel node h = rw h refl

-- The node after the interrupt, and after the packet has been taken.
abbrev pub arrived : (ℕ → ℕ) → ℕ → ℕ → Queue ℕ → Node → Node
arrived reads id b own node = record node {
  pool = (remhead node.pool).1;
  buffers = update node.buffers b (filled reads node.packet_size (node.buffers b));
  queues = update node.queues id (some (addtail own (some b)).1);
}

ni_isr_lem :
    (reads : ℕ → ℕ) (node : Node) (id port n m : ℕ) (own : Queue ℕ) (b : ℕ) (bs : List ℕ)
    → Awaits node id port n m own b bs
    → reads 2 ≡ node.packet_size - 2
    → reads 5 ≡ port
    → ni_isr reads node ≡ some (arrived reads id b own node)
unfolding ni_isr accept enqueue enqueued
ni_isr_lem reads node id port n m own b bs a size target =
    let ours : port_of node.max_tasks 0 (reads 5) node.ports ≡ id =
      ap (λ p. port_of node.max_tasks 0 p node.ports) target ∙ a.port_at in
    let fits : (reads 2 == node.packet_size - 2) ≡ true = ground arith in
    let valid : (not (id == 0) && ltb id node.max_tasks && node.has_task id) ≡ true =
      ground (arith, a) in
    let (got, rest) = remhead-cons a.pool in
    let (kept, queued) = addtail-done a.own_empty (some b) a.room in
    let pair : addtail own (some b) ≡ (done, (addtail own (some b)).1) =
      ap (λ s. (s, (addtail own (some b)).1)) kept in
    let head : remhead node.pool ≡ (some b, (remhead node.pool).1) =
      ap (λ o. (o, (remhead node.pool).1)) got in
    let own_at = a.own_at in rw (fits, ours, valid, head, own_at, pair) refl

update_same : {A : Type 0} (f : ℕ → A) (i : ℕ) (v : A) → update f i v i ≡ v
update_same f i v = ground arith

-- The node after the packet has been taken.
abbrev pub consumed : (ℕ → ℕ) → ℕ → ℕ → Queue ℕ → Node → Node
consumed reads id b own node =
    let after = arrived reads id b own node in
    record after { queues = update after.queues id (some (remhead (addtail own (some b)).1).1) }

-- The packet's flits are in the buffer.
pub consumed_lem :
    (reads : ℕ → ℕ) (id b : ℕ) (own : Queue ℕ) (node : Node) (i : ℕ)
    → i < header_size ⊎ i < node.packet_size
    → (consumed reads id b own node).buffers b i ≡ reads (i + 1)
consumed_lem reads id b own node i h = ground arith

pub wait_lem :
    (reads : ℕ → ℕ) (arrivals : List (ℕ → ℕ)) (node : Node) (id port channel n m : ℕ)
    (own : Queue ℕ) (b : ℕ) (bs : List ℕ)
    → Awaits node id port n m own b bs
    → reads 2 ≡ node.packet_size - 2
    → reads 5 ≡ port
    → reads 8 ≡ channel
    → wait (reads ∷ arrivals) id channel node ≡ some (b, arrivals, consumed reads id b own node)
unfolding wait taken took
wait_lem reads arrivals node id port channel n m own b bs a size target on_channel =
    let not_yet : is_ready (node.queues id) channel node ≡ false =
      rw (a.own_at, count-Holds a.own_empty) refl in
    let comes = ni_isr_lem reads node id port n m own b bs a size target in
    let after = arrived reads id b own node in
    let queued = (addtail-done a.own_empty (some b) a.room).1 in
    let (got, left) = remhead-cons queued in
    let own_at : after.queues id ≡ some (addtail own (some b)).1 =
      update_same node.queues id (some (addtail own (some b)).1) in
    let flit_at : (after.buffers b 7 == channel) ≡ true = ground arith in
    let ready : is_ready (after.queues id) channel after ≡ true =
      rw (own_at, count-Holds queued, get-get_or queued 0) flit_at in
    let pair : remhead (addtail own (some b)).1 ≡ (some b, (remhead (addtail own (some b)).1).1) =
      ap (λ o. (o, (remhead (addtail own (some b)).1).1)) got in
    rw (not_yet, comes)
      (wait_ready arrivals id channel after ready
        ∙ ap (λ q. taken id arrivals q after) own_at
        ∙ ap (λ r. took id arrivals r after) pair)

-- Once the packet is back in the pool the task waits as before.
pub release-Awaits :
    (reads : ℕ → ℕ) (node : Node) (id port n m : ℕ) (own : Queue ℕ) (b : ℕ) (bs : List ℕ)
    → Awaits node id port n m own b bs
    → (own' : Queue ℕ) × (b' : ℕ) × (bs' : List ℕ) × Awaits
        (release b (consumed reads id b own node))
        id
        port
        n
        m
        own'
        b'
        bs'
release-Awaits reads node id port n m own b bs a =
    let after = consumed reads id b own node in
    let queued = (addtail-done a.own_empty (some b) a.room).1 in
    let (got, empty) = remhead-cons queued in
    let (first, rest) = remhead-cons a.pool in
    let full : length (map some bs) < n = omega (arith, length-le a.pool) in
    let back = (addtail-done rest (some b) full).1 in
    let (b', bs', turned) = rotated b bs in
    (
      (remhead (addtail own (some b)).1).1,
      b',
      bs',
      record {
        pool = subst (λ xs. Holds (addtail (remhead node.pool).1 (some b)).1 n xs) turned back;
        own_at =
            update_same (arrived reads id b own node).queues id
              (some (remhead (addtail own (some b)).1).1);
        own_empty = empty;
        room = a.room;
        nonzero = a.nonzero;
        below = a.below;
        task = a.task;
        port_at = a.port_at;
      },
    )
  where
    rotated :
        (b : ℕ) (bs : List ℕ)
        → (b' : ℕ) × (bs' : List ℕ) × ((map some bs ++ (some b ∷ [])) ≡ map some (b' ∷ bs'))
    rotated b [] = (b, [], refl)
    rotated b (c ∷ cs) = (c, cs ++ (b ∷ []), ap (λ t. some c ∷ t) (appended cs b))
      where
        appended : (cs : List ℕ) (b : ℕ) → map some cs ++ (some b ∷ []) ≡ map some (cs ++ (b ∷ []))
        appended [] b = refl
        appended (c ∷ cs) b = ap (λ t. some c ∷ t) (appended cs b)
