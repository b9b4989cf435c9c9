-- ===== src/Noc.antt =====
-- hellfireos/drivers/noc/noc.c: messages between tasks on the cores of a network on chip. A pointer to a
-- packet is a number, and `buffers` has the flits of every packet; a queue of the kernel holds pointers.
-- What the network interface gives in an interrupt is a function from the number of a read to its value;
-- what is written to it is the list of packets. `none` is a use of a NULL pointer, or a wait for a packet
-- that does not come.
pub mod Message
use t1_sistemas_embarcados.Libc.{◌>>=◌}
use t1_sistemas_embarcados.Prelude.{
  ℕ, zero, suc, ◌+◌, ◌-◌, ◌*◌, ◌%◌, ◌^◌, Bool, true, false, not, ◌&&◌, ◌||◌, Option, none, some,
  ltb, ◌==◌, if◌then◌else◌,
}
use t1_sistemas_embarcados.Queue.{Queue, Status, done, failed, count, addtail, remhead}

-- The core, with the build's constants and whether its `char` is signed. `has_task k` is
-- `krnl_tcb[k].ptask != NULL`, `queues k` is `pktdrv_tqueue[k]`.
pub record Node : Type 0 where
  pub cpu_id : ℕ
  pub width : ℕ
  pub packet_size : ℕ
  pub slots : ℕ
  pub max_tasks : ℕ
  pub char_signed : Bool
  pub has_task : ℕ → Bool
  pub ports : ℕ → ℕ
  pub queues : ℕ → Option (Queue ℕ)
  pub pool : Queue ℕ
  pub buffers : ℕ → ℕ → ℕ

-- ERR_OK and the negative results of the driver.
pub data Outcome : Type 0 where
  ok invalid_id comm_unfeasible comm_error out_of_memory seq_error : Outcome

-- `PKT_HEADER_SIZE`.
abbrev pub header_size : ℕ
header_size = 8

-- `f[i] = v`.
abbrev pub update : {A : Type 0} → (ℕ → A) → ℕ → A → ℕ → A
update f i v j = if i == j then v else f j

-- `for (k = 0; k < MAX_TASKS; k++) if (pktdrv_ports[k] == port) break;`, `left` being MAX_TASKS - k.
unfoldable pub port_of : ℕ → ℕ → ℕ → (ℕ → ℕ) → ℕ
port_of zero k port ports = k
port_of (suc left) k port ports =
    let rest = port_of left (k + 1) port ports in if ports k == port then k else rest

-- A packet of the interface: the first read is dropped.
abbrev pub filled : (ℕ → ℕ) → ℕ → (ℕ → ℕ) → ℕ → ℕ
filled reads size old i = if ltb i header_size || ltb i size then reads (i + 1) else old i

-- The packet `b` after `hf_queue_addtail` to task `k`: back to the pool where the task's queue is full.
pub enqueued : ℕ → ℕ → Status × Queue ℕ → Node → Option Node
enqueued k b (done, q) node = some (record node { queues = update node.queues k (some q) })
enqueued k b (failed, q) node =
    some (record node {
      queues = update node.queues k (some q);
      pool = (addtail node.pool (some b)).1;
    })

pub enqueue : ℕ → ℕ → Option (Queue ℕ) → Node → Option Node
enqueue k b none node = none
enqueue k b (some q) node = enqueued k b (addtail q (some b)) node

-- An empty packet from the pool takes the flits; without one they are dropped.
pub accept : ℕ → (ℕ → ℕ) → Option ℕ × Queue ℕ → Node → Option Node
accept k reads (none, pool) node = some (record node { pool = pool })
accept k reads (some b, pool) node = enqueue k b (node.queues k) (record node {
  pool = pool;
  buffers = update node.buffers b (filled reads node.packet_size (node.buffers b));
})

-- `ni_isr`.
unfoldable pub ni_isr : (ℕ → ℕ) → Node → Option Node
ni_isr reads node =
    if not (reads 2 == node.packet_size - 2)
    then some node
    else let k = port_of node.max_tasks 0 (reads 5) node.ports in
      if not (k == 0) && ltb k node.max_tasks && node.has_task k
      then accept k reads (remhead node.pool) node
      else some node

-- The queue that `hf_comm_create` has made, or NULL.
pub attach : ℕ → ℕ → Option (Queue ℕ) → Node → Outcome × Node
attach id port none node = (out_of_memory, node)
attach id port (some q) node =
    (ok, record node { queues = update node.queues id (some q); ports = update node.ports id port })

abbrev pub is_null : Option (Queue ℕ) → Bool
is_null none = true
is_null (some q) = false

-- `hf_comm_create`, `make` being `hf_queue_create`.
pub comm_create : (ℕ → Option (Queue ℕ)) → ℕ → ℕ → ℕ → Node → Outcome × Node
comm_create make id port packets node =
    let k = port_of node.max_tasks 0 port node.ports in
    if not (ltb id node.max_tasks)
    then (invalid_id, node)
    else if not (node.has_task id)
    then (invalid_id, node)
    else if not (is_null (node.queues id))
    then (comm_unfeasible, node)
    else if (k == 0) || ltb k node.max_tasks
    then (comm_error, node)
    else attach id port
        (make (if ltb node.slots packets || packets == 0 then node.slots else packets)) node

-- `while (hf_queue_count(q)) hf_queue_addtail(pktdrv_queue, hf_queue_remhead(q));`, once for each element.
pub drain : ℕ → Queue ℕ → Queue ℕ → Queue ℕ × Queue ℕ
drain zero q pool = (q, pool)
drain (suc n) q pool = drain n (remhead q).1 (addtail pool (remhead q).0).1

-- `hf_comm_destroy` of the queue `q`, which stays in `pktdrv_tqueue` after `hf_queue_destroy` has freed it.
pub detach : ℕ → Option (Queue ℕ) → Node → Option (Outcome × Node)
detach id none node = none
detach id (some q) node =
    let (q', pool) = drain (count q) q node.pool in
    let drained : Node = record node { queues = update node.queues id (some q'); pool = pool } in
    if q'.head == q'.tail
    then some (ok, record drained { ports = update node.ports id 0 })
    else some (comm_error, drained)

-- `hf_comm_destroy`.
pub comm_destroy : ℕ → Node → Option (Outcome × Node)
comm_destroy id node =
    if ltb id node.max_tasks && node.has_task id
    then detach id (node.queues id) node
    else some (invalid_id, node)
