-- ===== src/Lib.antt =====
-- HellfireOS, a preemptive real-time kernel in C (hellfireos/sys): tasks in a table of MAX_TASKS
-- entries, queues of pointers to them, schedulers for best effort and real-time tasks, and
-- semaphores, mutexes and condition variables. Every system call turns interrupts off for its body, so each is one atomic step here.
--
-- - Queue: sys/lib/queue.c. `Queue` is `struct queue` with its array; the operations are functions of
--   it, named after `hf_queue_create` and the others without their prefix. The heap is an `Allocator`,
--   an interface of malloc and free. Refine and Spec state that the array stands for a bounded list.
-- - Kernel: sys/include/kernel.h, ecodes.h and panic.h. `Tcb` is a task's entry, `Kernel` the globals,
--   with the index of an entry for its address. A `Cmd` is code over the globals; it ends with a
--   value, or in a panic, in the use of a NULL pointer, or out of fuel. Steps has the moves between
--   queues that all components use, View and Places what they do to the lists of tasks.
-- - Sched: sys/kernel/scheduler.c: `process_delay_queue`, the turning of queues, `sched_rr`,
--   `sched_lottery`, `sched_priorityrr`, `sched_rma`, and the dispatchers, which take the two
--   schedulers as arguments (`krnl_pcb.sched_rt` and `sched_be`).
-- - Task: sys/kernel/task.c: the queries, `hf_block` and `hf_resume`, `hf_spawn` (Create), `hf_delay`
--   and `hf_kill` (Remove), `hf_yield` (Yield).
-- - Semaphore: sys/sync/semaphore.c. A blocking wait ends where the code calls `hf_yield`.
-- - Mutex, Condvar: sys/sync/mutex.c, the spinlock, and sys/sync/condvar.c. `World` in Mutex.Exclusion
--   holds the mutex and the tasks between lock and unlock; a step is one test of the lock.
-- - Processor: sys/kernel/processor.c.
-- - Malloc: sys/lib/malloc.c with MEM_ALLOC 3. Layout states that blocks tile the heap, Rounds and
--   Search follow the search of `hf_malloc`, Requests has the call as a whole.
-- - Lists: sys/lib/list.c on a store of nodes. Chains states that the nodes behind a head node hold a
--   list, Spec what each call does to it.
-- - Libc: lib/libc/libc.c: Multiply, Divide and Shift are the arithmetic in software, Memory the
--   blocks of bytes, Text the strings, Numbers their conversions. A pointer is an address in a
--   function from addresses to bytes; a loop over memory has the fuel of its caller.
-- - Crc: lib/misc/crc.c, with one step for every bit as in the code.
-- - Net: net/ustack. Address is the tests of ip.c on addresses, Arp arp.c, Netif eth_netif.c over
--   `en_ll_output` and `en_ll_input`, Ip and Receive the two directions of ip.c, Udp and Icmp udp.c
--   and icmp.c. A frame is a function from offsets to bytes. Delivery follows a datagram from one
--   node to another.
-- - Noc: drivers/noc/noc.c. `Node` is one core with its build constants; packets stand in buffers, the
--   queues hold pointers to them. Message cuts and joins messages, Arrival is an interrupt while a task
--   waits, Transfer follows a message from one core to another.
-- - Tests: the theorems applied to a small system.
--
-- A field of w bits wraps at 2 ^ w. A queue has at most 2 ^ 30 cells, so that no sum
-- of indexes overflows an `int32_t`. The
-- loops of `sched_rr` and `sched_lottery`, which the code does not bound, run on fuel: for round
-- robin, one round for each blocked task at the head of the run queue and one more is enough. So
-- does that of `hf_condbroadcast`: one round for each waiting task and one more. The loops of the
-- 32-bit routines of Libc have 33 rounds, those of the 64-bit routines 64 and 65, which the
-- theorems show to be enough; fuel above the length of a text, of a list or of the blocks of the
-- heap is enough for those on it. Three rounds are enough to fold a checksum, and more rounds than
-- half the length to add up a datagram. `hf_recv` waits as long as there are interrupts to come. The other loops are counted.
--
-- Not modelled: negative positions in the calls on queues; the saved contexts, but for which entries
-- `hf_kill` writes, and what runs after a switch, the hardware, the output of
-- kprintf and printf, which are outside of what a function of the state can say; and, so far, the
-- allocators that no platform chooses, the mutex by Peterson's algorithm, the start of the kernel and
-- of the network stack, the calls that return a task's name or find a task by it, the rest of the C
-- library (tokens, formats, floating point), the other drivers and the file system.
pub mod Prelude
pub mod Queue
pub mod Kernel
pub mod Sched
pub mod Semaphore
pub mod Mutex
pub mod Condvar
pub mod Processor
pub mod Task
pub mod Malloc
pub mod Lists
pub mod Libc
pub mod Crc
pub mod Net
pub mod Noc
pub mod Tests
