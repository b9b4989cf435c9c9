-- ===== src/Kernel/Steps.antt =====
-- The steps that task.c, scheduler.c and the synchronisation code share: moving the head of a queue,
-- placing a task, counted loops, and arithmetic on the fields' widths.
use t1_sistemas_embarcados.Prelude.{
  ℕ, zero, suc, ◌+◌, ◌-◌, ◌%◌, ◌^◌, Bool, true, false, Option, some,
}
use t1_sistemas_embarcados.Queue.{done, failed, addtail, remhead, count}
use t1_sistemas_embarcados.Kernel.{
  blocked, Tcb, Kernel, Cause, Cmd, pure, ◌>>◌, panic, QueueName, queue_of, with_queue,
}

-- `x + 1` and `x - 1` in a field of `w` bits.
abbrev pub inc : ℕ → ℕ → ℕ
inc w x = (x + 1) % 2 ^ w

abbrev pub dec : ℕ → ℕ → ℕ
dec w x = (x + 2 ^ w - 1) % 2 ^ w

abbrev pub is_blocked : Tcb → Bool
is_blocked t = elim t.state [ blocked ↦ true | _ ↦ false ]

-- `hf_queue_remhead` of a kernel queue.
unfoldable pub take_head : QueueName → Cmd (Option ℕ)
take_head n k = let (p, q) = remhead (queue_of n k) in pure p (with_queue n q k)

-- `if (hf_queue_addtail(queue, task)) panic(cause);`
unfoldable pub place : QueueName → Cause → ℕ → Cmd (Unit {0})
place n cause t k =
    let (s, q) = addtail (queue_of n k) (some t) in
    elim s [ done ↦ pure tt (with_queue n q k) | failed ↦ panic cause k ]

unfoldable pub count_of : QueueName → Kernel → ℕ
count_of n k = count (queue_of n k)

-- `for (i = 0; i < n; i++) body`, for a body that does not read `i`.
unfoldable pub times : ℕ → Cmd (Unit {0}) → Cmd (Unit {0})
times zero body = pure tt
times (suc n) body = do body; times n body
