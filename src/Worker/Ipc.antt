-- ===== src/Worker/Ipc.antt =====
-- The queue between a worker and its manager: worker_queue_stat.h, worker_queue.c, worker_vqueue.c
-- and worker_pqueue.c of src/worker/ipc. The kernel's queues are not part of the program: what a
-- call of theirs returns is an argument.
use Prim.Native.Nat.{bit_and, bit_or}
use mathlib.Core.Option.{get_or}
use msg_perf_tool.Base.{
  ℕ, ltb, ◌==◌, if◌then◌else◌, not, Bool, true, false, Bytes, overlay, take, replicate,
}

-- `worker_queue_stat_t`
abbrev pub wq_error : ℕ
wq_error = 0

abbrev pub wq_success : ℕ
wq_success = 1

abbrev pub wq_no_data : ℕ
wq_no_data = 2

unfoldable pub wq_stat_success : ℕ → Bool
wq_stat_success stat = not (bit_and stat wq_success == 0)

unfoldable pub wq_stat_error : ℕ → Bool
wq_stat_error stat = bit_and stat wq_success == 0

unfoldable pub wq_has_data : ℕ → Bool
wq_has_data stat = bit_and stat wq_no_data == 0

-- What `msgrcv` or `mq_receive` returns: a message, nothing to read, or another error.
pub data Received : Type 0 where
  message : Bytes → Received
  nothing : Received
  broken : Received

-- `struct worker_queue_t_` by its type. The pointer to a System V queue may be null.
pub data Queue : Type 0 where
  sysv : Bool → Queue
  posix : Queue

-- `mtext` of a zeroed buffer of `room` bytes after a message was received into it.
abbrev pub text_of : ℕ → Bytes → Bytes
text_of room bs = get_or (overlay bs (replicate room 0)) bs

module _ (room : ℕ) where
  -- `worker_vqueue_read`: `room` is the size of a snapshot, `len` that of `dest`.
  unfoldable pub vqueue_read : Bool → ℕ → Received → Bytes → ℕ × Bytes
  vqueue_read false len r dest = (wq_error, dest)
  vqueue_read true len r dest =
      let copied : ℕ × Bytes = elim r [
        | message bs ↦ (wq_success, take len (text_of room bs))
        | nothing ↦ (bit_or wq_success wq_no_data, dest)
        | broken ↦ (wq_error, dest)
      ] in
      if ltb room len then (wq_error, dest) else copied

  -- `worker_pqueue_read`
  unfoldable pub pqueue_read : Received → Bytes → ℕ × Bytes
  pqueue_read (message bs) dest = (wq_success, get_or (overlay bs dest) dest)
  pqueue_read nothing dest = (bit_or wq_success wq_no_data, dest)
  pqueue_read broken dest = (wq_error, dest)

  -- `worker_queue_read`
  unfoldable pub queue_read : Queue → ℕ → Received → Bytes → ℕ × Bytes
  unfolding vqueue_read pqueue_read
  queue_read (sysv there) len r dest = vqueue_read there len r dest
  queue_read posix len r dest = pqueue_read r dest

-- `worker_vqueue_write`, `worker_pqueue_write` and `worker_queue_write`, given whether the kernel
-- takes the message.
unfoldable pub queue_write : Queue → Bool → ℕ
queue_write q true = wq_success
queue_write q false = wq_error
