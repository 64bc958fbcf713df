-- ===== src/Worker/Snapshots.antt =====
-- The manager's copy of what a worker reports: `worker_info_t` of worker_types.h and
-- `worker_manager_update_snapshot` of worker_manager.c.
use Prim.Native.Nat.{bit_and}
use msg_perf_tool.Base.{
  ℕ, zero, suc, ◌==◌, if◌then◌else◌, not, Bool, Option, none, some, List, [], ◌∷◌, ◌++◌, Bytes,
}
use msg_perf_tool.Worker.Ipc.{Queue, Received, queue_read, wq_has_data}

-- `worker_flags_t`
abbrev pub flag_receiver : ℕ
flag_receiver = 1

abbrev pub flag_daemon : ℕ
flag_daemon = 4

abbrev pub has_flag : ℕ → ℕ → Bool
has_flag flags flag = not (bit_and flags flag == 0)

-- What the manager writes to its report, a whole snapshot standing for the members of it that the
-- writer takes. A failed write is only logged.
pub data Report : Type 0 where
  latency : Bytes → Report
  rate : Bytes → Report

-- `worker_info_t`: the process, the flags, the queue and the last snapshot, with the number of
-- reads so far, which tells which answer of the kernel comes next.
pub record WorkerInfo : Type 0 where
  pub child : ℕ
  pub flags : ℕ
  pub queue : Queue
  pub snapshot : Bytes
  pub reads : ℕ

-- The writes for one snapshot.
unfoldable pub reports_of : ℕ → Bytes → List Report
reports_of flags s =
    (if has_flag flags flag_receiver then latency s ∷ [] else [])
    ++ (if has_flag flags flag_daemon then rate s ∷ [] else [])

-- `size` is the size of a snapshot; `arrivals child k` is what the `k`-th read of the child's queue
-- gets from the kernel.
module _ (size : ℕ) (arrivals : ℕ → ℕ → Received) where
  -- One read of the queue into the snapshot.
  unfoldable pub read_next : WorkerInfo → ℕ × Bytes
  read_next w = queue_read size w.queue size (arrivals w.child w.reads) w.snapshot

  -- The loop of `worker_manager_update_snapshot`, on fuel; `none` is a run that has not ended.
  unfoldable pub update_snapshot : ℕ → WorkerInfo → Option (WorkerInfo × List Report)
  update_snapshot zero w = none
  update_snapshot (suc fuel) w =
      let (stat, s) = read_next w in
      let w' : WorkerInfo = record w { snapshot = s; reads = suc w.reads } in
      let rest = update_snapshot fuel w' in
      let written : Option (WorkerInfo × List Report) = elim rest [
        | none ↦ none
        | some (last, reports) ↦ some (last, reports_of w.flags s ++ reports)
      ] in
      if wq_has_data stat then written else some (w', [])
