-- ===== src/Load.antt =====
-- The work of a worker process in src/worker: worker_check of worker_utils.c, the snapshots of
-- worker_types.h, and the loops of the senders and receivers.
pub mod Turns
pub mod Sending
pub mod Receiving
pub mod Accounts
pub mod Stalling
use msg_perf_tool.Base.{ℕ, ltb, leb, if◌then◌else◌, Bool, true, false}
use msg_perf_tool.Daemon.Options.{WorkerOptions, message_count, test_time}

-- `gru_timestamp_t`
pub record Time : Type 0 where
  pub sec : ℕ
  pub usec : ℕ

-- `worker_snapshot_t`, without the rates that are computed from it.
pub record Snapshot : Type 0 where
  pub count : ℕ
  pub start : Time
  pub now : Time
  pub eta : Time

-- The clock functions of the gru library: whether so many seconds have gone by, a time with so many
-- microseconds more, and the milliseconds from one time to another, 0 when they are not positive.
pub record Clock : Type 0 where
  pub reaches : ℕ → Time → Time → Bool
  pub add_microseconds : Time → ℕ → Time
  pub milli : Time → Time → ℕ

-- `worker_check`, given `is_interrupted`; the end of a test on time is its second.
unfoldable pub worker_check : WorkerOptions → Bool → Snapshot → Bool
worker_check o interrupted s =
    if interrupted
    then false
    else elim o.duration [ test_time end ↦ leb s.now.sec end | message_count n ↦ ltb s.count n ]
