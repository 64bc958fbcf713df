-- ===== src/Examples/Starts.antt =====
-- The start of a test at concrete answers of the system.
use msg_perf_tool.Base.{ℕ, ◌+◌, ◌≡◌, refl, true, false, none, some, List, [], ◌∷◌}
use msg_perf_tool.Worker.Ipc.{posix, nothing, queue_read, pqueue_read, wq_has_data}
use msg_perf_tool.Worker.Snapshots.{WorkerInfo, update_snapshot, read_next}
use msg_perf_tool.Worker.Table.{Manager}
use msg_perf_tool.Worker.Watchdog.{sigint}
use msg_perf_tool.Worker.Watching.{Completes}
use msg_perf_tool.Worker.Stop.{ended, Signal, stop}
use msg_perf_tool.Worker.Clone.{
  in_parent, no_process, Round, Outside, clone, worker_success, worker_failure,
}
use msg_perf_tool.Worker.Restart.{clone-once}
use msg_perf_tool.Worker.Cloning.{IsStarted, clone-all, failed_fork_signals_all}

abbrev fresh : Manager
fresh = record { workers = none; errors = 4; locked = false; reports = [] }

-- A round in which `fork` returns this and nothing else fails.
abbrev started : ℕ → Round
started pid = record {
  fork = in_parent pid;
  memory = some (0 ∷ 0 ∷ []);
  named = true;
  queue = some posix;
  appended = true;
}

abbrev worker : ℕ → WorkerInfo
worker pid = record { child = pid; flags = 2; queue = posix; snapshot = 0 ∷ 0 ∷ []; reads = 0 }

started-IsStarted : (pid : ℕ) → IsStarted 2 (started pid) (worker pid)
started-IsStarted pid = record {
  fork = refl;
  memory = refl;
  named = refl;
  queue = refl;
  appended = refl;
  flagged = refl;
  unread = refl;
}

-- The processes are numbered from 100 on, or every `fork` fails.
abbrev numbered : Outside
numbered = record { list = true; dumped = true; writer = true; round = λ i. started (100 + i) }

abbrev exhausted : Outside
exhausted = record { list = true; dumped = true; writer = true; round = λ i. started no_process }

-- The report writer cannot be set up.
abbrev unwritten : Outside
unwritten = record numbered { writer = false }

clone-all_example : clone 2 numbered 2 fresh ≡ record {
  manager = record fresh { workers = some (worker 100 ∷ worker 101 ∷ []); errors = 0 };
  signals = [];
  result = worker_success;
}
clone-all_example =
    clone-all 2 numbered fresh (worker 100 ∷ worker 101 ∷ []) refl refl refl refl
      (started-IsStarted 100, (started-IsStarted 101, tt))

clone-once_example :
    let left = (clone 2 unwritten 2 fresh).manager in
    clone 2 numbered 2 left
    ≡ record { manager = record left { errors = 0 }; signals = []; result = worker_failure }
clone-once_example = clone-once 2 unwritten numbered 2 2 fresh refl

quiet_update : Completes 2 (λ child k. nothing) 1 (worker no_process ∷ [])
unfolding update_snapshot read_next queue_read pqueue_read wq_has_data
quiet_update = ((λ e. cc), tt)

failed_fork_signals_all_example :
    let cloned = clone 2 exhausted 1 fresh in
    (cloned.result ≡ worker_success)
    × (m' : Manager) × (rest : List Signal) × (stop 2
          (λ child k. nothing)
          1
          (λ c. true)
          (λ c k. ended)
          cloned.manager
        ≡ some (m', (no_process, sigint) ∷ rest))
failed_fork_signals_all_example =
    failed_fork_signals_all 2 2 (λ child k. nothing) 1 (λ c. true) (λ c k. ended) exhausted fresh
      (worker no_process) refl refl refl refl (started-IsStarted no_process) refl (λ c. refl)
      quiet_update
