-- ===== src/Worker/Cloning.antt =====
-- What a start of a test leaves behind, and what stopping it then does.
use mathlib.Core.List.{append-nil, append_assoc}
use msg_perf_tool.Base.{
  ℕ, suc, ◌≡◌, refl, ap, ◌∙◌, if◌then◌else◌, Bool, true, false, none, some, List, [], ◌∷◌, ◌++◌,
  length,
}
use msg_perf_tool.Worker.Ipc.{Received}
use msg_perf_tool.Worker.Snapshots.{WorkerInfo}
use msg_perf_tool.Worker.Table.{Manager, list_init, list_append}
use msg_perf_tool.Worker.Watchdog.{sigint}
use msg_perf_tool.Worker.Watching.{Completes, all_written}
use msg_perf_tool.Worker.Stop.{
  Poll, Signal, gives_up, retries, sigkill, signals_of, stop, do_stop-signals,
}
use msg_perf_tool.Worker.Clone.{
  in_parent, no_process, Round, registered, info_new, enlist, register, Outside, clone_from,
  clone_listed, clone, worker_success,
}

-- In this round `fork` returns in the parent, and everything that follows succeeds.
pub record IsStarted (flags : ℕ) (r : Round) (w : WorkerInfo) : Type 0 where
  pub fork : r.fork ≡ in_parent w.child
  pub memory : r.memory ≡ some w.snapshot
  pub named : r.named ≡ true
  pub queue : r.queue ≡ some w.queue
  pub appended : r.appended ≡ true
  pub flagged : w.flags ≡ flags
  pub unread : w.reads ≡ 0

module _ (flags : ℕ) where
  -- The rounds from `i` on start these workers.
  abbrev pub AllStarted : (ℕ → Round) → ℕ → List WorkerInfo → Type 0
  AllStarted round i [] = Unit {0}
  AllStarted round i (w ∷ ws) = IsStarted flags (round i) w × AllStarted round (suc i) ws

  info_new-IsStarted :
      (r : Round) (w : WorkerInfo) → IsStarted flags r w → info_new r flags w.child ≡ (some w, [])
  unfolding info_new
  info_new-IsStarted r w h = rw (h.memory, h.named, h.queue, ← h.flagged, ← h.unread) refl

  enlist-IsStarted :
      (r : Round) (m : Manager) (front : List WorkerInfo) (w : WorkerInfo)
      → m.workers ≡ some front
      → r.appended ≡ true
      → enlist r m (some w, []) ≡ registered (record m { workers = some (front ++ w ∷ []) })
  unfolding enlist list_append
  enlist-IsStarted r m front w l h = rw (l, h) refl

  register-IsStarted :
      (r : Round) (m : Manager) (front : List WorkerInfo) (w : WorkerInfo)
      → m.workers ≡ some front
      → IsStarted flags r w
      → register r flags m ≡ registered (record m { workers = some (front ++ w ∷ []) })
  unfolding register enlist
  register-IsStarted r m front w l h =
      rw (h.fork, info_new-IsStarted r w h) (enlist-IsStarted r m front w l h.appended)

  clone_from-AllStarted :
      (round : ℕ → Round) (i : ℕ) (m : Manager) (front ws : List WorkerInfo)
      → m.workers ≡ some front
      → AllStarted round i ws
      → clone_from flags round (length ws) i m ≡ record {
        manager = record m { workers = some (front ++ ws) };
        signals = [];
        result = worker_success;
      }
  unfolding clone_from
  clone_from-AllStarted round i m front [] l all = rw (append-nil front, ← l) refl
  clone_from-AllStarted round i m front (w ∷ ws) l (h, all) =
      rw (register-IsStarted (round i) m front w l h, clone_from)
        (clone_from-AllStarted round (suc i) (record m { workers = some (front ++ w ∷ []) })
            (front ++ w ∷ []) ws refl all
          ∙ ap
              (λ all. record {
                manager = record m { workers = some all };
                signals = [];
                result = worker_success;
              })
              (append_assoc front (w ∷ []) ws))

  -- When there is no list yet and nothing fails, `worker_manager_clone` succeeds: the list holds
  -- one worker for each round, in their order, the count of failures is 0, and no signal is sent.
  pub clone-all :
      (o : Outside) (m : Manager) (ws : List WorkerInfo)
      → m.workers ≡ none
      → o.list ≡ true
      → o.dumped ≡ true
      → o.writer ≡ true
      → AllStarted o.round 0 ws
      → clone flags o (length ws) m ≡ record {
        manager = record m { workers = some ws; errors = 0 };
        signals = [];
        result = worker_success;
      }
  unfolding clone clone_listed list_init
  clone-all o m ws l list dumped writer all =
      rw (l, list, dumped, writer)
        (clone_from-AllStarted o.round 0 (record m { workers = some []; errors = 0 }) [] ws refl
          all)

  -- A worker whose `fork` failed, when nothing else fails, is registered as process -1 and counts
  -- as started. Stopping the test then sends SIGINT to process -1 first, if the updates end and
  -- `kill` succeeds.
  pub failed_fork_signals_all :
      (size : ℕ) (arrivals : ℕ → ℕ → Received) (fuel : ℕ) (can_signal : ℕ → Bool)
      (poll : ℕ → ℕ → Poll) (o : Outside) (m : Manager) (w : WorkerInfo)
      → m.workers ≡ none
      → o.list ≡ true
      → o.dumped ≡ true
      → o.writer ≡ true
      → IsStarted flags (o.round 0) w
      → w.child ≡ no_process
      → ((c : ℕ) → can_signal c ≡ true)
      → Completes size arrivals fuel (w ∷ [])
      → let cloned = clone flags o 1 m in
        (cloned.result ≡ worker_success)
        × (m' : Manager) × (rest : List Signal) × (stop size arrivals fuel can_signal poll
              cloned.manager
            ≡ some (m', (no_process, sigint) ∷ rest))
  unfolding stop signals_of
  failed_fork_signals_all size arrivals fuel can_signal poll o m w l list dumped writer h failed
        reach all =
      let cloned = clone-all o m (w ∷ []) l list dumped writer (h, tt) in
      let started : Manager = record m { workers = some (w ∷ []); errors = 0 } in
      let left : Manager = record started {
        workers = none;
        locked = false;
        reports = m.reports ++ all_written size arrivals fuel (w ∷ []);
      } in
      let rest : List Signal =
        (if gives_up (poll w.child) retries 0 then (w.child, sigkill) ∷ [] else []) ++ [] in
      (
        ap (λ c. c.result) cloned,
        left,
        rest,
        ap (λ c. stop size arrivals fuel can_signal poll c.manager) cloned
            ∙ do_stop-signals size arrivals fuel can_signal poll sigint started (w ∷ []) refl reach
                all
            ∙ ap (λ c. some (left, (c, sigint) ∷ rest)) failed,
      )
