-- ===== src/Daemon/Node.antt =====
-- The main loop of a daemon that runs tests, beside the thread that plays its requests:
-- `senderd_worker_execute` and `senderd_worker_start` of senderd_worker.c, and their counterparts of
-- receiverd_worker.c. A step of the main loop, and a request that is played, are each one step; so
-- are the launch of a test and its end, in the middle of which no request is played here.
pub mod Steps
pub mod Lost
pub mod Reach
use msg_perf_tool.Base.{
  ℕ, ◌%◌, ◌^◌, ltb, ◌==◌, if◌then◌else◌, Bool, true, false, ◌&&◌, Option, none, some, List, [], ◌∷◌,
  ◌++◌, Outcome, done, ◌>>=◌, within_fuel,
}
use Prim.Native.Nat.{bit_and}
use msg_perf_tool.Worker.Table.{Manager, list_count, list_is_running}
use msg_perf_tool.Worker.Watchdog.{handle_eval, Handler, Wait, watchdog}
use msg_perf_tool.Worker.Clone
use msg_perf_tool.Worker.Clone.{clone, worker_success, worker_child, worker_failure}
use msg_perf_tool.Worker.Stop
use msg_perf_tool.Vmsl.{Binding}
use msg_perf_tool.Maestro.Sheet.{Instrument}
use msg_perf_tool.Daemon.Sender.{sender_instruments}
use msg_perf_tool.Daemon.Receiver.{receiver_instruments, above_signed, eval_latency}
use msg_perf_tool.Daemon.Options.{WorkerOptions}
use msg_perf_tool.Daemon.Common.{Daemon, Outside}

-- Where the main loop stands: at the head of its loop, in the loop of the watchdog, which evaluates
-- latencies or not, before `worker_manager_stop`, behind it, and at its end.
pub data Phase : Type 0 where
  idle : Phase
  watching : Bool → Phase
  closing : Phase
  returning : Phase
  ended : Phase

pub record Node : Type 0 where
  pub daemon : Daemon
  pub phase : Phase

-- What a step of the main loop gets from outside: the binding of the address and whether the address
-- can be printed, whether there is a directory for the logs, the start of the workers, and what
-- `waitpid` says in this round.
pub record Tick : Type 0 where
  pub binding : Option Binding
  pub printable : Bool
  pub logged : Bool
  pub start : Clone.Outside
  pub wait : ℕ → Wait

-- `worker_error` and `worker_child`
abbrev pub worker_error : ℕ → Bool
worker_error ret = bit_and ret worker_success == 0

abbrev pub is_child : ℕ → Bool
is_child ret = if bit_and ret worker_child == 0 then false else true

-- The two daemons that run tests.
pub data Kind : Type 0 where
  sends : Kind
  receives : Kind

-- WRK_SENDER | WRK_DAEMON | WRK_FORKED, and WRK_RECEIVER | WRK_DAEMON | WRK_FORKED
unfoldable pub flags_of : Kind → ℕ
flags_of sends = 14
flags_of receives = 13

abbrev pub no_handler : Handler
no_handler = record { flags = 0; eval = none; print = none }

-- Whether a test evaluates the latencies: in a receiver that is started with a rate and with a limit on
-- them.
unfoldable pub evaluates : Kind → WorkerOptions → Bool
evaluates sends o = false
evaluates receives o = ltb 0 o.rate && above_signed o.latency 0

-- The handler of a test; the limit is read when a latency is evaluated.
unfoldable pub handler_of : Outside → Daemon → Bool → Handler
unfolding eval_latency
handler_of e d false = no_handler
handler_of e d true = record {
  flags = handle_eval;
  eval =
      some
        (λ w. eval_latency d.options.latency (e.latency_of w.snapshot) (e.running_time w.snapshot));
  print = none;
}

unfoldable pub instruments_of : Outside → Kind → List (Instrument Daemon)
instruments_of e sends = sender_instruments e
instruments_of e receives = receiver_instruments e

module _ (e : Outside) (k : Kind) where
  -- What follows the start of the workers: a child leaves the loop, a failure goes back to its head.
  unfoldable pub launched : Daemon → Clone.Cloned → Node
  unfolding evaluates
  launched d c =
      let d' : Daemon = record d { manager = c.manager; signals = d.signals ++ c.signals } in
      if is_child c.result
      then record { daemon = d'; phase = ended }
      else if worker_error c.result
      then record { daemon = record d' { started = false }; phase = idle }
      else record { daemon = d'; phase = watching (evaluates k d.options) }

  -- `senderd_worker_execute` up to the loop of the watchdog.
  unfoldable pub launch : Tick → Daemon → Node
  unfolding launched flags_of
  launch t d =
      if t.logged
      then launched d (clone (flags_of k) t.start d.options.parallel_count d.manager)
      else record { daemon = record d { started = false }; phase = idle }

  -- The head of the loop of `senderd_worker_start`.
  unfoldable pub idle_step : Tick → Daemon → Node
  unfolding launch
  idle_step t d =
      let launched = launch t d in
      let waiting : Node = record { daemon = d; phase = idle } in
      let over : Node = record { daemon = d; phase = ended } in
      if d.halt
      then over
      else if d.started
      then elim t.binding [ none ↦ if t.printable then over else waiting | some b ↦ launched ]
      else waiting

  -- What follows a round of the watchdog.
  abbrev pub watched : Daemon → Bool → Manager × Bool → Node
  watched d evaluating (m, true) = record {
    daemon = record d { manager = m };
    phase = watching evaluating;
  }
  watched d evaluating (m, false) = record { daemon = record d { manager = m }; phase = closing }

  -- A round of `worker_manager_watchdog_loop`.
  unfoldable pub watch_step : Tick → Daemon → Bool → Outcome Node
  unfolding list_count list_is_running handler_of
  watch_step t d evaluating =
      let round =
        within_fuel
          (watchdog e.size e.arrivals e.fuel (handler_of e d evaluating) t.wait d.manager) in
      if list_is_running d.manager && ltb 0 (list_count d.manager)
      then round >>= (λ r. done (watched d evaluating r))
      else done (record { daemon = d; phase = closing })

  -- `worker_manager_stop` at the end of `senderd_worker_execute`.
  unfoldable pub close_step : Daemon → Outcome Node
  close_step d = do
    (m, sent) ← within_fuel (Stop.stop e.size e.arrivals e.fuel e.can_signal e.poll d.manager)
    done (record {
      daemon = record d { manager = m; signals = d.signals ++ sent };
      phase = returning;
    })

  -- A step of `senderd_worker_start`.
  unfoldable pub main_step : Tick → Node → Outcome Node
  unfolding idle_step watch_step close_step
  main_step t n = elim n.phase [
    | idle ↦ done (idle_step t n.daemon)
    | watching evaluating ↦ watch_step t n.daemon evaluating
    | closing ↦ close_step n.daemon
    | returning ↦ done (record { daemon = record (n.daemon) { started = false }; phase = idle })
    | ended ↦ done n
  ]
