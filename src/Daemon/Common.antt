-- ===== src/Daemon/Common.antt =====
-- The requests that every daemon answers in the same way, daemon_common.c, and the state of a daemon
-- with what it gets from outside.
use msg_perf_tool.Base.{ℕ, ◌==◌, if◌then◌else◌, Bool, Option, List, Bytes, done, ◌>>=◌}
use msg_perf_tool.Maestro.Command
use msg_perf_tool.Maestro.Note.{Payload, payload_of, set_cmd, ping_set_elapsed, type_request}
use msg_perf_tool.Maestro.Sheet.{Play}
use msg_perf_tool.Worker.Ipc.{Received}
use msg_perf_tool.Worker.Table.{Manager}
use msg_perf_tool.Worker.Stop.{Poll, Signal}
use msg_perf_tool.Daemon.Options.{Gru, WorkerOptions}

-- The static variables of a daemon, the worker manager, and the signals that it has sent.
pub record Daemon : Type 0 where
  pub started : Bool
  pub halt : Bool
  pub options : WorkerOptions
  pub manager : Manager
  pub signals : List Signal

-- What the handlers get from outside: the gru library, memory for strings, the clock, the numbers in
-- a snapshot that are no integers, or are times, and the answers of the kernel when the workers are stopped, as in
-- `Worker.Stop`. `printable` is whether the message of a note that is no notification, which lies over
-- other members, leads to a text.
pub record Outside : Type 0 where
  pub gru : Gru
  pub strdup : Bytes → Option Bytes
  pub elapsed : ℕ × ℕ → ℕ
  pub clock : Bytes
  pub role_info : Bytes
  pub rate_of : Bytes → ℕ
  pub latency_of : Bytes → ℕ
  pub running_time : Bytes → ℕ
  pub no_rate : ℕ
  pub add_rate : ℕ → ℕ → ℕ
  pub mean : ℕ → ℕ → ℕ
  pub printable : Payload → Bool
  pub size : ℕ
  pub arrivals : ℕ → ℕ → Received
  pub fuel : ℕ
  pub can_signal : ℕ → Bool
  pub poll : ℕ → ℕ → Poll

-- `commond_handle_flush`
unfoldable pub handle_flush : Play Daemon
unfolding set_cmd
handle_flush st request response info = done (st, set_cmd response Command.ok)

module _ (e : Outside) where
  -- `commond_handle_ping`: `elapsed` is the time from the one in the request until now.
  unfoldable pub handle_ping : Play Daemon
  unfolding set_cmd ping_set_elapsed payload_of
  handle_ping st request response info = do
    p ← payload_of request
    let created = if request.type == type_request then (p.sec, p.usec) else e.gru.overlaid_ping p
    response ← ping_set_elapsed (set_cmd response Command.ping) (e.elapsed created)
    done (st, response)
