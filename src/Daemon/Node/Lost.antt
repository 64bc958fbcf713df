-- ===== src/Daemon/Node/Lost.antt =====
-- A start that is acknowledged while an earlier test ends.
use msg_perf_tool.Base.{Bool, ◌≡◌, refl, true, false, none, [], ◌++◌, done, ◌>>=◌}
use msg_perf_tool.Maestro.Command
use msg_perf_tool.Maestro.Note.{Note, set_cmd}
use msg_perf_tool.Maestro.Sheet.{PlayerInfo}
use msg_perf_tool.Worker.Table.{list_count, list_is_running, list_clean}
use msg_perf_tool.Worker.Stop.{stop, do_stop, stop_walk, finish}
use msg_perf_tool.Daemon.Common.{Daemon, Outside}
use msg_perf_tool.Daemon.Sender.{handle_start}
use msg_perf_tool.Daemon.Node.{Tick, Kind, watching, idle, main_step, watch_step, close_step}

-- When a test has been stopped and its main loop has not yet come back, the daemon acknowledges a start,
-- and the next three steps of the main loop drop it: they lead to the head of the loop with nothing to
-- start, and no worker has been started.
pub start-dropped :
    (e : Outside) (k : Kind) (d : Daemon) (request response : Note) (info : PlayerInfo)
    (evaluating : Bool) (t u v : Tick)
    → d.started ≡ false
    → d.manager.workers ≡ none
    → (handle_start d request response info
        ≡ done (record d { started = true }, set_cmd response Command.ok))
      × (d' : Daemon) × ((main_step e k t
              (record { daemon = record d { started = true }; phase = watching evaluating })
            >>= main_step e k u
            >>= main_step e k v)
          ≡ done (record { daemon = d'; phase = idle }))
      × (d'.started ≡ false)
      × (d'.manager.workers ≡ none)
unfolding handle_start list_is_running main_step watch_step close_step list_count stop do_stop
    stop_walk finish list_clean
start-dropped e k d request response info evaluating t u v off empty = (
  rw (off, empty) refl,
  record d {
    started = false;
    manager = record (d.manager) {
      workers = none;
      locked = false;
      reports = d.manager.reports ++ [];
    };
    signals = d.signals ++ [];
  },
  rw empty refl,
  refl,
  refl,
)
