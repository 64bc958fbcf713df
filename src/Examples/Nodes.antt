-- ===== src/Examples/Nodes.antt =====
-- The main loop of the daemon that sends at concrete requests.
use msg_perf_tool.Base.{◌≡◌, refl, true, false, some, none, [], ◌∷◌, done, ◌>>=◌}
use msg_perf_tool.Maestro.Command
use msg_perf_tool.Maestro.Note.{Note, as_note, null, type_request, type_response, set_cmd}
use msg_perf_tool.Maestro.Sheet.{play_first, can_play}
use msg_perf_tool.Vmsl.{Binding}
use msg_perf_tool.Worker.Ipc.{Queue}
use msg_perf_tool.Worker.Snapshots.{WorkerInfo}
use msg_perf_tool.Worker.Table.{list_is_running, list_init, list_append}
use msg_perf_tool.Worker.Watchdog.{Wait}
use msg_perf_tool.Worker.Clone
use msg_perf_tool.Worker.Clone.{clone, clone_listed, clone_from, register, enlist, info_new}
use msg_perf_tool.Daemon.Common.{Daemon}
use msg_perf_tool.Daemon.Sender.{handle_start}
use msg_perf_tool.Daemon.Node.{
  Node, Phase, Tick, evaluates, sends, idle, watching, main_step, idle_step, launch, launched,
  flags_of, instruments_of,
}
use msg_perf_tool.Daemon.Node.Steps.{IsSound}
use msg_perf_tool.Daemon.Node.Reach.{Step, Sound, main, request, here, next, Reach-Sound}
use msg_perf_tool.Daemon.Node.Lost.{start-dropped}
use msg_perf_tool.Examples.Players.{info}
use msg_perf_tool.Examples.Daemons.{outside, daemon}

abbrev asked : Note
asked = as_note type_request Command.start_sender null

abbrev response : Note
response = as_note type_response 0 null

abbrev round : Clone.Round
round = record {
  fork = Clone.in_parent 7;
  memory = some [];
  named = true;
  queue = some Queue.posix;
  appended = true;
}

abbrev tick : Tick
tick = record {
  binding = some Binding.proton;
  printable = true;
  logged = true;
  start = record { list = true; dumped = true; writer = true; round = λ n. round };
  wait = λ c. Wait.running;
}

abbrev pub worker : WorkerInfo
worker = record { child = 7; flags = 14; queue = Queue.posix; snapshot = []; reads = 0 }

abbrev asked_for : Daemon
asked_for = record daemon { started = true }

abbrev pub busy : Daemon
busy = record asked_for { manager = record (daemon.manager) { workers = some (worker ∷ []) } }

abbrev at : Daemon → Phase → Node
at d phase = record { daemon = d; phase = phase }

daemon-IsSound : IsSound idle daemon
daemon-IsSound = record { unlocked = refl; fresh = λ p on. refl }

played : Step outside sends (at daemon idle) (at asked_for idle)
unfolding instruments_of play_first can_play handle_start list_is_running set_cmd
played = request idle daemon asked_for info asked response (set_cmd response Command.ok) true refl

started : Step outside sends (at asked_for idle) (at busy (watching false))
unfolding main_step idle_step flags_of evaluates launch launched clone clone_listed clone_from
    register enlist info_new list_init list_append
started = main tick (at asked_for idle) (at busy (watching false)) refl

Reach-Sound_example : Sound (at busy (watching false))
Reach-Sound_example = Reach-Sound outside sends (next (next here played) started) daemon-IsSound

start-dropped_example :
    (handle_start daemon asked response info ≡ done (asked_for, set_cmd response Command.ok))
    × (d' : Daemon) × ((main_step outside sends tick (at asked_for (watching false))
          >>= main_step outside sends tick
          >>= main_step outside sends tick)
        ≡ done (record { daemon = d'; phase = idle }))
    × (d'.started ≡ false)
    × (d'.manager.workers ≡ none)
start-dropped_example =
    start-dropped outside sends daemon asked response info false tick tick tick refl refl
