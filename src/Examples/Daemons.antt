-- ===== src/Examples/Daemons.antt =====
-- The daemon that sends at concrete requests.
use msg_perf_tool.Base.{◌≡◌, refl, true, false, some, none, [], ◌∷◌, fault, arith}
use msg_perf_tool.Content.{empty}
use msg_perf_tool.Maestro.Command
use msg_perf_tool.Maestro.Sheet.{Sheet, sheet_play}
use msg_perf_tool.Worker.Ipc.{Received}
use msg_perf_tool.Worker.Stop.{Poll}
use msg_perf_tool.Worker.Table.{Manager}
use msg_perf_tool.Daemon.Options.{Gru, WorkerOptions, Duration}
use msg_perf_tool.Daemon.Common.{Daemon, Outside}
use msg_perf_tool.Daemon.Sender.{sender_instruments}
use msg_perf_tool.Daemon.Crashes.{unknown_type_crashes, bare}
use msg_perf_tool.Examples.Codec.{codec, codec-IsLawful, blank, duplicate}
use msg_perf_tool.Examples.Players.{info, resources, duplicate-Copies}

abbrev gru : Gru
gru = record {
  uri_parse = λ s. 1;
  duration_parse = λ s. none;
  get_level = λ s. 2;
  overlaid_set = λ p. (0, none);
  overlaid_ping = λ p. (0, 0);
}

abbrev pub outside : Outside
outside = record {
  gru = gru;
  strdup = duplicate;
  elapsed = λ t. 5;
  clock = 49 ∷ 0 ∷ [];
  role_info = 120 ∷ 0 ∷ [];
  rate_of = λ s. 3;
  latency_of = λ s. 4;
  running_time = λ s. 5;
  no_rate = 0;
  add_rate = λ a b. a;
  mean = λ a b. a;
  printable = λ p. true;
  size = 2;
  arrivals = λ c k. Received.nothing;
  fuel = 3;
  can_signal = λ c. true;
  poll = λ c k. Poll.ended;
}

abbrev pub options : WorkerOptions
options = record {
  uri = 0;
  duration = Duration.message_count 10;
  condition_type = 0;
  latency = 0;
  log_level = 1;
  parallel_count = 1;
  message_size = 256;
  variable_size = false;
  throttle = 0;
  rate = 0;
}

abbrev quiet : Manager
quiet = record { workers = none; errors = 0; locked = false; reports = [] }

abbrev pub daemon : Daemon
daemon = record { started = false; halt = false; options = options; manager = quiet; signals = [] }

abbrev pub sheet : Sheet Daemon
sheet = record { instruments = some (sender_instruments outside); count = 3; topics = []; qos = 1 }

unknown_type_crashes_example :
    (sheet_play codec resources sheet info daemon (bare codec 3 Command.set) empty ≡ fault)
    × (sheet_play codec resources sheet info daemon (bare codec 3 Command.ping) empty ≡ fault)
unknown_type_crashes_example =
    unknown_type_crashes codec resources codec-IsLawful blank refl duplicate-Copies info 3
      (omega arith) (omega arith) outside sheet refl daemon empty
