-- ===== src/Client/Steering.antt =====
-- What the commands of the client make a daemon do.
use msg_perf_tool.Base.{◌≡◌, true, some}
use msg_perf_tool.Content.{Content}
use msg_perf_tool.Content.Random.{Allocates}
use msg_perf_tool.Vmsl.{vmsl_success}
use msg_perf_tool.Maestro.Command
use msg_perf_tool.Maestro.Msgpack.{Msgpack}
use msg_perf_tool.Maestro.Note.{Payload}
use msg_perf_tool.Maestro.Message.{Message}
use msg_perf_tool.Maestro.Sheet.{Sheet}
use msg_perf_tool.Maestro.Sheet.Answers.{Copies}
use msg_perf_tool.Daemon.Options
use msg_perf_tool.Daemon.Common.{Daemon}
use msg_perf_tool.Client.{Link}

-- The messaging layer of the client works, and there is memory.
pub record IsUp (l : Link) : Type 0 where
  pub cloned : l.cloned ≡ true
  pub initialised : l.initialised ≡ true
  pub started : l.started ≡ true
  pub sends : l.send_stat ≡ vmsl_success
  pub allocates : Allocates l.alloc
  pub copies : Copies l.strdup
  pub prepared : (p : Payload) × (l.prepared ≡ some p)
  pub again : (p : Payload) × (l.again ≡ some p)
