-- ===== src/Examples/Failures.antt =====
-- A failure that one daemon tells another one.
use msg_perf_tool.Base.{◌≡◌, refl, true, false, some, none, [], ◌∷◌, done, c_string, arith}
use msg_perf_tool.Handlers.Lists.{pointers}
use msg_perf_tool.Handlers.{Callback}
use msg_perf_tool.Maestro.Command
use msg_perf_tool.Maestro.Message.{Message, wire}
use msg_perf_tool.Maestro.RoundTrip.{exactly}
use msg_perf_tool.Maestro.Sheet.Answers.{sender_of}
use msg_perf_tool.Maestro.Notify.{Post, Told, notify_test_failed}
use msg_perf_tool.Maestro.Notify.Wire.{HasRoom}
use msg_perf_tool.Maestro.Player.{handle_note}
use msg_perf_tool.Worker.Ipc.{queue_read, pqueue_read, wq_has_data}
use msg_perf_tool.Worker.Snapshots.{update_snapshot, read_next}
use msg_perf_tool.Worker.Stop
use msg_perf_tool.Worker.Stop.{
  do_stop, stop_walk, stop_one, signals_of, gives_up, after_poll, finish, sigterm,
}
use msg_perf_tool.Worker.Table.{Manager, list_clean, list_is_running}
use msg_perf_tool.Daemon.Failures.{notify_test_failed-aborts}
use msg_perf_tool.Examples.Codec.{
  codec, codec-IsLawful, ample, ample-Allocates, blank, plenty-Available, duplicate,
}
use msg_perf_tool.Examples.Players.{info, resources, duplicate-Copies, sender_of-IsSender}
use msg_perf_tool.Examples.Daemons.{outside, sheet}
use msg_perf_tool.Examples.Nodes.{busy}

abbrev pub old : Callback
old = record { call = 1; payload = 2 }

abbrev pub post : Post
post = record {
  prepared = some blank;
  strdup = duplicate;
  room = ample;
  alloc = ample;
  memory = λ b. some old;
  appended = λ b. true;
  set_retained = 3;
  flag = 4;
  default = 0;
}

pub post-HasRoom : HasRoom post blank
post-HasRoom = record {
  prepared = refl;
  copies = duplicate-Copies;
  allocates = ample-Allocates;
  memory = λ b. (old, refl);
  appended = λ b. refl;
}

abbrev ended_manager : Manager
ended_manager = record { workers = none; errors = 1; locked = false; reports = [] }

notify_test_failed-aborts_example :
    (told : Told) × (notify_test_failed codec post info (108 ∷ 111 ∷ 0 ∷ []) (pointers (old ∷ []))
      ≡ done told)
    × (handle_note codec sheet info resources true busy told.content
        ≡ done (
          record busy { started = false; manager = ended_manager; signals = (7, sigterm) ∷ [] },
          exactly (wire codec (Message.plain_response Command.ok (sender_of info))) ∷ [],
        ))
unfolding c_string list_is_running Stop.abort do_stop stop_walk stop_one signals_of gives_up
    after_poll finish list_clean update_snapshot read_next queue_read pqueue_read wq_has_data
notify_test_failed-aborts_example =
    notify_test_failed-aborts codec codec-IsLawful post blank info (108 ∷ 111 ∷ 0 ∷ []) (old ∷ [])
      resources outside sheet blank blank info busy ended_manager ((7, sigterm) ∷ []) post-HasRoom
      sender_of-IsSender (record { text = ground arith; short = omega arith }) refl refl
      duplicate-Copies plenty-Available refl ample-Allocates sender_of-IsSender refl refl
