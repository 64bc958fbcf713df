-- ===== src/Daemon/Failures.antt =====
-- What a test that fails in one daemon does to another one.
use msg_perf_tool.Base.{
  ◌≡◌, refl, true, false, some, List, [], ◌∷◌, ◌++◌, Bytes, c_string, done, arith,
}
use msg_perf_tool.Content.{empty}
use msg_perf_tool.Content.Random.{Allocates}
use msg_perf_tool.Handlers.{Callback}
use msg_perf_tool.Handlers.Lists.{pointers, put}
use msg_perf_tool.Maestro.Command
use msg_perf_tool.Maestro.Msgpack.{Msgpack, IsLawful}
use msg_perf_tool.Maestro.Note.{Payload, type_response, set_cmd, payload_of}
use msg_perf_tool.Maestro.Message.{Message, IsMessage, IsField, IsSender, wire}
use msg_perf_tool.Maestro.Reads.{Available}
use msg_perf_tool.Maestro.RoundTrip.{exactly}
use msg_perf_tool.Maestro.Sheet.{Sheet, Instrument, PlayerInfo, Resources}
use msg_perf_tool.Maestro.Sheet.Answers.{
  Copies, started, sender_of, answered-Represents, deserialize-received, sheet_play-played,
}
use msg_perf_tool.Maestro.Notify.{Post, Told, notify_test_failed}
use msg_perf_tool.Maestro.Notify.Wire.{HasRoom, retained, unretained, notify-wire}
use msg_perf_tool.Maestro.Player.{handle_note}
use msg_perf_tool.Maestro.Player.Replay.{handle_note-answered, reads_header-wire}
use msg_perf_tool.Worker.Stop
use msg_perf_tool.Worker.Table.{Manager, list_is_running}
use msg_perf_tool.Daemon.Common.{Daemon, Outside, handle_ping}
use msg_perf_tool.Daemon.Sender.{
  handle_sender_set, handle_stats, handle_halt, handle_test_failed, ended_by, log_message,
  sender_instruments, instrument,
}
use msg_perf_tool.Daemon.Requests.{before_set}

-- The instruments in front of that of a failure.
abbrev before_failure : Outside → List (Instrument Daemon)
before_failure e =
    before_set e
    ++ instrument e Command.set (handle_sender_set e)
      ∷ instrument e Command.ping (handle_ping e)
      ∷ instrument e Command.stats (handle_stats e)
      ∷ instrument e Command.halt (handle_halt e)
      ∷ []

module _ (m : Msgpack) (law : IsLawful m) where
  -- With a lawful msgpack and enough memory on both sides: when a daemon tells that its test has failed
  -- and its notification reaches the daemon that sends while its workers run and can be stopped, this
  -- daemon takes its start back, aborts its workers, and sends an acknowledgement.
  pub notify_test_failed-aborts :
      (p : Post) (free : Payload) (peer : PlayerInfo) (message : Bytes) (cs : List Callback)
      (r : Resources) (e : Outside) (sheet : Sheet Daemon) (blank asked : Payload)
      (info : PlayerInfo) (st : Daemon) (manager : Manager) (signals : List Stop.Signal)
      → HasRoom p free
      → IsSender (sender_of peer)
      → IsField (c_string message)
      → sheet.instruments ≡ some (sender_instruments e)
      → r.payload ≡ some blank
      → Copies r.strdup
      → Available r.request
      → r.request.payload ≡ some asked
      → Allocates r.alloc
      → IsSender (sender_of info)
      → list_is_running st.manager ≡ true
      → Stop.abort e.size e.arrivals e.fuel e.can_signal e.poll st.manager ≡ some (manager, signals)
      → (told : Told) × (notify_test_failed m p peer message (pointers cs) ≡ done told)
        × (handle_note m sheet info r true st told.content
            ≡ done (
              record st { started = false; manager = manager; signals = st.signals ++ signals },
              exactly (wire m (Message.plain_response Command.ok (sender_of info))) ∷ [],
            ))
  unfolding notify_test_failed handle_test_failed log_message ended_by set_cmd payload_of
  notify_test_failed-aborts p free peer message cs r e sheet blank asked info st manager signals has
        author text mine there copies av room allocs who running aborted =
      let msg = Message.notification Command.notify_fail (sender_of peer) (c_string message) in
      let fits : IsMessage msg = (omega arith, author, text) in
      let st' : Daemon = record st {
        started = false;
        manager = manager;
        signals = st.signals ++ signals;
      } in
      (
        record {
          sending = pointers (put (retained p) cs);
          handlers = pointers (put (unretained p) (put (retained p) cs));
          content = exactly (wire m msg);
        },
        notify-wire m law p free has peer Command.notify_fail message cs (omega arith) author text,
        handle_note-answered m sheet info r st st' (exactly (wire m msg)) _ _ blank there
            (deserialize-received m r blank there copies law av asked room msg fits)
            (reads_header-wire m sheet info law r.request msg fits (omega arith))
            (sheet_play-played m r blank there copies law av asked room sheet st st'
              (before_failure e) [] (instrument e Command.notify_fail (handle_test_failed e)) info
              msg (Message.plain_response Command.ok (sender_of info)) type_response Command.ok
              (started blank info) empty allocs fits mine
              (
                omega arith,
                (
                  omega arith,
                  (omega arith, (omega arith, (omega arith, (omega arith, (omega arith, tt))))),
                ),
              )
              refl (rw (running, aborted) refl)
              (answered-Represents m r blank there copies info Command.ok who)
              (omega arith, omega arith, omega arith, who)),
      )
