-- ===== src/Daemon/Requests.antt =====
-- What a daemon makes of the requests that reach it.
use msg_perf_tool.Base.{
  ℕ, ◌<◌, ◌≡◌, refl, ne→==, Option, none, some, List, [], ◌∷◌, Bytes, arith, terminated, done,
}
use msg_perf_tool.Content.{Content}
use msg_perf_tool.Content.Random.{Allocates}
use msg_perf_tool.Maestro.Command
use msg_perf_tool.Maestro.Msgpack.{Msgpack, IsLawful}
use msg_perf_tool.Maestro.Note.{Payload, type_response, set_cmd, payload_of}
use msg_perf_tool.Maestro.Message.{Message, IsMessage, IsSender, wire}
use msg_perf_tool.Maestro.Reads.{Available}
use msg_perf_tool.Maestro.RoundTrip.{exactly}
use msg_perf_tool.Maestro.Sheet.{Sheet, Instrument, PlayerInfo, Instrument, Resources, sheet_play}
use msg_perf_tool.Maestro.Sheet.Answers.{
  Copies, started, sender_of, answered-Represents, sheet_play-played,
}
use msg_perf_tool.Daemon.Options.{Gru, WorkerOptions, set_option, set_view, handle_set}
use msg_perf_tool.Daemon.Common.{Daemon, Outside, handle_flush}
use msg_perf_tool.Daemon.Sender.{
  handle_sender_set, sender_instruments, instrument, handle_start, handle_stop,
}

-- The instruments in front of that of a set request.
abbrev pub before_set : Outside → List (Instrument Daemon)
before_set e =
    instrument e Command.start_sender handle_start
    ∷ instrument e Command.stop_sender (handle_stop e)
    ∷ instrument e Command.flush handle_flush
    ∷ []

-- An option above the last one is none.
set_option-unknown :
    (g : Gru) (opt : ℕ) (value : Option Bytes) (o : WorkerOptions)
    → 7 < opt
    → set_option g opt value o ≡ done none
unfolding set_option
set_option-unknown g opt value o above =
    rw
      (
        ne→== opt 0 (omega arith),
        ne→== opt 1 (omega arith),
        ne→== opt 2 (omega arith),
        ne→== opt 3 (omega arith),
        ne→== opt 4 (omega arith),
        ne→== opt 5 (omega arith),
        ne→== opt 6 (omega arith),
        ne→== opt 7 (omega arith),
      )
      refl

module _ (m : Msgpack) (r : Resources) (law : IsLawful m) (e : Outside) (sheet : Sheet Daemon)
    (mine : sheet.instruments ≡ some (sender_instruments e)) (blank : Payload)
    (there : r.payload ≡ some blank) (copies : Copies r.strdup) (info : PlayerInfo) where
  -- With a lawful msgpack and enough memory, the daemon that sends answers a set request that reaches
  -- it on the wire with an acknowledgement, when the option is one that there is; the option's new
  -- value is the only change of its state.
  pub set_request-acknowledged :
      (av : Available r.request) (asked : Payload) (st : Daemon) (opt : ℕ) (value : Bytes)
      (options : WorkerOptions) (out : Content)
      → r.request.payload ≡ some asked
      → Allocates r.alloc
      → IsSender (sender_of info)
      → IsMessage (Message.set_request opt value)
      → set_option e.gru opt (some (terminated value)) st.options ≡ done (some options)
      → sheet_play m r sheet info st (exactly (wire m (Message.set_request opt value))) out
        ≡ done (
          record st { options = options },
          exactly (wire m (Message.plain_response Command.ok (sender_of info))),
        )
  unfolding handle_sender_set handle_set set_view set_cmd payload_of
  set_request-acknowledged av asked st opt value options out room allocs who ok changed =
      sheet_play-played m r blank there copies law av asked room sheet st
        (record st { options = options }) (before_set e) _
        (instrument e Command.set (handle_sender_set e)) info (Message.set_request opt value)
        (Message.plain_response Command.ok (sender_of info)) type_response Command.ok
        (started blank info) out allocs ok mine (omega arith, (omega arith, (omega arith, tt))) refl
        (rw changed) (answered-Represents m r blank there copies info Command.ok who)
        (omega arith, omega arith, omega arith, who)

  -- With a lawful msgpack and enough memory, a set request for an option that there is not is answered
  -- by a protocol error, and the state of the daemon stays as it was.
  pub set_request-refused :
      (av : Available r.request) (asked : Payload) (st : Daemon) (opt : ℕ) (value : Bytes)
      (out : Content)
      → r.request.payload ≡ some asked
      → Allocates r.alloc
      → IsSender (sender_of info)
      → IsMessage (Message.set_request opt value)
      → 7 < opt
      → sheet_play m r sheet info st (exactly (wire m (Message.set_request opt value))) out
        ≡ done
            (st, exactly (wire m (Message.plain_response Command.protocol_error (sender_of info))))
  unfolding handle_sender_set handle_set set_view set_option set_cmd payload_of
  set_request-refused av asked st opt value out room allocs who ok above =
      sheet_play-played m r blank there copies law av asked room sheet st st (before_set e) _
        (instrument e Command.set (handle_sender_set e)) info (Message.set_request opt value)
        (Message.plain_response Command.protocol_error (sender_of info)) type_response
        Command.protocol_error (started blank info) out allocs ok mine
        (omega arith, (omega arith, (omega arith, tt))) refl
        (rw (set_option-unknown e.gru opt (some (terminated value)) st.options above) refl)
        (answered-Represents m r blank there copies info Command.protocol_error who)
        (omega arith, omega arith, omega arith, who)
