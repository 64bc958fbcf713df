-- ===== src/Examples/Threads.antt =====
-- The player's thread and the client at concrete requests.
use msg_perf_tool.Base.{
  ℕ, Bool, ◌≡◌, ◌≤◌, ◌⊎◌, refl, true, false, none, some, fault, List, [], ◌∷◌, Bytes, length, done,
  arith, ltb,
}
use msg_perf_tool.Content.{Content, empty, IsValid}
use msg_perf_tool.Maestro.Command
use msg_perf_tool.Maestro.Message.{Message, wire}
use msg_perf_tool.Maestro.Note.{zeroed, payload_cleanup}
use msg_perf_tool.Maestro.Assign.{State, Error}
use msg_perf_tool.Maestro.Deserialize.{
  deserialize_note, deserialize_bytes, input_of, header, next_object,
}
use msg_perf_tool.Maestro.RoundTrip.{exactly}
use msg_perf_tool.Maestro.Sheet.{sheet_play}
use msg_perf_tool.Maestro.Sheet.Answers.{sender_of}
use msg_perf_tool.Maestro.Player.{Round, handle_note, run}
use msg_perf_tool.Maestro.Player.Replay.{Arrival, arrivals, replay, run-ends, handle_note-malformed}
use msg_perf_tool.Maestro.Player.Lifecycle.{Player, Starting, has_context, start, stop, open_player}
use msg_perf_tool.Maestro.Player.Stopping.{start-stop}
use msg_perf_tool.Examples.Failures.{old}
use msg_perf_tool.Daemon.Options
use msg_perf_tool.Client.{Link, Context, name_throttle}
use msg_perf_tool.Client.Steering.{IsUp}
use msg_perf_tool.Examples.Codec.{
  codec, codec-IsLawful, next, ample, ample-Allocates, blank, duplicate,
}
use msg_perf_tool.Examples.Players.{info, resources, duplicate-Copies, sender_of-IsSender}
use msg_perf_tool.Examples.Daemons.{daemon, sheet}

-- A request that ends before its type.
abbrev cut : State
cut = record { rest = []; note = zeroed }

handle_note-malformed_example :
    (sheet_play codec resources sheet info daemon (exactly []) empty
      ≡ done (
        daemon,
        exactly (wire codec (Message.plain_response Command.protocol_error (sender_of info))),
      ))
    × (handle_note codec sheet info resources true daemon (exactly []) ≡ done (daemon, []))
unfolding deserialize_note deserialize_bytes input_of header next_object codec next payload_cleanup
handle_note-malformed_example =
    handle_note-malformed codec sheet info resources codec-IsLawful blank true daemon (exactly [])
      cut Error.missing_note_type zeroed refl duplicate-Copies ample-Allocates sender_of-IsSender
      refl refl

-- Deliveries of nothing that can be read, until the third round is cancelled.
abbrev rounds : ℕ → Round
rounds n = record {
  cancelled = ltb 1 n;
  receive = λ c. record { stat = 1; clear = true; content = c };
  resources = resources;
}

abbrev buffer : Content
buffer = record { bytes = some (7 ∷ 8 ∷ []); capacity = 2; size = 1 }

buffer-IsValid : IsValid buffer
buffer-IsValid = record { owned = (7 ∷ 8 ∷ [], refl, refl); fits = omega arith }

run-ends_example :
    (notes : List Arrival) × (length notes ≤ 2)
    × (arrivals rounds 3 0 buffer ≡ done notes)
    × (run codec sheet info rounds 3 0 daemon buffer ≡ replay codec sheet info notes daemon)
run-ends_example = run-ends codec sheet info rounds 2 daemon buffer buffer-IsValid (λ n c v. v) refl

abbrev pub link : Link
link = record {
  cloned = true;
  initialised = true;
  started = true;
  send_stat = 1;
  alloc = ample;
  strdup = duplicate;
  prepared = some blank;
  again = some blank;
  sec = 3;
  usec = 4;
}

pub link-IsUp : IsUp link
link-IsUp = record {
  cloned = refl;
  initialised = refl;
  started = refl;
  sends = refl;
  allocates = ample-Allocates;
  copies = duplicate-Copies;
  prepared = (blank, refl);
  again = (blank, refl);
}

abbrev idle : Context
idle = record { connected = false; posts = [] }

abbrev words : List Bytes
words = (115 ∷ 101 ∷ 116 ∷ []) ∷ name_throttle ∷ (55 ∷ []) ∷ []

-- Connecting to MQTT, but no context for the connection.
abbrev contextless : Starting
contextless = record {
  memory = true;
  cloned = true;
  scheme = some (b'm' ∷ b'q' ∷ b't' ∷ b't' ∷ 0 ∷ []);
  supported = λ b. true;
  identifier = true;
  lists = true;
  callback = some old;
  appended = true;
  init = λ b hs. none;
  begin = λ b hs. done 1;
  created = true;
}

start-stop_example :
    (ok : Bool) × (p : Player) × (start old contextless none ≡ done (ok, some p))
    × (p.thread ≡ ok)
    × ((e' : Starting) → start old e' (some p) ≡ done (false, some p))
    × (((has_context p ≡ true) × (stop (some p) ≡ done (true, none)))
        ⊎ ((ok ≡ false) × (stop (some p) ≡ fault) × (open_player old contextless ≡ fault)))
start-stop_example =
    start-stop old contextless (record { memory = refl; lists = refl; begin = λ b hs. (1, refl) })
