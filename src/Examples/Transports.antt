-- ===== src/Examples/Transports.antt =====
-- The binding to MQTT at concrete messages.
use msg_perf_tool.Base.{
  fault, ◌>>=◌, ◌<◌, ◌≤◌, ◌≡◌, ◌⊎◌, refl, true, false, none, some, [], ◌∷◌, replicate, Bytes,
  c_string, done, arith, ◌==◌,
}
use msg_perf_tool.Content.{Content, IsValid}
use msg_perf_tool.Vmsl.{vmsl_success}
use msg_perf_tool.Handlers.Lists.{pointers}
use msg_perf_tool.Maestro.Command
use msg_perf_tool.Maestro.Message.{Message, wire}
use msg_perf_tool.Maestro.Deserialize.{input_of}
use msg_perf_tool.Maestro.Sheet.Answers.{sender_of}
use msg_perf_tool.Maestro.Notify.{Told, notify}
use msg_perf_tool.Bindings.{Options, Variants, boolean, Keypair, Room, takes_latency}
use msg_perf_tool.Bindings.Paho.{Setters, Publication}
use msg_perf_tool.Bindings.Paho.Transfer.{Setup, Transport, received, receive, send, init}
use msg_perf_tool.Bindings.Paho.Receiving.{receive-IsValid}
use msg_perf_tool.Bindings.Paho.Sending.{LeavesMessages, Takes, on_wire, send-receive}
use msg_perf_tool.Bindings.Paho.Retained.{notify-retained}
use msg_perf_tool.Bindings.Paho.Latency.{load-send-unterminated}
use msg_perf_tool.Strategy.{fixed_init, fixed_load, variable_init, variable_load}
use msg_perf_tool.Examples.Codec.{ample, ample-Allocates}
use msg_perf_tool.Bindings.Paho.Tables.{AreTables, HasPlaces, init-AreTables}
use msg_perf_tool.Examples.Codec.{codec, codec-IsLawful, plenty, blank}
use msg_perf_tool.Examples.Players.{info, sender_of-IsSender}
use msg_perf_tool.Examples.Failures.{old, post, post-HasRoom}

abbrev pub plain : Options
plain = record { sends = true; statistics = 2 }

abbrev timed : Options
timed = record { sends = true; statistics = 3 }

abbrev pub values : Variants
values = record {
  kind = λ v. boolean;
  inumber = λ v. 7;
  flag = λ v. v == 4;
  equals = λ v text. false;
}

abbrev setters : Setters
setters = record {
  keep_alive = 10;
  clean_session = 11;
  qos_mode = 12;
  retained = 3;
  other_options = λ c opts. opts;
  other = λ c msg. msg;
}

setters-LeavesMessages : LeavesMessages setters
setters-LeavesMessages = record {
  payload = λ c msg. refl;
  payload_length = λ c msg. refl;
  retained = λ c msg. refl;
  distinct = omega arith;
}

abbrev transport : Transport
transport = record {
  initial = record { payload = none; payload_length = 0; qos = 0; retained = false };
  stamp = replicate 17 b'1';
  prints = true;
  publish = λ msg. 0;
  completed = 0;
}

transport-Takes : Takes transport
transport-Takes = record { publish = λ msg. refl; completed = refl }

abbrev pub small : Content
small = record { bytes = some (7 ∷ 8 ∷ 9 ∷ []); capacity = 3; size = 2 }

pub small-IsValid : IsValid small
small-IsValid = record { owned = (7 ∷ 8 ∷ 9 ∷ [], refl, refl); fits = omega arith }

plain-plain : takes_latency plain ≡ false
unfolding takes_latency
plain-plain = refl

timed-timed : takes_latency timed ≡ true
unfolding takes_latency
timed-timed = refl

receive-IsValid_example :
    (c' : Content) × (receive
        (λ s. 0)
        plain
        (pointers [])
        (pointers [])
        (received (some (1 ∷ 2 ∷ 3 ∷ 4 ∷ [])))
        small
      ≡ done (record { stat = vmsl_success; content = c'; created = none }))
    × (c'.capacity ≡ 3)
    × (((4 ≤ 3) × IsValid c' × (input_of codec plenty c' ≡ 1 ∷ 2 ∷ 3 ∷ 4 ∷ []))
        ⊎ ((3 < 4) × (c'.capacity < c'.size)))
receive-IsValid_example =
    receive-IsValid codec plenty (λ s. 0) plain [] [] plain-plain (1 ∷ 2 ∷ 3 ∷ 4 ∷ []) small
      small-IsValid (omega arith) (omega arith)

send-receive_example :
    (msg : Publication) × (payload : Bytes) × (c' : Content) × (send values setters transport plain
        (pointers (old ∷ []))
        (pointers [])
        small
      ≡ done (vmsl_success, msg ∷ []))
    × (on_wire msg ≡ some payload)
    × (receive (λ s. 0) plain (pointers []) (pointers []) (received (some payload)) small
        ≡ done (record { stat = vmsl_success; content = c'; created = none }))
    × IsValid c'
    × (input_of codec plenty c' ≡ input_of codec plenty small)
send-receive_example =
    send-receive values setters setters-LeavesMessages transport transport-Takes plain plain-plain
      codec plenty (λ s. 0) plain (old ∷ []) [] [] [] small small plain-plain small-IsValid
      (omega arith) small-IsValid (omega arith)

notify-retained_example :
    (told : Told) × (first : Publication) × (second : Publication) × (notify codec post info
        Command.notify_fail
        (108 ∷ 0 ∷ [])
        (pointers (old ∷ []))
      ≡ done told)
    × (send values setters transport plain told.sending (pointers []) told.content
        ≡ done (vmsl_success, first ∷ []))
    × (on_wire first
        ≡ some (
            wire codec (
              Message.notification Command.notify_fail (sender_of info) (c_string (108 ∷ 0 ∷ [])))))
    × (first.retained ≡ true)
    × (send values setters transport plain told.handlers (pointers []) small
        ≡ done (vmsl_success, second ∷ []))
    × (on_wire second ≡ some (input_of codec plenty small))
    × (second.retained ≡ false)
unfolding c_string codec
notify-retained_example =
    notify-retained values setters setters-LeavesMessages transport transport-Takes plain
      plain-plain codec codec-IsLawful plenty post blank post-HasRoom info Command.notify_fail
      (108 ∷ 0 ∷ []) (old ∷ []) [] small (omega arith) sender_of-IsSender
      (record { text = ground arith; short = omega arith }) (tt, tt) refl (omega arith) refl refl
      refl (ground arith) small-IsValid (omega arith)

load-send-unterminated_example :
    ((fixed_init ample small 7 >>= λ (n, filled, ok).
    send values setters transport timed (pointers []) (pointers []) (fixed_load n filled).0)
      ≡ fault)
    × ((variable_init ample (λ n. 5) small 7 >>= λ (b, filled, ok).
          send values setters transport timed
            (pointers [])
            (pointers [])
            (variable_load b 3 filled).0)
        ≡ fault)
load-send-unterminated_example =
    load-send-unterminated values setters transport timed (pointers []) (pointers []) timed-timed
      ample (λ n. 5) 7 3 small ample-Allocates (omega arith) (omega arith)

abbrev pub room : Room
room = record { memory = λ n call. some old; appended = λ n call. true }

pub room-HasPlaces : HasPlaces room
room-HasPlaces = record { memory = λ n call. (old, refl); appended = λ n call. refl }

abbrev setup : Setup
setup = record {
  initial = record { keep_alive = 60; clean_session = true };
  allocated = true;
  context = true;
  scheme = true;
  created = 0;
  connect = λ opts. 0;
}

abbrev asked : Keypair
asked = record { key_equals = λ name. true; pair = 4 }

init-AreTables_example :
    AreTables
      (init values setters setup plain room
        (asked ∷ asked ∷ [])
        (record { before_connect = []; before_send = pointers (old ∷ []) })).1
init-AreTables_example =
    init-AreTables room room-HasPlaces values setters plain setup (asked ∷ asked ∷ [])
      (record { before_connect = []; before_send = pointers (old ∷ []) })
      (record { before_connect = ([], refl, tt); before_send = (old ∷ [], refl, (tt, tt)) })
