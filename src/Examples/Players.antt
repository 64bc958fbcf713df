-- ===== src/Examples/Players.antt =====
-- A player's sheet at concrete requests.
use msg_perf_tool.Base.{
  ◌+◌, ℕ, ◌>>=◌, ◌≡◌, refl, none, some, [], ◌∷◌, arith, terminated, c_string, done, fault,
}
use msg_perf_tool.Content.{empty}
use msg_perf_tool.Maestro.Command
use msg_perf_tool.Maestro.Note.{
  Payload, as_note, block, type_response, zeroed, ping_set_elapsed, set_cmd, update, payload_of,
}
use msg_perf_tool.Maestro.Message.{Message, IsSender, Represents, wire}
use msg_perf_tool.Maestro.Assign.{State}
use msg_perf_tool.Maestro.RoundTrip.{exactly}
use msg_perf_tool.Maestro.Sheet.{Sheet, Instrument, PlayerInfo, Resources, sheet_play}
use msg_perf_tool.Maestro.Sheet.Answers.{Copies, started, sender_of, sheet_play-played}
use msg_perf_tool.Examples.Codec.{
  codec, codec-IsLawful, ample, ample-Allocates, blank, plenty, plenty-Available, duplicate,
}

abbrev pub info : PlayerInfo
info = record { id = 112 ∷ 49 ∷ 0 ∷ []; name = 115 ∷ 0 ∷ [] }

abbrev pub resources : Resources
resources = record { payload = some blank; request = plenty; alloc = ample; strdup = duplicate }

abbrev poor : Resources
poor = record resources { payload = none }

-- An instrument that answers a ping with an elapsed time of 5, and one for another command.
abbrev echo : Instrument ℕ
echo = record {
  command = Command.ping;
  play = λ count request response info.
      ping_set_elapsed (set_cmd response Command.ping) 5 >>= λ n. done (count + 1, n);
}

abbrev pub mute : Instrument ℕ
mute = record { command = Command.flush; play = λ count request response info. fault }

abbrev sheet : Sheet ℕ
sheet = record { instruments = some (mute ∷ echo ∷ mute ∷ []); count = 0; topics = []; qos = 0 }

pub duplicate-Copies : Copies duplicate
duplicate-Copies s = refl

pub sender_of-IsSender : IsSender (sender_of info)
unfolding c_string
sender_of-IsSender = record {
  id = record { text = ground arith; short = omega arith };
  name = record { text = ground arith; short = omega arith };
}

abbrev ping : Message
ping = Message.ping_request 3 4

abbrev pong : Message
pong = Message.ping_response (sender_of info) 5

abbrev ponged : Payload
ponged = record (started blank info) { elapsed = 5 }

pong-Represents : Represents (as_note type_response Command.ping (block ponged)) pong
unfolding c_string
pong-Represents = record {
  type = refl;
  command = refl;
  payload = (
    ponged,
    refl,
    (
      record {
        id = (terminated (112 ∷ 49 ∷ []), refl, refl);
        name = (terminated (115 ∷ []), refl, refl);
      },
      refl,
    ),
  );
}

-- A request that ends before its type.
abbrev cut : State
cut = record { rest = []; note = zeroed }

sheet_play-played_example :
    sheet_play codec resources sheet info 7 (exactly (wire codec ping)) empty
    ≡ done (8, exactly (wire codec pong))
unfolding ping_set_elapsed set_cmd update payload_of
sheet_play-played_example =
    sheet_play-played codec resources blank refl duplicate-Copies codec-IsLawful plenty-Available
      blank refl sheet 7 8 (mute ∷ []) (mute ∷ []) echo info ping pong type_response Command.ping
      ponged empty ample-Allocates (omega arith, omega arith) refl (ground arith) refl refl
      pong-Represents (sender_of-IsSender, omega arith)
