-- ===== src/Examples/Notes.antt =====
-- The note protocol at concrete inputs.
use msg_perf_tool.Base.{
  ◌+◌, ◌^◌, ◌≡◌, refl, some, [], ◌∷◌, ◌++◌, Bytes, arith, terminated, c_string, done, fault, true,
}
use msg_perf_tool.Content.{Content, empty}
use msg_perf_tool.Maestro.Command
use msg_perf_tool.Maestro.Note.{
  Note, StatsReply, as_note, block, wild, type_request, type_response, payload_cleanup,
}
use msg_perf_tool.Maestro.Message.{
  Message, Sender, Stats, IsMessage, IsField, IsSender, Represents, wire,
}
use msg_perf_tool.Maestro.Assign.{success}
use msg_perf_tool.Maestro.Serialize.{serialize_note}
use msg_perf_tool.Maestro.Deserialize.{deserialize_note, deserialize_bytes}
use msg_perf_tool.Maestro.Msgpack.{Encodes, unsupported}
use msg_perf_tool.Maestro.Reads.{at}
use msg_perf_tool.Maestro.Decode.{decode-wire, delivered}
use msg_perf_tool.Maestro.RoundTrip.{deserialize-serialize}
use msg_perf_tool.Maestro.Hostile.{response_accepts_bad_id, command_overwrites_payload}
use msg_perf_tool.Examples.Codec.{
  codec, next, codec-IsLawful, ample, ample-Allocates, blank, plenty, plenty-Available,
}

abbrev player_id : Bytes
player_id = 112 ∷ 49 ∷ []

abbrev player_name : Bytes
player_name = 115 ∷ []

player_id-IsField : IsField player_id
player_id-IsField = record { text = ground arith; short = omega arith }

player_name-IsField : IsField player_name
player_name-IsField = record { text = ground arith; short = omega arith }

abbrev player : Sender
player = record { id = player_id; name = player_name }

player-IsSender : IsSender player
player-IsSender = record { id = player_id-IsField; name = player_name-IsField }

abbrev stats : Stats
stats = record {
  child_count = 3;
  role = player_name;
  roleinfo = player_id;
  stat_type = 1;
  timestamp = player_name;
  count = 1000;
  rate = 2 ^ 62;
  latency = 7;
}

abbrev reply : StatsReply
reply = record {
  child_count = 3;
  role = some (terminated player_name);
  roleinfo = some (terminated player_id);
  stat_type = 1;
  timestamp = some (terminated player_name);
  count = 1000;
  rate = 2 ^ 62;
  latency = 7;
}

-- A response to a request for statistics, and the note of it.
abbrev answer : Message
answer = Message.stats_response player stats

abbrev note : Note
note = as_note type_response Command.stats (
    block (record blank {
      id = some (terminated player_id);
      name = some (terminated player_name);
      stats = reply;
    }))

answer-IsMessage : IsMessage answer
answer-IsMessage = (
  player-IsSender,
  record {
    child_count = omega arith;
    role = player_name-IsField;
    roleinfo = player_id-IsField;
    stat_type = omega arith;
    timestamp = player_name-IsField;
    count = omega arith;
    rate = omega arith;
    latency = omega arith;
  },
)

note-Represents : Represents note answer
unfolding c_string
note-Represents = record {
  type = refl;
  command = refl;
  payload = (
    record blank {
      id = some (terminated player_id);
      name = some (terminated player_name);
      stats = reply;
    },
    refl,
    (
      record {
        id = (terminated player_id, refl, refl);
        name = (terminated player_name, refl, refl);
      },
      record {
        child_count = refl;
        role = (terminated player_name, refl, refl);
        roleinfo = (terminated player_id, refl, refl);
        stat_type = refl;
        timestamp = (terminated player_name, refl, refl);
        count = refl;
        rate = refl;
        latency = refl;
      },
    ),
  );
}

decode-wire_example : deserialize_bytes codec plenty (wire codec answer) ≡ (
  record { rest = []; note = as_note type_response Command.stats (delivered blank answer) },
  success,
)
decode-wire_example =
    decode-wire codec plenty codec-IsLawful plenty-Available blank refl answer answer-IsMessage

deserialize-serialize_example :
    (packed : Content) × (copied : Note) × (serialize_note codec ample note empty
      ≡ done (packed, true))
    × (deserialize_note codec plenty packed ≡ (record { rest = []; note = copied }, success))
    × Represents copied answer
deserialize-serialize_example =
    deserialize-serialize codec codec-IsLawful plenty ample blank note answer empty plenty-Available
      refl ample-Allocates answer-IsMessage note-Represents

-- A map or an array, which the code refuses, in the place of the id.
odd_Encodes : Encodes codec (unsupported 7) (5 ∷ 7 ∷ [])
unfolding codec next
odd_Encodes rest = refl

response_accepts_bad_id_example :
    deserialize_bytes codec plenty (
      codec.pack_int8 type_response
      ++ (codec.pack_int64 Command.ping ++ ((5 ∷ 7 ∷ []) ++ (codec.pack_uint64 42 ++ []))))
    ≡ (
      at type_response Command.ping (record blank { id = some (0 ∷ []); elapsed = 42 }) [],
      success,
    )
response_accepts_bad_id_example =
    response_accepts_bad_id codec plenty codec-IsLawful blank 7 42 (5 ∷ 7 ∷ []) [] (0 ∷ []) refl
      odd_Encodes refl (omega arith)

command_overwrites_payload_example :
    let hostile = as_note type_request Command.flush wild in
    (deserialize_bytes codec plenty
        (codec.pack_int8 type_request ++ (codec.pack_int64 (2 ^ 32 + Command.flush) ++ []))
      ≡ (record { rest = []; note = hostile }, success))
    × (payload_cleanup hostile ≡ fault)
command_overwrites_payload_example =
    command_overwrites_payload codec plenty codec-IsLawful (2 ^ 32 + Command.flush) [] (omega arith)
      (omega arith) (ground arith) (ground arith)

abbrev long_text : Bytes
long_text = 65 ∷ 65 ∷ 65 ∷ 65 ∷ 65 ∷ 65 ∷ 65 ∷ 65 ∷ 65 ∷ 65 ∷ 65 ∷ 65 ∷ []
