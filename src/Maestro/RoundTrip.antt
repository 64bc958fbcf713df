-- ===== src/Maestro/RoundTrip.antt =====
-- The protocol's two directions together: a note that is serialized and read back says the same.
use msg_perf_tool.Base.{
  ℕ, [], ◌≡◌, refl, ap, ◌∙◌, Option, true, some, Bytes, terminated, c_string-terminated, length,
  take-length, done,
}
use msg_perf_tool.Content.{Content}
use msg_perf_tool.Content.Random.{Allocates, copy_lem}
use msg_perf_tool.Maestro.Msgpack.{Msgpack, IsLawful}
use msg_perf_tool.Maestro.Note.{Note, Payload, as_note}
use msg_perf_tool.Maestro.Message.{
  Message, Sender, IsMessage, IsField, IsSender, Represents, HoldsPayload, HoldsSender, Holds,
  type_of, command_of, wire,
}
use msg_perf_tool.Maestro.Assign.{success, Memory}
use msg_perf_tool.Maestro.Serialize.{serialize_note}
use msg_perf_tool.Maestro.Deserialize.{deserialize_note, deserialize_bytes, input_of}
use msg_perf_tool.Maestro.Reads.{Available}
use msg_perf_tool.Maestro.Encode.{encode-wire}
use msg_perf_tool.Maestro.Decode.{carried, delivered, decode-wire}

-- The buffer with exactly these bytes.
abbrev pub exactly : Bytes → Content
exactly bs = record { bytes = some bs; capacity = length bs; size = length bs }

Holds-terminated : (s : Bytes) → IsField s → Holds (some (terminated s)) s
Holds-terminated s h = (terminated s, refl, c_string-terminated s h.text)

terminated-HoldsSender :
    (p : Payload) (s : Sender)
    → IsSender s
    → p.id ≡ some (terminated s.id)
    → p.name ≡ some (terminated s.name)
    → HoldsSender p s
terminated-HoldsSender p s h a b = record {
  id = (terminated s.id, a, c_string-terminated s.id h.id.text);
  name = (terminated s.name, b, c_string-terminated s.name h.name.text);
}

carried-HoldsPayload :
    (p : Payload) (msg : Message)
    → IsMessage msg
    → HoldsPayload (as_note (type_of msg) (command_of msg) (delivered p msg)) msg
carried-HoldsPayload p (Message.set_request opt value) (_, h) =
    (carried p (Message.set_request opt value), refl, (refl, Holds-terminated value h))
carried-HoldsPayload p (Message.ping_request sec usec) h =
    (carried p (Message.ping_request sec usec), refl, (refl, refl))
carried-HoldsPayload p (Message.plain_request c) h = tt
carried-HoldsPayload p (Message.ping_response s elapsed) (h, _) = (
  carried p (Message.ping_response s elapsed),
  refl,
  (terminated-HoldsSender _ s h refl refl, refl),
)
carried-HoldsPayload p (Message.stats_response s stats) (h, k) = (
  carried p (Message.stats_response s stats),
  refl,
  (
    terminated-HoldsSender _ s h refl refl,
    record {
      child_count = refl;
      role = Holds-terminated stats.role k.role;
      roleinfo = Holds-terminated stats.roleinfo k.roleinfo;
      stat_type = refl;
      timestamp = Holds-terminated stats.timestamp k.timestamp;
      count = refl;
      rate = refl;
      latency = refl;
    },
  ),
)
carried-HoldsPayload p (Message.plain_response c s) (_, _, _, h) =
    (carried p (Message.plain_response c s), refl, terminated-HoldsSender _ s h refl refl)
carried-HoldsPayload p (Message.notification c s message) (_, h, k) = (
  carried p (Message.notification c s message),
  refl,
  (terminated-HoldsSender _ s h refl refl, Holds-terminated message k),
)

module _ (m : Msgpack) (law : IsLawful m) where
  -- With a lawful msgpack and memory for the copy, serializing a note that represents a message of
  -- the protocol succeeds, whatever the output buffer held, and leaves in it exactly the wire
  -- format of the message.
  pub serialize-wire :
      (alloc : ℕ → Option Bytes) (n : Note) (msg : Message) (out : Content)
      → Allocates alloc
      → IsMessage msg
      → Represents n msg
      → serialize_note m alloc n out ≡ done (exactly (wire m msg), true)
  unfolding serialize_note
  serialize-wire alloc n msg out there ok r =
      rw (encode-wire m n msg ok r, serialize_note, copy_lem alloc out (wire m msg) there)

  -- With a lawful msgpack and enough memory, serializing a note that represents a message of the
  -- protocol succeeds, and deserializing the buffer it leaves succeeds with no input left and yields
  -- a note that represents the same message.
  pub deserialize-serialize :
      (mem : Memory) (alloc : ℕ → Option Bytes) (blank : Payload) (n : Note) (msg : Message)
      (out : Content)
      → Available mem
      → mem.payload ≡ some blank
      → Allocates alloc
      → IsMessage msg
      → Represents n msg
      → (packed : Content) × (copied : Note) × (serialize_note m alloc n out ≡ done (packed, true))
        × (deserialize_note m mem packed ≡ (record { rest = []; note = copied }, success))
        × Represents copied msg
  unfolding deserialize_note input_of
  deserialize-serialize mem alloc blank n msg out av there allocs ok r = (
    exactly (wire m msg),
    as_note (type_of msg) (command_of msg) (delivered blank msg),
    serialize-wire alloc n msg out allocs ok r,
    ap (deserialize_bytes m mem) (take-length (wire m msg))
        ∙ decode-wire m mem law av blank there msg ok,
    record { type = refl; command = refl; payload = carried-HoldsPayload blank msg ok },
  )
