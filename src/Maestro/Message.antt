-- ===== src/Maestro/Message.antt =====
-- What a note says, without its memory: the abstract messages of the protocol, the notes that
-- represent them, and the objects of their wire format in order.
use msg_perf_tool.Base.{
  ℕ, ◌+◌, ◌^◌, ◌<◌, ◌≡◌, ◌≢◌, Option, some, List, [], ◌∷◌, ◌++◌, Bytes, c_string, IsText, length,
}
use msg_perf_tool.Maestro.Command
use msg_perf_tool.Maestro.Msgpack.{Msgpack}
use msg_perf_tool.Maestro.Note.{
  Note, Payload, StatsReply, block, type_request, type_response, type_notification,
}

pub record Stats : Type 0 where
  pub child_count : ℕ
  pub role : Bytes
  pub roleinfo : Bytes
  pub stat_type : ℕ
  pub timestamp : Bytes
  pub count : ℕ
  pub rate : ℕ
  pub latency : ℕ

-- Who answers: the id and the name that every response and notification carries.
pub record Sender : Type 0 where
  pub id : Bytes
  pub name : Bytes

pub data Message : Type 0 where
  set_request : ℕ → Bytes → Message
  ping_request : ℕ → ℕ → Message
  plain_request : ℕ → Message
  ping_response : Sender → ℕ → Message
  stats_response : Sender → Stats → Message
  plain_response : ℕ → Sender → Message
  notification : ℕ → Sender → Bytes → Message

-- A text that the protocol can carry, and a 64-bit word.
pub record IsField (s : Bytes) : Type 0 where
  pub text : IsText s
  pub short : length s + 1 < 2 ^ 32

abbrev pub IsWord : ℕ → Type 0
IsWord w = w < 2 ^ 64

pub record IsSender (s : Sender) : Type 0 where
  pub id : IsField s.id
  pub name : IsField s.name

pub record IsStats (s : Stats) : Type 0 where
  pub child_count : s.child_count < 2 ^ 32
  pub role : IsField s.role
  pub roleinfo : IsField s.roleinfo
  pub stat_type : s.stat_type < 2 ^ 8
  pub timestamp : IsField s.timestamp
  pub count : IsWord s.count
  pub rate : IsWord s.rate
  pub latency : IsWord s.latency

-- The messages that the protocol can carry. A plain request or response has a command with no
-- body of its own.
abbrev pub IsMessage : Message → Type 0
IsMessage (set_request opt value) = IsWord opt × IsField value
IsMessage (ping_request sec usec) = IsWord sec × IsWord usec
IsMessage (plain_request c) = (c < 2 ^ 32) × (c ≢ Command.set) × (c ≢ Command.ping)
IsMessage (ping_response s elapsed) = IsSender s × IsWord elapsed
IsMessage (stats_response s stats) = IsSender s × IsStats stats
IsMessage (plain_response c s) =
    (c < 2 ^ 32) × (c ≢ Command.ping) × (c ≢ Command.stats) × IsSender s
IsMessage (notification c s message) = (c < 2 ^ 32) × IsSender s × IsField message

-- The buffer behind a string member holds the text.
abbrev pub Holds : Option Bytes → Bytes → Type 0
Holds member s = (region : Bytes) × (member ≡ some region) × (c_string region ≡ s)

pub record HoldsSender (p : Payload) (s : Sender) : Type 0 where
  pub id : Holds p.id s.id
  pub name : Holds p.name s.name

pub record HoldsStats (r : StatsReply) (s : Stats) : Type 0 where
  pub child_count : r.child_count ≡ s.child_count
  pub role : Holds r.role s.role
  pub roleinfo : Holds r.roleinfo s.roleinfo
  pub stat_type : r.stat_type ≡ s.stat_type
  pub timestamp : Holds r.timestamp s.timestamp
  pub count : r.count ≡ s.count
  pub rate : r.rate ≡ s.rate
  pub latency : r.latency ≡ s.latency

abbrev pub HoldsBody : Payload → Message → Type 0
HoldsBody p (set_request opt value) = (p.opt ≡ opt) × Holds p.value value
HoldsBody p (ping_request sec usec) = (p.sec ≡ sec) × (p.usec ≡ usec)
HoldsBody p (plain_request c) = Unit {0}
HoldsBody p (ping_response s elapsed) = HoldsSender p s × (p.elapsed ≡ elapsed)
HoldsBody p (stats_response s stats) = HoldsSender p s × HoldsStats p.stats stats
HoldsBody p (plain_response c s) = HoldsSender p s
HoldsBody p (notification c s message) = HoldsSender p s × Holds p.message message

abbrev pub type_of : Message → ℕ
type_of (set_request opt value) = type_request
type_of (ping_request sec usec) = type_request
type_of (plain_request c) = type_request
type_of (ping_response s elapsed) = type_response
type_of (stats_response s stats) = type_response
type_of (plain_response c s) = type_response
type_of (notification c s message) = type_notification

abbrev pub command_of : Message → ℕ
command_of (set_request opt value) = Command.set
command_of (ping_request sec usec) = Command.ping
command_of (plain_request c) = c
command_of (ping_response s elapsed) = Command.ping
command_of (stats_response s stats) = Command.stats
command_of (plain_response c s) = c
command_of (notification c s message) = c

-- A plain request has no payload to read; every other note reads its own.
abbrev pub HoldsPayload : Note → Message → Type 0
HoldsPayload n (plain_request c) = Unit {0}
HoldsPayload n msg = (p : Payload) × (n.payload ≡ block p) × HoldsBody p msg

-- The note represents the message.
pub record Represents (n : Note) (msg : Message) : Type 0 where
  pub type : n.type ≡ type_of msg
  pub command : n.command ≡ command_of msg
  pub payload : HoldsPayload n msg

-- The wire format: the encodings of the message's members, in order.
abbrev pub text_piece : Msgpack → Bytes → Bytes
text_piece m s = m.pack_str (length s) ++ m.pack_str_body s

abbrev pub joined : List Bytes → Bytes
joined [] = []
joined (piece ∷ pieces) = piece ++ joined pieces

module _ (m : Msgpack) where
  abbrev pub sender_pieces : Sender → List Bytes → List Bytes
  sender_pieces s pieces = text_piece m s.id ∷ text_piece m s.name ∷ pieces

  abbrev pub stats_pieces : Stats → List Bytes
  stats_pieces s =
      m.pack_uint32 s.child_count
      ∷ text_piece m s.role
      ∷ text_piece m s.roleinfo
      ∷ m.pack_uint8 s.stat_type
      ∷ text_piece m s.timestamp
      ∷ m.pack_uint64 s.count
      ∷ m.pack_double s.rate
      ∷ m.pack_double s.latency
      ∷ []

  abbrev pub body_pieces : Message → List Bytes
  body_pieces (set_request opt value) = m.pack_int64 opt ∷ text_piece m value ∷ []
  body_pieces (ping_request sec usec) = m.pack_uint64 sec ∷ m.pack_uint64 usec ∷ []
  body_pieces (plain_request c) = []
  body_pieces (ping_response s elapsed) = sender_pieces s (m.pack_uint64 elapsed ∷ [])
  body_pieces (stats_response s stats) = sender_pieces s (stats_pieces stats)
  body_pieces (plain_response c s) = sender_pieces s []
  body_pieces (notification c s message) = sender_pieces s (text_piece m message ∷ [])

  abbrev pub wire : Message → Bytes
  wire msg = joined (m.pack_int8 (type_of msg) ∷ m.pack_int64 (command_of msg) ∷ body_pieces msg)
