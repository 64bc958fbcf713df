-- ===== src/Maestro/Serialize.antt =====
-- Notes to bytes: maestro_serialize.c. The exchanges pack into a buffer of msgpack and copy that
-- into `out`; the allocation of the copy is an argument.
use msg_perf_tool.Base.{
  ℕ, ◌%◌, ◌^◌, ◌==◌, if◌then◌else◌, Bool, true, false, Option, none, some, ◌++◌, Bytes, c_string,
  length, Outcome, done, fault, ◌>>=◌,
}
use msg_perf_tool.Content.{Content, copy}
use msg_perf_tool.Maestro.Command
use msg_perf_tool.Maestro.Msgpack.{Msgpack}
use msg_perf_tool.Maestro.Note.{
  Note, null, wild, block, payload_of, type_request, type_response, type_notification,
}

module _ (m : Msgpack) where
  open m use {
    pack_int8, pack_uint8, pack_uint32, pack_int64, pack_uint64, pack_double, pack_str,
    pack_str_body,
  }

  -- `maestro_serialize_str_field`; `strlen` of a null pointer is a fault.
  unfoldable pub str_field : Option Bytes → Outcome Bytes
  str_field none = fault
  str_field (some s) = let text = c_string s in done (pack_str (length text) ++ pack_str_body text)

  -- The type and the command, which every note begins with.
  unfoldable pub note_header : Note → Bytes
  note_header n = pack_int8 (n.type % 2 ^ 8) ++ pack_int64 n.command

  -- `maestro_serialize_response_header`
  unfoldable pub response_header : Note → Outcome Bytes
  unfolding str_field payload_of
  response_header n = do
    p ← payload_of n
    id ← str_field p.id
    name ← str_field p.name
    done (id ++ name)

  -- `maestro_serialize_notification_header`
  unfoldable pub notification_header : Note → Outcome Bytes
  unfolding str_field payload_of
  notification_header n = do
    p ← payload_of n
    id ← str_field p.id
    name ← str_field p.name
    done (id ++ name)

  -- What the exchanges below pack; `none` where the code returns false before the copy.
  -- `maestro_serialize_empty_exchange`
  unfoldable pub empty_exchange : Note → Outcome (Option Bytes)
  unfolding note_header response_header
  empty_exchange n =
      if n.type == type_response
      then (do header ← response_header n; done (some (note_header n ++ header)))
      else done (some (note_header n))

  -- `maestro_note_set_request`
  unfoldable pub set_request : Note → Outcome (Option Bytes)
  unfolding note_header str_field
  set_request n = elim n.payload [
    | null ↦ done none
    | wild ↦ fault
    | block p ↦ (do
      value ← str_field p.value
      done (some (note_header n ++ pack_int64 p.opt ++ value)))
  ]

  -- `maestro_serialize_ping_request`
  unfoldable pub ping_request : Note → Outcome (Option Bytes)
  unfolding note_header
  ping_request n = elim n.payload [
    | null ↦ done none
    | wild ↦ fault
    | block p ↦ done (some (note_header n ++ pack_uint64 p.sec ++ pack_uint64 p.usec))
  ]

  -- `maestro_serialize_ping_response`
  unfoldable pub ping_response : Note → Outcome (Option Bytes)
  unfolding note_header response_header payload_of
  ping_response n = do
    header ← response_header n
    p ← payload_of n
    done (some (note_header n ++ header ++ pack_uint64 p.elapsed))

  -- `maestro_serialize_stats_response`
  unfoldable pub stats_response : Note → Outcome (Option Bytes)
  unfolding note_header response_header payload_of str_field
  stats_response n = do
    header ← response_header n
    p ← payload_of n
    let s = p.stats
    role ← str_field s.role
    roleinfo ← str_field s.roleinfo
    timestamp ← str_field s.timestamp
    let perf = pack_uint64 s.count ++ pack_double s.rate ++ pack_double s.latency
    let roles = pack_uint32 s.child_count ++ role ++ roleinfo
    done (
        some (
          note_header n
          ++ header
          ++ roles
          ++ pack_uint8 (s.stat_type % 2 ^ 8)
          ++ timestamp
          ++ perf))

  -- `maestro_serialize_notification_exchange`
  unfoldable pub notification_exchange : Note → Outcome (Option Bytes)
  unfolding note_header notification_header payload_of str_field
  notification_exchange n = do
    header ← notification_header n
    p ← payload_of n
    message ← str_field p.message
    done (some (note_header n ++ header ++ message))

  -- `maestro_serialize_request`
  unfoldable pub encode_request : Note → Outcome (Option Bytes)
  unfolding set_request ping_request empty_exchange
  encode_request n =
      if n.command == Command.set
      then set_request n
      else if n.command == Command.ping
      then ping_request n
      else empty_exchange n

  -- `maestro_serialize_response`
  unfoldable pub encode_response : Note → Outcome (Option Bytes)
  unfolding ping_response stats_response empty_exchange
  encode_response n =
      if n.command == Command.ping
      then ping_response n
      else if n.command == Command.stats
      then stats_response n
      else empty_exchange n

  -- The switch of `maestro_serialize_note`; a type that is none of the three packs nothing.
  unfoldable pub encode_note : Note → Outcome (Option Bytes)
  unfolding encode_request encode_response notification_exchange
  encode_note n =
      if n.type == type_request
      then encode_request n
      else if n.type == type_response
      then encode_response n
      else if n.type == type_notification
      then notification_exchange n
      else done none

  -- `maestro_serialize_note` with the copy into `out`, whose own result the exchanges ignore.
  unfoldable pub serialize_note : (ℕ → Option Bytes) → Note → Content → Outcome (Content × Bool)
  unfolding encode_note copy
  serialize_note alloc n out = do
    packed ← encode_note n
    elim packed [
      | none ↦ done (out, false)
      | some bs ↦ (do (out, _) ← copy alloc out bs; done (out, true))
    ]
