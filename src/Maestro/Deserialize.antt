-- ===== src/Maestro/Deserialize.antt =====
-- Bytes to notes: maestro_deserialize.c, function by function.
use msg_perf_tool.Base.{
  ℕ, ◌+◌, ◌%◌, ◌^◌, ◌==◌, if◌then◌else◌, Option, none, some, [], Bytes, length, take,
}
use msg_perf_tool.Content.{Content}
use msg_perf_tool.Maestro.Command
use msg_perf_tool.Maestro.Msgpack.{Msgpack, Object, positive_integer, str}
use msg_perf_tool.Maestro.Note.{
  Payload, zeroed, payload_prepare, type_request, type_response, type_notification,
}
use msg_perf_tool.Maestro.Assign.{
  Error, Status, State, Step, ◌>>◌, success, failed, crashed, Site, Memory, assign_type,
  assign_command, with_payload, store_word, store_text, with_stats,
}

module _ (m : Msgpack) (mem : Memory) where
  -- `msgpack_unpack_next`, with the failure that the code reports when it does not succeed.
  unfoldable pub next_object : Error → (Object → Step) → Step
  next_object e k s = elim (m.unpack_next s.rest) [
    | none ↦ (s, failed e)
    | some (o, rest) ↦ k o (record s { rest = rest })
  ]

  -- `msg->data.via.str.size`, a `uint32_t`.
  unfoldable pub str_size : Object → ℕ
  str_size (str s) = length s % 2 ^ 32
  str_size o = mem.stray o

  -- One member of 64 bits.
  unfoldable pub read_word : Error → (Payload → ℕ) → (Payload → ℕ → Payload) → Step
  unfolding next_object with_payload
  read_word e get put = next_object e λ o. with_payload λ p. store_word o (get p) (put p) p

  -- One string member.
  unfoldable pub read_text : Error → Site → (Payload → Option Bytes → Payload) → Step
  unfolding next_object with_payload
  read_text e site put =
      next_object e
        λ o. with_payload λ p. store_text o (mem.alloc site ((str_size o + 1) % 2 ^ 32)) (put p)

  unfoldable pub prepare : Step
  unfolding payload_prepare
  prepare s =
      let (n, there) = payload_prepare mem.payload s.note in
      (record s { note = n }, if there then success else failed Error.no_memory)

  -- `maestro_deserialize_note_set_request`
  unfoldable pub set_request : Step
  set_request =
      prepare
      >> read_word Error.missing_set_command (λ p. p.opt) (λ p w. record p { opt = w })
      >> read_text Error.missing_set_value Site.at_value (λ p t. record p { value = t })

  -- `maestro_deserialize_note_ping_request`; the second failure has the text of a set request.
  unfoldable pub ping_request : Step
  ping_request =
      prepare
      >> read_word Error.missing_ping_timestamp (λ p. p.sec) (λ p w. record p { sec = w })
      >> read_word Error.missing_set_command (λ p. p.usec) (λ p w. record p { usec = w })

  -- `maestro_deserialize_response_header`
  unfoldable pub response_header : Step
  response_header =
      read_text Error.missing_response_id Site.at_id (λ p t. record p { id = t })
      >> read_text Error.missing_response_name Site.at_name (λ p t. record p { name = t })

  -- `maestro_deserialize_notification_header`
  unfoldable pub notification_header : Step
  notification_header =
      read_text Error.missing_notification_id Site.at_id (λ p t. record p { id = t })
      >> read_text Error.missing_notification_name Site.at_name (λ p t. record p { name = t })

  -- `maestro_deserialize_note_ping_response`
  unfoldable pub ping_response : Step
  ping_response = read_word Error.missing_elapsed (λ p. p.elapsed) (λ p w. record p { elapsed = w })

  -- `maestro_deserialize_note_stats_response`, the members of the role and then those of the
  -- performance. `child_count` and `stat_type` have 32 bits.
  unfoldable pub stats_roles : Step
  stats_roles =
      read_word Error.missing_child_count (λ p. p.stats.child_count)
        (λ p w. with_stats p (record (p.stats) { child_count = w % 2 ^ 32 }))
      >> read_text Error.missing_role Site.at_role
          (λ p t. with_stats p (record (p.stats) { role = t }))
      >> read_text Error.missing_roleinfo Site.at_roleinfo
          (λ p t. with_stats p (record (p.stats) { roleinfo = t }))
      >> read_word Error.missing_stat_type (λ p. p.stats.stat_type)
          (λ p w. with_stats p (record (p.stats) { stat_type = w % 2 ^ 32 }))

  unfoldable pub stats_perf : Step
  stats_perf =
      read_text Error.missing_perf_timestamp Site.at_timestamp
        (λ p t. with_stats p (record (p.stats) { timestamp = t }))
      >> read_word Error.missing_perf_count (λ p. p.stats.count)
          (λ p w. with_stats p (record (p.stats) { count = w }))
      >> read_word Error.missing_perf_rate (λ p. p.stats.rate)
          (λ p w. with_stats p (record (p.stats) { rate = w }))
      >> read_word Error.missing_perf_latency (λ p. p.stats.latency)
          (λ p w. with_stats p (record (p.stats) { latency = w }))

  unfoldable pub stats_response : Step
  stats_response = stats_roles >> stats_perf

  -- What follows the header of a response: the result of the header is overwritten by that of a
  -- ping or stats body, and kept for any other command. A crash ends the run.
  unfoldable pub response_body : State × Status → State × Status
  response_body (s, crashed) = (s, crashed)
  response_body (s, st) =
      if s.note.command == Command.ping
      then ping_response s
      else if s.note.command == Command.stats
      then stats_response s
      else (s, st)

  -- `maestro_deserialize_response`
  unfoldable pub response : Step
  response = prepare >> λ s. response_body (response_header s)

  -- `maestro_deserialize_request`
  unfoldable pub request : Step
  request s =
      if s.note.command == Command.set
      then set_request s
      else if s.note.command == Command.ping
      then ping_request s
      else (s, success)

  -- `maestro_deserialize_notification`
  unfoldable pub notification : Step
  notification =
      prepare
      >> notification_header
      >> read_text Error.missing_message Site.at_message (λ p t. record p { message = t })

  -- The type has to be a positive integer; for the command any object will do.
  unfoldable pub store_type : Object → Step
  store_type (positive_integer w) s = assign_type (positive_integer w) s
  store_type o s = (s, failed Error.invalid_note_type)

  unfoldable pub header : Step
  unfolding next_object store_type
  header =
      next_object Error.missing_note_type store_type
      >> next_object Error.missing_command assign_command

  -- The switch on the type; any other type succeeds with no payload.
  unfoldable pub body : Step
  body s =
      if s.note.type == type_response
      then response s
      else if s.note.type == type_request
      then request s
      else if s.note.type == type_notification
      then notification s
      else (s, success)

  -- `maestro_deserialize_note` on a zeroed note, which is what its callers pass.
  unfoldable pub deserialize_bytes : Bytes → State × Status
  deserialize_bytes input = (header >> body) (record { rest = input; note = zeroed })

  -- The input is the first `size` bytes of the buffer.
  unfoldable pub input_of : Content → Bytes
  input_of c = elim c.bytes [ none ↦ [] | some bs ↦ take c.size bs ]

  unfoldable pub deserialize_note : Content → State × Status
  deserialize_note c = deserialize_bytes (input_of c)
