-- ===== src/Client/Collecting.antt =====
-- The answers that the client collects: `maestro_cmd_do_collect` of maestro_command.c with the
-- functions that print a note. A line that is printed is what stands in it.
use msg_perf_tool.Base.{
  ℕ, zero, suc, ◌-◌, ◌==◌, ltb, length, take, if◌then◌else◌, Option, none, some, List, [], ◌∷◌,
  Bytes, Outcome, done, fault, unended, ◌>>=◌,
}
use msg_perf_tool.Content
use msg_perf_tool.Content.{Content, empty}
use msg_perf_tool.Maestro.Command
use msg_perf_tool.Maestro.Msgpack.{Msgpack}
use msg_perf_tool.Maestro.Note.{
  Note, Payload, type_response, type_notification, payload_of, payload_cleanup,
}
use msg_perf_tool.Maestro.Assign.{Memory, Status, success, failed, crashed}
use msg_perf_tool.Maestro.Notify.{note_size}
use msg_perf_tool.Maestro.Deserialize.{deserialize_note}
use msg_perf_tool.Worker.Ipc.{Received, message, nothing, broken}

-- What stands behind the name and the id of an answer.
pub data Said : Type 0 where
  fine : Said
  elapsed : ℕ → Said
  figures : ℕ → ℕ → ℕ → ℕ → Said
  refused : Said
  failing : Said
  unhandled : ℕ → Said

-- A line: its name and its id, and what else it says. A null string is printed as such.
pub data Line : Type 0 where
  unknown : Line
  answer : Option Bytes → Option Bytes → Said → Line
  notice : Option Bytes → Option Bytes → Option Bytes → Line
  unhandled_notice : Option Bytes → Option Bytes → Line

-- The switch of `maestro_cmd_print_responses`
unfoldable pub said : ℕ → Payload → Said
said c p =
    if c == Command.ok
    then fine
    else if c == Command.ping
    then elapsed p.elapsed
    else if c == Command.stats
    then figures p.stats.child_count p.stats.count p.stats.rate p.stats.latency
    else if c == Command.protocol_error
    then refused
    else if c == Command.internal_error
    then failing
    else unhandled c

-- `maestro_cmd_print_responses`
unfoldable pub print_response : Note → Outcome Line
unfolding said payload_of
print_response n = payload_of n >>= λ p. done (answer p.name p.id (said n.command p))

-- The switch of `maestro_cmd_print_notifications`
unfoldable pub noticed : ℕ → Payload → Line
noticed c p =
    let line = notice p.name p.id p.message in
    if c == Command.abnormal_disconnect
    then line
    else if c == Command.notify_fail
    then line
    else if c == Command.notify_success
    then line
    else unhandled_notice p.name p.id

-- What a run gets from outside: the memory of a note, that of a copy, the queue, and the line of a note
-- of another type, whose members lie under those that are printed. A message of the queue is the eight
-- bytes of its type and then its text.
pub record Inbox : Type 0 where
  pub memory : Memory
  pub alloc : ℕ → Option Bytes
  pub arrive : ℕ → Received
  pub overlaid : Payload → Outcome Line

-- The size of a message's type, a `long`.
abbrev pub type_size : ℕ
type_size = 8

-- What `msgrcv` makes of a message: one whose text is longer than the buffer is refused and stays in the
-- queue; else its type is stored in front of its text, past the end of the buffer where the two do not
-- fit it. As many bytes as its text has are then read from the beginning of the buffer.
unfoldable pub into_buffer : Bytes → Outcome (Option Bytes)
into_buffer bytes =
    if ltb note_size (length bytes - type_size)
    then done none
    else if ltb note_size (length bytes)
    then fault
    else done (some (take (length bytes - type_size) bytes))

module _ (m : Msgpack) (b : Inbox) where
  -- `maestro_cmd_print_notifications`
  unfoldable pub print_notification : Note → Outcome Line
  unfolding noticed payload_of
  print_notification n = payload_of n >>= λ p.
      if n.type == type_notification then done (noticed n.command p) else b.overlaid p

  -- What is printed for a note that could be read, or not.
  unfoldable pub printed : Status → Note → Outcome Line
  unfolding print_response print_notification
  printed (failed e) n = done unknown
  printed crashed n = fault
  printed success n = if n.type == type_response then print_response n else print_notification n

  -- One message of the queue.
  unfoldable pub read_message : Bytes → Outcome Line
  unfolding Content.copy deserialize_note printed payload_cleanup
  read_message bytes = do
    (data_, _) ← Content.copy b.alloc empty bytes
    let (s, status) = deserialize_note m b.memory data_
    line ← printed status s.note
    _ ← payload_cleanup s.note
    done line

  -- `maestro_cmd_do_collect` on fuel, from the `n`-th message on: its result and its lines.
  unfoldable pub collect : ℕ → ℕ → Outcome (ℕ × List Line)
  unfolding into_buffer read_message
  collect zero n = unended
  collect (suc k) n = elim (b.arrive n) [
    | nothing ↦ done (0, [])
    | broken ↦ done (1, [])
    | message bytes ↦ (do
      taken ← into_buffer bytes
      let refused : Outcome (ℕ × List Line) = done (1, [])
      elim taken [
        | none ↦ refused
        | some text ↦ (do
          line ← read_message text
          (code, lines) ← collect k (suc n)
          done (code, line ∷ lines))
      ])
  ]
