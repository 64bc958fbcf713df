-- ===== src/Maestro/Notify.antt =====
-- The notifications of the end of a test: maestro_notify.c. The functions of the handlers are
-- addresses, as in `Handlers`.
pub mod Wire
use msg_perf_tool.Base.{
  ℕ, Bool, true, false, Option, List, [], ◌∷◌, Bytes, Outcome, done, ◌>>=◌, checked,
}
use msg_perf_tool.Content
use msg_perf_tool.Content.{Content, empty}
use msg_perf_tool.Handlers
use msg_perf_tool.Handlers.{Callback}
use msg_perf_tool.Maestro.Command
use msg_perf_tool.Maestro.Msgpack.{Msgpack}
use msg_perf_tool.Maestro.Note.{
  Note, Payload, zeroed, type_notification, set_type, set_cmd, payload_prepare, payload_cleanup,
  response_set_id, response_set_name, notification_set_message,
}
use msg_perf_tool.Maestro.Serialize.{serialize_note}
use msg_perf_tool.Maestro.Sheet.{PlayerInfo}

-- `MAESTRO_NOTE_SIZE`
abbrev pub note_size : ℕ
note_size = 256

-- What a notification gets from outside: memory, for the payload, for strings, for the buffer and for
-- its contents, and for the callbacks that it adds; the address of `paho_set_retained` with those of
-- its payloads, the flag on the stack and the default.
pub record Post : Type 0 where
  pub prepared : Option Payload
  pub strdup : Bytes → Option Bytes
  pub room : ℕ → Option Bytes
  pub alloc : ℕ → Option Bytes
  pub memory : Bool → Option Callback
  pub appended : Bool → Bool
  pub set_retained : ℕ
  pub flag : ℕ
  pub default : ℕ

-- What a notification leaves: the handlers while it is sent, those that stay, and what is sent.
pub record Told : Type 0 where
  pub sending : List (Option Callback)
  pub handlers : List (Option Callback)
  pub content : Content

module _ (m : Msgpack) (p : Post) (info : PlayerInfo) where
  -- The note of a notification.
  unfoldable pub told_note : ℕ → Bytes → Outcome Note
  unfolding set_type set_cmd payload_prepare response_set_id response_set_name
      notification_set_message
  told_note cmd message =
      let (note, _) =
        payload_prepare p.prepared (set_cmd (set_type zeroed type_notification) cmd) in
      do
        note ← response_set_id p.strdup note info.id
        note ← response_set_name p.strdup note info.name
        notification_set_message p.strdup note message

  -- The handlers while it is sent, and those that stay.
  unfoldable pub retaining :
      List (Option Callback) → List (Option Callback) × List (Option Callback)
  unfolding Handlers.add
  retaining handlers =
      let (sending, _) =
        Handlers.add (p.memory true) (p.appended true) p.set_retained p.flag handlers in
      let (handlers, _) =
        Handlers.add (p.memory false) (p.appended false) p.set_retained p.default sending in
      (sending, handlers)

  -- A note is packed, sent, and given back.
  unfoldable pub tell : List (Option Callback) → Note → Outcome Told
  unfolding retaining payload_cleanup serialize_note Content.init
  tell handlers note = do
    (content, _) ← serialize_note m p.alloc note (Content.init p.room empty note_size).0
    _ ← payload_cleanup note
    let (sending, handlers) = retaining handlers
    done (record { sending = sending; handlers = handlers; content = content })

  -- What the two functions have in common.
  unfoldable pub notify : ℕ → Bytes → List (Option Callback) → Outcome Told
  unfolding told_note tell
  notify cmd message handlers = told_note cmd message >>= tell handlers

  -- `maestro_notify_test_failed`, with the message of the status.
  unfoldable pub notify_test_failed : Bytes → List (Option Callback) → Outcome Told
  unfolding notify
  notify_test_failed message handlers = notify Command.notify_fail message handlers

  -- "Test completed successfully"
  abbrev pub success_text : Bytes
  success_text =
      b'T' ∷ b'e' ∷ b's' ∷ b't' ∷ b' ' ∷ b'c' ∷ b'o' ∷ b'm' ∷ b'p' ∷ b'l' ∷ b'e' ∷ b't' ∷ b'e'
      ∷ b'd' ∷ b' ' ∷ b's' ∷ b'u' ∷ b'c' ∷ b'c' ∷ b'e' ∷ b's' ∷ b's' ∷ b'f' ∷ b'u' ∷ b'l' ∷ b'l'
      ∷ b'y' ∷ 0 ∷ []

  -- `maestro_notify_test_successful`
  unfoldable pub notify_test_successful : List (Option Callback) → Outcome Told
  unfolding notify
  notify_test_successful handlers = notify Command.notify_success success_text handlers

  -- "The client disconnected abnormally"
  abbrev pub will_text : Bytes
  will_text =
      b'T' ∷ b'h' ∷ b'e' ∷ b' ' ∷ b'c' ∷ b'l' ∷ b'i' ∷ b'e' ∷ b'n' ∷ b't' ∷ b' ' ∷ b'd' ∷ b'i'
      ∷ b's' ∷ b'c' ∷ b'o' ∷ b'n' ∷ b'n' ∷ b'e' ∷ b'c' ∷ b't' ∷ b'e' ∷ b'd' ∷ b' ' ∷ b'a' ∷ b'b'
      ∷ b'n' ∷ b'o' ∷ b'r' ∷ b'm' ∷ b'a' ∷ b'l' ∷ b'l' ∷ b'y' ∷ 0 ∷ []

  -- The note of the will: the payload is prepared before the type is set.
  unfoldable pub will_note : Outcome Note
  unfolding set_type set_cmd payload_prepare response_set_id response_set_name
      notification_set_message
  will_note =
      let (note, _) = payload_prepare p.prepared zeroed in
      do
        note ←
            response_set_id p.strdup
              (set_cmd (set_type note type_notification) Command.abnormal_disconnect) info.id
        note ← response_set_name p.strdup note info.name
        notification_set_message p.strdup note will_text

  -- `maestro_notify_abnormal_disconnect`: the content of the will, given the memory of its buffer.
  unfoldable pub will : Option Content → Outcome Content
  unfolding will_note serialize_note Content.new
  will header = do
    note ← will_note
    content ← checked (Content.new header p.room note_size)
    (content, _) ← serialize_note m p.alloc note content
    done content
