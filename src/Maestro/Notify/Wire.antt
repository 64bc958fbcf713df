-- ===== src/Maestro/Notify/Wire.antt =====
-- What a notification says, and what it leaves of the handlers.
use msg_perf_tool.Base.{
  ℕ, c_string-IsText, checked, ◌^◌, ◌<◌, ◌≡◌, refl, ap, ◌∙◌, Bool, true, false, Option, some, List,
  Bytes, c_string, c_string-terminated, terminated, Outcome, done, ◌>>=◌, arith,
}
use mathlib.Core.Path.{ap₂}
use msg_perf_tool.Content
use msg_perf_tool.Content.{Content, empty}
use msg_perf_tool.Content.Random.{Allocates}
use msg_perf_tool.Handlers
use msg_perf_tool.Handlers.{Callback}
use msg_perf_tool.Handlers.Lists.{pointers, put, add-put}
use msg_perf_tool.Maestro.Command
use msg_perf_tool.Maestro.Msgpack.{Msgpack, IsLawful}
use msg_perf_tool.Maestro.Note.{
  Note, Payload, as_note, block, type_notification, set_type, set_cmd, payload_prepare,
  payload_cleanup, response_set_id, response_set_name, notification_set_message, update, payload_of,
}
use msg_perf_tool.Maestro.Serialize.{serialize_note}
use msg_perf_tool.Maestro.Message.{Message, IsField, IsSender, Represents, wire}
use msg_perf_tool.Maestro.RoundTrip.{exactly, serialize-wire}
use msg_perf_tool.Maestro.Sheet.{PlayerInfo}
use msg_perf_tool.Maestro.Sheet.Answers.{Copies, started, sender_of}
use msg_perf_tool.Maestro.Notify.{
  Post, note_size, told_note, retaining, tell, notify, will_text, will_note, will,
}

-- There is memory for a notification.
pub record HasRoom (p : Post) (blank : Payload) : Type 0 where
  pub prepared : p.prepared ≡ some blank
  pub copies : Copies p.strdup
  pub allocates : Allocates p.alloc
  pub memory : (b : Bool) → (old : Callback) × (p.memory b ≡ some old)
  pub appended : (b : Bool) → p.appended b ≡ true

-- `paho_set_retained` with the flag, and with its default.
abbrev pub retained : Post → Callback
retained p = record { call = p.set_retained; payload = p.flag }

abbrev pub unretained : Post → Callback
unretained p = record { call = p.set_retained; payload = p.default }

module _ (m : Msgpack) (law : IsLawful m) (p : Post) (blank : Payload) (has : HasRoom p blank)
    (info : PlayerInfo) where
  abbrev filled : Bytes → Payload
  filled message = record (started blank info) { message = some (terminated (c_string message)) }

  told_note_lem :
      (cmd : ℕ) (message : Bytes)
      → told_note m p info cmd message
        ≡ done (as_note type_notification cmd (block (filled message)))
  unfolding told_note set_type set_cmd payload_prepare response_set_id response_set_name
      notification_set_message update payload_of
  told_note_lem cmd message =
      rw (has.prepared, has.copies info.id, has.copies info.name, has.copies message) refl

  add_lem :
      (b : Bool) (payload : ℕ) (cs : List Callback)
      → Handlers.add (p.memory b) (p.appended b) p.set_retained payload (pointers cs)
        ≡ (pointers (put (record { call = p.set_retained; payload = payload }) cs), true)
  add_lem b payload cs =
      let (old, there) = has.memory b in
      ap₂ (λ o a. Handlers.add o a p.set_retained payload (pointers cs)) there (has.appended b)
      ∙ add-put (record { call = p.set_retained; payload = payload }) old cs

  retaining_lem :
      (cs : List Callback)
      → retaining m p info (pointers cs)
        ≡ (pointers (put (retained p) cs), pointers (put (unretained p) (put (retained p) cs)))
  unfolding retaining
  retaining_lem cs =
      ap
        (λ (s : List (Option Callback) × Bool).
          (s.0, (Handlers.add (p.memory false) (p.appended false) p.set_retained p.default s.0).0))
        (add_lem true p.flag cs)
      ∙ ap (λ (h : List (Option Callback) × Bool). (pointers (put (retained p) cs), h.0))
          (add_lem false p.default (put (retained p) cs))

  filled-Represents :
      (cmd : ℕ) (message : Bytes)
      → IsSender (sender_of info)
      → IsField (c_string message)
      → Represents
          (as_note type_notification cmd (block (filled message)))
          (Message.notification cmd (sender_of info) (c_string message))
  filled-Represents cmd message who ok = record {
    type = refl;
    command = refl;
    payload = (
      filled message,
      refl,
      (
        record {
          id = (terminated (c_string info.id), refl, c_string-terminated _ who.id.text);
          name = (terminated (c_string info.name), refl, c_string-terminated _ who.name.text);
        },
        (terminated (c_string message), refl, c_string-terminated _ ok.text),
      ),
    );
  }

  -- With a lawful msgpack and memory, a notification sends the message of the protocol that carries its
  -- command, the player's id and name, and its text; while it is sent, the retained flag is among the
  -- handlers, and afterwards the default of the flag has taken its place.
  pub notify-wire :
      (cmd : ℕ) (message : Bytes) (cs : List Callback)
      → cmd < 2 ^ 32
      → IsSender (sender_of info)
      → IsField (c_string message)
      → notify m p info cmd message (pointers cs)
        ≡ done (record {
          sending = pointers (put (retained p) cs);
          handlers = pointers (put (unretained p) (put (retained p) cs));
          content = exactly (wire m (Message.notification cmd (sender_of info) (c_string message)));
        })
  unfolding notify tell payload_cleanup
  notify-wire cmd message cs small who ok =
      let msg = Message.notification cmd (sender_of info) (c_string message) in
      let note = as_note type_notification cmd (block (filled message)) in
      ap (λ o. o >>= tell m p info (pointers cs)) (told_note_lem cmd message)
      ∙ ap₂
          (λ (o : Outcome (Content × Bool)) (hs : List (Option Callback) × List (Option Callback)).
            o >>= λ (content, _). payload_cleanup note >>= λ _.
            done (record { sending = hs.0; handlers = hs.1; content = content }))
          (serialize-wire m law p.alloc note msg (Content.init p.room empty note_size).0
            has.allocates (omega (arith, small), who, ok) (filled-Represents cmd message who ok))
          (retaining_lem cs)

  will_note_lem :
      will_note m p info
      ≡ done (
          as_note type_notification Command.abnormal_disconnect
            (block (filled (will_text m p info))))
  unfolding will_note set_type set_cmd payload_prepare response_set_id response_set_name
      notification_set_message update payload_of
  will_note_lem =
      rw (has.prepared, has.copies info.id, has.copies info.name, has.copies (will_text m p info))
        refl

  -- With a lawful msgpack and memory, the will that is handed to the broker is the message of the
  -- protocol that tells an abnormal disconnection.
  will-wire :
      (header content : Content)
      → Content.new (some header) p.room note_size ≡ some content
      → IsSender (sender_of info)
      → will m p info (some header)
        ≡ done (
            exactly (
              wire m (
                Message.notification Command.abnormal_disconnect
                  (sender_of info)
                  (c_string (will_text m p info)))))
  unfolding will c_string
  will-wire header content there who =
      let text : IsField (c_string (will_text m p info)) = record {
        text = c_string-IsText (will_text m p info);
        short = omega arith;
      } in
      let cmd = Command.abnormal_disconnect in
      let note = as_note type_notification cmd (block (filled (will_text m p info))) in
      let packed : Note → Content → Outcome Content =
        λ n c. serialize_note m p.alloc n c >>= λ (c, _). done c in
      ap (λ o. o >>= λ n. checked (Content.new (some header) p.room note_size) >>= packed n)
        will_note_lem
      ∙ ap (λ c. checked c >>= packed note) there
      ∙ ap (λ (o : Outcome (Content × Bool)). o >>= λ (c, _). done c)
          (serialize-wire m law p.alloc note
            (Message.notification cmd (sender_of info) (c_string (will_text m p info))) content
            has.allocates (omega arith, who, text)
            (filled-Represents cmd (will_text m p info) who text))
