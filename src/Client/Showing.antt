-- ===== src/Client/Showing.antt =====
-- What the client shows of the messages that wait for it.
use msg_perf_tool.Base.{
  Bytes, false, ltb, ◌+◌, ◌-◌, ◌≤◌, ◌++◌, length-append, take-append, arith, Bool, ℕ, suc, ◌≡◌, ◌≢◌,
  refl, ap, ◌∙◌, if◌then◌else◌, ◌==◌, some, List, [], ◌∷◌, map, length, Outcome, done, ◌>>=◌,
  take-length,
}
use msg_perf_tool.Content.{Content, empty}
use msg_perf_tool.Content.Random.{Allocates, copy_lem}
use msg_perf_tool.Maestro.Msgpack.{Msgpack, IsLawful}
use msg_perf_tool.Maestro.Notify.{note_size}
use msg_perf_tool.Maestro.Note.{
  Note, Payload, as_note, type_request, type_response, payload_of, payload_cleanup,
}
use msg_perf_tool.Maestro.Message.{Message, IsMessage, type_of, command_of, wire}
use msg_perf_tool.Maestro.Assign.{Status, success}
use msg_perf_tool.Maestro.Deserialize.{deserialize_note, deserialize_bytes, input_of}
use msg_perf_tool.Maestro.Decode.{delivered, carried, decode-wire}
use msg_perf_tool.Maestro.Reads.{Available}
use msg_perf_tool.Maestro.RoundTrip.{exactly}
use msg_perf_tool.Worker.Ipc.{message, nothing}
use msg_perf_tool.Client.Collecting.{
  Line, Inbox, answer, said, noticed, print_response, print_notification, printed, read_message,
  collect, into_buffer, type_size,
}

-- The line of a message, on the note that carries it.
abbrev pub shown : Payload → Message → Line
shown p msg =
    if type_of msg == type_response
    then answer (carried p msg).name (carried p msg).id (said (command_of msg) (carried p msg))
    else noticed (command_of msg) (carried p msg)

-- The messages that a client subscribes to.
abbrev pub IsShown : Message → Type 0
IsShown msg = IsMessage msg × (type_of msg ≢ type_request)

abbrev pub AllShown : List Message → Type 0
AllShown [] = Unit {0}
AllShown (msg ∷ msgs) = IsShown msg × AllShown msgs

module _ (m : Msgpack) (law : IsLawful m) (b : Inbox) (blank : Payload)
    (there : b.memory.payload ≡ some blank) (av : Available b.memory)
    (allocs : Allocates b.alloc) where
  abbrev note_for : Message → Note
  note_for msg = as_note (type_of msg) (command_of msg) (delivered blank msg)

  printed-shown :
      (msg : Message)
      → type_of msg ≢ type_request
      → (printed m b success (note_for msg) >>= λ line.
          payload_cleanup (note_for msg) >>= λ _. done line)
        ≡ done (shown blank msg)
  unfolding printed print_response print_notification payload_of payload_cleanup
  printed-shown (Message.set_request opt value) ne = absurd (ne refl)
  printed-shown (Message.ping_request sec usec) ne = absurd (ne refl)
  printed-shown (Message.plain_request c) ne = absurd (ne refl)
  printed-shown (Message.ping_response s n) ne = refl
  printed-shown (Message.stats_response s stats) ne = refl
  printed-shown (Message.plain_response c s) ne = refl
  printed-shown (Message.notification c s text) ne = refl

  read_message-shown :
      (msg : Message) → IsShown msg → read_message m b (wire m msg) ≡ done (shown blank msg)
  unfolding read_message deserialize_note input_of
  read_message-shown msg (ok, ne) =
      let shows : Note × Status → Outcome Line =
        λ (n, status). printed m b status n >>= λ line. payload_cleanup n >>= λ _. done line in
      let read : deserialize_note m b.memory (exactly (wire m msg))
          ≡ (record { rest = []; note = note_for msg }, success) =
        ap (deserialize_bytes m b.memory) (take-length (wire m msg))
        ∙ decode-wire m b.memory law av blank there msg ok in
      ap
        (λ (o : Outcome (Content × Bool)). o >>= λ (data_, _).
          let (s, status) = deserialize_note m b.memory data_ in shows (s.note, status))
        (copy_lem b.alloc empty (wire m msg) allocs)
      ∙ ap (λ r. shows (r.0.note, r.1)) read
      ∙ printed-shown msg ne

  -- The messages arrive in their order, and then nothing. What is sent to the queue is a buffer with the
  -- note at its beginning: its first eight bytes are taken for the type, and eight bytes behind the note are sent
  -- too. They all fit the buffer that they are received into.
  abbrev pub Arrive : ℕ → List Message → Type 0
  Arrive n [] = b.arrive n ≡ nothing
  Arrive n (msg ∷ msgs) =
      (behind : Bytes) × (length behind ≡ type_size)
      × (length (wire m msg) + type_size ≤ note_size)
      × (b.arrive n ≡ message (wire m msg ++ behind))
      × Arrive (suc n) msgs

  -- A message that fits the buffer together with its type.
  into_buffer-wire :
      (bytes behind : Bytes)
      → length behind ≡ type_size
      → length bytes + type_size ≤ note_size
      → into_buffer (bytes ++ behind) ≡ done (some bytes)
  unfolding into_buffer
  into_buffer-wire bytes behind l fits =
      let n : length (bytes ++ behind) ≡ length bytes + type_size =
        length-append bytes behind ∙ ap (λ k. length bytes + k) l in
      let e : length bytes + type_size - type_size ≡ length bytes = omega arith in
      let short : ltb note_size (length bytes) ≡ false = ground arith in
      let whole : ltb note_size (length bytes + type_size) ≡ false = ground arith in
      rw (n, e, short, whole) (ap (λ t. done (some t)) (take-append bytes behind))

  -- With a lawful msgpack and memory, the client that collects what waits in its queue ends, succeeds,
  -- and shows each response and notification that has arrived, in their order.
  pub collect-shown :
      (msgs : List Message) (n : ℕ)
      → AllShown msgs
      → Arrive n msgs
      → collect m b (suc (length msgs)) n ≡ done (0, map (shown blank) msgs)
  unfolding collect
  collect-shown [] n all e = rw (e, collect) refl
  collect-shown (msg ∷ msgs) n (one, all) (behind, l, fits, e, later) =
      rw
        (
          e,
          into_buffer-wire (wire m msg) behind l fits,
          read_message-shown msg one,
          collect-shown msgs (suc n) all later,
          collect,
        )
        refl
