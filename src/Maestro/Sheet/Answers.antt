-- ===== src/Maestro/Sheet/Answers.antt =====
-- What a player answers, by kind of request.
use msg_perf_tool.Base.{
  ℕ, ◌≡◌, refl, ap, ◌∙◌, true, Option, none, some, List, [], ◌∷◌, ◌++◌, Bytes, Outcome, ◌>>=◌, done,
  fault, arith, terminated, c_string, c_string-terminated, take-length,
}
use msg_perf_tool.Content.{Content}
use msg_perf_tool.Maestro.Msgpack.{Msgpack, IsLawful}
use msg_perf_tool.Maestro.Command
use msg_perf_tool.Maestro.Note.{
  Note, Payload, as_note, block, null, type_response, payload_cleanup, set_cmd,
}
use msg_perf_tool.Maestro.Message.{
  Message, Sender, IsMessage, IsSender, Represents, type_of, command_of, wire,
}
use msg_perf_tool.Maestro.Assign.{State, Error, success, failed}
use msg_perf_tool.Maestro.Serialize.{serialize_note}
use msg_perf_tool.Maestro.Deserialize.{deserialize_note, deserialize_bytes, input_of}
use msg_perf_tool.Maestro.Decode.{delivered, decode-wire}
use msg_perf_tool.Maestro.Reads.{Available}
use msg_perf_tool.Content.Random.{Allocates}
use msg_perf_tool.Maestro.RoundTrip.{exactly, serialize-wire}
use msg_perf_tool.Maestro.Sheet.Walk.{NonePlays, play_first-first, play_first-none}
use msg_perf_tool.Maestro.Sheet.{
  Sheet, PlayerInfo, Instrument, Resources, do_play, clean, reply, answer, fresh_response,
  sheet_play,
}

-- `strdup` succeeds, and copies up to the terminator.
abbrev pub Copies : (Bytes → Option Bytes) → Type 0
Copies strdup = (s : Bytes) → strdup s ≡ some (terminated (c_string s))

-- The response as the player starts it: it carries the player's id and name.
abbrev pub started : Payload → PlayerInfo → Payload
started p info = record p {
  id = some (terminated (c_string info.id));
  name = some (terminated (c_string info.name));
}

abbrev pub sender_of : PlayerInfo → Sender
sender_of info = record { id = c_string info.id; name = c_string info.name }

-- The output of a run beside the state it leaves.
abbrev paired : {S : Type 0} → S → Outcome Content → Outcome (S × Content)
paired st o = o >>= λ out. done (st, out)

cleanup-delivered :
    (p : Payload) (msg : Message)
    → payload_cleanup (as_note (type_of msg) (command_of msg) (delivered p msg))
      ≡ done (as_note (type_of msg) (command_of msg) null)
unfolding payload_cleanup
cleanup-delivered p (Message.set_request opt value) = refl
cleanup-delivered p (Message.ping_request sec usec) = refl
cleanup-delivered p (Message.plain_request c) = refl
cleanup-delivered p (Message.ping_response s elapsed) = refl
cleanup-delivered p (Message.stats_response s stats) = refl
cleanup-delivered p (Message.plain_response c s) = refl
cleanup-delivered p (Message.notification c s message) = refl

module _ (m : Msgpack) (r : Resources) where
  clean-done :
      (t c : ℕ) (p : Payload) (request cleaned : Note) (out : Content)
      → payload_cleanup request ≡ done cleaned
      → clean m r request (as_note t c (block p)) out ≡ done out
  unfolding clean
  clean-done t c p request cleaned out e = rw (e, clean)

  -- When there is no memory for the response, the player crashes: it answers with an internal
  -- error, whose note has no payload, and the serializer reads the id and the name through it.
  pub sheet_play-no_memory :
      {S : Type 0} (sheet : Sheet S) (st : S) (info : PlayerInfo) (request out : Content)
      → r.payload ≡ none
      → sheet_play m r sheet info st request out ≡ fault
  unfolding sheet_play fresh_response reply serialize_note set_cmd
  sheet_play-no_memory sheet st info request out e = rw (e, sheet_play)

  module _ (blank : Payload) (there : r.payload ≡ some blank) (copies : Copies r.strdup) where
    fresh_response-started :
        (info : PlayerInfo)
        → fresh_response m r info
          ≡ done (as_note type_response 0 (block (started blank info)), true)
    unfolding fresh_response
    fresh_response-started info = rw (there, copies info.id, copies info.name)

    -- A run of the player with memory for the response is what it makes of the request it has read.
    pub sheet_play-answer :
        {S : Type 0} (sheet : Sheet S) (st : S) (info : PlayerInfo) (request out : Content)
        → sheet_play m r sheet info st request out
          ≡ answer m r sheet info st
              (as_note type_response 0 (block (started blank info)))
              out
              (deserialize_note m r.request request)
    unfolding sheet_play
    sheet_play-answer sheet st info request out = rw (fresh_response-started info)

    reply-wire :
        (law : IsLawful m) (t c : ℕ) (p : Payload) (request cleaned : Note) (msg : Message)
        (out : Content)
        → Allocates r.alloc
        → IsMessage msg
        → Represents (as_note t c (block p)) msg
        → payload_cleanup request ≡ done cleaned
        → reply m r request (as_note t c (block p)) out ≡ done (exactly (wire m msg))
    unfolding reply
    reply-wire law t c p request cleaned msg out allocs ok rep e =
        rw (serialize-wire m law r.alloc (as_note t c (block p)) msg out allocs ok rep, reply)
          (clean-done t c p request cleaned (exactly (wire m msg)) e)

    -- The response as it is set up, with the command of a plain answer.
    pub answered-Represents :
        (info : PlayerInfo) (c : ℕ)
        → IsSender (sender_of info)
        → Represents
            (as_note type_response c (block (started blank info)))
            (Message.plain_response c (sender_of info))
    answered-Represents info c ok = record {
      type = refl;
      command = refl;
      payload = (
        started blank info,
        refl,
        record {
          id = (terminated (c_string info.id), refl, c_string-terminated _ ok.id.text);
          name = (terminated (c_string info.name), refl, c_string-terminated _ ok.name.text);
        },
      );
    }

    -- With a lawful msgpack and memory for the response, a request that cannot be read is answered
    -- by a protocol error with the player's id and name, which are to be fields of the protocol,
    -- whatever the failure, if what was read of it can be given back.
    pub sheet_play-malformed :
        (law : IsLawful m) {S : Type 0} (sheet : Sheet S) (st : S) (info : PlayerInfo)
        (request out : Content) (s : State) (e : Error) (cleaned : Note)
        → Allocates r.alloc
        → IsSender (sender_of info)
        → deserialize_note m r.request request ≡ (s, failed e)
        → payload_cleanup s.note ≡ done cleaned
        → sheet_play m r sheet info st request out
          ≡ done (
            st,
            exactly (wire m (Message.plain_response Command.protocol_error (sender_of info))),
          )
    unfolding answer set_cmd
    sheet_play-malformed law sheet st info request out s e cleaned allocs ok read gone =
        sheet_play-answer sheet st info request out
        ∙ rw read (
            ap (paired st) (
              reply-wire law type_response Command.protocol_error (started blank info) s.note
                cleaned (Message.plain_response Command.protocol_error (sender_of info)) out allocs
                (omega arith, omega arith, omega arith, ok)
                (answered-Represents info Command.protocol_error ok) gone))

    module _ (law : IsLawful m) (av : Available r.request) (asked : Payload)
        (room : r.request.payload ≡ some asked) where
      -- The note that the player reads from the wire format of a message.
      abbrev pub received : Message → Note
      received msg = as_note (type_of msg) (command_of msg) (delivered asked msg)

      -- A message of the protocol is read from its wire format.
      pub deserialize-received :
          (msg : Message)
          → IsMessage msg
          → deserialize_note m r.request (exactly (wire m msg))
            ≡ (record { rest = []; note = received msg }, success)
      unfolding deserialize_note input_of
      deserialize-received msg ok =
          ap (deserialize_bytes m r.request) (take-length (wire m msg))
          ∙ decode-wire m r.request law av asked room msg ok

      -- With a lawful msgpack and enough memory, a request of the protocol that no instrument
      -- plays is not answered: the output stays as it was.
      pub sheet_play-ignored :
          {S : Type 0} (sheet : Sheet S) (st : S) (is : List (Instrument S)) (info : PlayerInfo)
          (msg : Message) (out : Content)
          → IsMessage msg
          → sheet.instruments ≡ some is
          → NonePlays (command_of msg) is
          → sheet_play m r sheet info st (exactly (wire m msg)) out ≡ done (st, out)
      unfolding answer do_play
      sheet_play-ignored sheet st is info msg out ok e h =
          sheet_play-answer sheet st info (exactly (wire m msg)) out
          ∙ rw
              (
                deserialize-received msg ok,
                e,
                do_play,
                play_first-none is info st (received msg) _ h,
              )
              (ap (paired st) (
                clean-done type_response 0 (started blank info) (received msg) _ out
                  (cleanup-delivered asked msg)))

      -- With a lawful msgpack and enough memory, a request of the protocol is answered by the
      -- first instrument that has its command: when this instrument fills the response with a note
      -- that represents a message of the protocol, the wire format of that message goes out.
      pub sheet_play-played :
          {S : Type 0} (sheet : Sheet S) (st st' : S) (front back : List (Instrument S))
          (i : Instrument S) (info : PlayerInfo) (msg answered : Message) (t c : ℕ) (p : Payload)
          (out : Content)
          → Allocates r.alloc
          → IsMessage msg
          → sheet.instruments ≡ some (front ++ i ∷ back)
          → NonePlays (command_of msg) front
          → i.command ≡ command_of msg
          → i.play st (received msg) (as_note type_response 0 (block (started blank info))) info
            ≡ done (st', as_note t c (block p))
          → Represents (as_note t c (block p)) answered
          → IsMessage answered
          → sheet_play m r sheet info st (exactly (wire m msg)) out
            ≡ done (st', exactly (wire m answered))
      unfolding answer do_play
      sheet_play-played sheet st st' front back i info msg answered t c p out allocs ok e h hit
            played rep fine =
          sheet_play-answer sheet st info (exactly (wire m msg)) out
          ∙ rw
              (
                deserialize-received msg ok,
                e,
                do_play,
                play_first-first front back i info st (received msg) _ h hit,
                played,
              )
              (ap (paired st') (
                reply-wire law t c p (received msg) _ answered out allocs fine rep
                  (cleanup-delivered asked msg)))
