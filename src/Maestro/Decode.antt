-- ===== src/Maestro/Decode.antt =====
-- What `maestro_deserialize_note` makes of the wire format of a message.
use mathlib.Core.List.{append-nil}
use native.Mathlib.Nat.{mod-eq_of_lt}
use msg_perf_tool.Base.{
  ℕ, ◌^◌, ◌≡◌, sym, ap, ◌∙◌, ne→==, some, List, [], ◌∷◌, ◌++◌, Bytes, arith, terminated,
}
use msg_perf_tool.Maestro.Command
use msg_perf_tool.Maestro.Msgpack.{Msgpack, IsLawful}
use msg_perf_tool.Maestro.Note.{
  type_request, type_response, type_notification, Payload, Pointer, StatsReply, as_note, block,
  null,
}
use msg_perf_tool.Maestro.Message.{
  Message, Sender, Stats, IsMessage, IsSender, IsStats, joined, sender_pieces, stats_pieces,
  body_pieces, wire, type_of, command_of,
}
use msg_perf_tool.Maestro.Assign.{Step, success, Memory}
use msg_perf_tool.Maestro.Deserialize
use msg_perf_tool.Maestro.Deserialize.{next_object, prepare, header, body, deserialize_bytes}
use msg_perf_tool.Maestro.Headers.{entered, header_bounds, header_lem}
use msg_perf_tool.Maestro.Reads.{
  at, joined-append, Does, Does->>, Does-eq, Available, uint64_lem, int64_lem, double_lem,
  uint32_lem, uint8_lem, text_lem,
}

abbrev with_sender : Payload → Sender → Payload
with_sender p s = record p { id = some (terminated s.id); name = some (terminated s.name) }

abbrev reply_of : Stats → StatsReply
reply_of s = record {
  child_count = s.child_count;
  role = some (terminated s.role);
  roleinfo = some (terminated s.roleinfo);
  stat_type = s.stat_type;
  timestamp = some (terminated s.timestamp);
  count = s.count;
  rate = s.rate;
  latency = s.latency;
}

-- The payload that carries the message, written over what the allocation held.
abbrev pub carried : Payload → Message → Payload
carried p (Message.set_request opt value) = record p { opt = opt; value = some (terminated value) }
carried p (Message.ping_request sec usec) = record p { sec = sec; usec = usec }
carried p (Message.plain_request c) = p
carried p (Message.ping_response s elapsed) = record (with_sender p s) { elapsed = elapsed }
carried p (Message.stats_response s stats) = record (with_sender p s) { stats = reply_of stats }
carried p (Message.plain_response c s) = with_sender p s
carried p (Message.notification c s message) = record (with_sender p s) {
  message = some (terminated message);
}

-- Where the note's payload ends up: a plain request gets none.
abbrev pub delivered : Payload → Message → Pointer
delivered p (Message.plain_request c) = null
delivered p (Message.ping_response s elapsed) = block (carried p (Message.ping_response s elapsed))
delivered p msg = block (carried p msg)

-- From the state behind the header the step reads the whole body of the message.
abbrev Finishes : Msgpack → Step → Payload → Message → Type 0
Finishes m step blank msg =
    let t = type_of msg in
    let c = command_of msg in
    step (entered t c (joined (body_pieces m msg)))
    ≡ (record { rest = []; note = as_note t c (delivered blank msg) }, success)

runs_all :
    {step : Step} {ps : List Bytes} {f : Payload → Payload}
    → Does step ps f
    → (t c : ℕ) (p : Payload) → step (at t c p (joined ps)) ≡ (at t c (f p) [], success)
runs_all {step} {ps} d t c p =
    ap (λ bs. step (at t c p bs)) (sym (append-nil (joined ps))) ∙ d.runs t c p []

module _ (m : Msgpack) (mem : Memory) (law : IsLawful m) where
  module _ (av : Available mem) where
    sender-Does :
        (s : Sender)
        → IsSender s
        → Does (Deserialize.response_header m mem) (sender_pieces m s []) (λ p. with_sender p s)
    unfolding Deserialize.response_header
    sender-Does s h =
        Does->> (text_lem m mem law av _ _ _ s.id h.id) (text_lem m mem law av _ _ _ s.name h.name)

    notification_sender-Does :
        (s : Sender)
        → IsSender s
        → Does (Deserialize.notification_header m mem) (sender_pieces m s []) (λ p. with_sender p s)
    unfolding Deserialize.notification_header
    notification_sender-Does s h =
        Does->> (text_lem m mem law av _ _ _ s.id h.id) (text_lem m mem law av _ _ _ s.name h.name)

    stats-Does :
        (s : Stats)
        → IsStats s
        → Does
            (Deserialize.stats_response m mem)
            (stats_pieces m s)
            (λ p. record p { stats = reply_of s })
    unfolding Deserialize.stats_response Deserialize.stats_roles Deserialize.stats_perf
    stats-Does s h =
        Does-eq
          (λ p.
            rw (
              mod-eq_of_lt h.child_count,
              mod-eq_of_lt {n = s.stat_type} {m = 2 ^ 32} (omega arith),
            ))
          (Does->>
            (Does->>
              (Does->>
                (Does->> (uint32_lem m mem law _ _ _ s.child_count h.child_count)
                  (text_lem m mem law av _ _ _ s.role h.role))
                (text_lem m mem law av _ _ _ s.roleinfo h.roleinfo))
              (uint8_lem m mem law _ _ _ s.stat_type h.stat_type))
            (Does->>
              (Does->>
                (Does->> (text_lem m mem law av _ _ _ s.timestamp h.timestamp)
                  (uint64_lem m mem law _ _ _ s.count h.count))
                (double_lem m mem law _ _ _ s.rate h.rate))
              (double_lem m mem law _ _ _ s.latency h.latency)))

    module _ (blank : Payload) (there : mem.payload ≡ some blank) where
      prepare-entered :
          (t c : ℕ) (rest : Bytes) → prepare m mem (entered t c rest) ≡ (at t c blank rest, success)
      unfolding prepare
      prepare-entered t c rest = rw there

      -- A response up to its body.
      response-sender :
          (c : ℕ) (s : Sender) (rest : Bytes)
          → IsSender s
          → Deserialize.response m mem
              (entered type_response c (joined (sender_pieces m s []) ++ rest))
            ≡ Deserialize.response_body m mem
                (at type_response c (with_sender blank s) rest, success)
      unfolding Deserialize.response
      response-sender c s rest h =
          rw (prepare-entered type_response c) (
            ap (Deserialize.response_body m mem)
              ((sender-Does s h).runs type_response c blank rest))

      response-Finishes :
          (c : ℕ) (s : Sender) (ps : List Bytes) (p : Payload)
          → IsSender s
          → Deserialize.response_body m mem
              (at type_response c (with_sender blank s) (joined ps), success)
            ≡ (at type_response c p [], success)
          → Deserialize.response m mem (entered type_response c (joined (sender_pieces m s ps)))
            ≡ (at type_response c p [], success)
      response-Finishes c s ps p h rest =
          ap (λ bs. Deserialize.response m mem (entered type_response c bs))
            (joined-append (sender_pieces m s []) ps)
          ∙ response-sender c s (joined ps) h
          ∙ rest

      body_lem : (msg : Message) → IsMessage msg → Finishes m (body m mem) blank msg
      unfolding body Deserialize.request Deserialize.set_request Deserialize.ping_request
          Deserialize.response_body Deserialize.ping_response Deserialize.notification
      body_lem (Message.set_request opt value) (ho, hv) =
          rw (prepare-entered type_request Command.set) (
            runs_all
              (Does->> (int64_lem m mem law _ _ _ opt ho) (text_lem m mem law av _ _ _ value hv))
              type_request Command.set blank)
      body_lem (Message.ping_request sec usec) (hs, hu) =
          rw (prepare-entered type_request Command.ping) (
            runs_all
              (Does->> (uint64_lem m mem law _ _ _ sec hs) (uint64_lem m mem law _ _ _ usec hu))
              type_request Command.ping blank)
      body_lem (Message.plain_request c) (_, a, b) =
          rw (ne→== c Command.set a, ne→== c Command.ping b)
      body_lem (Message.ping_response s elapsed) (hs, he) =
          response-Finishes Command.ping s (m.pack_uint64 elapsed ∷ []) _ hs (
            runs_all (uint64_lem m mem law _ _ _ elapsed he) type_response Command.ping
              (with_sender blank s))
      body_lem (Message.stats_response s stats) (hs, ht) =
          response-Finishes Command.stats s (stats_pieces m stats) _ hs
            (runs_all (stats-Does stats ht) type_response Command.stats (with_sender blank s))
      body_lem (Message.plain_response c s) (_, a, b, hs) =
          response-Finishes c s [] _ hs (rw (ne→== c Command.ping a, ne→== c Command.stats b))
      body_lem (Message.notification c s message) (_, hs, hm) =
          rw (prepare-entered type_notification c) (
            runs_all
              (Does->> (notification_sender-Does s hs) (text_lem m mem law av _ _ _ message hm))
              type_notification c blank)

      -- With a lawful msgpack and enough memory, on the wire format of a message of the protocol,
      -- `maestro_deserialize_note` succeeds, reads the whole input, and delivers the message's
      -- type, command and payload.
      pub decode-wire :
          (msg : Message)
          → IsMessage msg
          → deserialize_bytes m mem (wire m msg) ≡ (
            record {
              rest = [];
              note = as_note (type_of msg) (command_of msg) (delivered blank msg);
            },
            success,
          )
      unfolding deserialize_bytes
      decode-wire msg ok =
          let b = header_bounds msg ok in
          rw
            (header_lem m mem law (type_of msg) (command_of msg) (joined (body_pieces m msg)) b.0
              b.1)
            (body_lem msg ok)
