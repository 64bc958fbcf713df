-- ===== src/Maestro/Easy.antt =====
-- Requests without a payload, as the client sends them: maestro_easy.c.
use msg_perf_tool.Base.{
  ℕ, ◌≡◌, refl, ap, ◌∙◌, ◌⊎◌, inl, inr, Option, some, List, ◌++◌, ◌∷◌, Bytes, Outcome, done, ◌>>=◌,
}
use msg_perf_tool.Content.{Content}
use msg_perf_tool.Content.Random.{Allocates}
use msg_perf_tool.Maestro.Command
use msg_perf_tool.Maestro.Msgpack.{Msgpack, IsLawful}
use msg_perf_tool.Maestro.Note.{
  Payload, as_note, block, zeroed, null, type_request, type_response, set_type, set_cmd,
}
use msg_perf_tool.Maestro.Message.{Message, IsMessage, Represents, wire}
use msg_perf_tool.Maestro.Serialize.{serialize_note}
use msg_perf_tool.Maestro.RoundTrip.{exactly, serialize-wire}
use msg_perf_tool.Maestro.Reads.{Available}
use msg_perf_tool.Maestro.Sheet.{Sheet, Instrument, PlayerInfo, Resources, sheet_play}
use msg_perf_tool.Maestro.Sheet.Walk.{NonePlays}
use msg_perf_tool.Maestro.Sheet.Answers.{Copies, started, sheet_play-played}

-- `maestro_easy_request`; whether the note could be serialized is not looked at.
unfoldable pub easy_request : Msgpack → (ℕ → Option Bytes) → Content → ℕ → Outcome Content
unfolding set_type set_cmd serialize_note
easy_request m alloc out cmd =
    serialize_note m alloc (set_cmd (set_type zeroed type_request) cmd) out >>= λ r. done r.0

module _ (m : Msgpack) where
  -- For a command that has no body, with memory there, `maestro_easy_request` leaves the wire
  -- format of the plain request in the buffer, whatever the buffer held.
  pub easy_request-wire :
      (law : IsLawful m) (alloc : ℕ → Option Bytes) (out : Content) (cmd : ℕ)
      → Allocates alloc
      → IsMessage (Message.plain_request cmd)
      → easy_request m alloc out cmd ≡ done (exactly (wire m (Message.plain_request cmd)))
  unfolding easy_request set_type set_cmd
  easy_request-wire law alloc out cmd allocs ok =
      ap (λ r. r >>= λ x. done x.0)
        (serialize-wire m law alloc (as_note type_request cmd null) (Message.plain_request cmd) out
          allocs ok (record { type = refl; command = refl; payload = tt }))

  -- For the two commands that have a body, a set and a ping, `maestro_easy_request` leaves the buffer
  -- as it was: the note has no payload to serialize.
  pub easy_request-unsent :
      (alloc : ℕ → Option Bytes) (out : Content) (cmd : ℕ)
      → (cmd ≡ Command.set) ⊎ (cmd ≡ Command.ping)
      → easy_request m alloc out cmd ≡ done out
  unfolding easy_request serialize_note
  easy_request-unsent alloc out cmd (inl e) = rw e refl
  easy_request-unsent alloc out cmd (inr e) = rw e refl

  -- From client to player, with a lawful msgpack and enough memory: what `maestro_easy_request`
  -- leaves for a command that has no body makes the player answer by the first instrument that has
  -- the command. When this one fills the response with a note that represents a message of the
  -- protocol, the wire format of that message goes out.
  pub easy_request-played :
      (r : Resources) (law : IsLawful m) (blank asked : Payload) (alloc : ℕ → Option Bytes)
      {S : Type 0} (sheet : Sheet S) (st st' : S) (front back : List (Instrument S))
      (i : Instrument S) (info : PlayerInfo) (cmd : ℕ) (answered : Message) (t c : ℕ) (p : Payload)
      (buffer out : Content)
      → r.payload ≡ some blank
      → Copies r.strdup
      → Available r.request
      → r.request.payload ≡ some asked
      → Allocates r.alloc
      → Allocates alloc
      → IsMessage (Message.plain_request cmd)
      → sheet.instruments ≡ some (front ++ i ∷ back)
      → NonePlays cmd front
      → i.command ≡ cmd
      → i.play st
          (as_note type_request cmd null)
          (as_note type_response 0 (block (started blank info)))
          info
        ≡ done (st', as_note t c (block p))
      → Represents (as_note t c (block p)) answered
      → IsMessage answered
      → (easy_request m alloc buffer cmd >>= λ request. sheet_play m r sheet info st request out)
        ≡ done (st', exactly (wire m answered))
  easy_request-played r law blank asked alloc sheet st st' front back i info cmd answered t c p
        buffer out there copies av room allocs mine ok e h hit played rep fine =
      ap (λ x. x >>= λ request. sheet_play m r sheet info st request out)
        (easy_request-wire law alloc buffer cmd mine ok)
      ∙ sheet_play-played m r blank there copies law av asked room sheet st st' front back i info
          (Message.plain_request cmd) answered t c p out allocs ok e h hit played rep fine
