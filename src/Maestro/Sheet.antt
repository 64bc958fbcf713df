-- ===== src/Maestro/Sheet.antt =====
-- The sheet of a player: maestro_instrument.c and maestro_sheet.c. A request is read, the first
-- instrument that can play it fills the response, and the response is serialized. `S` is the state
-- of the program that the instruments may change.
pub mod Walk
pub mod Answers
use msg_perf_tool.Base.{
  ℕ, ◌==◌, if◌then◌else◌, Bool, true, false, Option, none, some, List, [], ◌∷◌, ◌++◌, Bytes,
  Outcome, done, fault, ◌>>=◌,
}
use msg_perf_tool.Content.{Content}
use msg_perf_tool.Maestro.Command
use msg_perf_tool.Maestro.Msgpack.{Msgpack}
use msg_perf_tool.Maestro.Note.{
  Note, Payload, zeroed, type_response, set_type, set_cmd, payload_prepare, payload_cleanup,
  response_set_id, response_set_name,
}
use msg_perf_tool.Maestro.Assign.{Status, State, success, failed, crashed, Memory}
use msg_perf_tool.Maestro.Serialize.{serialize_note}
use msg_perf_tool.Maestro.Deserialize.{deserialize_note}

-- `maestro_player_info_t`
pub record PlayerInfo : Type 0 where
  pub id : Bytes
  pub name : Bytes

-- `maestro_play_t`: the function of an instrument fills the response and may change the state.
abbrev pub Play : Type 0 → Type 0
Play S = S → Note → Note → PlayerInfo → Outcome (S × Note)

-- `maestro_instrument_t`: the command of its tessitura and its function.
pub record Instrument (S : Type 0) : Type 0 where
  pub command : ℕ
  pub play : Play S

-- `maestro_instrument_new`, given whether the allocation succeeds.
unfoldable pub instrument_new : {S : Type 0} → Bool → ℕ → Play S → Option (Instrument S)
instrument_new there command play =
    if there then some (record { command = command; play = play }) else none

-- `maestro_instrument_can_play`
unfoldable pub can_play : {S : Type 0} → Instrument S → Note → Bool
can_play i request = i.command == request.command

-- `maestro_sheet_t`; a null list of instruments is `none`.
pub record Sheet (S : Type 0) : Type 0 where
  pub instruments : Option (List (Instrument S))
  pub count : ℕ
  pub topics : List Bytes
  pub qos : ℕ

-- `maestro_sheet_new`, given whether the sheet and the list can be allocated.
unfoldable pub sheet_new : {S : Type 0} → Bool → Bool → Option (Sheet S)
sheet_new there list =
    if there
    then if list
      then some (record { instruments = some []; count = 0; topics = []; qos = 0 })
      else none
    else none

-- `maestro_sheet_set_location`
unfoldable pub set_location : {S : Type 0} → Sheet S → ℕ → List Bytes → ℕ → Sheet S
set_location s count topics qos = record s { count = count; topics = topics; qos = qos }

-- `maestro_sheet_add_instrument`: `gru_list_append` puts it at the end.
unfoldable pub add_instrument : {S : Type 0} → Sheet S → Instrument S → Sheet S
add_instrument s i = elim s.instruments [
  | none ↦ s
  | some is ↦ record s { instruments = some (is ++ i ∷ []) }
]

-- The walk of `maestro_sheet_do_play` over the nodes of the list.
unfoldable pub play_first :
    {S : Type 0} → List (Instrument S) → PlayerInfo → S → Note → Note → Outcome (S × Note × Bool)
unfolding can_play
play_first [] info st request response = done (st, response, false)
play_first {S} (i ∷ is) info st request response =
    let played : Outcome (S × Note × Bool) =
      i.play st request response info >>= λ (st, r). done (st, r, true) in
    if can_play i request then played else play_first is info st request response

-- `maestro_sheet_do_play`
unfoldable pub do_play :
    {S : Type 0}
    → Option (List (Instrument S))
    → PlayerInfo
    → S
    → Note
    → Note
    → Outcome (S × Note × Bool)
do_play none info st request response = done (st, response, false)
do_play (some is) info st request response = play_first is info st request response

-- What a run of `maestro_sheet_play` gets from outside: the payload of the response, the memory of
-- the request, the copy of the output, and the copies of strings.
pub record Resources : Type 0 where
  pub payload : Option Payload
  pub request : Memory
  pub alloc : ℕ → Option Bytes
  pub strdup : Bytes → Option Bytes

module _ (m : Msgpack) (r : Resources) where
  -- The end of `maestro_sheet_play`, at `cleanup` and, without the first step, at `ignore`.
  unfoldable pub clean : Note → Note → Content → Outcome Content
  unfolding payload_cleanup
  clean request response out = do
    _ ← payload_cleanup response
    _ ← payload_cleanup request
    done out

  unfoldable pub reply : Note → Note → Content → Outcome Content
  reply request response out = do
    (out, _) ← serialize_note m r.alloc response out
    clean request response out

  -- After the request has been read, or not.
  unfoldable pub answer :
      {S : Type 0}
      → Sheet S
      → PlayerInfo
      → S
      → Note
      → Content
      → State × Status
      → Outcome (S × Content)
  answer sheet info st response out (s, failed e) = do
    out ← reply s.note (set_cmd response Command.protocol_error) out
    done (st, out)
  answer sheet info st response out (s, crashed) = fault
  answer sheet info st response out (s, success) = do
    (st, response, handled) ← do_play sheet.instruments info st s.note response
    out ← if handled then reply s.note response out else clean s.note response out
    done (st, out)

  -- The response as `maestro_sheet_play` sets it up; the flag is the result of the allocation.
  unfoldable pub fresh_response : PlayerInfo → Outcome (Note × Bool)
  unfolding payload_prepare set_type response_set_id response_set_name
  fresh_response info =
      let (response, there) = payload_prepare r.payload (set_type zeroed type_response) in
      if there
      then (do
        response ← response_set_id r.strdup response info.id
        response ← response_set_name r.strdup response info.name
        done (response, true))
      else done (response, false)

  -- `maestro_sheet_play`
  unfoldable pub sheet_play :
      {S : Type 0} → Sheet S → PlayerInfo → S → Content → Content → Outcome (S × Content)
  sheet_play {S} sheet info st request out = do
    (response, there) ← fresh_response info
    (if there
        then answer sheet info st response out (deserialize_note m r.request request)
        else (do out ← reply zeroed (set_cmd response Command.internal_error) out; done (st, out)))
