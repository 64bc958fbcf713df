-- ===== src/Maestro/Player.antt =====
-- The thread of the player: `maestro_player_handle_note` and `maestro_player_run` of
-- maestro_player.c. The messaging layer is outside: what its `receive` returns is an argument, and
-- what is given to its `send` is a result. `Lifecycle` has the start and the stop.
pub mod Replay
pub mod Lifecycle
pub mod Stopping
use msg_perf_tool.Base.{
  ℕ, zero, suc, ◌==◌, if◌then◌else◌, Bool, true, false, ◌&&◌, Option, none, some, List, [], ◌∷◌,
  ◌++◌, Bytes, Outcome, done, unended, ◌>>=◌,
}
use msg_perf_tool.Content
use msg_perf_tool.Content.{Content, empty}
use msg_perf_tool.Vmsl.{stat_error, has_data}
use msg_perf_tool.Maestro.Msgpack.{Msgpack}
use msg_perf_tool.Maestro.Note.{Payload, zeroed, type_response}
use msg_perf_tool.Maestro.Assign.{State, Status, success, Memory, and_then}
use msg_perf_tool.Maestro.Deserialize.{deserialize_note, input_of, header, prepare, response_header}
use msg_perf_tool.Maestro.Sheet.{Sheet, PlayerInfo, Resources, sheet_play}

abbrev is_success : State × Status → Bool
is_success (s, success) = true
is_success (s, _) = false

-- Whether reading a note leaves a status of success alone. The result of a response's header may be
-- overwritten by that of its body, but what has failed in it stays in the status.
unfoldable pub reads_header : Msgpack → Memory → Content → Bool
reads_header m mem request =
    let (s, st) = header m mem (record { rest = input_of m mem request; note = zeroed }) in
    if s.note.type == type_response
    then is_success (and_then (prepare m mem s) (response_header m mem))
    else true

-- Whether `maestro_sheet_play` leaves a status of success alone: it sets the status where the payload
-- of the response cannot be prepared and where the request cannot be read, or not all of it.
unfoldable pub leaves_status : Msgpack → Resources → Content → Bool
unfolding reads_header
leaves_status m r request = elim r.payload [
  | none ↦ false
  | some p ↦ is_success (deserialize_note m r.request request) && reads_header m r.request request
]

-- What `mmsl.send` is given: nothing for a null buffer.
unfoldable pub sent : Content → List Content
sent response = elim response.bytes [ none ↦ [] | some bs ↦ response ∷ [] ]

-- What a call of `receive` returns: its result, whether it left the status a success, and the buffer.
pub record Delivery : Type 0 where
  pub stat : ℕ
  pub clear : Bool
  pub content : Content

-- What a round of the loop gets from outside: whether the player has been cancelled, what `receive`
-- makes of the buffer, and memory.
pub record Round : Type 0 where
  pub cancelled : Bool
  pub receive : Content → Delivery
  pub resources : Resources

module _ (m : Msgpack) {S : Type 0} (sheet : Sheet S) (info : PlayerInfo) where
  -- `maestro_player_handle_note`
  unfoldable pub handle_note : Resources → Bool → S → Content → Outcome (S × List Content)
  unfolding leaves_status sent
  handle_note r clear st request = do
    (st, response) ← sheet_play m r sheet info st request empty
    done (st, if leaves_status m r request && clear then sent response else [])

  -- What a round makes of its delivery.
  unfoldable pub handle : Resources → Delivery → S → Outcome (S × List Content)
  unfolding handle_note has_data
  handle r d st = if has_data d.stat then handle_note r d.clear st d.content else done (st, [])

  -- The loop of `maestro_player_run`, from round `n` on.
  unfoldable pub run : (ℕ → Round) → ℕ → ℕ → S → Content → Outcome (S × List Content)
  unfolding handle stat_error
  run round zero n st buffer = unended
  run round (suc k) n st buffer =
      let next : Outcome (S × List Content) = (do
        buffer ← Content.reset buffer
        let d = (round n).receive buffer
        let later : Outcome (S × List Content) = (do
          (st, out) ← handle (round n).resources d st
          (st, outs) ← run round k (suc n) st d.content
          done (st, out ++ outs))
        if stat_error d.stat then done (st, []) else later) in
      if (round n).cancelled then done (st, []) else next

  -- `maestro_player_run`; `buffer` is what `msg_content_data_new` returns.
  unfoldable pub player_run : (ℕ → Round) → ℕ → S → Option Content → Outcome (S × List Content)
  unfolding run
  player_run round k st none = done (st, [])
  player_run round k st (some buffer) = run round k 0 st buffer
