-- ===== src/Maestro/Player/Lifecycle.antt =====
-- The start and the stop of the player: `maestro_player_start`, `maestro_player_connect`,
-- `maestro_player_stop` and `maestro_player_destroy` of maestro_player.c, on the static variable that
-- holds the player, and what the daemons do around them.
use msg_perf_tool.Base.{
  ℕ, if◌then◌else◌, Bool, true, false, not, ◌&&◌, Option, none, some, List, [], Bytes, Outcome,
  done, fault, ◌>>=◌,
}
use msg_perf_tool.Vmsl.{Binding, stat_error, assign_by_url}
use msg_perf_tool.Handlers.{Callback, add}

-- `maestro_player_t`: the table of the messaging layer's functions, if it is filled, the handlers before
-- a connection, if they are made, whether there is a context, and whether there is a thread.
pub record Player : Type 0 where
  pub binding : Option Binding
  pub before_connect : Option (List (Option Callback))
  pub context : Bool
  pub thread : Bool

-- What a start gets from outside: memory, the address of the host with its scheme, the protocols of the build,
-- an identifier, memory for the lists of handlers, memory for the handler of a disconnection and whether
-- the list takes it, what the functions of the binding do with the handlers, and whether the thread can
-- be created. `init` is `none` where it makes no context.
pub record Starting : Type 0 where
  pub memory : Bool
  pub cloned : Bool
  pub scheme : Option Bytes
  pub supported : Binding → Bool
  pub identifier : Bool
  pub lists : Bool
  pub callback : Option Callback
  pub appended : Bool
  pub init : Binding → List (Option Callback) → Option (List (Option Callback))
  pub begin : Binding → List (Option Callback) → Outcome ℕ
  pub created : Bool

-- `maestro_player_new`; `gru_alloc` returns memory that is zero.
abbrev pub fresh : Player
fresh = record { binding = none; before_connect = none; context = false; thread = false }

-- The handler that `maestro_player_connect` adds.
module _ (will : Callback) where
  -- The handlers before a connection: a new list with the handler of a disconnection.
  unfoldable pub with_will : Starting → List (Option Callback)
  unfolding add
  with_will e = (add e.callback e.appended will.call will.payload []).0

  -- `maestro_player_connect`; the handler is added through the pointer to its list, which is null where
  -- `vmslh_new` has had no memory, and the result of the subscription is not looked at.
  unfoldable pub connect : Starting → Binding → Player → Outcome (Bool × Player)
  unfolding stat_error
  connect e b p =
      let connected : Outcome (Bool × Player) = elim (e.init b (with_will e)) [
        | none ↦ done (false, record p { before_connect = some (with_will e) })
        | some hs ↦ (do
          stat ← e.begin b hs
          done (not (stat_error stat), record p { before_connect = some hs; context = true }))
      ] in
      if e.lists then connected else fault

  -- `maestro_player_start`
  unfoldable pub start : Starting → Option Player → Outcome (Bool × Option Player)
  unfolding connect assign_by_url
  start e (some p) = done (false, some p)
  start e none =
      let joined : Binding → Outcome (Bool × Option Player) = λ b. (do
        (connected, p) ← connect e b (record fresh { binding = some b })
        done (connected && e.created, some (record p { thread = connected && e.created }))) in
      let opened : Outcome (Bool × Option Player) = elim (assign_by_url e.supported e.scheme) [
        | none ↦ done (false, some fresh)
        | some b ↦
            if e.identifier
            then joined b
            else done (false, some (record fresh { binding = some b }))
      ] in
      if e.memory then if e.cloned then opened else done (false, some fresh) else fault

-- `maestro_player_destroy`: the functions of a table that is not filled are null, and those of a binding
-- read the context.
unfoldable pub destroy : Player → Outcome (Option Player)
destroy p = elim p.binding [ none ↦ fault | some b ↦ if p.context then done none else fault ]

-- `maestro_player_stop`, after the thread has ended.
unfoldable pub stop : Option Player → Outcome (Bool × Option Player)
unfolding destroy
stop none = done (true, none)
stop (some p) = destroy p >>= λ player. done (true, player)

-- The beginning of a daemon's work: whether its player has been started.
unfoldable pub open_player : Callback → Starting → Outcome (Bool × Option Player)
open_player will e = do
  (ok, player) ← start will e none
  let stopped : Outcome (Bool × Option Player) = stop player >>= λ (_, player). done (false, player)
  if ok then done (true, player) else stopped

-- Whether the context of the connection is made.
abbrev pub has_context : Player → Bool
has_context p = elim p.binding [ none ↦ false | some b ↦ p.context ]
