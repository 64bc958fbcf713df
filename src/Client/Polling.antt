-- ===== src/Client/Polling.antt =====
-- The commands of maestro_command.c that collect more than once: `maestro_cmd_collect` and
-- `maestro_cmd_stats`. What a turn gets from outside is a function of the turn's number. The counter of
-- the turns is a signed one and is taken to wrap around where it overflows.
use msg_perf_tool.Base.{
  ℕ, zero, suc, ◌==◌, if◌then◌else◌, Option, none, some, List, [], ◌∷◌, ◌++◌, Bytes, Outcome, done,
  ◌>>=◌,
}
use msg_perf_tool.Maestro.Command
use msg_perf_tool.Maestro.Msgpack.{Msgpack}
use msg_perf_tool.Daemon.Text.{atoi}
use msg_perf_tool.Client.{Link, Context, all_daemons, without_payload}
use msg_perf_tool.Client.Collecting.{Inbox, Line, collect}

-- `maestro_cmd_get_string`
unfoldable pub get_string : List Bytes → ℕ → Option Bytes
get_string [] n = none
get_string (s ∷ strings) zero = some s
get_string (s ∷ strings) (suc n) = get_string strings n

module _ (m : Msgpack) (l : ℕ → Link) (b : ℕ → Inbox) (fuel : ℕ → ℕ) where
  -- The loop of `maestro_cmd_collect`, from the `n`-th turn on.
  unfoldable pub collect_times : ℕ → ℕ → Outcome (ℕ × List Line)
  unfolding collect
  collect_times zero n = done (0, [])
  collect_times (suc k) n = do
    (code, lines) ← collect m (b n) (fuel n) 0
    let rest = collect_times k (suc n)
    if code == 0 then (rest >>= λ (code, more). done (code, lines ++ more)) else done (code, lines)

  -- `maestro_cmd_collect`
  unfoldable pub collect_all : List Bytes → Outcome (ℕ × List Line)
  unfolding get_string atoi collect collect_times
  collect_all strings = elim (get_string strings 1) [
    | none ↦ collect m (b 0) (fuel 0) 0
    | some count ↦ elim (get_string strings 2) [
      | none ↦ collect m (b 0) (fuel 0) 0
      | some interval ↦ collect_times (atoi count) 0
    ]
  ]

  -- What a turn of `maestro_cmd_stats` does once its request has been sent, or not, before the `rest`.
  unfoldable pub collected :
      ℕ
      → ℕ
      → Context
      → (Context → Outcome (ℕ × List Line × Context))
      → Outcome (ℕ × List Line × Context)
  unfolding collect
  collected n code c rest =
      if code == 0
      then (do
        (code, lines) ← collect m (b n) (fuel n) 0
        if code == 0
            then (rest c >>= λ (code, more, c). done (code, lines ++ more, c))
            else done (code, lines, c))
      else done (code, [], c)

  -- The loop of `maestro_cmd_stats`
  unfoldable pub stats_times : ℕ → ℕ → Context → Outcome (ℕ × List Line × Context)
  unfolding without_payload collected
  stats_times zero n c = done (0, [], c)
  stats_times (suc k) n c = do
    (code, c) ← without_payload m (l n) all_daemons Command.stats c
    collected n code c (stats_times k (suc n))

  -- `maestro_cmd_stats`
  unfoldable pub stats : List Bytes → Context → Outcome (ℕ × List Line × Context)
  unfolding get_string atoi without_payload stats_times
  stats strings c =
      let once =
        without_payload m (l 0) all_daemons Command.stats c >>= λ (code, c). done (code, [], c) in
      elim (get_string strings 1) [
        | none ↦ once
        | some count ↦ elim (get_string strings 2) [
          | none ↦ once
          | some interval ↦ stats_times (atoi count) 0 c
        ]
      ]
