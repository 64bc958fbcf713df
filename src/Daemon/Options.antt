-- ===== src/Daemon/Options.antt =====
-- The settings of a test, worker_options.h, and the set request that changes them:
-- `commond_handle_set` of src/applications/mpt-daemons/common/daemon_common.c.
use msg_perf_tool.Base.{
  ℕ, ◌%◌, ◌^◌, ◌==◌, if◌then◌else◌, Bool, true, Option, none, some, [], ◌∷◌, Bytes, c_string,
  Outcome, done, ◌>>=◌, checked,
}
use msg_perf_tool.Maestro.Command
use msg_perf_tool.Maestro.Note.{Note, Payload, payload_of, set_cmd, type_request}
use msg_perf_tool.Daemon.Text.{atoi, atol, extend_sign}

-- `set_opts_t`
abbrev pub opt_broker : ℕ
opt_broker = 0

abbrev pub opt_duration : ℕ
opt_duration = 1

abbrev pub opt_log_level : ℕ
opt_log_level = 2

abbrev pub opt_parallel_count : ℕ
opt_parallel_count = 3

abbrev pub opt_message_size : ℕ
opt_message_size = 4

abbrev pub opt_throttle : ℕ
opt_throttle = 5

abbrev pub opt_rate : ℕ
opt_rate = 6

abbrev pub opt_fcl : ℕ
opt_fcl = 7

-- `duration_type` with the member of the union that it names.
pub data Duration : Type 0 where
  message_count : ℕ → Duration
  test_time : ℕ → Duration

abbrev pub condition_latency : ℕ
condition_latency = 2

-- `worker_options_t`. Values of the gru library (an address, a duration, a level) are numbers.
pub record WorkerOptions : Type 0 where
  pub uri : ℕ
  pub duration : Duration
  pub condition_type : ℕ
  pub latency : ℕ
  pub log_level : ℕ
  pub parallel_count : ℕ
  pub message_size : ℕ
  pub variable_size : Bool
  pub throttle : ℕ
  pub rate : ℕ

-- The gru library, on a pointer to a text that may be null, and what a note that is no request holds
-- where a request has its members: the views of the payload lie over one another.
pub record Gru : Type 0 where
  pub uri_parse : Option Bytes → ℕ
  pub duration_parse : Option Bytes → Option ℕ
  pub get_level : Option Bytes → ℕ
  pub overlaid_set : Payload → ℕ × Option Bytes
  pub overlaid_ping : Payload → ℕ × ℕ

module _ (g : Gru) where
  -- `request->payload->request.set`
  unfoldable pub set_view : Note → Outcome (ℕ × Option Bytes)
  unfolding payload_of
  set_view n = payload_of n >>= λ p.
      done (if n.type == type_request then (p.opt, p.value) else g.overlaid_set p)

  -- The size in a text: `~` stands before the size of messages of variable size.
  unfoldable pub set_size : Bytes → WorkerOptions → WorkerOptions
  unfolding atoi
  set_size [] o = record o { message_size = extend_sign (atoi []) }
  set_size (c ∷ cs) o =
      if c == b'~'
      then record o { message_size = extend_sign (atoi cs); variable_size = true }
      else record o { message_size = extend_sign (atoi (c ∷ cs)) }

  -- The options that are numbers; the text is that of the value.
  unfoldable pub set_number : ℕ → Bytes → WorkerOptions → Option WorkerOptions
  unfolding set_size atoi
  set_number opt s o =
      if opt == opt_parallel_count
      then some (record o { parallel_count = atoi s % 2 ^ 16 })
      else if opt == opt_message_size
      then some (set_size s o)
      else if opt == opt_throttle
      then some (record o { throttle = atoi s })
      else if opt == opt_rate
      then some (record o { rate = atoi s })
      else if opt == opt_fcl
      then some (record o { condition_type = condition_latency; latency = extend_sign (atoi s) })
      else none

  -- The duration: a text that is no time is a number of messages.
  unfoldable pub set_duration : Option Bytes → WorkerOptions → Outcome WorkerOptions
  unfolding atol c_string
  set_duration value o = elim (g.duration_parse value) [
    | some end ↦ done (record o { duration = test_time end })
    | none ↦ (do
      s ← checked value
      done (record o { duration = message_count (atol (c_string s)) }))
  ]

  abbrev pub is_number : ℕ → Bool
  is_number opt =
      if opt == opt_parallel_count
      then true
      else if opt == opt_message_size
      then true
      else if opt == opt_throttle
      then true
      else if opt == opt_rate
      then true
      else opt == opt_fcl

  -- What `commond_handle_set` makes of the options; `none` for an option that there is not.
  unfoldable pub set_option : ℕ → Option Bytes → WorkerOptions → Outcome (Option WorkerOptions)
  unfolding set_number set_duration c_string
  set_option opt value o =
      if opt == opt_broker
      then done (some (record o { uri = g.uri_parse value }))
      else if opt == opt_duration
      then (set_duration value o >>= λ o. done (some o))
      else if opt == opt_log_level
      then done (some (record o { log_level = g.get_level value }))
      else if is_number opt
      then (checked value >>= λ s. done (set_number opt (c_string s) o))
      else done none

  -- `commond_handle_set`
  unfoldable pub handle_set : Note → Note → WorkerOptions → Outcome (WorkerOptions × Note)
  unfolding set_view set_option set_cmd
  handle_set request response o = do
    (opt, value) ← set_view request
    changed ← set_option opt value o
    elim changed [
      | none ↦ done (o, set_cmd response Command.protocol_error)
      | some o' ↦ done (o', set_cmd response Command.ok)
    ]
