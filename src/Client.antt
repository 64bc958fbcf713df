-- ===== src/Client.antt =====
-- The commands of the client: maestro_command.c of src/applications/maestro, and the context of its
-- connection, maestro_cmd_ctxt.c. What the messaging layer returns is an argument; what is given to
-- its `send` is kept.
pub mod Steering
pub mod Collecting
pub mod Showing
pub mod Polling
pub mod Rounds
use msg_perf_tool.Base.{
  ℕ, ◌-◌, ◌^◌, ◌==◌, if◌then◌else◌, Bool, true, false, Option, none, some, List, [], ◌∷◌, ◌++◌,
  Bytes, c_string, Outcome, done, ◌>>=◌,
}
use msg_perf_tool.Content.{Content, empty}
use msg_perf_tool.Vmsl.{vmsl_success}
use msg_perf_tool.Maestro.Command
use msg_perf_tool.Maestro.Msgpack.{Msgpack}
use msg_perf_tool.Maestro.Note.{
  Note, Payload, zeroed, type_request, set_type, set_cmd, set_opt, ping_set_ts, payload_prepare,
  payload_cleanup,
}
use msg_perf_tool.Maestro.Serialize.{serialize_note}
use msg_perf_tool.Maestro.Easy.{easy_request}
use msg_perf_tool.Daemon.Options.{
  opt_broker, opt_duration, opt_log_level, opt_parallel_count, opt_message_size, opt_throttle,
  opt_rate, opt_fcl,
}

-- The topics of maestro_topics.h that commands go to.
pub data Topic : Type 0 where
  all_daemons : Topic
  receiver_daemons : Topic
  sender_daemons : Topic
  inspector_daemons : Topic

-- What a command gets from outside: whether the address can be cloned, whether the messaging layer
-- can be initialised, and started, what its `send` returns, memory, and the time.
pub record Link : Type 0 where
  pub cloned : Bool
  pub initialised : Bool
  pub started : Bool
  pub send_stat : ℕ
  pub alloc : ℕ → Option Bytes
  pub strdup : Bytes → Option Bytes
  pub prepared : Option Payload
  pub again : Option Payload
  pub sec : ℕ
  pub usec : ℕ

-- `maestro_cmd_ctxt_t`: whether there is a messaging context, and what has been sent.
pub record Context : Type 0 where
  pub connected : Bool
  pub posts : List (Topic × Content)

-- -1 as an `int`.
abbrev pub minus_one : ℕ
minus_one = 2 ^ 32 - 1

-- `strcmp(a, b) == 0` on texts up to their terminators.
unfoldable pub same : Bytes → Bytes → Bool
same [] [] = true
same [] (b ∷ bs) = false
same (a ∷ xs) [] = false
same (a ∷ xs) (b ∷ bs) = let rest = same xs bs in if a == b then rest else false

abbrev name_broker : Bytes
name_broker = b'b' ∷ b'r' ∷ b'o' ∷ b'k' ∷ b'e' ∷ b'r' ∷ []

abbrev name_duration : Bytes
name_duration = b'd' ∷ b'u' ∷ b'r' ∷ b'a' ∷ b't' ∷ b'i' ∷ b'o' ∷ b'n' ∷ []

abbrev name_log_level : Bytes
name_log_level = b'l' ∷ b'o' ∷ b'g' ∷ b'-' ∷ b'l' ∷ b'e' ∷ b'v' ∷ b'e' ∷ b'l' ∷ []

abbrev name_parallel_count : Bytes
name_parallel_count =
    b'p' ∷ b'a' ∷ b'r' ∷ b'a' ∷ b'l' ∷ b'l' ∷ b'e' ∷ b'l' ∷ b'-' ∷ b'c' ∷ b'o' ∷ b'u' ∷ b'n' ∷ b't'
    ∷ []

abbrev name_message_size : Bytes
name_message_size =
    b'm' ∷ b'e' ∷ b's' ∷ b's' ∷ b'a' ∷ b'g' ∷ b'e' ∷ b'-' ∷ b's' ∷ b'i' ∷ b'z' ∷ b'e' ∷ []

abbrev pub name_throttle : Bytes
name_throttle = b't' ∷ b'h' ∷ b'r' ∷ b'o' ∷ b't' ∷ b't' ∷ b'l' ∷ b'e' ∷ []

abbrev name_rate : Bytes
name_rate = b'r' ∷ b'a' ∷ b't' ∷ b'e' ∷ []

abbrev name_fcl : Bytes
name_fcl = b'f' ∷ b'c' ∷ b'l' ∷ []

-- The option of a name; `none` for any other name.
unfoldable pub option_of : Bytes → Option ℕ
unfolding same
option_of name =
    if same name name_broker
    then some opt_broker
    else if same name name_duration
    then some opt_duration
    else if same name name_log_level
    then some opt_log_level
    else if same name name_parallel_count
    then some opt_parallel_count
    else if same name name_message_size
    then some opt_message_size
    else if same name name_throttle
    then some opt_throttle
    else if same name name_rate
    then some opt_rate
    else if same name name_fcl
    then some opt_fcl
    else none

module _ (m : Msgpack) (l : Link) where
  -- `maestro_cmd_connect`, with `maestro_cmd_ctxt_start`
  unfoldable pub connect : Context → ℕ × Context
  connect c =
      if l.cloned
      then if l.initialised
        then (if l.started then 0 else 1, record c { connected = true })
        else (1, record c { connected = false })
      else (minus_one, c)

  -- `maestro_cmd_ctxt_stop`
  unfoldable pub stop : Context → Context
  stop c = record c { connected = false }

  -- `maestro_cmd_ctxt_send`; a request that is not sent is not kept.
  unfoldable pub send : Topic → Content → Context → Bool × Context
  send topic request c =
      if l.send_stat == vmsl_success
      then (true, record c { posts = c.posts ++ (topic, request) ∷ [] })
      else (false, c)

  -- The end of each command: the request is sent, and the context stopped.
  unfoldable pub transmit : Topic → Content → Context → ℕ × Context
  unfolding stop send
  transmit topic request c =
      let (there, c) = send topic request c in (if there then 0 else 1, stop c)

  -- `maestro_cmd_without_payload`
  unfoldable pub without_payload : Topic → ℕ → Context → Outcome (ℕ × Context)
  unfolding connect transmit easy_request
  without_payload topic cmd c =
      let (code, c) = connect c in
      if code == 0
      then (easy_request m l.alloc empty cmd >>= λ request. done (transmit topic request c))
      else done (code, c)

  -- The end of the functions that make a request with a payload.
  unfoldable pub serialized : Note → Outcome Content
  unfolding serialize_note payload_cleanup
  serialized note = do
    (request, _) ← serialize_note m l.alloc note empty
    _ ← payload_cleanup note
    done request

  -- What follows the names in `maestro_cmd_set_opt_by_name`; `none` is the result -1.
  unfoldable pub named_request : Option ℕ → Note → Bytes → Outcome (Option Content)
  unfolding set_opt serialized
  named_request none note val = done none
  named_request (some o) note val = do
    note ← set_opt l.strdup l.again note o val
    request ← serialized note
    done (some request)

  -- `maestro_cmd_set_opt_by_name`; the payload is prepared here, and again in `set_opt`.
  unfoldable pub set_opt_by_name : Bytes → Bytes → Outcome (Option Content)
  unfolding option_of set_type set_cmd payload_prepare named_request c_string
  set_opt_by_name opt val =
      let (note, there) =
        payload_prepare l.prepared (set_cmd (set_type zeroed type_request) Command.set) in
      if there then named_request (option_of (c_string opt)) note val else done none

  -- What `maestro_cmd_set_opt` does with its request.
  unfoldable pub set_requested : Option Content → Context → ℕ × Context
  unfolding stop transmit
  set_requested none c = (1, stop c)
  set_requested (some request) c = transmit all_daemons request c

  -- `maestro_cmd_set_opt` on the words of a command line, whose first is the command.
  unfoldable pub set_option : List Bytes → Context → Outcome (ℕ × Context)
  unfolding connect set_opt_by_name set_requested
  set_option (_ ∷ opt ∷ val ∷ rest) c =
      let (code, c) = connect c in
      if code == 0
      then (set_opt_by_name opt val >>= λ request. done (set_requested request c))
      else done (code, c)
  set_option _ c = done (1, c)

  -- `maestro_cmd_request_ping`; the flag is the success of the status.
  unfoldable pub request_ping : Outcome (Content × Bool)
  unfolding set_type set_cmd payload_prepare ping_set_ts serialized
  request_ping =
      let (note, there) = payload_prepare l.prepared zeroed in
      if there
      then (do
        note ← ping_set_ts (set_cmd (set_type note type_request) Command.ping) l.sec l.usec
        request ← serialized note
        done (request, true))
      else done (empty, false)

  -- `maestro_cmd_ping`
  unfoldable pub ping : Context → Outcome (ℕ × Context)
  unfolding connect transmit request_ping
  ping c =
      let (code, c) = connect c in
      if code == 0
      then (do
        (request, there) ← request_ping
        done (if there then transmit all_daemons request c else (1, c)))
      else done (code, c)

  -- `maestro_cmd_start_all`: the result is that of the last command.
  unfoldable pub start_all : Context → Outcome (ℕ × Context)
  unfolding without_payload
  start_all c = do
    (_, c) ← without_payload inspector_daemons Command.start_inspector c
    (_, c) ← without_payload receiver_daemons Command.start_receiver c
    without_payload sender_daemons Command.start_sender c

  -- `maestro_cmd_stop_all`
  unfoldable pub stop_all : Context → Outcome (ℕ × Context)
  unfolding without_payload
  stop_all c = do
    (_, c) ← without_payload sender_daemons Command.stop_sender c
    (_, c) ← without_payload receiver_daemons Command.stop_receiver c
    without_payload inspector_daemons Command.stop_inspector c
