-- ===== src/Bindings/Paho/Transfer.antt =====
-- Connecting, sending and receiving over the Paho MQTT library: paho-wrapper.c of src/api/paho-c. What
-- the library returns is an argument; what is given to its `MQTTClient_connect` and
-- `MQTTClient_publishMessage` is a result.
use msg_perf_tool.Base.{
  ℕ, zero, suc, ◌+◌, ◌-◌, ◌%◌, ◌^◌, ◌==◌, ltb, if◌then◌else◌, Bool, true, false, ◌&&◌, ◌||◌, Option,
  none, some, List, [], ◌∷◌, ◌++◌, length, take, replicate, Bytes, overlay, Outcome, done, ◌>>=◌,
  checked,
}
use msg_perf_tool.Content.{Content}
use msg_perf_tool.Vmsl.{vmsl_error, vmsl_success, vmsl_no_data}
use msg_perf_tool.Handlers.{Callback, run}
use msg_perf_tool.Daemon.Text.{is_space}
use msg_perf_tool.Bindings.{Options, takes_latency, Variants, Keypair, Room, run_on}
use msg_perf_tool.Bindings.Paho.{
  ConnectOptions, HandlerLists, Publication, Setters, on_connect, on_message,
  set_default_parameters, set_user_parameters,
}

-- `TS_SIZE` and `INT_MAX`
abbrev pub ts_size : ℕ
ts_size = 18

abbrev pub int_max : ℕ
int_max = 2 ^ 31 - 1

-- `MQTTCLIENT_SUCCESS`
abbrev pub client_success : ℕ
client_success = 0

-- What a call of `paho_send` gets from outside: the library's initial message, the text of the time, whether `asprintf` has memory, and
-- the results of `MQTTClient_publishMessage` and of the wait for its completion.
pub record Transport : Type 0 where
  pub initial : Publication
  pub stamp : Bytes
  pub prints : Bool
  pub publish : Publication → ℕ
  pub completed : ℕ

-- `%18s`: the text with spaces before it, up to 18 bytes.
unfoldable pub padded : Bytes → Bytes
padded s = replicate (ts_size - length s) b' ' ++ s

-- `%s` of a buffer: the bytes before its terminator; `none` where it has none, and `asprintf` reads
-- past its end.
unfoldable pub text_of : Bytes → Option Bytes
text_of [] = none
text_of (b ∷ bs) =
    let rest = text_of bs in
    if b == 0 then some [] else elim rest [ none ↦ none | some s ↦ some (b ∷ s) ]

-- `paho_serialize_latency_info`: the buffer and its length.
unfoldable pub serialize_latency_info : Transport → Content → Outcome (Option Bytes × ℕ)
unfolding padded text_of
serialize_latency_info t data_ = do
  region ← checked data_.bytes
  text ← checked (text_of region)
  done (
      if t.prints
      then (some (padded t.stamp ++ text ++ 0 ∷ []), ts_size + data_.size)
      else (none, 0))

-- A message as `MQTTClient_message_initializer` leaves it, with its payload.
abbrev pub message_of : Transport → Option Bytes → ℕ → Publication
message_of t payload n = record t.initial { payload = payload; payload_length = n }

module _ (v : Variants) (a : Setters) (t : Transport) where
  -- The end of `paho_send`: the handlers before and after the library's call.
  unfoldable pub publish :
      List (Option Callback) → List (Option Callback) → Publication → Outcome (ℕ × List Publication)
  unfolding on_message run_on
  publish before_send after_send msg = do
    msg ← run_on (on_message v a) before_send msg
    _ ← run_on (on_message v a) after_send msg
    done (
      if t.publish msg == client_success && t.completed == client_success
          then vmsl_success
          else vmsl_error,
      msg ∷ [],
    )

  -- `paho_send`: its result, and what is published.
  unfoldable pub send :
      Options
      → List (Option Callback)
      → List (Option Callback)
      → Content
      → Outcome (ℕ × List Publication)
  unfolding takes_latency serialize_latency_info publish
  send opt before_send after_send data_ =
      let stamped : Outcome (ℕ × List Publication) = (do
        (payload, n) ← serialize_latency_info t data_
        publish before_send after_send (message_of t payload n)) in
      if takes_latency opt
      then if ltb int_max ((data_.size + ts_size) % 2 ^ 64) then done (vmsl_error, []) else stamped
      else if ltb int_max data_.size
      then done (vmsl_error, [])
      else publish before_send after_send (message_of t data_.bytes data_.size)

-- What `MQTTClient_receive` returns, with the payload of its message; `truncated` is a topic's name
-- that is cut short.
pub data Receipt : Type 0 where
  received : Option Bytes → Receipt
  truncated : Option Bytes → Receipt
  refused : Receipt

-- The result of a receive, the buffer, and the time of the message, where it is set.
pub record Reception : Type 0 where
  pub stat : ℕ
  pub content : Content
  pub created : Option ℕ

-- What `%17s` reads of a word: up to so many bytes; `none` where it reads past the end.
unfoldable pub word : ℕ → Bytes → Option Bytes
word zero bs = some []
word (suc n) [] = none
word (suc n) (b ∷ bs) =
    let rest = word n bs in
    if b == 0 || is_space b then some [] else elim rest [ none ↦ none | some s ↦ some (b ∷ s) ]

-- `sscanf` with `%17s`, which passes over the spaces before the word.
unfoldable pub scan : Bytes → Option Bytes
scan [] = none
scan (b ∷ bs) = let rest = scan bs in if is_space b then rest else word 17 (b ∷ bs)

-- The end of `paho_receive`: the payload is copied, all of it or the capacity less one.
unfoldable pub store : Bytes → Content → Outcome Content
store payload c = do
  region ← checked c.bytes
  region ← checked (
      overlay
        (take
          (if ltb c.capacity (length payload)
            then (c.capacity + 2 ^ 64 - 1) % 2 ^ 64
            else length payload)
          payload)
        region)
  done (record c { bytes = some region; size = length payload })

module _ (read_time : Bytes → ℕ) where
  -- The time stamp of a message, given whether the statistics take the latency.
  unfoldable pub time_of : Bool → Bytes → Outcome (Option ℕ)
  unfolding scan word
  time_of true payload = checked (scan payload) >>= λ header. done (some (read_time header))
  time_of false payload = done none

  -- What `paho_receive` makes of a message.
  unfoldable pub take_message :
      Options → List (Option Callback) → Option Bytes → Content → Outcome Reception
  unfolding takes_latency time_of store run
  take_message opt after_receive message c = do
    _ ← run after_receive
    payload ← checked message
    created ← time_of (takes_latency opt) payload
    c ← store payload c
    done (record { stat = vmsl_success; content = c; created = created })

  -- `paho_receive`; without a message the connection is kept up by `MQTTClient_yield`.
  unfoldable pub receive :
      Options
      → List (Option Callback)
      → List (Option Callback)
      → Receipt
      → Content
      → Outcome Reception
  unfolding take_message run
  receive opt before_receive after_receive r c = run before_receive >>= λ _. elim r [
    | received none ↦
        done (record { stat = vmsl_success + vmsl_no_data; content = c; created = none })
    | received (some payload) ↦ take_message opt after_receive (some payload) c
    | truncated message ↦ take_message opt after_receive message c
    | refused ↦ done (record { stat = vmsl_error; content = c; created = none })
  ]

-- What `paho_init` and `paho_start` get from outside: the library's initial options, whether there is memory for the two contexts and
-- the scheme of the address can be set, and the results of `MQTTClient_create` and of the connection.
pub record Setup : Type 0 where
  pub initial : ConnectOptions
  pub allocated : Bool
  pub context : Bool
  pub scheme : Bool
  pub created : ℕ
  pub connect : ConnectOptions → ℕ

module _ (v : Variants) (a : Setters) (s : Setup) where
  -- `paho_init`, on the entries of the address's query: whether there is a context, and the handlers.
  unfoldable pub init : Options → Room → List Keypair → HandlerLists → Bool × HandlerLists
  unfolding set_default_parameters set_user_parameters
  init opt room query hs =
      if s.allocated && s.context && s.scheme
      then (true, set_user_parameters v a opt room 1 query (set_default_parameters v a room hs))
      else (false, hs)

  -- `paho_start`: its result, and the options of the connection that it opens.
  unfoldable pub start :
      List (Option Callback) → List (Option Callback) → Outcome (ℕ × List ConnectOptions)
  unfolding on_connect run_on run
  start before_connect after_connect =
      let connected : ConnectOptions → Outcome (ℕ × List ConnectOptions) = λ opts.
        if s.connect opts == client_success
        then (run after_connect >>= λ _. done (vmsl_success, opts ∷ []))
        else done (vmsl_error, opts ∷ []) in
      if s.created == client_success
      then (run_on (on_connect v a) before_connect s.initial >>= connected)
      else done (vmsl_error, [])

-- What is given to the library by `paho_subscribe`: one topic, the path of the address, or several, with
-- their quality of service.
pub data Subscription : Type 0 where
  own_path : ℕ → Subscription
  topics : List (Bytes × ℕ) → Subscription

-- `QOS_AT_MOST_ONCE`
abbrev pub qos_at_most_once : ℕ
qos_at_most_once = 1

with_qos : ℕ → List Bytes → List (Bytes × ℕ)
with_qos qos [] = []
with_qos qos (t ∷ ts) = (t, qos) ∷ with_qos qos ts

-- `paho_subscribe`, given the topics with their quality of service and the library's result.
unfoldable pub subscribe : (Subscription → ℕ) → Option (List Bytes × ℕ) → ℕ × Subscription
unfolding with_qos
subscribe library mtopic =
    let s : Subscription = elim mtopic [
      | none ↦ own_path qos_at_most_once
      | some (names, qos) ↦ topics (with_qos qos names)
    ] in
    (if library s == client_success then vmsl_success else vmsl_error, s)
