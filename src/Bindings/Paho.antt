-- ===== src/Bindings/Paho.antt =====
-- The binding to the Paho MQTT library, src/api/paho-c: the handlers of paho-handlers.c, which set up a
-- connection and a message. `Transfer` has paho-wrapper.c.
pub mod Transfer
pub mod Storing
pub mod Receiving
pub mod Sending
pub mod Retained
pub mod Latency
pub mod Tables
use msg_perf_tool.Base.{
  ℕ, zero, suc, ◌+◌, ◌-◌, ◌%◌, ◌^◌, ◌==◌, ltb, leb, if◌then◌else◌, Bool, true, false, ◌&&◌, ◌||◌,
  Option, none, some, List, [], ◌∷◌, ◌++◌, length, take, replicate, Bytes, c_string, overlay,
  Outcome, done, fault, ◌>>=◌, checked,
}
use msg_perf_tool.Content.{Content}
use msg_perf_tool.Vmsl.{vmsl_error, vmsl_success, vmsl_no_data}
use msg_perf_tool.Handlers
use msg_perf_tool.Handlers.{Callback, run}
use msg_perf_tool.Daemon.Text.{is_space}
use msg_perf_tool.Bindings.{
  Options, takes_latency, Kind, integer, boolean, Variants, Keypair, Room, add_at, run_on,
}

-- The members of `MQTTClient_connectOptions` that the handlers set.
pub record ConnectOptions : Type 0 where
  pub keep_alive : ℕ
  pub clean_session : Bool

-- `MQTTClient_message`: its payload with its length, the quality of service, and the retained flag.
pub record Publication : Type 0 where
  pub payload : Option Bytes
  pub payload_length : ℕ
  pub qos : ℕ
  pub retained : Bool

-- The addresses of the four functions, and what other functions do that a list may hold.
pub record Setters : Type 0 where
  pub keep_alive : ℕ
  pub clean_session : ℕ
  pub qos_mode : ℕ
  pub retained : ℕ
  pub other_options : Callback → ConnectOptions → ConnectOptions
  pub other : Callback → Publication → Publication

-- The lists of handlers that this binding adds to.
pub record HandlerLists : Type 0 where
  pub before_connect : List (Option Callback)
  pub before_send : List (Option Callback)

abbrev pub at_most_once : Bytes
at_most_once =
    b'a' ∷ b't' ∷ b'-' ∷ b'm' ∷ b'o' ∷ b's' ∷ b't' ∷ b'-' ∷ b'o' ∷ b'n' ∷ b'c' ∷ b'e' ∷ []

abbrev pub at_least_once : Bytes
at_least_once =
    b'a' ∷ b't' ∷ b'-' ∷ b'l' ∷ b'e' ∷ b'a' ∷ b's' ∷ b't' ∷ b'-' ∷ b'o' ∷ b'n' ∷ b'c' ∷ b'e' ∷ []

abbrev pub exactly_once : Bytes
exactly_once =
    b'e' ∷ b'x' ∷ b'a' ∷ b'c' ∷ b't' ∷ b'l' ∷ b'y' ∷ b'-' ∷ b'o' ∷ b'n' ∷ b'c' ∷ b'e' ∷ []

abbrev pub name_keep_alive : Bytes
name_keep_alive = b'k' ∷ b'e' ∷ b'e' ∷ b'p' ∷ b'-' ∷ b'a' ∷ b'l' ∷ b'i' ∷ b'v' ∷ b'e' ∷ []

abbrev pub name_clean_session : Bytes
name_clean_session =
    b'c' ∷ b'l' ∷ b'e' ∷ b'a' ∷ b'n' ∷ b'-' ∷ b's' ∷ b'e' ∷ b's' ∷ b's' ∷ b'i' ∷ b'o' ∷ b'n' ∷ []

abbrev pub name_qos_mode : Bytes
name_qos_mode = b'q' ∷ b'o' ∷ b's' ∷ b'-' ∷ b'm' ∷ b'o' ∷ b'd' ∷ b'e' ∷ []

abbrev pub name_retained : Bytes
name_retained = b'r' ∷ b'e' ∷ b't' ∷ b'a' ∷ b'i' ∷ b'n' ∷ b'e' ∷ b'd' ∷ []

abbrev pub is_integer : Kind → Bool
is_integer integer = true
is_integer _ = false

abbrev pub is_boolean : Kind → Bool
is_boolean boolean = true
is_boolean _ = false

module _ (v : Variants) (a : Setters) where
  -- `paho_set_keep_alive_interval`
  unfoldable pub set_keep_alive_interval : ℕ → ConnectOptions → ConnectOptions
  set_keep_alive_interval payload opts =
      if payload == 0
      then record opts { keep_alive = 20 }
      else if is_integer (v.kind payload)
      then record opts { keep_alive = 20 }
      else record opts { keep_alive = v.inumber payload % 2 ^ 32 }

  -- `paho_set_clean_session`
  unfoldable pub set_clean_session : ℕ → ConnectOptions → ConnectOptions
  set_clean_session payload opts =
      if payload == 0
      then record opts { clean_session = true }
      else record opts { clean_session = is_boolean (v.kind payload) && v.flag payload }

  -- `paho_set_qos_mode`
  unfoldable pub set_qos_mode : ℕ → Publication → Publication
  set_qos_mode payload msg =
      if payload == 0 || v.equals payload at_most_once
      then record msg { qos = 0 }
      else if v.equals payload at_least_once
      then record msg { qos = 1 }
      else if v.equals payload exactly_once
      then record msg { qos = 2 }
      else msg

  -- `paho_set_retained`
  unfoldable pub set_retained : ℕ → Publication → Publication
  set_retained payload msg =
      if payload == 0
      then record msg { retained = false }
      else record msg { retained = is_boolean (v.kind payload) && v.flag payload }

  -- A handler of a connection, by its address.
  unfoldable pub on_connect : Callback → ConnectOptions → ConnectOptions
  unfolding set_keep_alive_interval set_clean_session
  on_connect c opts =
      if c.call == a.keep_alive
      then set_keep_alive_interval c.payload opts
      else if c.call == a.clean_session
      then set_clean_session c.payload opts
      else a.other_options c opts

  -- A handler of a message, by its address.
  unfoldable pub on_message : Callback → Publication → Publication
  unfolding set_qos_mode set_retained
  on_message c msg =
      if c.call == a.qos_mode
      then set_qos_mode c.payload msg
      else if c.call == a.retained
      then set_retained c.payload msg
      else a.other c msg

  -- `paho_set_default_parameters`; the defaults are null pointers.
  unfoldable pub set_default_parameters : Room → HandlerLists → HandlerLists
  unfolding add_at
  set_default_parameters room hs = record {
    before_connect =
        add_at room 0 a.clean_session 0 (add_at room 0 a.keep_alive 0 hs.before_connect);
    before_send = add_at room 0 a.retained 0 (add_at room 0 a.qos_mode 0 hs.before_send);
  }

  -- `paho_set_parameter_by_name` for the `n`-th entry.
  unfoldable pub set_parameter_by_name : Options → Room → ℕ → Keypair → HandlerLists → HandlerLists
  unfolding add_at
  set_parameter_by_name opt room n kp hs =
      let add_connect = λ (name : Bytes) (call : ℕ) (l : List (Option Callback)).
        if kp.key_equals name then add_at room n call kp.pair l else l in
      let l =
        add_connect name_clean_session a.clean_session
          (add_connect name_keep_alive a.keep_alive hs.before_connect) in
      let qos =
        if opt.sends then add_connect name_qos_mode a.qos_mode hs.before_send else hs.before_send in
      record { before_connect = l; before_send = add_connect name_retained a.retained qos }

  -- `paho_set_user_parameters` on the entries of the query, from the `n`-th on.
  unfoldable pub set_user_parameters :
      Options → Room → ℕ → List Keypair → HandlerLists → HandlerLists
  unfolding set_parameter_by_name
  set_user_parameters opt room n [] hs = hs
  set_user_parameters opt room n (kp ∷ kps) hs =
      set_user_parameters opt room (suc n) kps (set_parameter_by_name opt room n kp hs)
