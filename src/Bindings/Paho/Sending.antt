-- ===== src/Bindings/Paho/Sending.antt =====
-- What `paho_send` publishes, and how it reaches another's buffer.
use msg_perf_tool.Base.{
  ℕ, ◌≤◌, ◌≡◌, ◌≢◌, refl, ◌∙◌, ltb, false, Option, none, some, List, [], ◌∷◌, length, take, Bytes,
  done, arith,
}
use mathlib.Core.Path.{ap₂}
use msg_perf_tool.Content.{Content, IsValid}
use msg_perf_tool.Vmsl.{vmsl_success}
use msg_perf_tool.Handlers.{Callback}
use msg_perf_tool.Handlers.Lists.{pointers, run-pointers}
use msg_perf_tool.Maestro.Msgpack.{Msgpack}
use msg_perf_tool.Maestro.Assign.{Memory}
use msg_perf_tool.Maestro.Deserialize.{input_of}
use msg_perf_tool.Bindings.{Options, Variants, takes_latency, apply_all, run_on}
use msg_perf_tool.Bindings.Paho.{Setters, Publication, set_qos_mode, set_retained, on_message}
use msg_perf_tool.Bindings.Paho.Transfer.{
  Transport, client_success, int_max, received, message_of, publish, send, receive,
}
use msg_perf_tool.Bindings.Paho.Storing.{length-take}
use msg_perf_tool.Bindings.Paho.Receiving.{receive-fits}

-- The bytes that the library takes of a message.
abbrev pub on_wire : Publication → Option Bytes
on_wire msg = elim msg.payload [ none ↦ none | some bs ↦ some (take msg.payload_length bs) ]

-- Functions of other programs leave the payload and the flag of a message alone.
pub record LeavesMessages (a : Setters) : Type 0 where
  pub payload : (c : Callback) (msg : Publication) → (a.other c msg).payload ≡ msg.payload
  pub payload_length :
      (c : Callback) (msg : Publication) → (a.other c msg).payload_length ≡ msg.payload_length
  pub retained : (c : Callback) (msg : Publication) → (a.other c msg).retained ≡ msg.retained
  pub distinct : a.retained ≢ a.qos_mode

-- The library takes every message.
pub record Takes (t : Transport) : Type 0 where
  pub publish : (msg : Publication) → t.publish msg ≡ client_success
  pub completed : t.completed ≡ client_success

pub input_of_lem :
    (m : Msgpack) (mem : Memory) (data_ : Content) {region : Bytes}
    → data_.bytes ≡ some region
    → input_of m mem data_ ≡ take data_.size region
unfolding input_of
input_of_lem m mem data_ e = rw e refl

length-input_of :
    (m : Msgpack) (mem : Memory) (data_ : Content)
    → IsValid data_
    → length (input_of m mem data_) ≤ data_.size
length-input_of m mem data_ d =
    let (region, there, _) = d.owned in
    rw (input_of_lem m mem data_ there) (length-take data_.size region)

-- What is published of a valid buffer is what a reader of the buffer reads.
pub on_wire-input_of :
    (t : Transport) (m : Msgpack) (mem : Memory) (data_ : Content)
    → IsValid data_
    → on_wire (message_of t data_.bytes data_.size) ≡ some (input_of m mem data_)
on_wire-input_of t m mem data_ d =
    let (region, there, _) = d.owned in rw (input_of_lem m mem data_ there) (rw there refl)

module _ (v : Variants) (a : Setters) (leaves : LeavesMessages a) where
  on_message-payload :
      (c : Callback) (msg : Publication) → (on_message v a c msg).payload ≡ msg.payload
  unfolding on_message set_qos_mode set_retained
  on_message-payload c msg = ground (arith, leaves.payload c msg)

  on_message-payload_length :
      (c : Callback) (msg : Publication)
      → (on_message v a c msg).payload_length ≡ msg.payload_length
  unfolding on_message set_qos_mode set_retained
  on_message-payload_length c msg = ground (arith, leaves.payload_length c msg)

  on_message-on_wire :
      (c : Callback) (msg : Publication) → on_wire (on_message v a c msg) ≡ on_wire msg
  on_message-on_wire c msg =
      ap₂
        (λ (p : Option Bytes) (n : ℕ). elim p as (λ _. Option Bytes) [
          | none ↦ none
          | some bs ↦ some (take n bs)
        ])
        (on_message-payload c msg) (on_message-payload_length c msg)

  pub apply_all-on_wire :
      (cs : List Callback) (msg : Publication)
      → on_wire (apply_all (on_message v a) cs msg) ≡ on_wire msg
  unfolding apply_all
  apply_all-on_wire [] msg = refl
  apply_all-on_wire (c ∷ cs) msg =
      apply_all-on_wire cs (on_message v a c msg) ∙ on_message-on_wire c msg

  module _ (t : Transport) (takes : Takes t) (opt : Options)
      (plain : takes_latency opt ≡ false) where
    -- Without the latency, a valid buffer goes to the library as the handlers leave it.
    pub send_lem :
        (cs after : List Callback) (data_ : Content)
        → data_.size ≤ int_max
        → send v a t opt (pointers cs) (pointers after) data_
          ≡ done (
            vmsl_success,
            apply_all (on_message v a) cs (message_of t data_.bytes data_.size) ∷ [],
          )
    unfolding send publish run_on
    send_lem cs after data_ small =
        let e : ltb int_max data_.size ≡ false = ground arith in
        rw
          (
            plain,
            e,
            run-pointers cs,
            run-pointers after,
            takes.publish (apply_all (on_message v a) cs (message_of t data_.bytes data_.size)),
            takes.completed,
          )
          refl

    -- Where neither side measures the latency, the library takes every message and completes its
    -- delivery, the binding's two functions for messages are two, and the handlers that are not the binding's own leave the payload, its length and the
    -- flag of a message alone: `paho_send` of a valid buffer of at most INT_MAX bytes succeeds over any
    -- list of handlers and publishes one message; when it comes to a `paho_receive` over any handlers,
    -- whose buffer is valid and whose capacity is at least the size of the sender's, that buffer is
    -- valid and holds the same bytes then.
    pub send-receive :
        (m : Msgpack) (mem : Memory) (read_time : Bytes → ℕ) (opt' : Options)
        (cs after before' after' : List Callback) (data_ c : Content)
        → takes_latency opt' ≡ false
        → IsValid data_
        → data_.size ≤ int_max
        → IsValid c
        → data_.size ≤ c.capacity
        → (msg : Publication) × (payload : Bytes) × (c' : Content) × (send v a t opt
              (pointers cs)
              (pointers after)
              data_
            ≡ done (vmsl_success, msg ∷ []))
          × (on_wire msg ≡ some payload)
          × (receive read_time opt' (pointers before') (pointers after') (received (some payload)) c
              ≡ done (record { stat = vmsl_success; content = c'; created = none }))
          × IsValid c'
          × (input_of m mem c' ≡ input_of m mem data_)
    send-receive m mem read_time opt' cs after before' after' data_ c plain' d small w fits =
        let (region, there, l) = d.owned in
        let payload = input_of m mem data_ in
        let (c', e, _, w', holds) =
          receive-fits m mem read_time opt' before' after' plain' payload c w
            (omega (arith, length-input_of m mem data_ d)) in
        (
          apply_all (on_message v a) cs (message_of t data_.bytes data_.size),
          payload,
          c',
          send_lem cs after data_ small,
          apply_all-on_wire cs (message_of t data_.bytes data_.size)
              ∙ on_wire-input_of t m mem data_ d,
          e,
          w',
          holds,
        )
