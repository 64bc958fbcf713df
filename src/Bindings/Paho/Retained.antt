-- ===== src/Bindings/Paho/Retained.antt =====
-- The retained flag of what is published: the handler that a notification adds for the time of its
-- `paho_send`, and the messages after it.
use msg_perf_tool.Base.{
  ℕ, ◌≤◌, ◌<◌, ◌^◌, ◌≡◌, ◌≢◌, refl, ap, sym, ◌∙◌, ◌==◌, eq→==, ne→==, Bool-cases, inl, inr, Bool,
  true, false, some, List, [], ◌∷◌, length, take-length, Bytes, c_string, done, arith,
}
use mathlib.Core.Path.{subst}
use msg_perf_tool.Content.{Content, IsValid}
use msg_perf_tool.Vmsl.{vmsl_success}
use msg_perf_tool.Handlers.{Callback}
use msg_perf_tool.Handlers.Lists.{pointers, put, IsAbsent, IsDistinct, put-IsDistinct}
use msg_perf_tool.Maestro.Msgpack.{Msgpack, IsLawful}
use msg_perf_tool.Maestro.Assign.{Memory}
use msg_perf_tool.Maestro.Note.{Payload}
use msg_perf_tool.Maestro.Message.{Message, IsField, IsSender, wire}
use msg_perf_tool.Maestro.RoundTrip.{exactly}
use msg_perf_tool.Maestro.Sheet.{PlayerInfo}
use msg_perf_tool.Maestro.Sheet.Answers.{sender_of}
use msg_perf_tool.Maestro.Deserialize.{input_of}
use msg_perf_tool.Maestro.Notify.{Post, Told, notify}
use msg_perf_tool.Maestro.Notify.Wire.{HasRoom, retained, unretained, notify-wire}
use msg_perf_tool.Bindings.{Options, Variants, boolean, takes_latency, apply_all}
use msg_perf_tool.Bindings.Paho.{Setters, Publication, set_qos_mode, set_retained, on_message}
use msg_perf_tool.Bindings.Paho.Transfer.{Transport, int_max, message_of, send}
use msg_perf_tool.Bindings.Paho.Sending.{
  LeavesMessages, Takes, on_wire, on_wire-input_of, input_of_lem, apply_all-on_wire, send_lem,
}

==→eq : (x y : ℕ) → (x == y) ≡ true → x ≡ y
==→eq x y h = ground arith

module _ (v : Variants) (a : Setters) (leaves : LeavesMessages a) where
  other-retained :
      (c : Callback) (msg : Publication)
      → c.call ≢ a.retained
      → (on_message v a c msg).retained ≡ msg.retained
  unfolding on_message set_qos_mode
  other-retained c msg h = ground (arith, leaves.retained c msg)

  absent-retained :
      (cs : List Callback) (msg : Publication)
      → IsAbsent a.retained cs
      → (apply_all (on_message v a) cs msg).retained ≡ msg.retained
  unfolding apply_all
  absent-retained [] msg h = refl
  absent-retained (c ∷ cs) msg (h, absent) =
      absent-retained cs (on_message v a c msg) absent ∙ other-retained c msg h

  -- What `paho_set_retained` makes of its payload.
  abbrev flag_of : ℕ → Publication → Bool
  flag_of payload msg = (set_retained v a payload msg).retained

  flag_on :
      (payload : ℕ) (msg : Publication)
      → payload ≢ 0
      → v.kind payload ≡ boolean
      → v.flag payload ≡ true
      → flag_of payload msg ≡ true
  unfolding set_retained
  flag_on payload msg there kind on = ground arith

  flag_off : (payload : ℕ) (msg : Publication) → payload ≡ 0 → flag_of payload msg ≡ false
  unfolding set_retained
  flag_off payload msg e = ground arith

  set-retained :
      (c : Callback) (msg : Publication)
      → c.call ≡ a.retained
      → (on_message v a c msg).retained ≡ flag_of c.payload msg
  unfolding on_message set_qos_mode
  set-retained c msg h =
      let ne = leaves.distinct in
      let apart : c.call ≢ a.qos_mode = λ q. ne (sym h ∙ q) in
      rw (ne→== c.call a.qos_mode apart, eq→== c.call a.retained h) refl

  -- The flag of a message, after its handlers with this one put among them.
  put-retained :
      (new : Callback) (cs : List Callback) (msg : Publication) (flag : Bool)
      → new.call ≡ a.retained
      → ((msg : Publication) → flag_of new.payload msg ≡ flag)
      → IsDistinct cs
      → (apply_all (on_message v a) (put new cs) msg).retained ≡ flag
  unfolding apply_all
  put-retained new [] msg flag e all d = set-retained new msg e ∙ all msg
  put-retained new (c ∷ cs) msg flag e all (absent, d) = elim (Bool-cases (c.call == new.call)) [
    | inl h ↦ rw h (
        absent-retained cs (on_message v a new msg)
          (subst (λ n. IsAbsent n cs) (==→eq c.call new.call h ∙ e) absent)
        ∙ set-retained new msg e
        ∙ all msg)
    | inr h ↦ rw h (put-retained new cs (on_message v a c msg) flag e all d)
  ]

  module _ (t : Transport) (takes : Takes t) (opt : Options) (plain : takes_latency opt ≡ false)
      (m : Msgpack) (law : IsLawful m) (mem : Memory) (p : Post) (blank : Payload)
      (has : HasRoom p blank) where
    -- A message sent with handlers that hold `paho_set_retained` with a payload.
    sent-retained :
        (new : Callback) (cs after : List Callback) (data_ : Content) (flag : Bool)
        → new.call ≡ a.retained
        → ((msg : Publication) → flag_of new.payload msg ≡ flag)
        → IsDistinct cs
        → IsValid data_
        → data_.size ≤ int_max
        → (msg : Publication) × (send v a t opt (pointers (put new cs)) (pointers after) data_
            ≡ done (vmsl_success, msg ∷ []))
          × (on_wire msg ≡ some (input_of m mem data_))
          × (msg.retained ≡ flag)
    sent-retained new cs after data_ flag e all d w small =
        let msg = message_of t data_.bytes data_.size in
        (
          apply_all (on_message v a) (put new cs) msg,
          send_lem v a leaves t takes opt plain (put new cs) after data_ small,
          apply_all-on_wire v a leaves (put new cs) msg ∙ on_wire-input_of t m mem data_ w,
          put-retained new cs msg flag e all d,
        )

    -- Where msgpack is lawful, there is memory for the note, its payload and the handler, the latency is
    -- not measured, the library takes every message and completes its delivery, the binding's two
    -- functions for messages are two, and the handlers that are not the binding's own leave the payload, its length and the flag of a message alone; no
    -- function is called by two of the handlers before a sending, the notification's handler is
    -- `paho_set_retained`, its flag is a variant of the Boolean type that is true and its default is a
    -- null pointer; the command is below 2 ^ 32, the sender's and the message's texts are well formed,
    -- and what is sent is at most INT_MAX bytes long: the notification goes to the broker as one
    -- retained message of the wire format, over the handlers that it leaves for the time of its
    -- sending; and the next valid buffer of at most INT_MAX bytes that is sent, over the handlers that
    -- stay, goes as one message that holds its bytes and is not retained.
    pub notify-retained :
        (info : PlayerInfo) (cmd : ℕ) (message : Bytes) (cs after : List Callback) (later : Content)
        → cmd < 2 ^ 32
        → IsSender (sender_of info)
        → IsField (c_string message)
        → IsDistinct cs
        → p.set_retained ≡ a.retained
        → p.flag ≢ 0
        → v.kind p.flag ≡ boolean
        → v.flag p.flag ≡ true
        → p.default ≡ 0
        → length (wire m (Message.notification cmd (sender_of info) (c_string message))) ≤ int_max
        → IsValid later
        → later.size ≤ int_max
        → (told : Told) × (first : Publication) × (second : Publication) × (notify m p info cmd
              message
              (pointers cs)
            ≡ done told)
          × (send v a t opt told.sending (pointers after) told.content
              ≡ done (vmsl_success, first ∷ []))
          × (on_wire first
              ≡ some (wire m (Message.notification cmd (sender_of info) (c_string message))))
          × (first.retained ≡ true)
          × (send v a t opt told.handlers (pointers after) later ≡ done (vmsl_success, second ∷ []))
          × (on_wire second ≡ some (input_of m mem later))
          × (second.retained ≡ false)
    notify-retained info cmd message cs after later small who ok d here flagged kind on off short w
          l =
        let msg = Message.notification cmd (sender_of info) (c_string message) in
        let on_flag : (x : Publication) → flag_of p.flag x ≡ true =
          λ x. flag_on p.flag x flagged kind on in
        let off_flag : (x : Publication) → flag_of p.default x ≡ false =
          λ x. flag_off p.default x off in
        let exactly-valid : IsValid (exactly (wire m msg)) = record {
          owned = (wire m msg, refl, refl);
          fits = omega arith;
        } in
        let (first, e, b, r) =
          sent-retained (retained p) cs after (exactly (wire m msg)) true here on_flag d
            exactly-valid short in
        let (second, e', b', r') =
          sent-retained (unretained p) (put (retained p) cs) after later false here off_flag
            (put-IsDistinct (retained p) cs d) w l in
        (
          record {
            sending = pointers (put (retained p) cs);
            handlers = pointers (put (unretained p) (put (retained p) cs));
            content = exactly (wire m msg);
          },
          first,
          second,
          notify-wire m law p blank has info cmd message cs small who ok,
          e,
          b ∙ ap some (input_of_lem m mem (exactly (wire m msg)) refl ∙ take-length (wire m msg)),
          r,
          e',
          b',
          r',
        )
